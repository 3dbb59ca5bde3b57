-- ===== src/Endianness/Tests.antt =====
-- src/Endianness.h on a host that puts the least significant byte first.
use pipert.Base.{◌≡◌, refl, arith}
use pipert.Endianness.{convert_host_to_network, convert_network_to_host}
use pipert.Endianness.RoundTrip.{network-host}
use pipert.Endianness.Host.{load, store, store-load}

converted : convert_host_to_network load 4 1 ≡ 16777216
unfolding convert_host_to_network
converted = refl

network-host_example :
    convert_network_to_host (store 4) 4 (convert_host_to_network load 4 305419896) ≡ 305419896
network-host_example =
    network-host load (store 4) 4 305419896 (omega arith) (store-load 4) (omega arith)
