-- ===== src/Profiler/Tests.antt =====
-- A profiler on the system of UdpConnection/Wire.antt.
use pipert.Base.{ℕ, ◌%◌, ◌<◌, ◌≡◌, ◌≢◌, refl, List, [], ◌∷◌, ◌++◌, none, some, inl, arith}
use pipert.LogAggregate.Example.{shifted}
use pipert.ProfileData.{ProfileData}
use pipert.ProfileData.Example.{little_endian, names}
use pipert.ProfilerImpl.Example.{two_channels, data_at, times, once, all-Idle}
use pipert.ProfilerImpl.Sending.{Sends}
use pipert.UdpConnection.{UdpConnection}
use pipert.UdpConnection.Wire.{Wire, empty_wire, wire_system, there, connection_to}
use pipert.Profiler.Example.{no_files}
use pipert.Profiler.{Profiler, destination_udp_scheme, atoi, profiler, gather_n_send}
use pipert.Profiler.Destination.{NoColon, made_impl, profiler-udp}
use pipert.Profiler.Delivering.{sent_all, gather_n_send-udp}

-- "10.0.0.7" and "8080"
abbrev address : List ℕ
address = 49 ∷ 48 ∷ 46 ∷ 48 ∷ 46 ∷ 48 ∷ 46 ∷ 55 ∷ []

abbrev port : List ℕ
port = 56 ∷ 48 ∷ 56 ∷ 48 ∷ []

port_number : atoi port ≡ 8080
unfolding atoi
port_number = refl

no_colon : NoColon address
no_colon =
    let c : (n : ℕ) → n < 58 → n ≢ 58 = λ n h e. omega (arith, h, e) in
    (
      c 49 (omega arith),
      (
        c 48 (omega arith),
        (
          c 46 (omega arith),
          (
            c 48 (omega arith),
            (
              c 46 (omega arith),
              (c 48 (omega arith), (c 46 (omega arith), (c 55 (omega arith), tt))),
            ),
          ),
        ),
      ),
    )

profiler-udp_example :
    (p : Profiler) × (w' : Wire) × (c : UdpConnection) × (profiler wire_system no_files
        (destination_udp_scheme ++ address ++ 58 ∷ port)
        50
        0
        empty_wire
      ≡ some (p, w'))
    × (p ≡ record {
      impl = some (made_impl 508 50);
      destination_file = none;
      udp_connection = some c;
    })
    × (c.socket_filedesc ≡ some 3)
    × (c.max_packet_size ≡ 508)
    × (c.remote_address.sin_addr ≡ 77)
    × (c.remote_address.sin_port ≡ atoi port % 65536)
profiler-udp_example =
    profiler-udp wire_system no_files address port 50 0 3 77 empty_wire no_colon (omega arith)
      (omega arith) (λ e. omega (arith, port_number, e)) refl refl (inl refl)

abbrev to_there : Profiler
to_there = record {
  impl = some two_channels;
  destination_file = none;
  udp_connection = some (connection_to there);
}

gather_n_send-udp_example :
    (buffers : List (List ℕ)) × (store' : (ℕ → ProfileData ℕ)) × (gather_n_send shifted
        little_endian names wire_system no_files times to_there data_at empty_wire
      ≡ some (to_there, store', sent_all wire_system 3 (connection_to there) buffers empty_wire))
    × Sends shifted little_endian names times (7 ∷ 8 ∷ []) data_at buffers
gather_n_send-udp_example =
    gather_n_send-udp wire_system no_files shifted little_endian names times to_there two_channels
      (connection_to there) 3 data_at empty_wire refl refl refl (omega arith) refl (omega arith)
      once all-Idle
