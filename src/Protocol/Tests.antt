-- ===== src/Protocol/Tests.antt =====
-- Handshakes on the system of UdpConnection/Wire.antt.
use pipert.Base.{◌≡◌, refl, false}
use pipert.UdpConnection.{UdpConnection}
use pipert.UdpConnection.Wire.{Wire}
use pipert.Protocol.{handshake_error_msg, same_properties, strcmp_zero, handshake_error_msg}
use pipert.Protocol.Example.{on_64_bits, on_32_bits, nine_zeros}

different : same_properties on_64_bits on_32_bits ≡ false
unfolding same_properties
different = refl

never_error : strcmp_zero nine_zeros handshake_error_msg ≡ false
unfolding strcmp_zero
never_error = refl
