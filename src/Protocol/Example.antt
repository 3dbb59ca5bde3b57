-- ===== src/Protocol/Example.antt =====
-- Properties of two computers, as messages on the system of UdpConnection/Wire.antt, for tests.
use pipert.Base.{ℕ, ◌≡◌, refl, false, List, [], ◌∷◌, some, nth}
use pipert.UdpConnection.{send, receive}
use pipert.UdpConnection.Wire.{Wire, empty_wire, wire_system, here, there, connection_to}
use pipert.Protocol.{
  CompatibilityChecker, Layout, handshake_error_msg, receiver_side_handshake, answer_offer,
  received, written, same_properties,
}

abbrev pub decode : List ℕ → CompatibilityChecker
decode bytes = record {
  sizeof_int = nth bytes 0;
  sizeof_intptr = nth bytes 1;
  sizeof_bool = nth bytes 2;
  sizeof_t = nth bytes 3;
  alignof_int = nth bytes 4;
  alignof_intptr = nth bytes 5;
  alignof_bool = nth bytes 6;
  alignof_t = nth bytes 7;
}

abbrev pub encode : CompatibilityChecker → List ℕ
encode p =
    p.sizeof_int ∷ p.sizeof_intptr ∷ p.sizeof_bool ∷ p.sizeof_t ∷ p.alignof_int ∷ p.alignof_intptr
    ∷ p.alignof_bool ∷ p.alignof_t ∷ []

pub decode-encode : (p : CompatibilityChecker) → decode (encode p) ≡ p
unfolding nth
decode-encode p = refl

-- Sizes of one byte each.
abbrev pub small_layout : Layout
small_layout = record {
  size = 8;
  image = encode;
  of_image = decode;
  length-image = λ p. refl;
  of_image-image = decode-encode;
}

abbrev pub on_64_bits : CompatibilityChecker
on_64_bits = record {
  sizeof_int = 4;
  sizeof_intptr = 8;
  sizeof_bool = 1;
  sizeof_t = 16;
  alignof_int = 4;
  alignof_intptr = 8;
  alignof_bool = 1;
  alignof_t = 8;
}

abbrev pub on_32_bits : CompatibilityChecker
on_32_bits = record on_64_bits { sizeof_intptr = 4; alignof_intptr = 4 }

abbrev pub nine_zeros : List ℕ
nine_zeros = 0 ∷ 0 ∷ 0 ∷ 0 ∷ 0 ∷ 0 ∷ 0 ∷ 0 ∷ 0 ∷ []

abbrev pub eight_zeros : List ℕ
eight_zeros = 0 ∷ 0 ∷ 0 ∷ 0 ∷ 0 ∷ 0 ∷ 0 ∷ 0 ∷ []

abbrev pub offered : Wire
offered = record empty_wire { waiting = record { bytes = encode on_32_bits; address = there } ∷ [] }

abbrev pub answered : Wire
answered = record empty_wire {
  waiting = record { bytes = handshake_error_msg; address = here } ∷ [];
}

-- What the receiver leaves when it refuses the offer.
abbrev pub refused : Wire
refused = record empty_wire { sent = record { bytes = handshake_error_msg; address = there } ∷ [] }

pub refusal :
    receiver_side_handshake wire_system small_layout
      (connection_to here)
      on_64_bits
      eight_zeros
      offered
    ≡ some (false, connection_to there, refused)
unfolding receiver_side_handshake answer_offer received written same_properties receive send nth
refusal = refl
