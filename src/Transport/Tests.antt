-- ===== src/Transport/Tests.antt =====
-- Packets whose data is a number, from the channel of Pipeline/Example.antt to another such channel,
-- over the system of UdpConnection/Wire.antt.
use pipert.Base.{ℕ, ◌≡◌, refl, List, [], ◌∷◌, Option, none, some, count, arith}
use pipert.Pipeline.Consistent.{IsConsistent, holding}
use pipert.Pipeline.Example.{
  one_held, one_queued, nobody, one_held-IsConsistent, one_queued-IsConsistent,
}
use pipert.Facade.{ChannelBase, PacketStub}
use pipert.Typed.{Typed}
use pipert.Typed.Producing.{Sent}
use pipert.UdpConnection.Wire.{Wire, empty_wire, wire_system, here, there, connection_to}
use pipert.Network.{Receiver, new_receiver}
use pipert.Transport.{NetworkPacket, PacketLayout, send_packet, receive_packet}
use pipert.Transport.RoundTrip.{receive_packet-send_packet}
use pipert.Transport.Future.{receive_packet-future}

abbrev base : ChannelBase
base = record { impl = some 0 }

abbrev stub : PacketStub
stub = record { channel = base; packet = some 0 }

-- A byte for the time stamp, and one for the number.
abbrev decode : List ℕ → NetworkPacket ℕ
decode [] = record { timestamp = 0; content = 0 }
decode (t ∷ []) = record { timestamp = t; content = 0 }
decode (t ∷ d ∷ bytes) = record { timestamp = t; content = d }

abbrev two_bytes : PacketLayout ℕ
two_bytes = record {
  size = 2;
  image = λ p. p.timestamp ∷ p.content ∷ [];
  of_image = decode;
  length-image = λ p. refl;
  of_image-image = λ p. refl;
}

-- The packet that is held has the number 70.
abbrev sender : Typed ℕ
sender = record {
  pipeline = one_held;
  contents = λ c x. some 70;
  constructed = λ c. 1;
  destroyed = λ c. 0;
}

abbrev target : Typed ℕ
target = record sender { pipeline = one_queued }

abbrev listener : Receiver
listener = new_receiver (connection_to here) base

abbrev arriving : ℕ → Wire
arriving stamp = record empty_wire {
  waiting = record { bytes = stamp ∷ 70 ∷ []; address = there } ∷ [];
}

-- The numbers arrive in a queue with one message.
abbrev Delivered : Type 0
Delivered =
    (sender' target' : Typed ℕ) × (listener' : Receiver) × (w : Wire) × (received : Option ℕ)
    × (send_packet wire_system two_bytes (connection_to there) sender stub 9 empty_wire
        ≡ some (
          sender',
          record empty_wire { sent = record { bytes = 1 ∷ 70 ∷ []; address = there } ∷ [] },
        ))
    × IsConsistent sender'.pipeline (holding nobody 0 [])
    × (sender'.contents 0 0 ≡ none)
    × (receive_packet wire_system two_bytes listener target (0 ∷ 0 ∷ []) 5 9 (arriving 1)
        ≡ some (listener', target', w))
    × IsConsistent target'.pipeline nobody
    × Sent target nobody 0 1 70 received target'

receive_packet-send_packet_example : Delivered
receive_packet-send_packet_example =
    receive_packet-send_packet wire_system two_bytes sender target nobody nobody stub 0 0 0 [] 70
      (connection_to there) listener 3 3 1 (0 ∷ 0 ∷ []) 9 5 9 empty_wire (arriving 1) refl refl
      one_held-IsConsistent refl (omega arith) refl (omega arith) (omega arith) refl (omega arith)
      refl refl (omega arith) refl refl one_queued-IsConsistent (omega arith) (omega arith)
      (omega arith)

receive_packet-future_example :
    receive_packet wire_system two_bytes listener target (0 ∷ 0 ∷ []) 5 9 (arriving 12) ≡ none
unfolding count
receive_packet-future_example =
    receive_packet-future wire_system two_bytes listener target nobody 0 3 1 (0 ∷ 0 ∷ []) 5 9
      (record { timestamp = 12; content = 70 }) (arriving 12) refl (omega arith) (omega arith) refl
      refl (omega arith) refl refl one_queued-IsConsistent (omega arith) (omega arith)
