-- ===== src/Facade/Refusing.antt =====
-- A PacketToFill of include/pipert/PacketToFill.h whose time stamp lies in the future.
use pipert.Base.{ℕ, ◌<◌, ◌≡◌, refl, List, Option, none, some, arith, length}
use pipert.Timer.{Time}
use pipert.Channel.{stamp, set_timestamp}
use pipert.Pipeline.{Pipeline, put_channel, acquire}
use pipert.Pipeline.Consistent.{IsConsistent}
use pipert.Pipeline.Signals.{store_self}
use pipert.Pipeline.Acquiring.{Acquired, acquire_total}
use pipert.Pipeline.Filling.{push-future}
use pipert.Facade.{
  ChannelBase, PacketStub, push_base, push_stub, acquire_base, acquire_stub, destroy_to_fill,
  construct_packet,
}

module _ (p : Pipeline) (held : ℕ → List ℕ) (b : ChannelBase) (c : ℕ) (bound : b.impl ≡ some c)
    (timestamp acquired pushed : Time) where
  refused :
      (q : Pipeline) (packet : ℕ)
      → pushed < timestamp
      → destroy_to_fill
          (put_channel q c (set_timestamp (q.channel c) packet timestamp))
          (record { channel = b; packet = some packet })
          pushed
        ≡ none
  unfolding destroy_to_fill push_stub push_base set_timestamp
  refused q packet late =
      let p₂ = put_channel q c (set_timestamp (q.channel c) packet timestamp) in
      let stamped : stamp (p₂.channel c) packet ≡ timestamp = rw store_self (ground arith) in
      rw (bound, push-future p₂ c packet pushed (omega (arith, stamped, late))) refl

  -- The stub is made, as there is a packet for it, but it can not be given up: the push of its packet
  -- fails an assertion.
  pub refuses :
      IsConsistent p held
      → length (held c) < (p.channel c).capacity
      → pushed < timestamp
      → (s : PacketStub) × (p₁ : Pipeline) × (packet : ℕ) × (acquire_stub p b timestamp acquired
          ≡ some (s, p₁))
        × (s.packet ≡ some packet)
        × (destroy_to_fill p₁ s pushed ≡ none)
  unfolding acquire_stub acquire_base construct_packet
  refuses v room late = let (r, q, e, a) = acquire_total p held c acquired v in by_result r q e a
    where
      by_result :
          (r : Option ℕ) (q : Pipeline)
          → acquire p c acquired ≡ some (r, q)
          → Acquired p held c acquired r q
          → (s : PacketStub) × (p₁ : Pipeline) × (packet : ℕ) × (acquire_stub p b timestamp acquired
              ≡ some (s, p₁))
            × (s.packet ≡ some packet)
            × (destroy_to_fill p₁ s pushed ≡ none)
      by_result none q e (full, vacant, same) = absurd (omega (arith, full, room))
      by_result (some packet) q e a = (
        record { channel = b; packet = some packet },
        put_channel q c (set_timestamp (q.channel c) packet timestamp),
        packet,
        rw bound (rw e refl),
        refl,
        refused q packet late,
      )
