-- ===== src/Pipeline/Space/Acquiring.antt =====
-- The space of the scheduler's queues across `GetNext`, `Release` and the locked body of `Acquire` of
-- src/ChannelImpl.cpp.
use pipert.Base.{ℕ, ◌≡◌, sym, subst, inl, inr, Bool-cases, Bool, Option, some, arith, bind-some}
use pipert.Timer.{Time}
use pipert.SteadyHeap.{empty}
use pipert.Channel.{release, take_free}
use pipert.Channel.Shape.{take_free-SameShape, release-SameShape}
use pipert.Pipeline.{
  Pipeline, put_channel, pop_next, found_packet, get_next, release_packet, take_packet,
}
use pipert.Pipeline.Space.{SameRoom, SameRoom-refl, put_channel-SameRoom}
use pipert.Pipeline.Space.Moving.{pop_next-SameRoom}

pub release_packet-SameRoom :
    (p p' : Pipeline) (c packet : ℕ) (now : Time) (dropping_packet : Bool)
    → release_packet p c packet now dropping_packet ≡ some p'
    → SameRoom p p'
unfolding release_packet
release_packet-SameRoom p p' c packet now dropping_packet e =
    let (ch, f, g) =
      bind-some (release (p.channel c) packet now dropping_packet) (λ ch. some (put_channel p c ch))
        p' e in
    let same : p' ≡ put_channel p c ch = ground (arith, g) in
    subst (SameRoom p) (sym same) (
      put_channel-SameRoom p c ch (release-SameShape (p.channel c) ch packet now dropping_packet f))

pub get_next-SameRoom :
    (p p' : Pipeline) (c : ℕ) (now : Time) (dropping_packet : Bool) (packet : Option ℕ)
    → get_next p c now dropping_packet ≡ some (packet, p')
    → SameRoom p p'
unfolding get_next found_packet
get_next-SameRoom p p' c now dropping_packet packet e =
    elim (Bool-cases (empty (p.channel c).queued_packets)) [
      | inl f ↦
          let same : p' ≡ p = ground (arith, rw f at e) in
          subst (SameRoom p) (sym same) (SameRoom-refl p)
      | inr f ↦
          let ((x, q), g, h) =
            bind-some (pop_next p c now dropping_packet) (λ r. some (found_packet r)) (packet, p')
              (rw f at e) in
          let same : p' ≡ q = ground (arith, h) in
          subst (SameRoom p) (sym same) (pop_next-SameRoom p q c x now dropping_packet g)
    ]

pub take_packet-SameRoom : (p : Pipeline) (c : ℕ) → SameRoom p (take_packet p c).1
unfolding take_packet
take_packet-SameRoom p c =
    put_channel-SameRoom p c (take_free (p.channel c)).1 (take_free-SameShape (p.channel c))
