-- ===== src/Pipeline/Retouch.antt =====
-- Writes to a channel of src/ChannelImpl.cpp that move no packet: `op_timestamp_` and the profile.
use pipert.Base.{ℕ, ◌≡◌, refl, Option, List, arith}
use pipert.Timer.{Time}
use pipert.Packet.{LogEvent}
use pipert.SteadyHeap.{front}
use pipert.SteadyHeap.Order.{IsHeap-congr}
use pipert.Channel.{ChannelImpl, stamp, peek_next, set_op_timestamp}
use pipert.Channel.Accounting.{IsValid}
use pipert.Pipeline.{Pipeline, put_channel}
use pipert.Pipeline.Consistent.{IsConsistent}
use pipert.Pipeline.Signals.{changed, quiet}

-- The channel with a new `op_timestamp_` of one packet and a new profile.
abbrev pub retouched : ChannelImpl → ℕ → Time → Option (List LogEvent) → ChannelImpl
retouched ch packet t profile = record (set_op_timestamp ch packet t) { profile_data = profile }

pub stamp-retouched :
    (ch : ChannelImpl) (packet : ℕ) (t : Time) (profile : Option (List LogEvent)) (x : ℕ)
    → stamp (retouched ch packet t profile) x ≡ stamp ch x
unfolding set_op_timestamp
stamp-retouched ch packet t profile x = ground arith

retouched-IsValid :
    (ch : ChannelImpl) (held : List ℕ) (packet : ℕ) (t : Time) (profile : Option (List LogEvent))
    → IsValid ch held
    → IsValid (retouched ch packet t profile) held
unfolding set_op_timestamp
retouched-IsValid ch held packet t profile v = record {
  order =
      unfold set_op_timestamp in
      IsHeap-congr (stamp ch) (stamp (retouched ch packet t profile)) ch.queued_packets.heap
        (λ x h. stamp-retouched ch packet t profile x) v.order;
  owned = v.owned;
  sized = v.sized;
  timed = λ x h. ground (arith, stamp-retouched ch packet t profile x, v.timed x h);
  reserved = v.reserved;
}

peek_next-retouched :
    (ch : ChannelImpl) (packet : ℕ) (t : Time) (profile : Option (List LogEvent))
    → peek_next (retouched ch packet t profile) ≡ peek_next ch
unfolding peek_next set_op_timestamp
peek_next-retouched ch packet t profile =
    stamp-retouched ch packet t profile (front ch.queued_packets)

pub retouched-IsConsistent :
    (p : Pipeline) (held : ℕ → List ℕ) (c packet : ℕ) (t : Time) (profile : Option (List LogEvent))
    → IsConsistent p held
    → IsConsistent (put_channel p c (retouched (p.channel c) packet t profile)) held
unfolding set_op_timestamp
retouched-IsConsistent p held c packet t profile v =
    changed p held v c (retouched (p.channel c) packet t profile) refl held p.scheduler
      (λ x n. refl) (retouched-IsValid (p.channel c) (held c) packet t profile (v.channels c))
      (quiet p held v c (retouched (p.channel c) packet t profile) refl (λ st. refl)
        (λ st h. peek_next-retouched (p.channel c) packet t profile))

peek_next-profiled :
    (ch : ChannelImpl) (profile : Option (List LogEvent))
    → peek_next (record ch { profile_data = profile }) ≡ peek_next ch
unfolding peek_next
peek_next-profiled ch profile = refl

pub profiled-IsConsistent :
    (p : Pipeline) (held : ℕ → List ℕ) (c : ℕ) (profile : Option (List LogEvent))
    → IsConsistent p held
    → IsConsistent (put_channel p c (record (p.channel c) { profile_data = profile })) held
profiled-IsConsistent p held c profile v =
    changed p held v c (record (p.channel c) { profile_data = profile }) refl held p.scheduler
      (λ x n. refl)
      (record {
        order = (v.channels c).order;
        owned = (v.channels c).owned;
        sized = (v.channels c).sized;
        timed = (v.channels c).timed;
        reserved = (v.channels c).reserved;
      })
      (quiet p held v c (record (p.channel c) { profile_data = profile }) refl (λ st. refl)
        (λ st h. peek_next-profiled (p.channel c) profile))
