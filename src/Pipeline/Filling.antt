-- ===== src/Pipeline/Filling.antt =====
-- What code that holds a packet of src/ChannelImpl.cpp may do to it, and to the order of its packets.
use pipert.Base.{
  ℕ, ◌<◌, ◌≡◌, refl, ◌≢◌, ap, inl, inr, eq-cases, eq_self, ne_test, false, List, arith, is_empty,
  count, length, none, leb_of_gt,
}
use pipert.Timer.{Time}
use pipert.SteadyHeap.{front}
use pipert.SteadyHeap.Order.{IsHeap-congr}
use pipert.Scheduler.Invariant.{front_occurs}
use pipert.Channel.{ChannelImpl, stamp, peek_next, set_timestamp}
use pipert.Channel.Accounting.{IsValid}
use pipert.Pipeline.{Pipeline, put_channel, log_push, push}
use pipert.Pipeline.Consistent.{IsConsistent, holding}
use pipert.Pipeline.Signals.{changed, quiet}

-- The same packets in another order.
abbrev pub SameElements : List ℕ → List ℕ → Type 0
SameElements a b = ((x : ℕ) → count x b ≡ count x a) × (length b ≡ length a)

pub rearranged-IsConsistent :
    (p : Pipeline) (held : ℕ → List ℕ) (c : ℕ) (l : List ℕ)
    → IsConsistent p held
    → SameElements (held c) l
    → IsConsistent p (holding held c l)
rearranged-IsConsistent p held c l v (counts, sizes) = record {
  channels = λ x. elim (eq-cases x c) [
    | inl e ↦ rw (e, eq_self) moved
    | inr n ↦ rw (ne_test n) (v.channels x)
  ];
  queues = v.queues;
}
  where
    moved : IsValid (p.channel c) l
    moved = record {
      order = (v.channels c).order;
      owned = λ x. omega (arith, counts x, (v.channels c).owned x);
      sized = omega (arith, sizes, (v.channels c).sized);
      timed = (v.channels c).timed;
      reserved = (v.channels c).reserved;
    }

module _ (p : Pipeline) (held : ℕ → List ℕ) (c packet : ℕ) (t : Time) (v : IsConsistent p held)
    (owner : 0 < count packet (held c)) where
  abbrev old : ChannelImpl
  old = p.channel c

  abbrev filled : ChannelImpl
  filled = set_timestamp old packet t

  -- A held packet is not queued.
  unqueued : (x : ℕ) → 0 < count x old.queued_packets.heap → x ≢ packet
  unqueued x h e =
      ground (arith, (v.channels c).owned packet, ap (λ y. count y old.queued_packets.heap) e)

  same_stamp : (x : ℕ) → 0 < count x old.queued_packets.heap → stamp filled x ≡ stamp old x
  unfolding set_timestamp
  same_stamp x h = ground (arith, unqueued x h)

  filled-IsValid : IsValid filled (held c)
  unfolding set_timestamp
  filled-IsValid = record {
    order =
        unfold set_timestamp in
        IsHeap-congr (stamp old) (stamp filled) old.queued_packets.heap same_stamp
          (v.channels c).order;
    owned = (v.channels c).owned;
    sized = (v.channels c).sized;
    timed = λ x h. ground (arith, same_stamp x h, (v.channels c).timed x h);
    reserved = (v.channels c).reserved;
  }

  same_peek : is_empty old.queued_packets.heap ≡ false → peek_next filled ≡ peek_next old
  unfolding peek_next set_timestamp
  same_peek more = same_stamp (front old.queued_packets) (front_occurs old.queued_packets more)

  -- Writing the time stamp of a held packet disturbs no queue.
  pub filled-IsConsistent : IsConsistent (put_channel p c filled) held
  unfolding set_timestamp
  filled-IsConsistent =
      changed p held v c filled refl held p.scheduler (λ x n. refl) filled-IsValid
        (quiet p held v c filled refl (λ st. refl) (λ st h. same_peek (ground (arith, h))))

-- A packet from the future fails the first assertion of `Push`.
pub push-future :
    (p : Pipeline) (c packet : ℕ) (now : Time)
    → now < stamp (p.channel c) packet
    → push p c packet now ≡ none
unfolding push log_push
push-future p c packet now late = rw (leb_of_gt late) refl
