-- ===== src/Pipeline/Pushing.antt =====
-- `Push` of src/ChannelImpl.cpp, with the signal that it sends.
use mathlib.Core.Option
use pipert.Base.{
  ℕ, ◌+◌, ◌-◌, ◌≤◌, ◌<◌, ◌≡◌, refl, ◌≢◌, inl, inr, Bool-cases, Bool, true, false, List, ◌∷◌, Option,
  some, ◌&&◌, ltb, ◌==◌, if◌then◌else◌, eq_self, ne_test, is_empty, is_empty_of_count, arith,
  length, one_if, count,
}
use pipert.Timer.{Time, max_time}
use pipert.Packet.{LogEvent, log_event, packet_pushed, fill_time}
use pipert.SteadyHeap.{front, empty, size, push_heap}
use pipert.SteadyHeap.Order.{root_least}
use pipert.SteadyHeap.Laws.{push_heap-IsHeap, count-push_heap, length-push_heap, capacity-push_heap}
use pipert.Scheduler.{SchedulerImpl}
use pipert.Scheduler.Invariant.{IsOrdered, front_occurs}
use pipert.Channel.{ChannelImpl, stamp, packet_ordering, peek_next, log}
use pipert.Channel.Accounting.{IsValid}
use pipert.Pipeline.{Pipeline, view, put_channel, signal_push, insert_packet, push}
use pipert.Pipeline.Consistent.{waits, has_jobs, IsConsistent, holding, SameFlags}
use pipert.Pipeline.Signals.{
  store_self, store_other, peek_next-lt, changed, quiet, arrived, updated,
}

module _ (p : Pipeline) (held : ℕ → List ℕ) (c packet : ℕ) (rest : List ℕ)
    (v : IsConsistent p (holding held c (packet ∷ rest)))
    (early : stamp (p.channel c) packet < max_time) where
  abbrev old : ChannelImpl
  old = p.channel c

  valid : IsValid old (packet ∷ rest)
  valid = rw (eq_self c) at (v.channels c)

  room : length old.queued_packets.heap < old.capacity
  room = omega (arith, valid.sized)

  module _ (profile : Option (List LogEvent)) where
    abbrev logged : ChannelImpl
    logged = record old { profile_data = profile }

    abbrev new : ChannelImpl
    new = record logged {
      queued_packets = push_heap (packet_ordering logged) old.queued_packets packet;
    }

    added :
        (x : ℕ)
        → count x new.queued_packets.heap ≡ count x old.queued_packets.heap + one_if (packet == x)
    added x = count-push_heap (stamp old) old.queued_packets packet x

    new-IsValid : IsValid new rest
    unfolding count
    new-IsValid = record {
      order = push_heap-IsHeap (stamp old) old.queued_packets packet valid.order;
      owned = λ x. omega (arith, added x, valid.owned x);
      sized = omega (arith, valid.sized, length-push_heap (stamp old) old.queued_packets packet);
      timed = λ x h. ground (arith, added x, valid.timed x);
      reserved =
          omega (arith, valid.reserved, capacity-push_heap (stamp old) old.queued_packets packet);
    }

    filled : is_empty new.queued_packets.heap ≡ false
    filled = is_empty_of_count packet new.queued_packets.heap (ground (arith, added packet))

    abbrev earliest : Time
    earliest = if empty old.queued_packets then max_time else peek_next logged

    abbrev signals : Bool
    signals = old.callback && ltb (peek_next new) earliest

    peek_new-le : is_empty old.queued_packets.heap ≡ false → peek_next new ≤ peek_next old
    unfolding peek_next front
    peek_new-le more =
        root_least (stamp old) new.queued_packets.heap (front old.queued_packets)
          (new-IsValid.order)
          (ground (arith, added (front old.queued_packets), front_occurs old.queued_packets more))

    peek_same :
        is_empty old.queued_packets.heap ≡ false
        → signals ≡ false
        → old.callback ≡ true
        → peek_next new ≡ peek_next old
    unfolding empty peek_next front
    peek_same more still on = ground (arith, peek_new-le more)

    not_first : signals ≡ false → old.callback ≡ true → is_empty old.queued_packets.heap ≡ false
    unfolding empty
    not_first still on = ground (arith, peek_next-lt new rest new-IsValid filled)

    still_waits : signals ≡ false → (st : ℕ) → waits new st ≡ waits old st
    still_waits still st = ground (arith, filled, not_first still)

    abbrev Inserts : Option Pipeline → Type 0
    Inserts r =
        (p' : Pipeline) × (r ≡ some p')
        × IsConsistent p' (holding held c rest)
        × (p'.channel ≡ (put_channel p c new).channel)
        × SameFlags p p'

    abbrev p₁ : Pipeline
    p₁ = put_channel p c new

    became :
        (d : SchedulerImpl)
        → IsOrdered (view p₁).peek_next (has_jobs p₁) d.state2channel_queues d.state_queue
        → IsConsistent (record p₁ { scheduler = d }) (holding held c rest)
    became d =
        changed p (holding held c (packet ∷ rest)) v c new refl (holding held c rest) d
          (λ x n. rw (ne_test n)) (rw eq_self new-IsValid)

    signal_first :
        old.callback ≡ true
        → is_empty old.queued_packets.heap ≡ true
        → Inserts (signal_push p₁ c max_time)
    unfolding signal_push
    signal_first on vacant =
        let (d, e, s) =
          arrived p (holding held c (packet ∷ rest)) v c new refl on vacant filled
            (peek_next-lt new rest new-IsValid filled) in
        (record p₁ { scheduler = d }, ground (arith, e), became d s.ordered, refl, s.flags)

    signal_again :
        (t : Time)
        → t < max_time
        → old.callback ≡ true
        → is_empty old.queued_packets.heap ≡ false
        → Inserts (signal_push p₁ c t)
    unfolding signal_push
    signal_again t ordinary on more =
        let (d, e, s) =
          updated p (holding held c (packet ∷ rest)) v c new refl true on on more filled in
        (record p₁ { scheduler = d }, ground (arith, e), became d s.ordered, refl, s.flags)

    silent : signals ≡ false → Inserts (some p₁)
    silent still = (
      p₁,
      refl,
      became p.scheduler (
          quiet p (holding held c (packet ∷ rest)) v c new refl (still_waits still)
            (λ st h. peek_same (not_first still (ground arith)) still (ground arith))),
      refl,
      λ st. refl,
    )

    peek_logged : peek_next logged ≡ peek_next old
    unfolding peek_next
    peek_logged = refl

    first : signals ≡ true → Inserts (signal_push p₁ c earliest)
    unfolding empty
    first rises = elim (Bool-cases (is_empty old.queued_packets.heap)) [
      | inl vacant ↦ rw vacant (signal_first (ground arith) vacant)
      | inr more ↦ rw more (
          signal_again (peek_next logged)
            (rw peek_logged (peek_next-lt old (packet ∷ rest) valid more)) (ground arith) more)
    ]

    inserts : Inserts (insert_packet p c logged packet)
    unfolding insert_packet size
    inserts = elim (Bool-cases signals) [
      | inr still ↦
          let (p', e, r, q, k) = silent still in (p', ground (arith, room, e, still), r, q, k)
      | inl rises ↦
          let (p', e, r, q, k) = first rises in (p', ground (arith, room, e, rises), r, q, k)
    ]

  -- The profile after the two events that `Push` logs.
  abbrev pushed_profile : Time → Option (List LogEvent)
  pushed_profile now =
      Option.map (◌∷◌ (log_event fill_time (now - (old.pool packet).op_timestamp)))
        (Option.map (◌∷◌ (log_event packet_pushed (now - stamp old packet))) old.profile_data)

  pushes :
      (now : Time)
      → stamp old packet ≤ now
      → (old.pool packet).op_timestamp ≤ now
      → Inserts (pushed_profile now) (push p c packet now)
  unfolding push log
  pushes now filled acquired =
      let (p', e, r, q, k) = inserts (pushed_profile now) in (p', ground (arith, e), r, q, k)

-- What a call of `Push` did: the packet went from its holder into the queue, all queues are in order,
-- and the other channels are as they were.
pub record Pushed (p : Pipeline) (held : ℕ → List ℕ) (c packet : ℕ) (rest : List ℕ) (p' : Pipeline)
    : Type 0 where
  pub consistent : IsConsistent p' (holding held c rest)
  pub queued :
      (x : ℕ)
      → count x (p'.channel c).queued_packets.heap
        ≡ count x (p.channel c).queued_packets.heap + one_if (packet == x)
  pub same_pool : (p'.channel c).pool ≡ (p.channel c).pool
  pub others : (x : ℕ) → x ≢ c → p'.channel x ≡ p.channel x
  pub flags : SameFlags p p'

-- On a consistent pipeline, `Push` of a packet that is held, none of whose time stamps lies in the
-- future, at a time before `kMaxTime`, meets no failing assertion: it queues that packet, leaves the
-- other channels as they are, and leaves the queues of all channels and of the scheduler in order,
-- with the signal to the scheduler that this needs.
pub push_consistent :
    (p : Pipeline) (held : ℕ → List ℕ) (c packet : ℕ) (rest : List ℕ) (now : Time)
    → IsConsistent p (holding held c (packet ∷ rest))
    → stamp (p.channel c) packet ≤ now
    → ((p.channel c).pool packet).op_timestamp ≤ now
    → now < max_time
    → (p' : Pipeline) × (push p c packet now ≡ some p') × Pushed p held c packet rest p'
push_consistent p held c packet rest now v filled acquired ordinary =
    let early : stamp (p.channel c) packet < max_time = omega arith in
    let (p', e, r, q, k) = pushes p held c packet rest v early now filled acquired in
    (
      p',
      e,
      record {
        consistent = r;
        queued = λ x.
            rw (q, store_self)
              (added p held c packet rest v early (pushed_profile p held c packet rest v early now)
                x);
        same_pool = rw (q, store_self) refl;
        others = λ x n. rw q (store_other p.channel c _ n);
        flags = k;
      },
    )
