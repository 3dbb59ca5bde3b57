-- ===== src/Worker/Taking.antt =====
-- The first locked part of a round of `RunTasks` in src/SchedulerImpl.cpp: what a worker gets to do.
use pipert.Base.{
  ℕ, ◌+◌, ◌≤◌, ◌<◌, ◌≡◌, refl, inl, inr, Bool-cases, true, false, List, ◌∷◌, Option, none, some,
  ◌&&◌, ◌==◌, not, if◌then◌else◌, arith, is_empty, count, length, one_if, ◌∙◌,
}
use pipert.Timer.{Time}
use pipert.SteadyHeap.{front, empty, pop_heap}
use pipert.SteadyHeap.Order.{root_least}
use pipert.SteadyHeap.Removal.{length_pos_of_count}
use pipert.Scheduler.{queue_of}
use pipert.Scheduler.Invariant.{front_occurs}
use pipert.Channel.{ChannelImpl, packet_ordering, stamp, peek_next, set_op_timestamp}
use pipert.Pipeline.{Pipeline, store}
use pipert.Pipeline.Consistent.{waits, IsConsistent, holding}
use pipert.Pipeline.Signals.{store_self}
use pipert.Pipeline.Popping.{noted, removed, retrieves}
use pipert.Worker.{Job, claim, pick_job, take_job}
use pipert.Worker.Claiming.{
  state, channel, enabled, filled, state_known, first_waits, first_earliest, claims,
}

-- A monitor object that was enabled is disabled unless it is the null one, no other one changes;
-- the packet is held for a channel of that object, out of whose queue it came; and no packet that was
-- queued for an enabled object has an earlier time stamp.
pub record TakenJob (p : Pipeline) (held : ℕ → List ℕ) (job : Job) (p' : Pipeline) : Type 0 where
  pub consistent : IsConsistent p' (holding held job.channel (job.packet ∷ held job.channel))
  pub object : (p.channel job.channel).single_thread_object ≡ job.state
  pub was_enabled : (queue_of p.scheduler.state2channel_queues job.state).enabled ≡ true
  pub flags :
      (st : ℕ)
      → (queue_of p'.scheduler.state2channel_queues st).enabled ≡ (
          if st == job.state && not (job.state == 0)
          then false
          else (queue_of p.scheduler.state2channel_queues st).enabled)
  pub queued :
      (x : ℕ)
      → count x (p'.channel job.channel).queued_packets.heap + one_if (job.packet == x)
        ≡ count x (p.channel job.channel).queued_packets.heap
  pub earliest :
      (st c x : ℕ)
      → (queue_of p.scheduler.state2channel_queues st).enabled ≡ true
      → waits (p.channel c) st ≡ true
      → 0 < count x (p.channel c).queued_packets.heap
      → stamp (p.channel job.channel) job.packet ≤ stamp (p.channel c) x

-- Either nothing was ready to run and nothing happened, or a worker has a job.
abbrev pub TookJob : Pipeline → (ℕ → List ℕ) → Option Job → Pipeline → Type 0
TookJob p held none p' = (is_empty p.scheduler.state_queue.heap ≡ true) × (p' ≡ p)
TookJob p held (some job) p' = TakenJob p held job p'

module _ (p : Pipeline) (held : ℕ → List ℕ) (v : IsConsistent p held) (now : Time)
    (past : (c x : ℕ)
      → 0 < count x (p.channel c).queued_packets.heap
      → stamp (p.channel c) x ≤ now) where
  module _ (more : is_empty p.scheduler.state_queue.heap ≡ false) where
    abbrev st₀ : ℕ
    st₀ = state p held v more

    abbrev pub c₀ : ℕ
    c₀ = channel p held v more

    abbrev pub packet₀ : ℕ
    packet₀ = front (p.channel c₀).queued_packets

    some_queued : is_empty (p.channel c₀).queued_packets.heap ≡ false
    some_queued = ground (arith, first_waits p held v more)

    pub object₀ : (p.channel c₀).single_thread_object ≡ st₀
    object₀ = ground (arith, first_waits p held v more)

    earliest₀ :
        (st c x : ℕ)
        → (queue_of p.scheduler.state2channel_queues st).enabled ≡ true
        → waits (p.channel c) st ≡ true
        → 0 < count x (p.channel c).queued_packets.heap
        → stamp (p.channel c₀) packet₀ ≤ stamp (p.channel c) x
    unfolding peek_next front
    earliest₀ st c x on jobs h = omega (
      arith,
      first_earliest p held v more st c on jobs,
      root_least (stamp (p.channel c)) (p.channel c).queued_packets.heap x (v.channels c).order h,
    )

    abbrev pub job₀ : Job
    job₀ = record { state = st₀; channel = c₀; packet = packet₀ }

    -- The channel of the job, once its packet has been retrieved.
    abbrev pub left : ChannelImpl
    left =
        noted
          (record (p.channel c₀) {
            queued_packets =
                pop_heap (packet_ordering (p.channel c₀)) (p.channel c₀).queued_packets;
          })
          packet₀ now

    takes :
        (p' : Pipeline) × (pick_job p now ≡ some (job₀, p'))
        × TakenJob p held job₀ p'
        × (p'.channel ≡ store p.channel c₀ left)
    unfolding pick_job empty set_op_timestamp pop_heap
    takes =
        let (consistent, changed) = claims p held v more in
        let (p', e, r, q, k) =
          retrieves (record p { scheduler = claim p st₀ }) held c₀ consistent some_queued now
            (past c₀ packet₀ (front_occurs (p.channel c₀).queued_packets some_queued)) in
        (
          p',
          ground (
            arith,
            e,
            state_known p held v more,
            enabled p held v more,
            filled p held v more,
            object₀,
          ),
          record {
            consistent = r;
            object = object₀;
            was_enabled = enabled p held v more;
            flags = λ st. k st ∙ changed st;
            queued = λ x.
                rw (q, store_self)
                  ((removed (record p { scheduler = claim p st₀ }) held c₀ consistent
                      some_queued).counts
                    x);
            earliest = earliest₀;
          },
          q,
        )

    pub shortened : length left.queued_packets.heap + 1 ≡ length (p.channel c₀).queued_packets.heap
    unfolding set_op_timestamp
    shortened =
        let r = removed p held c₀ v some_queued in
        let queue = (p.channel c₀).queued_packets in
        omega (
          arith,
          r.shorter,
          length_pos_of_count packet₀ queue.heap (front_occurs queue some_queued),
        )

    pub takes_first :
        (p' : Pipeline) × (take_job p now ≡ some (some job₀, p'))
        × TakenJob p held job₀ p'
        × (p'.channel ≡ store p.channel c₀ left)
    unfolding take_job empty
    takes_first = let (p', e, t, q) = takes in (p', ground (arith, more, e), t, q)

  -- On a consistent pipeline without queued packets from the future, the first locked part of a
  -- round meets no failing assertion. It takes no job exactly if the state queue is empty, and else
  -- the earliest packet of all that may run, for whose object no other job may be taken meanwhile
  -- unless it is the null one.
  pub take_job_total :
      (r : Option Job) × (p' : Pipeline) × (take_job p now ≡ some (r, p')) × TookJob p held r p'
  unfolding take_job empty
  take_job_total = elim (Bool-cases (is_empty p.scheduler.state_queue.heap)) [
    | inl vacant ↦ (none, p, ground (arith, vacant), (vacant, refl))
    | inr more ↦ let (p', e, t, q) = takes_first more in (some (job₀ more), p', e, t)
  ]
