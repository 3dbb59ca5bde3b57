-- ===== src/Worker/Space.antt =====
-- The space that `RegisterChannel` of src/SchedulerImpl.cpp reserves, so that no push into a queue has
-- to make its vector grow.
pub mod Rounds
pub mod Creating
pub mod Runs
use pipert.Base.{
  ℕ, ◌≤◌, ◌<◌, ◌≡◌, refl, ◌∙◌, sym, subst, ap, inl, inr, eq-cases, Bool, true, false, List, [], ◌∷◌,
  arith, length, count, one_if, is_empty, length_of_counts, length_pos, is_empty_of_count,
  Bool-cases,
}
use pipert.SteadyHeap.{front}
use pipert.Scheduler.{is_known, queue_of}
use pipert.Scheduler.Invariant.{is_ready, front_occurs}
use pipert.Pipeline.{Pipeline}
use pipert.Pipeline.Consistent.{IsConsistent, has_jobs}
use pipert.Pipeline.Space.{Serves, SameRoom}

-- The space is reserved for the monitor objects `states`, and for the channels `users st` of each
-- monitor object `st`: all objects with a queue are in `states`, and all channels with packets in
-- `users`.
pub record IsReserved (p : Pipeline) : Type 0 where
  pub states : List ℕ
  pub users : ℕ → List ℕ
  pub states_fit : length states ≤ p.scheduler.state_queue.capacity
  pub users_fit :
      (st : ℕ) → length (users st) ≤ (queue_of p.scheduler.state2channel_queues st).heap.capacity
  pub known : (st : ℕ) → is_known (p.scheduler.state2channel_queues st) ≡ true → 0 < count st states
  pub served : (st c : ℕ) → Serves p st c → 0 < count st states
  pub using : (st c : ℕ) → Serves p st c → 0 < count c (users st)

-- No queue has more elements than space is reserved for.
pub record Fits (p : Pipeline) : Type 0 where
  pub packets :
      (c : ℕ) → length (p.channel c).queued_packets.heap ≤ (p.channel c).queued_packets.capacity
  pub channels :
      (st : ℕ)
      → length (queue_of p.scheduler.state2channel_queues st).heap.heap
        ≤ (queue_of p.scheduler.state2channel_queues st).heap.capacity
  pub states : length p.scheduler.state_queue.heap ≤ p.scheduler.state_queue.capacity

-- What changes no space keeps the reservation.
pub IsReserved-kept : (p p' : Pipeline) → SameRoom p p' → IsReserved p → IsReserved p'
IsReserved-kept p p' a r = record {
  states = r.states;
  users = r.users;
  states_fit = omega (arith, r.states_fit, a.states_space);
  users_fit = λ st. omega (arith, r.users_fit st, a.channels_space st);
  known = λ st h. elim (a.keys st h) [ inl k ↦ r.known st k | inr (c, s) ↦ r.served st c s ];
  served = λ st c s. r.served st c (back st c s);
  using = λ st c s. r.using st c (back st c s);
}
  where
    back : (st c : ℕ) → Serves p' st c → Serves p st c
    back st c s = record {
      sized = subst (λ n. 0 < n) (a.capacities c) s.sized;
      object = sym (a.objects c) ∙ s.object;
    }

-- Elements that occur once each, and all in another list.
once-length :
    (xs ys : List ℕ) (b : ℕ → Bool)
    → ((x : ℕ) → count x xs ≡ one_if (b x))
    → ((x : ℕ) → b x ≡ true → 0 < count x ys)
    → length xs ≤ length ys
once-length xs ys b h k = length_of_counts xs ys (λ x. elim (Bool-cases (b x)) [
  | inl e ↦ ground (arith, h x, e, k x e)
  | inr e ↦ ground (arith, h x, e)
])

module _ (p : Pipeline) (held : ℕ → List ℕ) (v : IsConsistent p held) (r : IsReserved p) where
  waiting-Serves : (st c : ℕ) → has_jobs p st c ≡ true → Serves p st c
  waiting-Serves st c h = record {
    sized = ground (arith, h, (v.channels c).sized, length_pos (p.channel c).queued_packets.heap);
    object = ground (arith, h);
  }

  ready-Serves :
      (st : ℕ)
      → is_ready (queue_of p.scheduler.state2channel_queues st) ≡ true
      → (c : ℕ) × Serves p st c
  ready-Serves st h =
      let q = (queue_of p.scheduler.state2channel_queues st).heap in
      (
        front q,
        waiting-Serves st (front q) (
            ground
              (arith, v.queues.channels_exact st (front q), front_occurs q (ground (arith, h)))),
      )

  -- What is reserved is enough.
  pub reserved-Fits : Fits p
  reserved-Fits = record {
    packets = λ c. omega (arith, (v.channels c).sized, (v.channels c).reserved);
    channels = λ st. omega (
      arith,
      once-length (queue_of p.scheduler.state2channel_queues st).heap.heap (r.users st)
          (has_jobs p st) (v.queues.channels_exact st)
          (λ c h. r.using st c (waiting-Serves st c h)),
      r.users_fit st,
    );
    states = omega (
      arith,
      once-length p.scheduler.state_queue.heap r.states
          (λ st. is_ready (queue_of p.scheduler.state2channel_queues st)) v.queues.states_exact
          (λ st h. let (c, s) = ready-Serves st h in r.served st c s),
      r.states_fit,
    );
  }
