-- ===== src/Scheduler/Registering.antt =====
-- The configuration of SchedulerImpl in src/SchedulerImpl.cpp, between runs.
use pipert.Base.{
  ℕ, ◌+◌, ◌-◌, ◌≡◌, refl, arith, inl, inr, Bool-cases, Bool, true, false, [], ◌∷◌, ◌++◌, Option,
  none, some, ltb, not, ◌==◌, ◌>>=◌, ◌>>◌, assert, set, drop_last, nth, length,
}
use pipert.SteadyHeap.{SteadyHeap, steady_heap, reserve, std_find}
use pipert.SteadyHeap.{front}
use pipert.SteadyHeap.Order.{IsHeap-congr}
use pipert.Scheduler.Queues.{state_key}
use pipert.Scheduler.Invariant.{IsOrdered}
use pipert.Scheduler.{
  ChannelView, SchedulerImpl, EnabledChannelHeap, State2ChannelHeap, new_queue, queue_of, put_queue,
}

-- The members as the constructor sets them.
abbrev pub stopped_scheduler : ℕ → Bool → SchedulerImpl
stopped_scheduler workers_number has_profiler = record {
  channels = [];
  receivers = [];
  state_queue = steady_heap;
  state2channel_queues = λ state. none;
  keep_running = false;
  running = false;
  workers_number = workers_number;
  has_profiler = has_profiler;
  valid_state = true;
  notified = 0;
}

-- The constructor; the number of workers must be positive.
unfoldable pub scheduler_impl : ℕ → Bool → Option SchedulerImpl
scheduler_impl workers_number has_profiler = do
  assert (ltb 0 workers_number)
  some (stopped_scheduler workers_number has_profiler)

abbrev more_room : SteadyHeap → SteadyHeap
more_room h = reserve h (h.capacity + 1)

unfoldable pub register_state : SchedulerImpl → ℕ → Option EnabledChannelHeap → SchedulerImpl
unfolding reserve
register_state d state (some q) = record d {
  state2channel_queues =
      put_queue d.state2channel_queues state (record q { heap = more_room q.heap });
}
register_state d state none = record d {
  state_queue = more_room d.state_queue;
  state2channel_queues =
      put_queue d.state2channel_queues state (record new_queue { heap = reserve steady_heap 1 });
}

-- `RegisterChannel`, up to the profiler: the queues get the space for one more channel.
unfoldable pub register_channel : ChannelView → SchedulerImpl → ℕ → Option SchedulerImpl
unfolding register_state
register_channel v d channel = do
  assert (not d.running)
  let state = v.get_state channel
  let d' = record d { channels = d.channels ++ channel ∷ [] }
  some (register_state d' state (d.state2channel_queues state))

-- `UnregisterChannel`: the last channel takes the place of the one that goes. `part` is what the
-- branch of the profiler does and leaves, which touches nothing of the scheduler.
unfoldable pub unregister_channel {ℓ} :
    {P : Type ℓ} → SchedulerImpl → ℕ → Option P → Option (P × SchedulerImpl)
unfolding std_find nth
unregister_channel d channel part = do
  assert (not d.running)
  let it = std_find d.channels channel
  assert (not (it == length d.channels))
  left ← part
  let back = nth d.channels (length d.channels - 1)
  some (left, record d { channels = drop_last (set d.channels it back) })

-- `AddReceiver`
unfoldable pub add_receiver : SchedulerImpl → ℕ → Option SchedulerImpl
add_receiver d receiver = do
  assert (not d.running)
  some (record d { receivers = d.receivers ++ receiver ∷ [] })

-- `Start`, but for the threads, the profiler and the receivers that it starts.
unfoldable pub start : SchedulerImpl → Option SchedulerImpl
start d = do
  assert (not d.running)
  assert d.valid_state
  some (record d { running = true; keep_running = true })

-- `Stop`, once the workers have ended.
unfoldable pub stop : SchedulerImpl → Option SchedulerImpl
stop d = do assert d.running; some (record d { keep_running = false; running = false })

-- `SetStateInvalid`
unfoldable pub set_state_invalid : SchedulerImpl → Option SchedulerImpl
set_state_invalid d = do assert (not d.running); some (record d { valid_state = false })

-- What the two leave where they succeed.
pub start-result :
    (d d' : SchedulerImpl)
    → start d ≡ some d'
    → d' ≡ record d { running = true; keep_running = true }
unfolding start
start-result d d' e = elim (Bool-cases d.running) [
  | inl r ↦ absurd (ground (arith, r, e))
  | inr r ↦ elim (Bool-cases d.valid_state) [
    | inl q ↦ ground (arith, r, q, e)
    | inr q ↦ absurd (ground (arith, r, q, e))
  ]
]

pub stop-result :
    (d d' : SchedulerImpl)
    → stop d ≡ some d'
    → d' ≡ record d { keep_running = false; running = false }
unfolding stop
stop-result d d' e = elim (Bool-cases d.running) [
  | inl r ↦ ground (arith, r, e)
  | inr r ↦ absurd (ground (arith, r, e))
]

-- Nor does `UnregisterChannel` touch any.
pub unregister_channel-queues {ℓ} :
    {P : Type ℓ} (d d' : SchedulerImpl) (c : ℕ) (part : Option P) (left : P)
    → unregister_channel d c part ≡ some (left, d')
    → (d'.state2channel_queues ≡ d.state2channel_queues) × (d'.state_queue ≡ d.state_queue)
unfolding unregister_channel
unregister_channel-queues d d' c none left e = absurd (ground (arith, e))
unregister_channel-queues d d' c (some x) left e = (ground (arith, e), ground (arith, e))

-- The order of the queues depends on their elements, not on their space.
pub IsOrdered-same :
    (key : ℕ → ℕ) (has : ℕ → ℕ → Bool) (m m' : State2ChannelHeap) (states states' : SteadyHeap)
    → ((st : ℕ) → (queue_of m' st).heap.heap ≡ (queue_of m st).heap.heap)
    → ((st : ℕ) → (queue_of m' st).enabled ≡ (queue_of m st).enabled)
    → states'.heap ≡ states.heap
    → IsOrdered key has m states
    → IsOrdered key has m' states'
unfolding front
IsOrdered-same key has m m' states states' heaps flags same o = record {
  channels_order = λ st. rw (heaps st) (o.channels_order st);
  channels_exact = λ st c. rw (heaps st) (o.channels_exact st c);
  states_order = rw same (
      IsHeap-congr (state_key key m) (state_key key m') states.heap (λ st h. rw (heaps st))
        o.states_order);
  states_exact = λ st. rw (same, heaps st, flags st) (o.states_exact st);
}

module _ (d : SchedulerImpl) (state : ℕ) where
  -- Registering a state puts nothing into a queue.
  same_heaps :
      (q : Option EnabledChannelHeap)
      → d.state2channel_queues state ≡ q
      → (st : ℕ)
      → (queue_of (register_state d state q).state2channel_queues st).heap.heap
        ≡ (queue_of d.state2channel_queues st).heap.heap
  unfolding register_state reserve queue_of put_queue
  same_heaps none e st = ground (arith, e)
  same_heaps (some q) e st = ground (arith, e)

  same_flags :
      (q : Option EnabledChannelHeap)
      → d.state2channel_queues state ≡ q
      → (st : ℕ)
      → (queue_of (register_state d state q).state2channel_queues st).enabled
        ≡ (queue_of d.state2channel_queues st).enabled
  unfolding register_state reserve queue_of put_queue
  same_flags none e st = ground (arith, e)
  same_flags (some q) e st = ground (arith, e)

  same_states :
      (q : Option EnabledChannelHeap)
      → (register_state d state q).state_queue.heap ≡ d.state_queue.heap
  unfolding register_state reserve
  same_states none = refl
  same_states (some q) = refl

  pub same_channels :
      (q : Option EnabledChannelHeap) → (register_state d state q).channels ≡ d.channels
  unfolding register_state
  same_channels none = refl
  same_channels (some q) = refl

  pub same_running :
      (q : Option EnabledChannelHeap)
      → d.running ≡ false
      → (register_state d state q).running ≡ false
  unfolding register_state
  same_running none e = e
  same_running (some q) e = e

-- Registering a channel at a scheduler that is not running succeeds and leaves all queues in order,
-- with the elements that they had, and no monitor object enabled or disabled.
pub register_channel-IsOrdered :
    (key : ℕ → ℕ) (has : ℕ → ℕ → Bool) (v : ChannelView) (d : SchedulerImpl) (c : ℕ)
    → d.running ≡ false
    → IsOrdered key has d.state2channel_queues d.state_queue
    → (d' : SchedulerImpl) × (register_channel v d c ≡ some d')
      × IsOrdered key has d'.state2channel_queues d'.state_queue
      × (d'.channels ≡ d.channels ++ c ∷ [])
      × (d'.running ≡ false)
      × ((st : ℕ)
          → (queue_of d'.state2channel_queues st).enabled
            ≡ (queue_of d.state2channel_queues st).enabled)
unfolding register_channel
register_channel-IsOrdered key has v d c stopped o =
    let d₁ = record d { channels = d.channels ++ c ∷ [] } in
    let st = v.get_state c in
    let q = d.state2channel_queues st in
    (
      register_state d₁ st q,
      rw stopped refl,
      IsOrdered-same key has d.state2channel_queues (register_state d₁ st q).state2channel_queues
          d.state_queue (register_state d₁ st q).state_queue (same_heaps d₁ st q refl)
          (same_flags d₁ st q refl) (same_states d₁ st q) o,
      same_channels d₁ st q,
      same_running d₁ st q stopped,
      same_flags d₁ st q refl,
    )
