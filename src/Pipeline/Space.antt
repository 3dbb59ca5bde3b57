-- ===== src/Pipeline/Space.antt =====
-- The space of the scheduler's queues across the methods of src/ChannelImpl.cpp.
pub mod Signalling
pub mod Moving
pub mod Acquiring
use pipert.Base.{
  ℕ, ◌<◌, ◌≡◌, refl, ◌∙◌, sym, subst, ◌≢◌, ◌⊎◌, inl, inr, eq-cases, eq_self, ne_test, Bool-cases,
  Bool, true, false, Option, some, none, not, ◌==◌, ◌&&◌, if◌then◌else◌, arith, leb, ltb, ◌-◌,
  ◌>>=◌, bind-some, length_pos, length, List, [], ◌∷◌,
}
use pipert.Timer.{Time, max_time}
use pipert.SteadyHeap.{SteadyHeap, empty, front, size, push_heap, pop_heap}
use pipert.SteadyHeap.Removal.{Beside}
use pipert.Scheduler.{SchedulerImpl, is_known, queue_of, jobs_arrived, jobs_updated, jobs_dropped}
use pipert.Scheduler.Space.{
  SameSpace, jobs_arrived-SameSpace, jobs_updated-SameSpace, jobs_dropped-SameSpace,
}
use pipert.Packet.{log_event, packet_retrieved, packet_dropped}
use pipert.Channel.{
  ChannelImpl, log, stamp, set_op_timestamp, packet_ordering, peek_next, release, take_free,
}
use pipert.Channel.Shape.{SameShape, take_free-SameShape, release-SameShape}
use pipert.Pipeline.{
  Pipeline, view, put_channel, store, set_scheduler, log_push, signal_push, insert_packet, push,
  signal_pop, log_retrieval, pop_next, found_packet, get_next, release_packet, drop_packet,
  try_dropping_packet, take_packet, retry, second_round, stamp_acquired, acquire,
}
use pipert.Pipeline.Signals.{store_self, store_other}

-- A channel of the monitor object `st` that has packets.
pub record Serves (p : Pipeline) (st c : ℕ) : Type 0 where
  pub sized : 0 < (p.channel c).capacity
  pub object : (p.channel c).single_thread_object ≡ st

-- All channels keep their objects and capacities, and all queues of the scheduler their space. A
-- monitor object that gets its first queue is that of a channel with packets.
pub record SameRoom (p p' : Pipeline) : Type 0 where
  pub objects : (c : ℕ) → (p'.channel c).single_thread_object ≡ (p.channel c).single_thread_object
  pub capacities : (c : ℕ) → (p'.channel c).capacity ≡ (p.channel c).capacity
  pub states_space : Beside p.scheduler.state_queue p'.scheduler.state_queue
  pub channels_space :
      (st : ℕ)
      → Beside
          (queue_of p.scheduler.state2channel_queues st).heap
          (queue_of p'.scheduler.state2channel_queues st).heap
  pub keys :
      (st : ℕ)
      → is_known (p'.scheduler.state2channel_queues st) ≡ true
      → (is_known (p.scheduler.state2channel_queues st) ≡ true) ⊎ ((c : ℕ) × Serves p st c)

pub SameRoom-refl : (p : Pipeline) → SameRoom p p
SameRoom-refl p = record {
  objects = λ c. refl;
  capacities = λ c. refl;
  states_space = refl;
  channels_space = λ st. refl;
  keys = λ st h. inl h;
}

pub SameRoom-trans : (p q r : Pipeline) → SameRoom p q → SameRoom q r → SameRoom p r
SameRoom-trans p q r a b = record {
  objects = λ c. b.objects c ∙ a.objects c;
  capacities = λ c. b.capacities c ∙ a.capacities c;
  states_space = b.states_space ∙ a.states_space;
  channels_space = λ st. b.channels_space st ∙ a.channels_space st;
  keys = λ st h. elim (b.keys st h) [
    | inl k ↦ a.keys st k
    | inr (c, u) ↦ inr (
      c,
      record {
        sized = subst (λ n. 0 < n) (a.capacities c) u.sized;
        object = sym (a.objects c) ∙ u.object;
      },
    )
  ];
}

module _ (p : Pipeline) (c : ℕ) (ch' : ChannelImpl) (shape : SameShape (p.channel c) ch') where
  same_objects :
      (x : ℕ) → (store p.channel c ch' x).single_thread_object ≡ (p.channel x).single_thread_object
  same_objects x = elim (eq-cases x c) [
    | inl e ↦ rw (e, store_self) shape.object
    | inr n ↦ rw (store_other p.channel c ch' n) refl
  ]

  same_capacities : (x : ℕ) → (store p.channel c ch' x).capacity ≡ (p.channel x).capacity
  same_capacities x = elim (eq-cases x c) [
    | inl e ↦ rw (e, store_self) shape.capacity
    | inr n ↦ rw (store_other p.channel c ch' n) refl
  ]

  pub put_channel-SameRoom : SameRoom p (put_channel p c ch')
  put_channel-SameRoom = record {
    objects = same_objects;
    capacities = same_capacities;
    states_space = refl;
    channels_space = λ st. refl;
    keys = λ st h. inl h;
  }

  pub signalled-SameRoom :
      (d : SchedulerImpl)
      → 0 < (p.channel c).capacity
      → SameSpace ((view (put_channel p c ch')).get_state c) p.scheduler d
      → SameRoom p (record (put_channel p c ch') { scheduler = d })
  signalled-SameRoom d sized s = record {
    objects = same_objects;
    capacities = same_capacities;
    states_space = s.states_space;
    channels_space = s.channels_space;
    keys = λ st h. elim (s.keys st h) [
      | inl k ↦ inl k
      | inr e ↦ inr (c, record { sized = sized; object = sym (same_objects c) ∙ sym e })
    ];
  }
