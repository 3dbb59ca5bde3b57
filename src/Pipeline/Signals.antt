-- ===== src/Pipeline/Signals.antt =====
-- The signals of src/SchedulerImpl.cpp as the methods of src/ChannelImpl.cpp send them: after a
-- change to the queue of one channel.
use mathlib.Core.Path.{fun_ext}
use pipert.Base.{
  ℕ, ◌<◌, ◌≡◌, refl, ◌∙◌, ◌≢◌, inl, inr, eq-cases, eq_self, ne_test, Bool, true, false, some,
  is_empty, arith, List,
}
use pipert.Timer.{max_time}
use pipert.SteadyHeap.{front}
use pipert.Scheduler.{SchedulerImpl, jobs_arrived, jobs_updated, jobs_dropped}
use pipert.Scheduler.Invariant.{IsOrdered, IsOrdered-congr, Signalled, front_occurs}
use pipert.Scheduler.Arrived.{jobs_arrived_orders}
use pipert.Scheduler.Updated.{jobs_updated_orders}
use pipert.Scheduler.Dropped.{jobs_dropped_orders}
use pipert.Channel.{ChannelImpl, peek_next}
use pipert.Channel.Accounting.{IsValid}
use pipert.Pipeline.{Pipeline, view, store, put_channel}
use pipert.Pipeline.Consistent.{waits, has_jobs, IsConsistent}

pub store_self : (m : ℕ → ChannelImpl) (c : ℕ) (ch : ChannelImpl) → store m c ch c ≡ ch
unfolding store
store_self m c ch = rw eq_self

pub store_other :
    (m : ℕ → ChannelImpl) (c : ℕ) (ch : ChannelImpl) {x : ℕ} → x ≢ c → store m c ch x ≡ m x
unfolding store
store_other m c ch n = rw (ne_test n)

pub store-store :
    (m : ℕ → ChannelImpl) (c : ℕ) (a b : ChannelImpl) → store (store m c a) c b ≡ store m c b
unfolding store
store-store m c a b =
    fun_ext λ x. elim (eq-cases x c) [ inl e ↦ rw (e, eq_self) | inr n ↦ rw (ne_test n) ]

-- The earliest stamp in a queue that is not empty lies below the greatest time.
pub peek_next-lt :
    (ch : ChannelImpl) (held : List ℕ)
    → IsValid ch held
    → is_empty ch.queued_packets.heap ≡ false
    → peek_next ch < max_time
unfolding peek_next
peek_next-lt ch held v filled =
    v.timed (front ch.queued_packets) (front_occurs ch.queued_packets filled)

module _ (p : Pipeline) (held : ℕ → List ℕ) (v : IsConsistent p held) (c : ℕ) (ch' : ChannelImpl)
    (object : ch'.single_thread_object ≡ (p.channel c).single_thread_object) where
  abbrev p' : Pipeline
  p' = put_channel p c ch'

  abbrev Ordered : SchedulerImpl → Type 0
  Ordered d = IsOrdered (view p').peek_next (has_jobs p') d.state2channel_queues d.state_queue

  pub changed :
      (held' : ℕ → List ℕ) (d : SchedulerImpl)
      → ((x : ℕ) → x ≢ c → held' x ≡ held x)
      → IsValid ch' (held' c)
      → Ordered d
      → IsConsistent (record p' { scheduler = d }) held'
  changed held' d others valid ordered = record {
    channels = λ x. elim (eq-cases x c) [
      | inl e ↦ rw (e, store_self) valid
      | inr n ↦ rw (store_other p.channel c ch' n, others x n) (v.channels x)
    ];
    queues = ordered;
  }

  peek_other : (x : ℕ) → x ≢ c → (view p').peek_next x ≡ (view p).peek_next x
  peek_other x n = rw (store_other p.channel c ch' n)

  jobs_other : (st x : ℕ) → x ≢ c → has_jobs p' st x ≡ has_jobs p st x
  jobs_other st x n = rw (store_other p.channel c ch' n)

  jobs_own : (st : ℕ) → has_jobs p' st c ≡ waits ch' st
  jobs_own st = rw (store_self p.channel c ch')

  jobs_same :
      ((st : ℕ) → waits ch' st ≡ waits (p.channel c) st)
      → (st x : ℕ) → has_jobs p' st x ≡ has_jobs p st x
  jobs_same same_jobs st x = elim (eq-cases x c) [
    | inl e ↦ rw (e, store_self) (same_jobs st)
    | inr n ↦ jobs_other st x n
  ]

  -- No signal is due where the channel keeps its place.
  pub quiet :
      ((st : ℕ) → waits ch' st ≡ waits (p.channel c) st)
      → ((st : ℕ) → waits ch' st ≡ true → peek_next ch' ≡ peek_next (p.channel c))
      → Ordered p.scheduler
  quiet same_jobs same_peek =
      IsOrdered-congr (view p).peek_next (view p').peek_next (has_jobs p) (has_jobs p')
        p.scheduler.state2channel_queues p.scheduler.state_queue
        (λ st x h. elim (eq-cases x c) [
          | inl e ↦ rw (e, store_self) (same_peek st (same_jobs st ∙ (rw e at h)))
          | inr n ↦ peek_other x n
        ])
        (jobs_same same_jobs) v.queues

  pub arrived :
      ch'.callback ≡ true
      → is_empty (p.channel c).queued_packets.heap ≡ true
      → is_empty ch'.queued_packets.heap ≡ false
      → peek_next ch' < max_time
      → (d : SchedulerImpl) × (jobs_arrived (view p') p.scheduler c ≡ some d)
        × Signalled (view p') (has_jobs p') p.scheduler d
  arrived scheduled vacant filled timed =
      jobs_arrived_orders (view p).peek_next (has_jobs p) (has_jobs p') (view p') p.scheduler c
        (record {
          ordered = v.queues;
          same = peek_other;
          idle = λ st. ground (arith, vacant);
          others = jobs_other;
          own = λ st. ground (arith, jobs_own st, store_self p.channel c ch', scheduled, filled);
          timed = rw (store_self p.channel c ch') timed;
          times = λ st x h. peek_next-lt (p.channel x) (held x) (v.channels x) (ground arith);
        })

  pub updated :
      (was_push : Bool)
      → ((p.channel c).callback ≡ true)
      → ch'.callback ≡ true
      → is_empty (p.channel c).queued_packets.heap ≡ false
      → is_empty ch'.queued_packets.heap ≡ false
      → (d : SchedulerImpl) × (jobs_updated (view p') p.scheduler c was_push ≡ some d)
        × Signalled (view p') (has_jobs p') p.scheduler d
  updated was_push scheduled scheduled' filled filled' =
      jobs_updated_orders (view p).peek_next (has_jobs p') (view p') p.scheduler c
        (record {
          ordered =
              IsOrdered-congr (view p).peek_next (view p).peek_next (has_jobs p) (has_jobs p')
                p.scheduler.state2channel_queues p.scheduler.state_queue (λ st x h. refl)
                (jobs_same (λ st. ground (arith, object, scheduled, scheduled', filled, filled')))
                v.queues;
          same = peek_other;
          own = λ st. ground (arith, jobs_own st, store_self p.channel c ch', scheduled', filled');
        })
        was_push

  pub dropped :
      ((p.channel c).callback ≡ true)
      → is_empty (p.channel c).queued_packets.heap ≡ false
      → is_empty ch'.queued_packets.heap ≡ true
      → (d : SchedulerImpl) × (jobs_dropped (view p') p.scheduler c ≡ some d)
        × Signalled (view p') (has_jobs p') p.scheduler d
  dropped scheduled filled vacant =
      jobs_dropped_orders (view p).peek_next (has_jobs p) (has_jobs p') (view p') p.scheduler c
        (record {
          ordered = v.queues;
          same = peek_other;
          own = λ st. ground (arith, store_self p.channel c ch', object, scheduled, filled);
          gone = λ st. ground (arith, jobs_own st, vacant);
          others = jobs_other;
        })
