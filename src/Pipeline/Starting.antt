-- ===== src/Pipeline/Starting.antt =====
-- The construction of channels in src/ChannelImpl.cpp, which registers them at the scheduler.
use pipert.Base.{
  ℕ, ◌<◌, ◌≡◌, refl, ap, inl, inr, eq-cases, Bool, true, false, List, [], Option, some, arith,
  ◌>>=◌, is_empty, count, sym,
}
use pipert.SteadyHeap.{reserve}
use pipert.Scheduler.{queue_of}
use pipert.Scheduler.Invariant.{IsOrdered-congr}
use pipert.Scheduler.Registering.{
  stopped_scheduler, scheduler_impl, register_channel, register_channel-IsOrdered,
}
use pipert.Channel.{ChannelImpl, new_channel}
use pipert.Channel.Starting.{new_channel-IsValid}
use pipert.Pipeline.{Pipeline, view, put_channel, store}
use pipert.Pipeline.Consistent.{waits, has_jobs, IsConsistent, SameFlags}
use pipert.Pipeline.Signals.{store_self, store_other}

-- A place at which no channel has been constructed has no packets.
abbrev pub no_channels : ℕ → ChannelImpl
no_channels c = new_channel [] 0 1 0 false

-- A scheduler that has no channels yet.
unfoldable pub new_pipeline : ℕ → Bool → Option Pipeline
unfolding scheduler_impl
new_pipeline workers_number has_profiler = do
  d ← scheduler_impl workers_number has_profiler
  some (record { channel = no_channels; scheduler = d })

-- The constructor of ChannelImpl.
unfoldable pub create_channel : Pipeline → ℕ → ChannelImpl → Option Pipeline
unfolding register_channel
create_channel p c ch = do
  let p' = put_channel p c ch
  d ← register_channel (view p') p'.scheduler c
  some (record p' { scheduler = d })

no_jobs :
    (name : List ℕ) (capacity size object : ℕ) (callback : Bool) (st : ℕ)
    → waits (new_channel name capacity size object callback) st ≡ false
unfolding new_channel reserve
no_jobs name capacity size object callback st = ground arith

-- A scheduler with at least one worker makes a consistent pipeline, which is not running, has no packets
-- anywhere, and disables no monitor object.
pub new_pipeline-IsConsistent :
    (workers_number : ℕ) (has_profiler : Bool)
    → 0 < workers_number
    → (p : Pipeline) × (new_pipeline workers_number has_profiler ≡ some p)
      × IsConsistent p (λ c. [])
      × (p.scheduler.running ≡ false)
      × ((st : ℕ) → (queue_of p.scheduler.state2channel_queues st).enabled ≡ true)
unfolding new_pipeline scheduler_impl queue_of count
new_pipeline-IsConsistent workers_number has_profiler positive = (
  record { channel = no_channels; scheduler = stopped_scheduler workers_number has_profiler },
  ground (arith, positive),
  record {
    channels = λ c. new_channel-IsValid [] 0 1 0 false (omega arith);
    queues = record {
      channels_order = λ st c p q. omega arith;
      channels_exact = λ st c. rw (no_jobs [] 0 1 0 false st) refl;
      states_order = λ c p q. omega arith;
      states_exact = λ st. refl;
    };
  },
  refl,
  λ st. refl,
)

-- The constructor of a channel, at a place that holds no packets, meets no failing assertion while
-- the scheduler is not running: it changes no other channel, and leaves a consistent pipeline in
-- which the same monitor objects are enabled.
pub create_channel-IsConsistent :
    (p : Pipeline) (held : ℕ → List ℕ) (c : ℕ) (name : List ℕ) (capacity size object : ℕ)
    (callback : Bool)
    → IsConsistent p held
    → p.scheduler.running ≡ false
    → is_empty (p.channel c).queued_packets.heap ≡ true
    → held c ≡ []
    → 0 < size
    → (p' : Pipeline) × (create_channel p c (new_channel name capacity size object callback)
        ≡ some p')
      × IsConsistent p' held
      × (p'.scheduler.running ≡ false)
      × (p'.channel ≡ store p.channel c (new_channel name capacity size object callback))
      × SameFlags p p'
unfolding create_channel
create_channel-IsConsistent p held c name capacity size object callback v stopped vacant unheld
      sized =
    let ch = new_channel name capacity size object callback in
    let p₁ = put_channel p c ch in
    let idle : (st : ℕ) → has_jobs p st c ≡ false = λ st. ground (arith, vacant) in
    let ordered =
      IsOrdered-congr (view p).peek_next (view p₁).peek_next (has_jobs p) (has_jobs p₁)
        p.scheduler.state2channel_queues p.scheduler.state_queue
        (λ st x h. elim (eq-cases x c) [
          | inl e ↦ ground (arith, ap (has_jobs p st) e, h, vacant)
          | inr n ↦ rw (store_other p.channel c ch n)
        ])
        (λ st x. elim (eq-cases x c) [
          | inl e ↦ rw (e, store_self, no_jobs) (sym (idle st))
          | inr n ↦ rw (store_other p.channel c ch n)
        ])
        v.queues in
    let (d, e, o, l, s, k) =
      register_channel-IsOrdered (view p₁).peek_next (has_jobs p₁) (view p₁) p.scheduler c stopped
        ordered in
    (
      record p₁ { scheduler = d },
      rw e refl,
      record {
        channels = λ x. elim (eq-cases x c) [
          | inl e ↦
              rw (e, store_self, unheld)
                (new_channel-IsValid name capacity size object callback sized)
          | inr n ↦ rw (store_other p.channel c ch n) (v.channels x)
        ];
        queues = o;
      },
      s,
      refl,
      k,
    )
