-- ===== src/Pipeline/Consistent.antt =====
-- What holds of all channels and the scheduler in src/ChannelImpl.cpp and src/SchedulerImpl.cpp
-- whenever the locks are free.
use mathlib.Core.Path.{fun_ext}
use pipert.Base.{
  eq-cases, eq_self, ne_test, inl, inr, ℕ, ◌≡◌, Bool, List, ◌&&◌, not, ◌==◌, if◌then◌else◌,
  is_empty,
}
use pipert.Scheduler.Invariant.{IsOrdered}
use pipert.Channel.{ChannelImpl}
use pipert.Channel.Accounting.{IsValid}
use pipert.Pipeline.{Pipeline, view}
use pipert.Scheduler.{queue_of}

-- A scheduled channel of the monitor object `st` that has queued packets.
abbrev pub waits : ChannelImpl → ℕ → Bool
waits ch st =
    ch.callback && not (is_empty ch.queued_packets.heap) && (st == ch.single_thread_object)

abbrev pub has_jobs : Pipeline → ℕ → ℕ → Bool
has_jobs p st c = waits (p.channel c) st

-- `held c` are the packets of the channel `c` that code outside of it holds.
pub record IsConsistent (p : Pipeline) (held : ℕ → List ℕ) : Type 0 where
  pub channels : (c : ℕ) → IsValid (p.channel c) (held c)
  pub queues :
      IsOrdered
        (view p).peek_next
        (has_jobs p)
        p.scheduler.state2channel_queues
        p.scheduler.state_queue

-- The same holders, but for those of the channel `c`.
abbrev pub holding : (ℕ → List ℕ) → ℕ → List ℕ → ℕ → List ℕ
holding held c l x = if x == c then l else held x

pub holding-same : (held : ℕ → List ℕ) (c : ℕ) (l : List ℕ) → l ≡ held c → holding held c l ≡ held
holding-same held c l e =
    fun_ext λ x. elim (eq-cases x c) [ inl s ↦ rw (s, eq_self) e | inr n ↦ rw (ne_test n) ]

-- No monitor object was enabled or disabled.
abbrev pub SameFlags : Pipeline → Pipeline → Type 0
SameFlags p p' =
    (st : ℕ)
    → (queue_of p'.scheduler.state2channel_queues st).enabled
      ≡ (queue_of p.scheduler.state2channel_queues st).enabled
