-- ===== src/Worker/Space/Creating.antt =====
-- The constructor of ChannelImpl reserves space for its channel: `RegisterChannel` of
-- src/SchedulerImpl.cpp.
use pipert.Base.{
  ℕ, ◌≤◌, ◌<◌, ◌≡◌, refl, ◌∙◌, sym, subst, ◌≢◌, inl, inr, eq-cases, eq_self, Bool-cases, List, ◌∷◌,
  [], ◌++◌, Option, some, none, ◌==◌, if◌then◌else◌, arith, count,
}
use pipert.SteadyHeap.{reserve}
use pipert.Scheduler.{EnabledChannelHeap, queue_of, put_queue}
use pipert.Scheduler.Registering.{register_state, register_channel}
use pipert.Channel.{ChannelImpl}
use pipert.Pipeline.{Pipeline, put_channel}
use pipert.Pipeline.Signals.{store_self, store_other}
use pipert.Pipeline.Starting.{create_channel}
use pipert.Pipeline.Space.{Serves}
use pipert.Worker.Space.{IsReserved}

abbrev registered : Pipeline → ℕ → ChannelImpl → Option EnabledChannelHeap → Pipeline
registered p c ch q = record (put_channel p c ch) {
  scheduler =
      register_state (record p.scheduler { channels = p.scheduler.channels ++ c ∷ [] })
        ch.single_thread_object q;
}

create_channel-result :
    (p p' : Pipeline) (c : ℕ) (ch : ChannelImpl)
    → create_channel p c ch ≡ some p'
    → p' ≡ registered p c ch (p.scheduler.state2channel_queues ch.single_thread_object)
unfolding create_channel register_channel
create_channel-result p p' c ch e =
    let e' = rw (store_self p.channel c ch) at e in
    elim (Bool-cases p.scheduler.running) [
      | inl f ↦ absurd (ground (arith, f, e))
      | inr f ↦ ground (arith, f, e')
    ]

module _ (p : Pipeline) (c : ℕ) (ch : ChannelImpl) (r : IsReserved p) where
  abbrev state : ℕ
  state = ch.single_thread_object

  abbrev users' : ℕ → List ℕ
  users' st = if st == state then c ∷ r.users st else r.users st

  -- A channel with packets is the new one or an old one.
  module _ (q : Option EnabledChannelHeap) (st x : ℕ) (s : Serves (registered p c ch q) st x) where
    old : x ≢ c → Serves p st x
    old n =
        let same = store_other p.channel c ch n in
        record { sized = rw same at s.sized; object = rw same at s.object }

    new : x ≡ c → st ≡ state
    new e = sym s.object ∙ rw (e, store_self) refl

    using' : 0 < count x (users' st)
    unfolding count
    using' = elim (eq-cases x c) [
      | inl e ↦ ground (arith, new e, e)
      | inr n ↦ ground (arith, r.using st x (old n))
    ]

    served' :
        (states : List ℕ)
        → ((y : ℕ) → count y r.states ≤ count y states)
        → 0 < count state states
        → 0 < count st states
    served' states more here = elim (eq-cases x c) [
      | inl e ↦ ground (arith, here, new e)
      | inr n ↦ omega (arith, r.served st x (old n), more st)
    ]

  reserved :
      (q : Option EnabledChannelHeap)
      → p.scheduler.state2channel_queues state ≡ q
      → IsReserved (registered p c ch q)
  unfolding register_state reserve queue_of put_queue count
  reserved none e = record {
    states = state ∷ r.states;
    users = users';
    states_fit = omega (arith, r.states_fit);
    users_fit = λ st. ground (arith, r.users_fit st, e);
    known = λ st h. ground (arith, r.known st, h);
    served = λ st x s.
        served' none st x s (state ∷ r.states) (λ y. omega arith) (ground (arith, eq_self state));
    using = λ st x s. using' none st x s;
  }
  reserved (some q) e = record {
    states = r.states;
    users = users';
    states_fit = omega (arith, r.states_fit);
    users_fit = λ st. ground (arith, r.users_fit st, e);
    known = λ st h. ground (arith, r.known st, h, e);
    served =
        λ st x s. served' (some q) st x s r.states (λ y. omega arith) (r.known state (rw e refl));
    using = λ st x s. using' (some q) st x s;
  }

pub create_channel-IsReserved :
    (p p' : Pipeline) (c : ℕ) (ch : ChannelImpl)
    → create_channel p c ch ≡ some p'
    → IsReserved p
    → IsReserved p'
create_channel-IsReserved p p' c ch e r =
    subst IsReserved (sym (create_channel-result p p' c ch e)) (reserved p c ch r _ refl)
