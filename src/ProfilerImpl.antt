-- ===== src/ProfilerImpl.antt =====
-- src/ProfilerImpl.h and .cpp: the statistics of all channels, gathered and sent. A ProfileData object
-- is known by its address, at which a store holds it; the null pointer is 0. The buffers are sent by a callback: they are
-- listed in the order of its calls. `none` is a failed `assert`.
pub mod Flushing
pub mod Payload
pub mod Sending
pub mod Changing
pub mod Example
mod Tests
use pipert.Base.{
  ℕ, zero, suc, ◌+◌, ◌-◌, Bool, true, false, List, [], ◌∷◌, ◌++◌, Option, none, some, leb, ◌==◌,
  if◌then◌else◌, not, ◌&&◌, ◌>>=◌, ◌>>◌, assert, length, set, drop_last, nth,
}
use pipert.Timer.{Time}
use pipert.SteadyHeap.{std_find}
use pipert.LogAggregate.{Doubles}
use pipert.ProfileData.{Memory, ProfileData, gather_n_serialize}

-- `next_profile_data_` is an `int`: -1 while no operation runs, -2 while the vector changes, and the
-- index of the object that is sent.
pub data ℤ : Type 0 where
  pos : ℕ → ℤ
  negsuc : ℕ → ℤ

abbrev pub minus_1 : ℤ
minus_1 = negsuc 0

abbrev minus_2 : ℤ
minus_2 = negsuc 1

-- `++`
abbrev pub next_int : ℤ → ℤ
next_int (pos n) = pos (suc n)
next_int (negsuc zero) = pos 0
next_int (negsuc (suc n)) = negsuc n

-- `expected == -1`
abbrev equals_minus_1 : ℤ → Bool
equals_minus_1 (negsuc zero) = true
equals_minus_1 (negsuc (suc n)) = false
equals_minus_1 (pos n) = false

-- `worker_joinable` tells whether `worker_thread_` runs.
pub record ProfilerImpl : Type 0 where
  pub buffer_size : ℕ
  pub aggregation_time_msec : ℕ
  pub worker_joinable : Bool
  pub worker_shutdown : Bool
  pub profile_data : List ℕ
  pub next_profile_data : ℤ

-- The constructor
unfoldable pub profiler_impl : ℕ → ℕ → Option ProfilerImpl
profiler_impl buffer_size aggregation_time_msec = do
  assert (leb 64 buffer_size)
  some (record {
    buffer_size = buffer_size;
    aggregation_time_msec = aggregation_time_msec;
    worker_joinable = false;
    worker_shutdown = false;
    profile_data = [];
    next_profile_data = minus_1;
  })

-- `compare_exchange_strong` on `next_profile_data_`, from -1 to another number
unfoldable pub enter : ProfilerImpl → ℤ → Option ProfilerImpl
enter d next = do
  assert (equals_minus_1 d.next_profile_data)
  some (record d { next_profile_data = next })

-- `AddProfileData`
unfoldable pub add_profile_data : ProfilerImpl → ℕ → Option ProfilerImpl
unfolding enter std_find
add_profile_data d object = do
  assert (not (object == 0))
  assert (not d.worker_joinable)
  d' ← enter d minus_2
  assert (std_find d'.profile_data object == length d'.profile_data)
  some (record d' { profile_data = d'.profile_data ++ object ∷ []; next_profile_data = minus_1 })

-- `RemoveProfileData`: the last object takes the place of the one that goes.
unfoldable pub remove_profile_data : ProfilerImpl → ℕ → Option ProfilerImpl
unfolding enter std_find nth
remove_profile_data d object = do
  assert (not (object == 0))
  assert (not d.worker_joinable)
  d' ← enter d minus_2
  let iter = std_find d'.profile_data object
  assert (not (iter == length d'.profile_data))
  let back = nth d'.profile_data (length d'.profile_data - 1)
  some (record d' {
    profile_data = drop_last (set d'.profile_data iter back);
    next_profile_data = minus_1;
  })

-- `Start`
unfoldable pub start : ProfilerImpl → Option ProfilerImpl
start d = do
  assert (not d.worker_joinable)
  some (record d { worker_shutdown = false; worker_joinable = not (d.aggregation_time_msec == 0) })

-- `Stop`, once the worker has ended
unfoldable pub stop : ProfilerImpl → Option ProfilerImpl
stop d =
    if d.aggregation_time_msec == 0
    then (do assert (not d.worker_joinable); some (record d { worker_shutdown = true }))
    else (do
      assert d.worker_joinable
      some (record d { worker_shutdown = true; worker_joinable = false }))

-- The destructor; true where it calls `Stop`.
unfoldable pub destroy : ProfilerImpl → Option Bool
unfolding stop
destroy d = do
  assert (length d.profile_data == 0)
  (if not (d.aggregation_time_msec == 0) && d.worker_joinable
      then (do d' ← stop d; some true)
      else some false)

module _ {ℓ} {A : Type ℓ} (D : Doubles A) (M : Memory A) (string_at : ℕ → List ℕ) where
  -- The loop `do ... while (more)` of `GatherNSend`, of at most that many calls.
  unfoldable pub flush : ℕ → (ℕ → Time) → ℕ → ProfileData A → Option (List (List ℕ) × ProfileData A)
  unfolding gather_n_serialize
  flush zero now size p = none
  flush (suc fuel) now size p = do
    (buffer, p', more) ← gather_n_serialize D M string_at now size p
    (if more
        then (do (buffers, p'') ← flush fuel now size p'; some (buffer ∷ buffers, p''))
        else some (buffer ∷ [], p'))

  -- One call more than there are aggregates.
  unfoldable pub flush_data :
      (ℕ → Time) → ℕ → ProfileData A → Option (List (List ℕ) × ProfileData A)
  unfolding flush
  flush_data now size p = flush (suc (length p.passed + length p.pending)) now size p

  -- The loop of `GatherNSend` on the objects from `next_profile_data_` on; `now` gives the times at
  -- which the aggregates of each are read.
  unfoldable pub send_from :
      (ℕ → ℕ → Time)
      → List ℕ
      → ProfilerImpl
      → (ℕ → ProfileData A)
      → Option (List (List ℕ) × ProfilerImpl × (ℕ → ProfileData A))
  unfolding flush_data
  send_from now [] d store = some ([], d, store)
  send_from now (object ∷ later) d store = do
    (buffers, p) ← flush_data (now object) d.buffer_size (store object)
    (buffers', d', store') ←
        send_from now later (record d { next_profile_data = next_int d.next_profile_data })
          (λ a. if a == object then p else store a)
    some (buffers ++ buffers', d', store')

  -- `GatherNSend`
  unfoldable pub gather_n_send :
      (ℕ → ℕ → Time)
      → ProfilerImpl
      → (ℕ → ProfileData A)
      → Option (List (List ℕ) × ProfilerImpl × (ℕ → ProfileData A))
  unfolding enter send_from
  gather_n_send now d store = do
    d' ← enter d (pos 0)
    (buffers, d'', store') ← send_from now d'.profile_data d' store
    some (buffers, record d'' { next_profile_data = minus_1 }, store')

  -- `SleepNWork`: the rounds that begin before `worker_shutdown_` is seen.
  unfoldable pub sleep_n_work :
      List (ℕ → ℕ → Time)
      → ProfilerImpl
      → (ℕ → ProfileData A)
      → Option (List (List ℕ) × ProfilerImpl × (ℕ → ProfileData A))
  unfolding gather_n_send
  sleep_n_work [] d store = do assert (not (d.aggregation_time_msec == 0)); some ([], d, store)
  sleep_n_work (now ∷ later) d store = do
    (buffers, d', store') ← gather_n_send now d store
    (buffers', d'', store'') ← sleep_n_work later d' store'
    some (buffers ++ buffers', d'', store'')
