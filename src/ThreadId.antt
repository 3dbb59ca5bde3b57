-- ===== src/ThreadId.antt =====
-- src/ThreadId.h and .cpp: the tags of threads. An `int` stands here as the number with its 32 bits,
-- and `fetch_add` and `fetch_sub` wrap around. A thread is a number; what is `thread_local` is a
-- function of it. Each operation touches the shared counters by one atomic operation at most, so that
-- a run is a sequence of operations of the threads.
pub mod Tagging
pub mod Distinct
mod Tests
use pipert.Base.{
  ℕ, suc, ◌+◌, ◌-◌, ◌%◌, ◌≡◌, Bool, true, false, List, [], ◌∷◌, Option, none, some, ltb, leb, ◌==◌,
  ◌&&◌, not, if◌then◌else◌, ◌>>=◌, ◌>>◌, assert,
}

-- 2 ^ 32, and -1
abbrev pub two_32 : ℕ
two_32 = 4294967296

abbrev pub minus_one : ℕ
minus_one = 4294967295

-- `> 0` and `< 0` of an `int`
abbrev pub is_positive : ℕ → Bool
is_positive n = ltb 0 n && ltb n 2147483648

abbrev pub is_negative : ℕ → Bool
is_negative n = leb 2147483648 n

abbrev pub untagged_value : ℕ
untagged_value = 0

-- The static and the `thread_local` members
pub record Threads : Type 0 where
  pub current_thread_id : ℕ → ℕ
  pub current_thread_name : ℕ → ℕ
  pub hand_tag_next : ℕ
  pub auto_tag_next : ℕ

-- As they are initialised; `not_available` is the pointer to "N/A".
unfoldable pub initial_threads : ℕ → Threads
initial_threads not_available = record {
  current_thread_id = λ t. untagged_value;
  current_thread_name = λ t. not_available;
  hand_tag_next = 1;
  auto_tag_next = minus_one;
}

pub record ThreadId : Type 0 where
  pub thread_id : ℕ
  pub thread_name : ℕ

-- The constructor
thread_id_of : ℕ → ℕ → Option ThreadId
thread_id_of thread_id thread_name = do
  assert (not (thread_id == untagged_value))
  some (record { thread_id = thread_id; thread_name = thread_name })

-- `IsCurrentThreadUntagged`
abbrev pub is_untagged : Threads → ℕ → Bool
is_untagged s t = s.current_thread_id t == untagged_value

abbrev pub set_tag : Threads → ℕ → ℕ → Threads
set_tag s t tag = record s {
  current_thread_id = λ u. if u == t then tag else s.current_thread_id u;
}

-- `fetch_sub` on the counter of automatic tags
auto_tag : Threads → ℕ → Threads
auto_tag s t =
    set_tag (record s { auto_tag_next = (s.auto_tag_next + minus_one) % two_32 }) t s.auto_tag_next

-- `GetCurrentThread`, on the thread `t`
unfoldable pub get_current_thread : Threads → ℕ → Option (ThreadId × Threads)
unfolding auto_tag thread_id_of
get_current_thread s t = do
  let s' = if is_untagged s t then auto_tag s t else s
  id ← thread_id_of (s'.current_thread_id t) (s'.current_thread_name t)
  some (id, s')

-- `TagCurrentThread`
unfoldable pub tag_current_thread : Threads → ℕ → Option Threads
tag_current_thread s t = do
  assert (is_untagged s t)
  some (set_tag (record s { hand_tag_next = (s.hand_tag_next + 1) % two_32 }) t s.hand_tag_next)

-- `SetNameOfCurrentThread`
unfoldable pub set_name_of_current_thread : Threads → ℕ → ℕ → Option Threads
set_name_of_current_thread s t thread_name = do
  assert (is_positive (s.current_thread_id t))
  some (record s {
    current_thread_name = λ u. if u == t then thread_name else s.current_thread_name u;
  })

-- `IsHandTagged`, `IsAutoTagged`
abbrev pub is_hand_tagged : ThreadId → Bool
is_hand_tagged id = is_positive id.thread_id

abbrev pub is_auto_tagged : ThreadId → Bool
is_auto_tagged id = is_negative id.thread_id

-- `GetIdForSerialization`, `GetName`
abbrev pub get_id_for_serialization : ThreadId → ℕ
get_id_for_serialization id = id.thread_id

abbrev pub get_name : ThreadId → ℕ
get_name id = id.thread_name

-- A step of the thread `t`.
pub data Step : Threads → Threads → Type 0 where
  gets :
      {s s' : Threads} (t : ℕ) (id : ThreadId) → get_current_thread s t ≡ some (id, s') → Step s s'
  tags : {s s' : Threads} (t : ℕ) → tag_current_thread s t ≡ some s' → Step s s'
  names :
      {s s' : Threads} (t thread_name : ℕ)
      → set_name_of_current_thread s t thread_name ≡ some s'
      → Step s s'

-- That many steps from the beginning on.
pub data Run (not_available : ℕ) : ℕ → Threads → Type 0 where
  begin : Run not_available 0 (initial_threads not_available)
  next : {n : ℕ} {s s' : Threads} → Run not_available n s → Step s s' → Run not_available (suc n) s'
