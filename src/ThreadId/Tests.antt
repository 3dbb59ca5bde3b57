-- ===== src/ThreadId/Tests.antt =====
-- A hand tag of the thread 7, then the identifications of the threads 7 and 8.
use pipert.Base.{◌≡◌, ◌≢◌, refl, true, false, some, ◌==◌, if◌then◌else◌, arith}
use pipert.ThreadId.{
  Threads, ThreadId, tags, begin, next, initial_threads, tag_current_thread, get_current_thread,
  is_untagged, is_auto_tagged,
}
use pipert.ThreadId.Distinct.{get_current_thread-distinct}

-- The thread 7 has the first hand tag.
abbrev one_tagged : Threads
one_tagged = record {
  current_thread_id = λ u. if u == 7 then 1 else 0;
  current_thread_name = λ u. 99;
  hand_tag_next = 2;
  auto_tag_next = 4294967295;
}

tagging : tag_current_thread (initial_threads 99) 7 ≡ some one_tagged
unfolding tag_current_thread initial_threads
tagging = refl

get_current_thread-distinct_example :
    (id id' : ThreadId) × (s' s'' : Threads) × (get_current_thread one_tagged 7 ≡ some (id, s'))
    × (get_current_thread s' 8 ≡ some (id', s''))
    × (id.thread_id ≢ id'.thread_id)
    × (is_untagged one_tagged 7 ≡ true → is_auto_tagged id ≡ true)
    × (is_untagged one_tagged 7 ≡ false → id.thread_id ≡ 1)
get_current_thread-distinct_example =
    get_current_thread-distinct 99 1 one_tagged 7 8 (next begin (tags 7 tagging)) (omega arith)
      (λ e. absurd (omega (arith, e)))
