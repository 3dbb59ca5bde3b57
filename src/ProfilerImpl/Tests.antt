-- ===== src/ProfilerImpl/Tests.antt =====
-- The profiler of Example.antt.
use pipert.ProfilerImpl.Payload.{payload, flush_data-payload}
use pipert.Base.{length, ◌++◌, ℕ, ◌<◌, ◌≡◌, refl, List, [], ◌∷◌, ◌++◌, some, none, count, arith}
use pipert.LogAggregate.Example.{shifted}
use pipert.ProfileData.{ProfileData, begin_round, header}
use pipert.ProfileData.Gathering.{Readable, report}
use pipert.ProfileData.Example.{little_endian, names, channel_data, read_at}
use pipert.ProfilerImpl.{ProfilerImpl, profiler_impl, gather_n_send, flush_data, add_profile_data}
use pipert.ProfilerImpl.Example.{two_channels, data_at, times, once, all-Idle}
use pipert.ProfilerImpl.Flushing.{AllFit, Flushed, flush_data-Flushed}
use pipert.ProfilerImpl.Sending.{Sends, drained, gather_n_send-Sends}
use pipert.ProfilerImpl.Changing.{gather_n_send-small_buffer}

flush_data-Flushed_example :
    Flushed shifted little_endian names read_at 128 3 channel_data (begin_round names channel_data)
flush_data-Flushed_example =
    flush_data-Flushed shifted little_endian names read_at 128 channel_data (omega arith)
      (unfold Readable begin_round in (omega arith, omega arith, (omega arith, omega arith, tt)))

flush_data-payload_example :
    (buffers buffers' : List (List ℕ)) × (p' : ProfileData ℕ) × (flush_data shifted little_endian
        names read_at 128 channel_data
      ≡ some (buffers, p'))
    × (flush_data shifted little_endian names read_at 508 channel_data ≡ some (buffers', p'))
    × (payload (length (header names channel_data)) buffers
        ≡ (begin_round names channel_data).0
          ++ report shifted little_endian names read_at (begin_round names channel_data).1.pending)
    × (payload (length (header names channel_data)) buffers'
        ≡ (begin_round names channel_data).0
          ++ report shifted little_endian names read_at (begin_round names channel_data).1.pending)
flush_data-payload_example =
    flush_data-payload shifted little_endian names read_at 128 508 channel_data (omega arith)
      (omega arith)
      (unfold Readable begin_round in (omega arith, omega arith, (omega arith, omega arith, tt)))

gather_n_send-Sends_example :
    (buffers : List (List ℕ)) × (store' : (ℕ → ProfileData ℕ)) × (gather_n_send shifted
        little_endian names times two_channels data_at
      ≡ some (buffers, two_channels, store'))
    × Sends shifted little_endian names times (7 ∷ 8 ∷ []) data_at buffers
    × AllFit 128 buffers
    × ((a : ℕ)
        → 0 < count a (7 ∷ 8 ∷ [])
        → store' a ≡ drained shifted little_endian names (times a) (data_at a))
    × ((a : ℕ) → count a (7 ∷ 8 ∷ []) ≡ 0 → store' a ≡ data_at a)
gather_n_send-Sends_example =
    gather_n_send-Sends shifted little_endian names times two_channels data_at refl (omega arith)
      once all-Idle

gather_n_send-small_buffer_example :
    (d d' : ProfilerImpl) × (profiler_impl 100 0 ≡ some d)
    × (add_profile_data d 9 ≡ some d')
    × (gather_n_send shifted little_endian names times d' data_at ≡ none)
gather_n_send-small_buffer_example =
    gather_n_send-small_buffer shifted little_endian names times data_at 100 0 9
      (λ e. omega (arith, e)) (omega arith) (omega arith)
