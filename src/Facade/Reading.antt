-- ===== src/Facade/Reading.antt =====
-- What src/ChannelBase.cpp tells of a channel, and its `Log`.
use pipert.Base.{ℕ, ◌+◌, ◌≡◌, refl, List, Option, some, length, ◌>>=◌}
use pipert.Packet.{LogEvent}
use pipert.Channel.{log, get_free_buffer_length, get_queued_buffer_length, peek_next}
use pipert.Channel.Accounting.{IsValid}
use pipert.Pipeline.{Pipeline, put_channel}
use pipert.Pipeline.Consistent.{IsConsistent}
use pipert.Pipeline.Signals.{changed, quiet}
use pipert.Facade.{ChannelBase}

get_capacity : Pipeline → ChannelBase → Option ℕ
get_capacity p b = do c ← b.impl; some (p.channel c).capacity

abbrev get_packet_size : Pipeline → ChannelBase → Option ℕ
get_packet_size p b = do c ← b.impl; some (p.channel c).packet_size

abbrev get_name : Pipeline → ChannelBase → Option (List ℕ)
get_name p b = do c ← b.impl; some (p.channel c).name

free_length : Pipeline → ChannelBase → Option ℕ
unfolding get_free_buffer_length
free_length p b = do c ← b.impl; some (get_free_buffer_length (p.channel c))

queued_length : Pipeline → ChannelBase → Option ℕ
unfolding get_queued_buffer_length
queued_length p b = do c ← b.impl; some (get_queued_buffer_length (p.channel c))

-- `Log`
log_base : Pipeline → ChannelBase → LogEvent → Option Pipeline
unfolding log
log_base p b e = do c ← b.impl; some (put_channel p c (log (p.channel c) e))

module _ (p : Pipeline) (held : ℕ → List ℕ) (v : IsConsistent p held) (b : ChannelBase) (c : ℕ)
    (bound : b.impl ≡ some c) where
  -- The free packets, the queued ones and the ones that are held make up the capacity.
  lengths_sum :
      (free queued capacity : ℕ) × (free_length p b ≡ some free)
      × (queued_length p b ≡ some queued)
      × (get_capacity p b ≡ some capacity)
      × (free + queued + length (held c) ≡ capacity)
  unfolding free_length queued_length get_capacity
  lengths_sum = (
    length (p.channel c).free_packets,
    length (p.channel c).queued_packets.heap,
    (p.channel c).capacity,
    rw bound refl,
    rw bound refl,
    rw bound refl,
    (v.channels c).sized,
  )

  logged-IsValid : (e : LogEvent) → IsValid (log (p.channel c) e) (held c)
  unfolding log
  logged-IsValid e =
      let w = v.channels c in
      record {
        order = w.order;
        owned = w.owned;
        sized = w.sized;
        timed = w.timed;
        reserved = w.reserved;
      }

  -- Logging an event at any time disturbs neither the packets nor the queues.
  log_base-IsConsistent :
      (e : LogEvent) → (p' : Pipeline) × (log_base p b e ≡ some p') × IsConsistent p' held
  unfolding log_base log peek_next
  log_base-IsConsistent e =
      let new = log (p.channel c) e in
      (
        put_channel p c new,
        rw bound refl,
        changed p held v c new refl held p.scheduler (λ x n. refl) (logged-IsValid e)
            (quiet p held v c new refl (λ st. refl) (λ st h. refl)),
      )
