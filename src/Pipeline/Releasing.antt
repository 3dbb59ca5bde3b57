-- ===== src/Pipeline/Releasing.antt =====
-- `Release` of src/ChannelImpl.cpp.
use mathlib.Core.Option
use pipert.Base.{
  ℕ, ◌-◌, ◌≤◌, ◌<◌, ◌≡◌, refl, ◌≢◌, eq_self, ne_test, true, false, List, ◌∷◌, Option, some, arith,
  count, length,
}
use pipert.Timer.{Time}
use pipert.Packet.{LogEvent, log_event, read_time}
use pipert.Channel.{ChannelImpl, is_slot, stamp, release, log, peek_next}
use pipert.Channel.Accounting.{IsValid}
use pipert.Pipeline.{Pipeline, put_channel, release_packet}
use pipert.Pipeline.Consistent.{IsConsistent, holding}
use pipert.Pipeline.Signals.{store_self, store_other, changed, quiet}

module _ (p : Pipeline) (held : ℕ → List ℕ) (c packet : ℕ) (rest : List ℕ)
    (v : IsConsistent p (holding held c (packet ∷ rest))) where
  abbrev pub old : ChannelImpl
  old = p.channel c

  valid : IsValid old (packet ∷ rest)
  valid = rw (eq_self c) at (v.channels c)

  in_pool : is_slot old packet ≡ true
  unfolding count
  in_pool = ground (arith, valid.owned packet)

  room : length old.free_packets < old.capacity
  room = omega (arith, valid.sized)

  abbrev pub freed : Option (List LogEvent) → ChannelImpl
  freed profile = record old { profile_data = profile; free_packets = packet ∷ old.free_packets }

  freed-IsValid : (profile : Option (List LogEvent)) → IsValid (freed profile) rest
  unfolding count
  freed-IsValid profile = record {
    order = valid.order;
    owned = λ x. omega (arith, valid.owned x);
    sized = omega (arith, valid.sized);
    timed = valid.timed;
    reserved = valid.reserved;
  }

  peek_freed : (profile : Option (List LogEvent)) → peek_next (freed profile) ≡ peek_next old
  unfolding peek_next
  peek_freed profile = refl

  pub freed-IsConsistent :
      (profile : Option (List LogEvent))
      → IsConsistent (put_channel p c (freed profile)) (holding held c rest)
  freed-IsConsistent profile =
      changed p (holding held c (packet ∷ rest)) v c (freed profile) refl (holding held c rest)
        p.scheduler (λ x n. rw (ne_test n)) (rw eq_self (freed-IsValid profile))
        (quiet p (holding held c (packet ∷ rest)) v c (freed profile) refl (λ st. refl)
          (λ st h. peek_freed profile))

  -- A drop frees the packet and notes nothing.
  pub release_dropped :
      (now : Time)
      → release_packet p c packet now true ≡ some (put_channel p c (freed old.profile_data))
  unfolding release_packet release
  release_dropped now = ground (arith, in_pool, room)

  pub release_read :
      (now : Time)
      → (old.pool packet).op_timestamp ≤ now
      → release_packet p c packet now false
        ≡ some (
            put_channel p c (
              freed (
                Option.map
                  (◌∷◌ (log_event read_time (now - (old.pool packet).op_timestamp)))
                  old.profile_data)))
  unfolding release_packet release log
  release_read now early = ground (arith, in_pool, room)

-- The packet went from its holder to the free ones; nothing else has changed but the profile.
pub record Released (p : Pipeline) (held : ℕ → List ℕ) (c packet : ℕ) (rest : List ℕ)
    (p' : Pipeline) : Type 0 where
  pub consistent : IsConsistent p' (holding held c rest)
  pub free : (p'.channel c).free_packets ≡ packet ∷ (p.channel c).free_packets
  pub queued : (p'.channel c).queued_packets ≡ (p.channel c).queued_packets
  pub stamps : (x : ℕ) → stamp (p'.channel c) x ≡ stamp (p.channel c) x
  pub others : (x : ℕ) → x ≢ c → p'.channel x ≡ p.channel x
  pub same_scheduler : p'.scheduler ≡ p.scheduler

-- On a consistent pipeline, `Release` of a held packet that was not acquired or retrieved in the
-- future meets no failing assertion. It makes the packet the next free one, leaves all else as it is
-- but the profile, and the pipeline consistent.
pub release_frees :
    (p : Pipeline) (held : ℕ → List ℕ) (c packet : ℕ) (rest : List ℕ) (now : Time)
    → IsConsistent p (holding held c (packet ∷ rest))
    → ((p.channel c).pool packet).op_timestamp ≤ now
    → (p' : Pipeline) × (release_packet p c packet now false ≡ some p')
      × Released p held c packet rest p'
release_frees p held c packet rest now v early =
    let read = log_event read_time (now - ((p.channel c).pool packet).op_timestamp) in
    let profile = Option.map (◌∷◌ read) (p.channel c).profile_data in
    let gone = freed p held c packet rest v profile in
    (
      put_channel p c gone,
      release_read p held c packet rest v now early,
      record {
        consistent = freed-IsConsistent p held c packet rest v profile;
        free = rw store_self;
        queued = rw store_self;
        stamps = λ x. rw store_self;
        others = λ x n. rw (store_other p.channel c gone n);
        same_scheduler = refl;
      },
    )
