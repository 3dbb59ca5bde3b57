-- ===== src/Pipeline/Popping.antt =====
-- `PopNext` of src/ChannelImpl.cpp, with the signal that it sends.
use mathlib.Core.Option
use pipert.Base.{
  ℕ, ◌-◌, ◌≤◌, ◌<◌, ◌≡◌, refl, inl, inr, Bool-cases, eq_self, ne_test, if_true, if_false, ◌∙◌, true,
  false, List, ◌∷◌, Option, none, some, if◌then◌else◌, arith, is_empty, count, length,
}
use pipert.Timer.{Time}
use pipert.Packet.{log_event, packet_retrieved}
use pipert.SteadyHeap.{front, empty, size, pop_heap}
use pipert.SteadyHeap.Removal.{Removed, pop_heap-Removed, length_pos_of_count}
use pipert.Scheduler.{SchedulerImpl}
use pipert.Scheduler.Invariant.{IsOrdered, front_occurs}
use pipert.Channel.{ChannelImpl, stamp, packet_ordering, log, set_op_timestamp}
use pipert.Channel.Accounting.{IsValid}
use pipert.Pipeline.{Pipeline, view, put_channel, store, signal_pop, log_retrieval, pop_next}
use pipert.Pipeline.Retouch.{retouched, retouched-IsConsistent, stamp-retouched}
use pipert.Pipeline.Consistent.{has_jobs, IsConsistent, holding, SameFlags}
use pipert.Pipeline.Signals.{store_self, store-store, changed, quiet, updated, dropped}

-- The channel after `PopNext` has noted the retrieval of a packet.
abbrev pub noted : ChannelImpl → ℕ → Time → ChannelImpl
noted ch packet now = retouched ch packet now (
    Option.map (◌∷◌ (log_event packet_retrieved (now - stamp ch packet)))
      (set_op_timestamp ch packet now).profile_data)

notes :
    (p : Pipeline) (c packet : ℕ) (now : Time)
    → stamp (p.channel c) packet ≤ now
    → log_retrieval p c packet now ≡ some (put_channel p c (noted (p.channel c) packet now))
unfolding log_retrieval log
notes p c packet now early =
    rw (stamp-retouched (p.channel c) packet now none packet) (ground (arith, early))

module _ (p : Pipeline) (held : ℕ → List ℕ) (c : ℕ) (v : IsConsistent p held)
    (more : is_empty (p.channel c).queued_packets.heap ≡ false) where
  abbrev pub old : ChannelImpl
  old = p.channel c

  abbrev pub packet : ℕ
  packet = front old.queued_packets

  abbrev pub new : ChannelImpl
  new = record old { queued_packets = pop_heap (packet_ordering old) old.queued_packets }

  valid : IsValid old (held c)
  valid = v.channels c

  member : 0 < count packet old.queued_packets.heap
  member = front_occurs old.queued_packets more

  pub removed : Removed (stamp old) old.queued_packets packet new.queued_packets
  unfolding front
  removed =
      pop_heap-Removed (stamp old) old.queued_packets (λ x p q r. valid.order x p q (omega arith))
        (length_pos_of_count packet old.queued_packets.heap member)

  new-IsValid : IsValid new (packet ∷ held c)
  unfolding count
  new-IsValid = record {
    order = removed.order;
    owned = λ x. omega (arith, removed.counts x, valid.owned x);
    sized = omega (
      arith,
      valid.sized,
      removed.shorter,
      length_pos_of_count packet old.queued_packets.heap member,
    );
    timed = λ x h. ground (arith, removed.counts x, valid.timed x);
    reserved = omega (arith, valid.reserved, removed.kept);
  }

  -- The packet is in the queue no more.
  gone : count packet new.queued_packets.heap ≡ 0
  gone = ground (arith, removed.counts packet, valid.owned packet)

  abbrev p₁ : Pipeline
  p₁ = put_channel p c new

  became :
      (d : SchedulerImpl)
      → IsOrdered (view p₁).peek_next (has_jobs p₁) d.state2channel_queues d.state_queue
      → IsConsistent (record p₁ { scheduler = d }) (holding held c (packet ∷ held c))
  became d =
      changed p held v c new refl (holding held c (packet ∷ held c)) d (λ x n. rw (ne_test n))
        (rw eq_self new-IsValid)

  abbrev Pops : Option Pipeline → Type 0
  Pops r =
      (p' : Pipeline) × (r ≡ some p')
      × IsConsistent p' (holding held c (packet ∷ held c))
      × (p'.channel ≡ store p.channel c new)
      × SameFlags p p'

  unscheduled : old.callback ≡ false → Pops (some p₁)
  unscheduled off = (
    p₁,
    refl,
    became p.scheduler
        (quiet p held v c new refl (λ st. ground (arith, off)) (λ st h. ground (arith, off))),
    refl,
    λ st. refl,
  )

  last_popped :
      old.callback ≡ true → is_empty new.queued_packets.heap ≡ true → Pops (signal_pop p₁ c packet)
  unfolding signal_pop empty
  last_popped on vacant =
      let (d, e, s) = dropped p held v c new refl on more vacant in
      (
        record p₁ { scheduler = d },
        rw (store_self, vacant) (ground (arith, e)),
        became d s.ordered,
        refl,
        s.flags,
      )

  one_popped :
      old.callback ≡ true → is_empty new.queued_packets.heap ≡ false → Pops (signal_pop p₁ c packet)
  unfolding signal_pop empty
  one_popped on filled =
      let (d, e, s) = updated p held v c new refl false on on more filled in
      (
        record p₁ { scheduler = d },
        rw (store_self, filled) (ground (arith, e, gone, front_occurs new.queued_packets filled)),
        became d s.ordered,
        refl,
        s.flags,
      )

  signalled : Pops (if old.callback then signal_pop p₁ c packet else some p₁)
  signalled = elim (Bool-cases old.callback) [
    | inr off ↦ let (p', e, r, q, k) = unscheduled off in (p', if_false _ _ off ∙ e, r, q, k)
    | inl on ↦ elim (Bool-cases (is_empty new.queued_packets.heap)) [
      | inl vacant ↦
          let (p', e, r, q, k) = last_popped on vacant in (p', if_true _ _ on ∙ e, r, q, k)
      | inr filled ↦
          let (p', e, r, q, k) = one_popped on filled in (p', if_true _ _ on ∙ e, r, q, k)
    ]
  ]

  fits : length old.queued_packets.heap ≤ old.capacity
  fits = omega (arith, valid.sized)

  -- A drop notes nothing of the packet.
  pub drops :
      (now : Time)
      → (p' : Pipeline) × (pop_next p c now true ≡ some (packet, p'))
        × IsConsistent p' (holding held c (packet ∷ held c))
        × (p'.channel ≡ store p.channel c new)
        × SameFlags p p'
  unfolding pop_next empty size
  drops now = let (p₂, e, r, q, k) = signalled in (p₂, ground (arith, e, more, fits), r, q, k)

  -- Otherwise the time of the retrieval is noted.
  pub retrieves :
      (now : Time)
      → stamp old packet ≤ now
      → (p' : Pipeline) × (pop_next p c now false ≡ some (packet, p'))
        × IsConsistent p' (holding held c (packet ∷ held c))
        × (p'.channel ≡ store p.channel c (noted new packet now))
        × SameFlags p p'
  unfolding pop_next empty size
  retrieves now filled =
      let (p₂, e, r, q, k) = signalled in
      let ch : p₂.channel c ≡ new = rw q (store_self p.channel c new) in
      let early : stamp (p₂.channel c) packet ≤ now = rw ch filled in
      (
        put_channel p₂ c (noted (p₂.channel c) packet now),
        ground (arith, e, more, fits, notes p₂ c packet now early),
        retouched-IsConsistent p₂ (holding held c (packet ∷ held c)) c packet now _ r,
        rw (ch, q) (store-store p.channel c new (noted new packet now)),
        k,
      )
