-- ===== src/Worker/Interleaving.antt =====
-- The locked parts of `Acquire` in src/ChannelImpl.cpp, one at a time, as other threads may come in
-- between: what each of them leaves of a consistent pipeline, where it succeeds.
use mathlib.Core.Option
use mathlib.Core.Path.{fun_ext}
use pipert.Base.{
  ℕ, ◌≡◌, refl, ap, ◌∙◌, sym, subst, Option, none, Bool-cases, inl, inr, eq-cases, eq_self, ne_test,
  count, true, List, [], ◌∷◌, ◌++◌, ◌⊎◌, some, arith, is_empty,
}
use pipert.Timer.{Time}
use pipert.Packet.{LogEvent, log_event, packet_dropped}
use pipert.SteadyHeap.{empty}
use pipert.Channel.{log, set_op_timestamp}
use pipert.Pipeline.{Pipeline, put_channel, take_packet, get_next, release_packet, acquire}
use pipert.Pipeline.Consistent.{IsConsistent, holding, SameFlags}
use pipert.Pipeline.Retouch.{retouched-IsConsistent, profiled-IsConsistent}
use pipert.Pipeline.Retrieval.{drop_oldest}
use pipert.Pipeline.Releasing.{freed-IsConsistent, release_dropped}
use pipert.Pipeline.Filling.{SameElements, rearranged-IsConsistent}
use pipert.Pipeline.Acquiring.{takes, taken-IsConsistent, none_free}
use pipert.Worker.{is_some}
use pipert.Worker.Effects.{same_result}
use pipert.Worker.Running.{
  System, Step, Steps, takes_free, evicts, drops, stamps, logs, here, next, Part, free_taken,
  oldest_taken, oldest_freed, event_logged, op_stamped, part_of, parts_of,
}
use pipert.Pipeline.Parts.{stamped, dropping_logged, Parts, acquire-Parts}

module _ (p : Pipeline) (held : ℕ → List ℕ) (c : ℕ) (v : IsConsistent p held) where
  -- What a part that gave a packet to its caller leaves.
  abbrev Gained : Option ℕ → Pipeline → Type 0
  Gained none p' = Unit {0}
  Gained (some packet) p' = IsConsistent p' (holding held c (packet ∷ held c)) × SameFlags p p'

  -- A round of the loop that finds a free packet.
  pub after_take_packet :
      (packet : ℕ) (p' : Pipeline)
      → take_packet p c ≡ (some packet, p')
      → IsConsistent p' (holding held c (packet ∷ held c)) × SameFlags p p'
  after_take_packet packet p' e = by_free (p.channel c).free_packets refl
    where
      by_free :
          (l : List ℕ)
          → (p.channel c).free_packets ≡ l
          → IsConsistent p' (holding held c (packet ∷ held c)) × SameFlags p p'
      by_free [] f =
          absurd (ground (arith, ap (λ x. is_some x.0) (sym e ∙ none_free p held c v 0 f)))
      by_free (x ∷ rest) f =
          subst (λ x. Gained x.0 x.1) (sym (takes p held c v x rest f 0) ∙ e)
            (taken-IsConsistent p held c v x rest f 0, λ st. refl)

  -- The dropped packet of `TryDroppingPacket`, between `GetNext` and `Release`.
  pub after_evict :
      (packet : ℕ) (now : Time) (p' : Pipeline)
      → get_next p c now true ≡ some (some packet, p')
      → IsConsistent p' (holding held c (packet ∷ held c)) × SameFlags p p'
  unfolding get_next empty
  after_evict packet now p' e = elim (Bool-cases (is_empty (p.channel c).queued_packets.heap)) [
    | inl vacant ↦ absurd (ground (arith, vacant, e))
    | inr more ↦
        let (q, f, r) = drop_oldest p held c v now more in
        subst (λ x. Gained x.0 x.1) (same_result _ _ _ e f) (r.consistent, r.flags)
  ]

  pub after_drop :
      (packet : ℕ) (rest : List ℕ) (now : Time) (p' : Pipeline)
      → SameElements (held c) (packet ∷ rest)
      → release_packet p c packet now true ≡ some p'
      → IsConsistent p' (holding held c rest) × SameFlags p p'
  after_drop packet rest now p' same e =
      let w = rearranged-IsConsistent p held c (packet ∷ rest) v same in
      let f = release_dropped p held c packet rest w now in
      subst (λ q. IsConsistent q (holding held c rest) × SameFlags p q) (same_result _ _ _ e f)
        (freed-IsConsistent p held c packet rest w (p.channel c).profile_data, λ st. refl)

  pub after_stamp :
      (packet : ℕ) (now : Time)
      → IsConsistent (put_channel p c (set_op_timestamp (p.channel c) packet now)) held
  unfolding set_op_timestamp
  after_stamp packet now =
      unfold set_op_timestamp in
      retouched-IsConsistent p held c packet now (p.channel c).profile_data v

  pub after_log : (e : LogEvent) → IsConsistent (put_channel p c (log (p.channel c) e)) held
  unfolding log
  after_log e = profiled-IsConsistent p held c (Option.map (◌∷◌ e) (p.channel c).profile_data) v

-- The holders of a packet that is taken and given back are those from before.
given_back : (held : ℕ → List ℕ) (c y : ℕ) → holding (holding held c (y ∷ held c)) c (held c) ≡ held
given_back held c y =
    fun_ext λ x. elim (eq-cases x c) [ inl e ↦ rw (e, eq_self) refl | inr n ↦ rw (ne_test n) refl ]

module _ (s : System) (c packet : ℕ) (now : Time) (p' : Pipeline) where
  abbrev after_acquire : System
  after_acquire = record s { pipeline = p'; held = holding s.held c (packet ∷ s.held c) }

  -- A run with these parts, and the same with one more.
  abbrev Run : System → List Part → Type 0
  Run t parts = (r : Steps s t) × (parts_of r ≡ parts)

  and_then :
      (t u : System) (parts : List Part)
      → Run t parts
      → (x : Step t u) → Run u (parts ++ part_of x ∷ [])
  unfolding parts_of
  and_then t u parts (r, e) x = (next r x, ap (λ l. l ++ part_of x ∷ []) e)

  -- The parts of the two ways through `Acquire`.
  abbrev at_once : List Part
  at_once = free_taken c packet ∷ op_stamped c packet now ∷ []

  abbrev pub after_dropping : ℕ → List Part
  after_dropping y =
      oldest_taken c y now
      ∷ oldest_freed c y now
      ∷ event_logged c (log_event packet_dropped 1)
      ∷ free_taken c packet
      ∷ op_stamped c packet now
      ∷ []

  -- The end of `Acquire`, in a state with the same holders.
  taking :
      (p t : Pipeline) (parts : List Part)
      → Run (record s { pipeline = p }) parts
      → take_packet p c ≡ (some packet, t)
      → p' ≡ stamped t c packet now
      → Run after_acquire ((parts ++ free_taken c packet ∷ []) ++ op_stamped c packet now ∷ [])
  unfolding count part_of
  taking p t parts r e last =
      let all = parts ++ free_taken c packet ∷ [] in
      subst
        (λ q.
          Run (record s { pipeline = q; held = holding s.held c (packet ∷ s.held c) })
            (all ++ op_stamped c packet now ∷ []))
        (sym last)
        (and_then _ _ all (and_then _ _ parts r (takes_free c packet t e))
          (stamps c packet now (rw eq_self (ground arith))))

  acquire_run :
      Parts s.pipeline c now packet p'
      → (r : Steps s after_acquire) × ((parts_of r ≡ at_once)
          ⊎ ((y : ℕ) × (parts_of r ≡ after_dropping y)))
  unfolding part_of parts_of
  acquire_run (inl (t, e, last)) =
      let (r, same) = taking s.pipeline t [] (here, refl) e last in (r, inl same)
  acquire_run (inr (y, q, r, t, e, f, g, last)) =
      let evicted = next here (evicts c y now q e) in
      let dropped =
        next evicted (drops c y (s.held c) now r ((λ x. rw eq_self refl), rw eq_self refl) f) in
      let parts =
        oldest_taken c y now
        ∷ oldest_freed c y now
        ∷ event_logged c (log_event packet_dropped 1)
        ∷ [] in
      let (run, same) =
        taking (dropping_logged r c) t parts
          (subst (λ h. Run (record s { pipeline = dropping_logged r c; held = h }) parts)
            (given_back s.held c y) (next dropped (logs c (log_event packet_dropped 1)), refl))
          g last in
      (run, inr (y, same))

  -- A call of `Acquire` that gives a packet of a consistent pipeline, while nothing comes in between, is a
  -- run of exactly the steps for its locked parts, which ends with what the call leaves and the packet
  -- held: either that packet is taken from the free ones and stamped with the time of the call, or
  -- before that the oldest packet is taken from the queue, freed and logged as dropped.
  pub acquire-Steps :
      IsConsistent s.pipeline s.held
      → acquire s.pipeline c now ≡ some (some packet, p')
      → (r : Steps s after_acquire) × ((parts_of r ≡ at_once)
          ⊎ ((y : ℕ) × (parts_of r ≡ after_dropping y)))
  acquire-Steps v e = acquire_run (acquire-Parts c packet now p' s.pipeline s.held v e)
