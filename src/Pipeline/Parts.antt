-- ===== src/Pipeline/Parts.antt =====
-- `Acquire` of src/ChannelImpl.cpp as the sequence of its locked parts.
use pipert.Base.{
  ℕ, ◌≡◌, refl, ◌∙◌, ◌⊎◌, inl, inr, true, false, List, [], ◌∷◌, Option, none, some, arith,
  bind-some, some_cancel, subst, Bool,
}
use pipert.Timer.{Time}
use pipert.Packet.{log_event, packet_dropped}
use pipert.Channel.{log, set_op_timestamp}
use pipert.Pipeline.{
  Pipeline, put_channel, take_packet, get_next, release_packet, drop_packet, try_dropping_packet,
  retry, second_round, stamp_acquired, acquire,
}
use pipert.Pipeline.Consistent.{IsConsistent}
use pipert.Pipeline.Acquiring.{takes, none_free, p₁}

abbrev pub stamped : Pipeline → ℕ → ℕ → Time → Pipeline
stamped q c packet now = put_channel q c (set_op_timestamp (q.channel c) packet now)

abbrev pub dropping_logged : Pipeline → ℕ → Pipeline
dropping_logged q c = put_channel q c (log (q.channel c) (log_event packet_dropped 1))

-- A free packet is taken; or one is taken from the queue, freed, and then a free one is taken.
abbrev pub Parts : Pipeline → ℕ → Time → ℕ → Pipeline → Type 0
Parts p c now packet p' =
    ((q : Pipeline) × (take_packet p c ≡ (some packet, q)) × (p' ≡ stamped q c packet now))
    ⊎ ((dropped : ℕ) × (q r t : Pipeline) × (get_next p c now true ≡ some (some dropped, q))
        × (release_packet q c dropped now true ≡ some r)
        × (take_packet (dropping_logged r c) c ≡ (some packet, t))
        × (p' ≡ stamped t c packet now))

module _ (c packet : ℕ) (now : Time) (p' : Pipeline) where
  stamp_acquired-some :
      (x : Option ℕ) (q : Pipeline)
      → stamp_acquired c now (x, q) ≡ some (some packet, p')
      → (x ≡ some packet) × (p' ≡ stamped q c packet now)
  unfolding stamp_acquired
  stamp_acquired-some none q e = absurd (ground (arith, e))
  stamp_acquired-some (some z) q e =
      let same : some z ≡ some packet = ground (arith, e) in (same, ground (arith, e))

  drop_packet-some :
      (q s : Pipeline) (x : Option ℕ) (dropped : Bool) (t : Pipeline)
      → drop_packet q c now x ≡ some (dropped, s)
      → retry c (dropped, s) ≡ (some packet, t)
      → (y : ℕ) × (r : Pipeline) × (x ≡ some y)
        × (release_packet q c y now true ≡ some r)
        × (take_packet (dropping_logged r c) c ≡ (some packet, t))
  unfolding drop_packet retry
  drop_packet-some q s none dropped t e f = absurd (ground (arith, e, f))
  drop_packet-some q s (some y) false t e f = absurd (ground (arith, f))
  drop_packet-some q s (some y) true t e f =
      let (r, g, h) =
        bind-some (release_packet q c y now true) (λ r. some (true, dropping_logged r c)) (true, s)
          e in
      let same : s ≡ dropping_logged r c = ground (arith, h) in
      (y, r, refl, g, subst (λ x. take_packet x c ≡ (some packet, t)) same f)

  -- The second round of the loop, where the first found no free packet.
  second_round-some :
      (p t : Pipeline)
      → second_round c now (none, p) ≡ some (some packet, t)
      → (y : ℕ) × (q r : Pipeline) × (get_next p c now true ≡ some (some y, q))
        × (release_packet q c y now true ≡ some r)
        × (take_packet (dropping_logged r c) c ≡ (some packet, t))
  unfolding second_round try_dropping_packet
  second_round-some p t e =
      let ((dropped, s), f, g) =
        bind-some (try_dropping_packet p c now) (λ r. some (retry c r)) (some packet, t) e in
      let ((x, q), h, k) =
        bind-some (get_next p c now true) (λ (x, q). drop_packet q c now x) (dropped, s) f in
      let (y, r, same, l, m) = drop_packet-some q s x dropped t k (some_cancel g) in
      (y, q, r, subst (λ z. get_next p c now true ≡ some (z, q)) same h, l, m)

  -- Whatever `Acquire` gives, it comes from its locked parts, one after the other.
  pub acquire-Parts :
      (p : Pipeline) (held : ℕ → List ℕ)
      → IsConsistent p held
      → acquire p c now ≡ some (some packet, p')
      → Parts p c now packet p'
  unfolding acquire second_round
  acquire-Parts p held v e =
      let ((x, t), f, g) =
        bind-some (second_round c now (take_packet p c)) (stamp_acquired c now) (some packet, p')
          e in
      let (found, last) = stamp_acquired-some x t g in
      by_free (p.channel c).free_packets refl t
        (subst (λ z. second_round c now (take_packet p c) ≡ some (z, t)) found f) last
    where
      by_free :
          (l : List ℕ)
          → (p.channel c).free_packets ≡ l
          → (t : Pipeline) → second_round c now (take_packet p c) ≡ some (some packet, t)
          → p' ≡ stamped t c packet now
          → Parts p c now packet p'
      by_free [] none_left t e last =
          let (y, q, r, f, g, h) = second_round-some p t (
            subst (λ z. second_round c now z ≡ some (some packet, t))
              (none_free p held c v now none_left) e) in
          inr (y, q, r, t, f, g, h, last)
      by_free (z ∷ rest) free t e last =
          let found = takes p held c v z rest free now in
          let same : (some z, p₁ p held c v z rest free now) ≡ (some packet, t) =
            some_cancel (rw found at e) in
          inl (t, found ∙ same, last)
