-- ===== src/Typed/Consuming.antt =====
-- The data that a PacketToProcess of include/pipert/PacketToProcess.h gives.
use mathlib.Core.List.{Perm}
use pipert.Base.{
  ℕ, ◌+◌, ◌≤◌, ◌<◌, ◌≡◌, refl, sym, ap, ◌∙◌, ◌≢◌, eq_self, false, List, [], ◌∷◌, Option, none, some,
  arith, count, map, map-same, map-taken_perm, ◌>>=◌, ◌>>◌, assert, subst,
}
use pipert.Timer.{Time}
use pipert.Channel.{stamp}
use pipert.Pipeline.{Pipeline, release_packet}
use pipert.Pipeline.Consistent.{IsConsistent}
use pipert.Facade.{
  release_base, ChannelBase, PacketStub, release_stub, destroy_to_process, stub_empty,
}
use pipert.Facade.Consuming.{Consumed, consumes}
use pipert.Typed.{
  Typed, destroy_data, release_data, make_to_process, end_to_process, stub_timestamp, stub_data,
}
use pipert.Typed.Messages.{
  message, messages, messages-none, pair_eq, put_at_self, put_at_packet, put_at_channel,
}

empty_stub :
    (p : Pipeline) (s : PacketStub) (released : Time)
    → s.packet ≡ none
    → destroy_to_process p s released ≡ some p
unfolding destroy_to_process
empty_stub p s released e = rw e refl

by_result :
    (b : ChannelBase) (o : Option Pipeline) (p' : Pipeline)
    → ((o >>= λ q. some (record { channel = b; packet = none }, q)) >>= λ (s', q').
        assert (stub_empty s') >> some q')
      ≡ some p'
    → o ≡ some p'
by_result b none p' f = cc
by_result b (some q) p' f = f

-- The release that the end of a stub that is not empty comes to.
stub_released :
    (p : Pipeline) (c packet : ℕ) (s : PacketStub) (now : Time) (p' : Pipeline)
    → s.packet ≡ some packet
    → s.channel.impl ≡ some c
    → destroy_to_process p s now ≡ some p'
    → release_packet p c packet now false ≡ some p'
unfolding destroy_to_process release_stub release_base
stub_released p c packet s now p' e i f =
    by_result _ (release_packet p c packet now false) p' (rw (e, i) at f)

module _ {ℓ} {T : Type ℓ} where
  -- The stub gives the time stamp and the data of an earliest message, which the channel has no more
  -- in the end, when its data is destroyed.
  abbrev pub Received : Typed T → ℕ → PacketStub → Option ℕ → Typed T → Typed T → Type ℓ
  Received ty c s none ty₁ ty' = (messages ty c ≡ []) × (ty' ≡ ty)
  Received ty c s (some packet) ty₁ ty' =
      ((x : ℕ)
        → 0 < count x (ty.pipeline.channel c).queued_packets.heap
        → stamp (ty.pipeline.channel c) packet ≤ stamp (ty.pipeline.channel c) x)
      × Perm (message ty c packet ∷ messages ty' c) (messages ty c)
      × (stub_timestamp ty₁ s ≡ some (stamp (ty.pipeline.channel c) packet))
      × (stub_data ty₁ s ≡ ty.contents c packet)
      × (ty'.contents c packet ≡ none)
      × (ty'.constructed c ≡ ty.constructed c)
      × (ty'.destroyed c ≡ ty.destroyed c + 1)
      × ((y : ℕ) → y ≢ c → messages ty' y ≡ messages ty y)

  module _ (ty : Typed T) (held : ℕ → List ℕ) (c packet : ℕ) (v : IsConsistent ty.pipeline held)
      (p' : Pipeline) (consumed : Consumed ty.pipeline c (some packet) p') where
    abbrev after : Typed T
    after = record (destroy_data ty c packet) { pipeline = p' }

    -- A packet is queued at most once.
    single : count packet (ty.pipeline.channel c).queued_packets.heap ≤ 1
    single = ground (arith, (v.channels c).owned packet)

    taken : Perm (message ty c packet ∷ messages after c) (messages ty c)
    unfolding messages destroy_data
    taken =
        map-taken_perm (message ty c) (message after c) (ty.pipeline.channel c).queued_packets.heap
          (p'.channel c).queued_packets.heap packet consumed.1
          (λ z h. pair_eq (consumed.3 z) (
            put_at_packet ty.contents c packet none (λ e. ground (
              arith,
              h,
              single,
              consumed.1 packet,
              ap (λ x. count x (p'.channel c).queued_packets.heap) e,
              eq_self packet,
            ))))

    other_channel : (y : ℕ) → y ≢ c → messages after y ≡ messages ty y
    unfolding messages destroy_data
    other_channel y n =
        ap (λ ch. map (λ x. (stamp ch x, after.contents y x)) ch.queued_packets.heap)
          (consumed.4 y n)
        ∙ map-same (λ x. (stamp (ty.pipeline.channel y) x, after.contents y x)) (message ty y)
            (ty.pipeline.channel y).queued_packets.heap
            (λ z h. pair_eq refl (put_at_channel ty.contents c packet none z n))

  stub_at :
      (ty : Typed T) (p₁ : Pipeline) (c packet : ℕ) (s : PacketStub) (t : Time)
      → s.packet ≡ some packet
      → s.channel.impl ≡ some c
      → stamp (p₁.channel c) packet ≡ t
      → stub_timestamp (record ty { pipeline = p₁ }) s ≡ some t
  unfolding stub_timestamp
  stub_at ty p₁ c packet s t e i h = rw (e, i, h) refl

  pub released_data :
      (ty : Typed T) (c packet : ℕ) (s : PacketStub) (now : Time) (p' : Pipeline)
      → s.packet ≡ some packet
      → s.channel.impl ≡ some c
      → release_packet ty.pipeline c packet now false ≡ some p'
      → end_to_process ty s now ≡ some (record (destroy_data ty c packet) { pipeline = p' })
  unfolding end_to_process release_data release_stub release_base
  released_data ty c packet s now p' e i f = rw (e, i, f) refl

  -- A PacketToProcess that a bound channel of a consistent pipeline, without queued packets from the
  -- future, is polled for is made and given up without a failing assertion. It is empty exactly if no
  -- message is queued, when nothing changes. Else it gives the time stamp and the data of an earliest
  -- message, which the channel loses, and whose data is destroyed in the end. The other channels keep
  -- their messages.
  pub make_to_process-Received :
      (ty : Typed T) (held : ℕ → List ℕ) (b : ChannelBase) (c : ℕ) (polled released : Time)
      → b.impl ≡ some c
      → IsConsistent ty.pipeline held
      → ((x : ℕ)
          → 0 < count x (ty.pipeline.channel c).queued_packets.heap
          → stamp (ty.pipeline.channel c) x ≤ polled)
      → polled ≤ released
      → (s : PacketStub) × (ty₁ ty' : Typed T) × (make_to_process ty b polled ≡ some (s, ty₁))
        × (end_to_process ty₁ s released ≡ some ty')
        × IsConsistent ty'.pipeline held
        × Received ty c s s.packet ty₁ ty'
  unfolding make_to_process end_to_process stub_data
  make_to_process-Received ty held b c polled released bound v past order =
      let (s, p₁, e, same, stamps, p', f, w, r) =
        consumes ty.pipeline held b c bound polled released v past order in
      let ty₁ = record ty { pipeline = p₁ } in
      let (ty', g, w', r') = by_packet s p₁ p' same stamps f w s.packet refl r in
      (s, ty₁, ty', rw e refl, g, w', r')
    where
      by_packet :
          (s : PacketStub) (p₁ p' : Pipeline)
          → s.channel ≡ b
          → ((x : ℕ) → stamp (p₁.channel c) x ≡ stamp (ty.pipeline.channel c) x)
          → destroy_to_process p₁ s released ≡ some p'
          → IsConsistent p' held
          → (r : Option ℕ) → s.packet ≡ r
          → Consumed ty.pipeline c r p'
          → (ty' : Typed T) × (end_to_process (record ty { pipeline = p₁ }) s released ≡ some ty')
            × IsConsistent ty'.pipeline held
            × Received ty c s r (record ty { pipeline = p₁ }) ty'
      by_packet s p₁ p' same stamps f w none e (vacant, unchanged) =
          let kept : p₁ ≡ p' = cc (empty_stub p₁ s released e) in
          (
            record ty { pipeline = p₁ },
            rw e refl,
            subst (λ p. IsConsistent p held) (sym kept) w,
            (messages-none ty c vacant, ap (λ p. record ty { pipeline = p }) (kept ∙ unchanged)),
          )
      by_packet s p₁ p' same stamps f w (some packet) e consumed =
          let here : s.channel.impl ≡ some c = ap (λ x. x.impl) same ∙ bound in
          let ty₁ = record ty { pipeline = p₁ } in
          (
            record (destroy_data ty₁ c packet) { pipeline = p' },
            released_data ty₁ c packet s released p' e here
                (stub_released p₁ c packet s released p' e here f),
            w,
            unfold destroy_data in
                (
                  consumed.0,
                  taken ty held c packet v p' consumed,
                  stub_at ty p₁ c packet s (stamp (ty.pipeline.channel c) packet) e here
                      (stamps packet),
                  (rw (e, here) refl),
                  put_at_self ty.contents c packet none,
                  refl,
                  rw (eq_self c) refl,
                  other_channel ty held c packet v p' consumed,
                ),
          )
