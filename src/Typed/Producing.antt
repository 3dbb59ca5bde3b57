-- ===== src/Typed/Producing.antt =====
-- The data that a PacketToFill of include/pipert/PacketToFill.h brings.
use mathlib.Core.List.{Perm}
use pipert.Base.{
  ℕ, ◌+◌, ◌≤◌, ◌<◌, ◌≡◌, refl, ap, ◌∙◌, subst, ◌≢◌, ◌⊎◌, inl, inr, eq_self, List, [], ◌∷◌, Option,
  none, some, arith, length, count, map, map-same, map-added_perm, map-changed_perm,
}
use pipert.Timer.{Time, max_time}
use pipert.Channel.{stamp}
use pipert.Pipeline.{Pipeline}
use pipert.Pipeline.Consistent.{IsConsistent}
use pipert.Facade.{ChannelBase, PacketStub}
use pipert.Facade.Producing.{Produced, Placed, produces}
use pipert.Typed.{Typed, construct_data, make_to_fill, end_to_fill}
use pipert.Typed.Messages.{
  message, messages, messages-none, pair_eq, put_at_self, put_at_packet, put_at_channel,
}

module _ {ℓ} {T : Type ℓ} where
  -- The message is among the queued ones: besides those that were there, or in place of the earliest
  -- one, whose data is not destroyed.
  abbrev pub IsQueued : Typed T → ℕ → Time → T → ℕ → Typed T → Type ℓ
  IsQueued ty c timestamp d packet ty' =
      Perm (messages ty' c) ((timestamp, some d) ∷ messages ty c)
      ⊎ (((ty.pipeline.channel c).free_packets ≡ [])
          × ((x : ℕ)
              → 0 < count x (ty.pipeline.channel c).queued_packets.heap
              → stamp (ty.pipeline.channel c) packet ≤ stamp (ty.pipeline.channel c) x)
          × Perm (message ty c packet ∷ messages ty' c) ((timestamp, some d) ∷ messages ty c))

  abbrev pub Sent : Typed T → (ℕ → List ℕ) → ℕ → Time → T → Option ℕ → Typed T → Type ℓ
  Sent ty held c timestamp d none ty' =
      (length (held c) ≡ (ty.pipeline.channel c).capacity) × (messages ty c ≡ []) × (ty' ≡ ty)
  Sent ty held c timestamp d (some packet) ty' =
      IsQueued ty c timestamp d packet ty'
      × (ty'.constructed c ≡ ty.constructed c + 1)
      × (ty'.destroyed c ≡ ty.destroyed c)
      × ((y : ℕ) → y ≢ c → messages ty' y ≡ messages ty y)

  module _ (ty : Typed T) (held : ℕ → List ℕ) (c packet : ℕ) (timestamp : Time) (d : T)
      (v : IsConsistent ty.pipeline held) (p' : Pipeline)
      (produced : Produced ty.pipeline held c timestamp (some packet) p') where
    abbrev after : Typed T
    after = record (construct_data ty c d (some packet)) { pipeline = p' }

    new_message : message after c packet ≡ (timestamp, some d)
    unfolding construct_data
    new_message = pair_eq produced.1 (put_at_self ty.contents c packet (some d))

    other_message : (x : ℕ) → x ≢ packet → message after c x ≡ message ty c x
    unfolding construct_data
    other_message x n = pair_eq (produced.2 x n) (put_at_packet ty.contents c packet (some d) n)

    -- A packet is queued at most once.
    single : count packet (ty.pipeline.channel c).queued_packets.heap ≤ 1
    single = ground (arith, (v.channels c).owned packet)

    other_channel : (y : ℕ) → y ≢ c → messages after y ≡ messages ty y
    unfolding messages construct_data
    other_channel y n =
        ap (λ ch. map (λ x. (stamp ch x, after.contents y x)) ch.queued_packets.heap)
          (produced.4 y n)
        ∙ map-same (λ x. (stamp (ty.pipeline.channel y) x, after.contents y x)) (message ty y)
            (ty.pipeline.channel y).queued_packets.heap
            (λ z h. pair_eq refl (put_at_channel ty.contents c packet (some d) z n))

    placed : Placed ty.pipeline c packet p' → IsQueued ty c timestamp d packet after
    unfolding messages
    placed (inl (unqueued, counts)) = inl (
        subst (λ m. Perm (messages after c) (m ∷ messages ty c)) new_message
          (map-added_perm (message ty c) (message after c)
            (ty.pipeline.channel c).queued_packets.heap (p'.channel c).queued_packets.heap packet
            counts
            (λ z h. other_message z (λ e. omega (
              arith,
              h,
              unqueued,
              ap (λ x. count x (ty.pipeline.channel c).queued_packets.heap) e,
            )))))
    placed (inr (no_free, inside, oldest, counts)) = inr (
      no_free,
      oldest,
      subst (λ m. Perm (message ty c packet ∷ messages after c) (m ∷ messages ty c)) new_message
          (map-changed_perm (message ty c) (message after c)
            (ty.pipeline.channel c).queued_packets.heap (p'.channel c).queued_packets.heap packet
            counts inside single other_message),
    )

    sent : Sent ty held c timestamp d (some packet) after
    unfolding construct_data
    sent = (placed produced.3, rw (eq_self c) refl, refl, other_channel)

  pipeline-construct_data :
      (ty : Typed T) (c : ℕ) (d : T) (r : Option ℕ)
      → (construct_data ty c d r).pipeline ≡ ty.pipeline
  unfolding construct_data
  pipeline-construct_data ty c d none = refl
  pipeline-construct_data ty c d (some packet) = refl

  -- On a consistent pipeline, a PacketToFill of a bound channel is made with its data and given up
  -- without a failing assertion, if it is given up at a time before the maximal one that is before
  -- neither its time stamp nor its acquisition. It is empty if code outside of the channel holds all
  -- packets, when nothing changes and nothing is queued. Else the messages that are queued are those
  -- that were there and a new one with its time stamp and its data, but for the earliest one if no
  -- packet was free: that one is lost, and its data never destroyed. The other channels keep their
  -- messages.
  pub make_to_fill-Sent :
      (ty : Typed T) (held : ℕ → List ℕ) (b : ChannelBase) (c : ℕ)
      (timestamp acquired pushed : Time) (d : T)
      → b.impl ≡ some c
      → IsConsistent ty.pipeline held
      → timestamp ≤ pushed
      → acquired ≤ pushed
      → pushed < max_time
      → (s : PacketStub) × (ty₁ ty' : Typed T) × (make_to_fill ty b timestamp d acquired
          ≡ some (s, ty₁))
        × (end_to_fill ty₁ s pushed ≡ some ty')
        × IsConsistent ty'.pipeline held
        × Sent ty held c timestamp d s.packet ty'
  unfolding make_to_fill end_to_fill
  make_to_fill-Sent ty held b c timestamp acquired pushed d bound v before order early =
      let (s, p₁, e, p', f, w, pr) =
        produces ty.pipeline held b c bound timestamp acquired pushed v before order early in
      let ty₁ = construct_data (record ty { pipeline = p₁ }) c d s.packet in
      (
        s,
        ty₁,
        record ty₁ { pipeline = p' },
        rw (e, bound) refl,
        rw (pipeline-construct_data (record ty { pipeline = p₁ }) c d s.packet, f) refl,
        w,
        by_packet p₁ p' s.packet pr,
      )
    where
      by_packet :
          (p₁ p' : Pipeline) (r : Option ℕ)
          → Produced ty.pipeline held c timestamp r p'
          → Sent ty held c timestamp d r
              (record (construct_data (record ty { pipeline = p₁ }) c d r) { pipeline = p' })
      by_packet p₁ p' none (full, vacant, same) =
          (full, messages-none ty c vacant, ap (λ p. record ty { pipeline = p }) same)
      by_packet p₁ p' (some packet) pr =
          unfold construct_data in sent ty held c packet timestamp d v p' pr
