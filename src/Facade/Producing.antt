-- ===== src/Facade/Producing.antt =====
-- The life of a PacketToFill of include/pipert/PacketToFill.h, from Channel::Acquire to its end.
use pipert.Base.{
  ◌+◌, ◌≢◌, ◌⊎◌, [], one_if, ◌==◌, ℕ, ◌≤◌, ◌<◌, ◌≡◌, refl, sym, inl, inr, eq_self, ap, ◌∙◌, true,
  List, ◌∷◌, Option, none, some, arith, is_empty, length, count,
}
use pipert.Timer.{Time, max_time}
use pipert.Channel.{stamp, set_timestamp}
use pipert.Pipeline.{Pipeline, put_channel, acquire}
use pipert.Pipeline.Consistent.{IsConsistent, holding, holding-same}
use pipert.Pipeline.Signals.{store_self, store_other}
use pipert.Pipeline.Filling.{filled-IsConsistent}
use pipert.Pipeline.Acquiring.{Acquired, acquire_total}
use pipert.Pipeline.Pushing.{push_consistent}
use pipert.Facade.{
  ChannelBase, PacketStub, push_base, push_stub, acquire_base, acquire_stub, destroy_to_fill,
  construct_packet,
}

-- The packet was free, and is queued besides the others; or it was the oldest queued one, none was
-- free, and it is queued again.
abbrev pub Placed : Pipeline → ℕ → ℕ → Pipeline → Type 0
Placed p c packet p' =
    ((count packet (p.channel c).queued_packets.heap ≡ 0)
      × ((x : ℕ)
          → count x (p'.channel c).queued_packets.heap
            ≡ count x (p.channel c).queued_packets.heap + one_if (packet == x)))
    ⊎ (((p.channel c).free_packets ≡ [])
        × (0 < count packet (p.channel c).queued_packets.heap)
        × ((x : ℕ)
            → 0 < count x (p.channel c).queued_packets.heap
            → stamp (p.channel c) packet ≤ stamp (p.channel c) x)
        × ((x : ℕ)
            → count x (p'.channel c).queued_packets.heap
              ≡ count x (p.channel c).queued_packets.heap))

-- What has become of the packet of a stub: an empty stub changed nothing, as all packets of the
-- channel were held, and another one left its packet in the queue, under the time stamp it was made
-- with.
abbrev pub Produced : Pipeline → (ℕ → List ℕ) → ℕ → Time → Option ℕ → Pipeline → Type 0
Produced p held c timestamp none p' =
    (length (held c) ≡ (p.channel c).capacity)
    × (is_empty (p.channel c).queued_packets.heap ≡ true)
    × (p' ≡ p)
Produced p held c timestamp (some packet) p' =
    (0 < count packet (p'.channel c).queued_packets.heap)
    × (stamp (p'.channel c) packet ≡ timestamp)
    × ((x : ℕ) → x ≢ packet → stamp (p'.channel c) x ≡ stamp (p.channel c) x)
    × Placed p c packet p'
    × ((x : ℕ) → x ≢ c → p'.channel x ≡ p.channel x)

-- `made` is a call that makes a stub without a failing assertion, and so is its end at `pushed`.
abbrev pub Lives :
    Pipeline → (ℕ → List ℕ) → ℕ → Time → Time → Option (PacketStub × Pipeline) → Type 0
Lives p held c timestamp pushed made =
    (s : PacketStub) × (p₁ : Pipeline) × (made ≡ some (s, p₁))
    × (p' : Pipeline) × (destroy_to_fill p₁ s pushed ≡ some p')
    × IsConsistent p' held
    × Produced p held c timestamp s.packet p'

module _ (p : Pipeline) (held : ℕ → List ℕ) (b : ChannelBase) (c : ℕ) (bound : b.impl ≡ some c)
    (timestamp acquired pushed : Time) (v : IsConsistent p held) (before : timestamp ≤ pushed)
    (order : acquired ≤ pushed) (early : pushed < max_time) where
  module _ (packet : ℕ) (p₁ : Pipeline) (w : IsConsistent p₁ (holding held c (packet ∷ held c)))
      (at : ((p₁.channel c).pool packet).op_timestamp ≡ acquired) where
    abbrev p₂ : Pipeline
    p₂ = put_channel p₁ c (set_timestamp (p₁.channel c) packet timestamp)

    abbrev s : PacketStub
    s = record { channel = b; packet = some packet }

    filled : IsConsistent p₂ (holding held c (packet ∷ held c))
    unfolding count
    filled =
        filled-IsConsistent p₁ (holding held c (packet ∷ held c)) c packet timestamp w
          (rw eq_self (ground arith))

    stamped : stamp (p₂.channel c) packet ≡ timestamp
    unfolding set_timestamp
    stamped = rw store_self (ground arith)

    kept : ((p₂.channel c).pool packet).op_timestamp ≡ acquired
    unfolding set_timestamp
    kept = rw store_self (rw eq_self at)

    -- The end of the stub, from the acquisition on.
    ends :
        (p' : Pipeline) × (destroy_to_fill p₂ s pushed ≡ some p')
        × IsConsistent p' held
        × (stamp (p'.channel c) packet ≡ timestamp)
        × ((x : ℕ) → x ≢ packet → stamp (p'.channel c) x ≡ stamp (p₁.channel c) x)
        × ((x : ℕ)
            → count x (p'.channel c).queued_packets.heap
              ≡ count x (p₁.channel c).queued_packets.heap + one_if (packet == x))
        × ((x : ℕ) → x ≢ c → p'.channel x ≡ p₁.channel x)
    unfolding destroy_to_fill push_stub push_base set_timestamp
    ends =
        let (p', e, t) =
          push_consistent p₂ held c packet (held c) pushed filled (omega (arith, stamped))
            (omega (arith, kept)) early in
        let pool : (x : ℕ) → stamp (p'.channel c) x ≡ stamp (p₂.channel c) x =
          λ x. ap (λ f. (f x).timestamp) t.same_pool in
        (
          p',
          rw bound (rw e refl),
          rw (holding-same held c (held c) refl) at t.consistent,
          pool packet ∙ stamped,
          λ x n. pool x ∙ rw store_self (ground (arith, n)),
          λ x. t.queued x ∙ rw store_self refl,
          λ x n.
              t.others x n
              ∙ store_other p₁.channel c (set_timestamp (p₁.channel c) packet timestamp) n,
        )

    -- A packet that is held is not queued.
    unqueued : count packet (p₁.channel c).queued_packets.heap ≡ 0
    unfolding count
    unqueued = ground (arith, (w.channels c).owned packet, eq_self c, eq_self packet)

  -- A PacketToFill of a bound channel, made and given up without a failing assertion, leaves a
  -- consistent pipeline in which no packet is held that was not held before. Unless it was empty, as
  -- code outside of the channel held all packets, its packet is queued under its time stamp: besides
  -- the others if it was free, or else in place of the oldest one. All else is as before.
  pub produces : Lives p held c timestamp pushed (acquire_stub p b timestamp acquired)
  unfolding acquire_stub acquire_base construct_packet destroy_to_fill
  produces = let (r, q, e, a) = acquire_total p held c acquired v in by_result r q e a
    where
      by_result :
          (r : Option ℕ) (q : Pipeline)
          → acquire p c acquired ≡ some (r, q)
          → Acquired p held c acquired r q
          → Lives p held c timestamp pushed (acquire_stub p b timestamp acquired)
      by_result none q e (full, vacant, same) = (
        record { channel = b; packet = none },
        q,
        rw bound (rw e refl),
        q,
        refl,
        rw same v,
        (full, vacant, same),
      )
      by_result (some packet) q e (inl t) =
          let (p', f, w, a, stamps, counts, others) = ends packet q t.consistent t.stamped in
          (
            s packet q t.consistent t.stamped,
            p₂ packet q t.consistent t.stamped,
            rw bound (rw e refl),
            p',
            f,
            w,
            (
              ground (arith, counts packet, eq_self packet),
              a,
              λ x k. stamps x k ∙ t.stamps x,
              inl (
                ap (λ h. count packet h.heap) (sym t.queued)
                    ∙ unqueued packet q t.consistent t.stamped,
                λ x. counts x ∙ ap (λ h. count x h.heap + one_if (packet == x)) t.queued,
              ),
              λ x k. others x k ∙ t.others x k,
            ),
          )
      by_result (some packet) q e (inr (n, p₁, d, t)) =
          let (p', f, w, a, stamps, counts, others) = ends packet q t.consistent t.stamped in
          (
            s packet q t.consistent t.stamped,
            p₂ packet q t.consistent t.stamped,
            rw bound (rw e refl),
            p',
            f,
            w,
            (
              ground (arith, counts packet, eq_self packet),
              a,
              λ x k. stamps x k ∙ t.stamps x ∙ d.stamps x,
              inr (
                n,
                ground (arith, d.queued packet, eq_self packet),
                d.oldest,
                λ x.
                    counts x
                    ∙ ap (λ h. count x h.heap + one_if (packet == x)) t.queued
                    ∙ d.queued x,
              ),
              λ x k. others x k ∙ t.others x k ∙ d.others x k,
            ),
          )
