-- ===== src/Facade/Consuming.antt =====
-- The life of a PacketToProcess of include/pipert/PacketToProcess.h, from PolledChannel::Poll to its
-- end.
use pipert.Base.{
  ℕ, ◌≢◌, ◌+◌, ◌≤◌, ◌<◌, ◌≡◌, refl, ap, ◌∙◌, true, false, List, ◌∷◌, Option, none, some, arith,
  is_empty, count, one_if, ◌==◌,
}
use pipert.Timer.{Time}
use pipert.Channel.{stamp}
use pipert.Pipeline.{Pipeline, get_next}
use pipert.Pipeline.Consistent.{IsConsistent, holding-same}
use pipert.Pipeline.Retrieval.{Popped, Retrieved, get_next_oldest}
use pipert.Pipeline.Releasing.{release_frees}
use pipert.Facade.{
  ChannelBase, PacketStub, next_base, poll, release_base, release_stub, destroy_to_process,
}

-- An empty stub changed nothing, as no packet was queued; another one had the oldest packet of the
-- queue, which is the next free one now.
abbrev pub Consumed : Pipeline → ℕ → Option ℕ → Pipeline → Type 0
Consumed p c none p' = (is_empty (p.channel c).queued_packets.heap ≡ true) × (p' ≡ p)
Consumed p c (some packet) p' =
    ((x : ℕ)
      → 0 < count x (p.channel c).queued_packets.heap
      → stamp (p.channel c) packet ≤ stamp (p.channel c) x)
    × ((x : ℕ)
        → count x (p'.channel c).queued_packets.heap + one_if (packet == x)
          ≡ count x (p.channel c).queued_packets.heap)
    × ((p'.channel c).free_packets ≡ packet ∷ (p.channel c).free_packets)
    × ((x : ℕ) → stamp (p'.channel c) x ≡ stamp (p.channel c) x)
    × ((x : ℕ) → x ≢ c → p'.channel x ≡ p.channel x)

-- `made` is a call that makes a stub of the channel `b`, without a failing assertion, and so is its end
-- at `released`.
abbrev pub Lives :
    Pipeline → (ℕ → List ℕ) → ChannelBase → ℕ → Time → Option (PacketStub × Pipeline) → Type 0
Lives p held b c released made =
    (s : PacketStub) × (p₁ : Pipeline) × (made ≡ some (s, p₁))
    × (s.channel ≡ b)
    × ((x : ℕ) → stamp (p₁.channel c) x ≡ stamp (p.channel c) x)
    × (p' : Pipeline) × (destroy_to_process p₁ s released ≡ some p')
    × IsConsistent p' held
    × Consumed p c s.packet p'

module _ (p : Pipeline) (held : ℕ → List ℕ) (b : ChannelBase) (c : ℕ) (bound : b.impl ≡ some c)
    (polled released : Time) (v : IsConsistent p held)
    (past : (x : ℕ)
      → 0 < count x (p.channel c).queued_packets.heap
      → stamp (p.channel c) x ≤ polled)
    (order : polled ≤ released) where
  some_polled :
      (packet : ℕ) (q : Pipeline)
      → get_next p c polled false ≡ some (some packet, q)
      → Popped p held c packet q
      → ((q.channel c).pool packet).op_timestamp ≤ released
      → Lives p held b c released (poll p b polled)
  unfolding poll next_base destroy_to_process release_stub release_base
  some_polled packet q e t at =
      let (p', f, r) = release_frees q held c packet (held c) released t.consistent at in
      (
        record { channel = b; packet = some packet },
        q,
        rw bound (rw e refl),
        refl,
        t.stamps,
        p',
        rw bound (rw f refl),
        rw (holding-same held c (held c) refl) at r.consistent,
        (
          t.oldest,
          λ x. rw r.queued (t.queued x),
          r.free ∙ ap (◌∷◌ packet) t.free,
          λ x. r.stamps x ∙ t.stamps x,
          λ x n. r.others x n ∙ t.others x n,
        ),
      )

  -- A PacketToProcess that a bound channel without queued packets from the future is polled for is
  -- made and given up without a failing assertion, and leaves a consistent pipeline in which no
  -- packet is held that was not held before. It is empty exactly if nothing was queued; else it has
  -- the oldest packet, which is the next free one afterwards. All else is as before.
  pub consumes : Lives p held b c released (poll p b polled)
  unfolding poll next_base destroy_to_process
  consumes = let (r, q, e, a) = get_next_oldest p held c v polled past in by_result r q e a
    where
      by_result :
          (r : Option ℕ) (q : Pipeline)
          → get_next p c polled false ≡ some (r, q)
          → Retrieved p held c polled r q
          → Lives p held b c released (poll p b polled)
      by_result none q e (vacant, same) = (
        record { channel = b; packet = none },
        q,
        rw bound (rw e refl),
        refl,
        λ x. rw same refl,
        q,
        refl,
        rw same v,
        (vacant, same),
      )
      by_result (some packet) q e t = some_polled packet q e t.0 (omega (arith, t.1))
