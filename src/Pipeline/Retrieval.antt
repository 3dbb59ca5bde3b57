-- ===== src/Pipeline/Retrieval.antt =====
-- `GetNext` of src/ChannelImpl.cpp: what a retrieval gives.
use pipert.Base.{
  ℕ, eq_self, ◌+◌, ◌≤◌, ◌<◌, ◌≡◌, refl, ◌≢◌, inl, inr, Bool-cases, true, false, List, ◌∷◌, Option,
  none, some, ◌==◌, arith, is_empty, count, one_if,
}
use pipert.Timer.{Time}
use pipert.SteadyHeap.{front, empty}
use pipert.SteadyHeap.Order.{root_least}
use pipert.Scheduler.Invariant.{front_occurs}
use pipert.Channel.{stamp, set_op_timestamp}
use pipert.Pipeline.{Pipeline, get_next}
use pipert.Pipeline.Consistent.{IsConsistent, holding, SameFlags}
use pipert.Pipeline.Signals.{store_self, store_other}
use pipert.Pipeline.Popping.{removed, drops, retrieves}

-- The packet came out of the queue of `c` and is held now; no queued packet was older; all queues
-- are in order, and the other channels are as they were.
pub record Popped (p : Pipeline) (held : ℕ → List ℕ) (c packet : ℕ) (p' : Pipeline) : Type 0 where
  pub consistent : IsConsistent p' (holding held c (packet ∷ held c))
  pub oldest :
      (x : ℕ)
      → 0 < count x (p.channel c).queued_packets.heap
      → stamp (p.channel c) packet ≤ stamp (p.channel c) x
  pub queued :
      (x : ℕ)
      → count x (p'.channel c).queued_packets.heap + one_if (packet == x)
        ≡ count x (p.channel c).queued_packets.heap
  pub free : (p'.channel c).free_packets ≡ (p.channel c).free_packets
  pub stamps : (x : ℕ) → stamp (p'.channel c) x ≡ stamp (p.channel c) x
  pub others : (x : ℕ) → x ≢ c → p'.channel x ≡ p.channel x
  pub flags : SameFlags p p'

-- Either nothing was queued and nothing happened, or the oldest packet came out and bears the time
-- of its retrieval.
abbrev pub Retrieved : Pipeline → (ℕ → List ℕ) → ℕ → Time → Option ℕ → Pipeline → Type 0
Retrieved p held c now none p' = (is_empty (p.channel c).queued_packets.heap ≡ true) × (p' ≡ p)
Retrieved p held c now (some packet) p' =
    Popped p held c packet p' × (((p'.channel c).pool packet).op_timestamp ≡ now)

module _ (p : Pipeline) (held : ℕ → List ℕ) (c : ℕ) (v : IsConsistent p held) where
  front_oldest :
      (x : ℕ)
      → 0 < count x (p.channel c).queued_packets.heap
      → stamp (p.channel c) (front (p.channel c).queued_packets) ≤ stamp (p.channel c) x
  unfolding front
  front_oldest x h =
      root_least (stamp (p.channel c)) (p.channel c).queued_packets.heap x (v.channels c).order h

  pub drop_oldest :
      (now : Time)
      → is_empty (p.channel c).queued_packets.heap ≡ false
      → (p' : Pipeline) × (get_next p c now true
          ≡ some (some (front (p.channel c).queued_packets), p'))
        × Popped p held c (front (p.channel c).queued_packets) p'
  unfolding get_next empty
  drop_oldest now more =
      let (p', e, r, q, k) = drops p held c v more now in
      (
        p',
        ground (arith, more, e),
        record {
          consistent = r;
          oldest = front_oldest;
          queued = λ x. rw (q, store_self) ((removed p held c v more).counts x);
          free = rw (q, store_self);
          stamps = λ x. rw (q, store_self);
          others = λ x n. rw q (store_other p.channel c _ n);
          flags = k;
        },
      )

  -- `GetNext` on a consistent pipeline meets no failing assertion, where no queued packet is from
  -- the future: it gives the oldest queued packet, stamped with the time of the call, and nothing
  -- exactly if none is queued.
  pub get_next_oldest :
      (now : Time)
      → ((x : ℕ) → 0 < count x (p.channel c).queued_packets.heap → stamp (p.channel c) x ≤ now)
      → (r : Option ℕ) × (p' : Pipeline) × (get_next p c now false ≡ some (r, p'))
        × Retrieved p held c now r p'
  unfolding get_next empty set_op_timestamp
  get_next_oldest now past = elim (Bool-cases (is_empty (p.channel c).queued_packets.heap)) [
    | inl vacant ↦ (none, p, ground (arith, vacant), (vacant, refl))
    | inr more ↦
        let packet = front (p.channel c).queued_packets in
        let (p', e, r, q, k) =
          retrieves p held c v more now
            (past packet (front_occurs (p.channel c).queued_packets more)) in
        (
          some packet,
          p',
          ground (arith, more, e),
          (
            record {
              consistent = r;
              oldest = front_oldest;
              queued = λ x. rw (q, store_self) ((removed p held c v more).counts x);
              free = rw (q, store_self);
              stamps = λ x. rw (q, store_self) (ground arith);
              others = λ x n. rw q (store_other p.channel c _ n);
              flags = k;
            },
            rw (q, store_self) (rw eq_self refl),
          ),
        )
  ]
