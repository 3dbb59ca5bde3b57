-- ===== src/Pipeline/Dropping.antt =====
-- `TryDroppingPacket` of src/ChannelImpl.cpp: the oldest queued packet gives way.
use mathlib.Core.Option
use pipert.Base.{
  ℕ, ◌+◌, ◌≤◌, ◌<◌, ◌≡◌, refl, ap, ◌≢◌, true, false, List, ◌∷◌, some, ◌==◌, arith, is_empty, count,
  one_if,
}
use pipert.Timer.{Time}
use pipert.Packet.{log_event, packet_dropped}
use pipert.SteadyHeap.{front, empty}
use pipert.Channel.{stamp, log}
use pipert.Pipeline.{Pipeline, put_channel, get_next, drop_packet, try_dropping_packet}
use pipert.Pipeline.Consistent.{holding-same, IsConsistent, holding, SameFlags}
use pipert.Pipeline.Signals.{store_self, store_other}
use pipert.Pipeline.Retouch.{profiled-IsConsistent}
use pipert.Pipeline.Retrieval.{Popped, drop_oldest}
use pipert.Pipeline.Releasing.{freed, freed-IsConsistent, release_dropped}

-- The oldest queued packet of `c` has become a free one.
pub record Dropped (p : Pipeline) (held : ℕ → List ℕ) (c packet : ℕ) (p' : Pipeline) : Type 0 where
  pub consistent : IsConsistent p' held
  pub oldest :
      (x : ℕ)
      → 0 < count x (p.channel c).queued_packets.heap
      → stamp (p.channel c) packet ≤ stamp (p.channel c) x
  pub queued :
      (x : ℕ)
      → count x (p'.channel c).queued_packets.heap + one_if (packet == x)
        ≡ count x (p.channel c).queued_packets.heap
  pub free : (p'.channel c).free_packets ≡ packet ∷ (p.channel c).free_packets
  pub stamps : (x : ℕ) → stamp (p'.channel c) x ≡ stamp (p.channel c) x
  pub others : (x : ℕ) → x ≢ c → p'.channel x ≡ p.channel x
  pub flags : SameFlags p p'

module _ (p : Pipeline) (held : ℕ → List ℕ) (c : ℕ) (v : IsConsistent p held) (now : Time) where
  pub no_drop :
      is_empty (p.channel c).queued_packets.heap ≡ true
      → try_dropping_packet p c now ≡ some (false, p)
  unfolding try_dropping_packet get_next empty
  no_drop vacant = ground (arith, vacant)

  released :
      (packet : ℕ) (p₁ : Pipeline)
      → Popped p held c packet p₁
      → (p' : Pipeline) × (drop_packet p₁ c now (some packet) ≡ some (true, p'))
        × Dropped p held c packet p'
  unfolding drop_packet log
  released packet p₁ q =
      let gone = freed p₁ held c packet (held c) q.consistent (p₁.channel c).profile_data in
      let p₂ = put_channel p₁ c gone in
      let ch : p₂.channel c ≡ gone = store_self p₁.channel c gone in
      let noted = Option.map (◌∷◌ (log_event packet_dropped 1)) (p₂.channel c).profile_data in
      let v₂ =
        freed-IsConsistent p₁ held c packet (held c) q.consistent (p₁.channel c).profile_data in
      let p₃ = put_channel p₂ c (record (p₂.channel c) { profile_data = noted }) in
      (
        p₃,
        rw (release_dropped p₁ held c packet (held c) q.consistent now) refl,
        record {
          consistent =
              rw (holding-same held c (held c) refl) at
                (profiled-IsConsistent p₂ (holding held c (held c)) c noted v₂);
          oldest = q.oldest;
          queued = λ x. rw (store_self, store_self) (q.queued x);
          free = rw (store_self, store_self) (ap (◌∷◌ packet) q.free);
          stamps = λ x. rw (store_self, store_self) (q.stamps x);
          others = λ x n.
              rw (store_other p₂.channel c _ n, store_other p₁.channel c gone n) (q.others x n);
          flags = q.flags;
        },
      )

  -- On a consistent pipeline, `TryDroppingPacket` on a channel with queued packets meets no failing
  -- assertion: the oldest one is free afterwards, and the pipeline is consistent.
  pub drops_oldest :
      is_empty (p.channel c).queued_packets.heap ≡ false
      → (p' : Pipeline) × (try_dropping_packet p c now ≡ some (true, p'))
        × Dropped p held c (front (p.channel c).queued_packets) p'
  unfolding try_dropping_packet
  drops_oldest more =
      let (p₁, e, q) = drop_oldest p held c v now more in
      let (p', f, r) = released (front (p.channel c).queued_packets) p₁ q in (p', rw e f, r)
