-- ===== src/Pipeline/Acquiring.antt =====
-- `Acquire` of src/ChannelImpl.cpp, run with no other thread in between.
use mathlib.Core.Path.{fun_ext}
use pipert.Base.{
  ℕ, ◌≡◌, refl, sym, ap, ◌∙◌, ◌≢◌, ◌⊎◌, inl, inr, Bool-cases, eq-cases, eq_self, ne_test, true,
  false, List, [], ◌∷◌, Option, none, some, arith, is_empty, count, length, length_of_is_empty,
  ◌>>=◌,
}
use pipert.Timer.{Time}
use pipert.SteadyHeap.{front}
use pipert.Channel.{ChannelImpl, is_slot, stamp, take_free, set_op_timestamp, peek_next}
use pipert.Channel.Accounting.{IsValid}
use pipert.Pipeline.{
  Pipeline, put_channel, store, take_packet, stamp_acquired, second_round, try_dropping_packet,
  acquire,
}
use pipert.Pipeline.Consistent.{IsConsistent, holding, SameFlags}
use pipert.Pipeline.Signals.{store_self, store_other, changed, quiet}
use pipert.Pipeline.Retouch.{retouched-IsConsistent}
use pipert.Pipeline.Dropping.{Dropped, no_drop, drops_oldest}

-- The packet was the next free one, is held now, and bears the time of its acquisition.
pub record Taken (p : Pipeline) (held : ℕ → List ℕ) (c packet : ℕ) (now : Time) (p' : Pipeline)
    : Type 0 where
  pub consistent : IsConsistent p' (holding held c (packet ∷ held c))
  pub free : packet ∷ (p'.channel c).free_packets ≡ (p.channel c).free_packets
  pub queued : (p'.channel c).queued_packets ≡ (p.channel c).queued_packets
  pub stamps : (x : ℕ) → stamp (p'.channel c) x ≡ stamp (p.channel c) x
  pub stamped : ((p'.channel c).pool packet).op_timestamp ≡ now
  pub others : (x : ℕ) → x ≢ c → p'.channel x ≡ p.channel x
  pub flags : SameFlags p p'

module _ (p : Pipeline) (held : ℕ → List ℕ) (c : ℕ) (v : IsConsistent p held) (packet : ℕ)
    (rest : List ℕ) (e : (p.channel c).free_packets ≡ packet ∷ rest) (now : Time) where
  abbrev pub taken : ChannelImpl
  taken = record (p.channel c) { free_packets = rest }

  valid : IsValid (p.channel c) (held c)
  valid = v.channels c

  taken-IsValid : IsValid taken (packet ∷ held c)
  unfolding count
  taken-IsValid = record {
    order = valid.order;
    owned = λ x. omega (arith, valid.owned x, ap (count x) e);
    sized = omega (arith, valid.sized, ap length e);
    timed = valid.timed;
    reserved = valid.reserved;
  }

  peek_taken : peek_next taken ≡ peek_next (p.channel c)
  unfolding peek_next
  peek_taken = refl

  abbrev pub p₁ : Pipeline
  p₁ = put_channel p c taken

  pub taken-IsConsistent : IsConsistent p₁ (holding held c (packet ∷ held c))
  taken-IsConsistent =
      changed p held v c taken refl (holding held c (packet ∷ held c)) p.scheduler
        (λ x n. rw (ne_test n)) (rw eq_self taken-IsValid)
        (quiet p held v c taken refl (λ st. refl) (λ st h. peek_taken))

  pub takes : take_packet p c ≡ (some packet, p₁)
  unfolding take_packet take_free
  takes = ground (arith, e)

  in_pool : is_slot taken packet ≡ true
  unfolding count
  in_pool = ground (arith, taken-IsValid.owned packet)

  stamps :
      (p' : Pipeline) × (stamp_acquired c now (some packet, p₁) ≡ some (some packet, p'))
      × Taken p held c packet now p'
  unfolding stamp_acquired set_op_timestamp
  stamps =
      let held' = holding held c (packet ∷ held c) in
      let ch : p₁.channel c ≡ taken = store_self p.channel c taken in
      let p₂ = put_channel p₁ c (set_op_timestamp (p₁.channel c) packet now) in
      (
        p₂,
        rw ch (ground (arith, in_pool)),
        record {
          consistent =
              unfold set_op_timestamp in
              retouched-IsConsistent p₁ held' c packet now
                (set_op_timestamp (p₁.channel c) packet now).profile_data taken-IsConsistent;
          free = rw (store_self, store_self) (sym e);
          queued = rw (store_self, store_self);
          stamps = λ x. rw (store_self, store_self) (ground arith);
          stamped = rw (store_self, store_self) (rw eq_self);
          others = λ x n. rw (store_other p₁.channel c _ n, store_other p.channel c taken n);
          flags = λ st. refl;
        },
      )

-- What a call of `Acquire` came to: nothing, as code outside of the channel holds all its packets;
-- a free packet; or the oldest queued one, which was dropped for it.
abbrev pub Acquired : Pipeline → (ℕ → List ℕ) → ℕ → Time → Option ℕ → Pipeline → Type 0
Acquired p held c now none p' =
    (length (held c) ≡ (p.channel c).capacity)
    × (is_empty (p.channel c).queued_packets.heap ≡ true)
    × (p' ≡ p)
Acquired p held c now (some packet) p' =
    Taken p held c packet now p'
    ⊎ (((p.channel c).free_packets ≡ [])
        × (p₁ : Pipeline) × Dropped p held c packet p₁
        × Taken p₁ held c packet now p')

store-id : (m : ℕ → ChannelImpl) (c : ℕ) → store m c (m c) ≡ m
unfolding store
store-id m c = fun_ext λ x. elim (eq-cases x c) [ inl e ↦ rw (e, eq_self) | inr n ↦ rw (ne_test n) ]

module _ (p : Pipeline) (held : ℕ → List ℕ) (c : ℕ) (v : IsConsistent p held) (now : Time) where
  pub none_free : (p.channel c).free_packets ≡ [] → take_packet p c ≡ (none, p)
  unfolding take_packet take_free
  none_free e =
      rw (e, take_free) (ap (λ m. (none, record p { channel = m })) (store-id p.channel c))

  rounds : acquire p c now ≡ (second_round c now (take_packet p c) >>= stamp_acquired c now)
  unfolding acquire
  rounds = refl

  -- The second round, after a packet was dropped.
  dropped_round :
      (p₁ : Pipeline)
      → try_dropping_packet p c now ≡ some (true, p₁)
      → second_round c now (none, p) ≡ some (take_packet p₁ c)
  unfolding second_round
  dropped_round p₁ e = rw e

  lost_round :
      try_dropping_packet p c now ≡ some (false, p) → second_round c now (none, p) ≡ some (none, p)
  unfolding second_round
  lost_round e = rw e

  abbrev Acquires : Option (Option ℕ × Pipeline) → Type 0
  Acquires result =
      (r : Option ℕ) × (p' : Pipeline) × (result ≡ some (r, p')) × Acquired p held c now r p'

  from_free :
      (packet : ℕ) (rest : List ℕ)
      → (p.channel c).free_packets ≡ packet ∷ rest
      → Acquires (acquire p c now)
  unfolding second_round
  from_free packet rest e =
      let (p', f, t) = stamps p held c v packet rest e now in
      (some packet, p', rounds ∙ rw (takes p held c v packet rest e now) f, inl t)

  from_queue : (p.channel c).free_packets ≡ [] → Acquires (acquire p c now)
  unfolding stamp_acquired
  from_queue e = elim (Bool-cases (is_empty (p.channel c).queued_packets.heap)) [
    | inl vacant ↦ (
      none,
      p,
      rounds ∙ rw (none_free e, lost_round (no_drop p held c v now vacant)) refl,
      (
        omega (
          arith,
          (v.channels c).sized,
          ap length e,
          length_of_is_empty (p.channel c).queued_packets.heap vacant,
        ),
        vacant,
        refl,
      ),
    )
    | inr more ↦
        let packet = front (p.channel c).queued_packets in
        let (p₁, f, d) = drops_oldest p held c v now more in
        let (p', g, t) =
          stamps p₁ held c d.consistent packet (p.channel c).free_packets d.free now in
        (
          some packet,
          p',
          rounds
              ∙ rw
                  (
                    none_free e,
                    dropped_round p₁ f,
                    takes p₁ held c d.consistent packet (p.channel c).free_packets d.free now,
                  )
                  g,
          inr (e, p₁, d, t),
        )
  ]

-- `Acquire` on a consistent pipeline meets no failing assertion. It gives a free packet, or drops
-- the oldest queued packet and gives that one, or gives nothing exactly when code outside of the
-- channel holds all its packets.
pub acquire_total :
    (p : Pipeline) (held : ℕ → List ℕ) (c : ℕ) (now : Time)
    → IsConsistent p held
    → (r : Option ℕ) × (p' : Pipeline) × (acquire p c now ≡ some (r, p'))
      × Acquired p held c now r p'
acquire_total p held c now v = by_free (p.channel c).free_packets refl
  where
    by_free :
        (l : List ℕ) → (p.channel c).free_packets ≡ l → Acquires p held c v now (acquire p c now)
    by_free [] e = from_queue p held c v now e
    by_free (packet ∷ rest) e = from_free p held c v now packet rest e
