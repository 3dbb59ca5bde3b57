-- ===== src/Channel/Starting.antt =====
-- The constructor of src/ChannelImpl.cpp: all packets are free at first.
use native.Mathlib.Nat.{div-add-mod, mul-mod_right, mul-div_cancel_left, div-lt_iff_lt-mul}
use pipert.Base.{
  ℕ, zero, suc, ◌+◌, ◌*◌, ◌/◌, ◌%◌, ◌<◌, ◌≡◌, refl, inl, inr, eq-cases, lt-cases, Bool, List, [],
  ◌&&◌, ltb, leb, ◌==◌, arith, length, one_if, count, ap,
}
use pipert.SteadyHeap.{reserve}
use pipert.Channel.{initial_packets, new_channel}
use pipert.Channel.Accounting.{IsValid}

length-initial_packets : (size n i : ℕ) → length (initial_packets size n i) ≡ n
unfolding initial_packets
length-initial_packets size zero i = refl
length-initial_packets size (suc n) i = ap suc (length-initial_packets size n (suc i))

module _ (size : ℕ) (sized : 0 < size) (x : ℕ) where
  -- A multiple of the size has one quotient and no remainder.
  multiple : (i : ℕ) → (size * i == x) ≡ (x % size == 0 && x / size == i)
  multiple i = elim (eq-cases (size * i) x) [
    | inl e ↦ ground (
      arith,
      ap (λ y. y % size) e,
      ap (λ y. y / size) e,
      mul-mod_right size i,
      mul-div_cancel_left i sized,
    )
    | inr n ↦ elim (eq-cases (x / size) i) [
      | inl q ↦ ground (arith, div-add-mod x size, ap (λ y. size * y) q)
      | inr m ↦ ground arith
    ]
  ]

  count-initial_packets :
      (n i : ℕ)
      → count x (initial_packets size n i)
        ≡ one_if (x % size == 0 && leb i (x / size) && ltb (x / size) (i + n))
  unfolding initial_packets count
  count-initial_packets zero i = ground arith
  count-initial_packets (suc n) i = ground (arith, multiple i, count-initial_packets n (suc i))

  inside : (n : ℕ) → ltb x (size * n) ≡ ltb (x / size) n
  inside n = elim (lt-cases (x / size) n) [
    | inl l ↦ ground (arith, (div-lt_iff_lt-mul {x = x} {y = n} sized))
    | inr g ↦ ground (arith, (div-lt_iff_lt-mul {x = x} {y = n} sized))
  ]

-- A new channel for packets of a positive size holds all of them as free ones, each once; it has
-- reserved the space for its queue and nobody holds a packet.
pub new_channel-IsValid :
    (name : List ℕ) (capacity size object : ℕ) (callback : Bool)
    → 0 < size
    → IsValid (new_channel name capacity size object callback) []
unfolding new_channel reserve count
new_channel-IsValid name capacity size object callback sized = record {
  order = λ c p q. omega arith;
  owned = λ x.
      ground (arith, count-initial_packets size sized x capacity 0, inside size sized x capacity);
  sized = omega (arith, length-initial_packets size capacity 0);
  timed = λ x h. omega arith;
  reserved = omega arith;
}
