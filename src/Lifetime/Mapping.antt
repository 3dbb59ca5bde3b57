-- ===== src/Lifetime/Mapping.antt =====
-- The list of the channels of src/SchedulerImpl.cpp, and the list of their objects, when one is added
-- or taken out.
use pipert.Base.{
  ℕ, zero, suc, ◌+◌, ◌-◌, ◌≤◌, ◌<◌, ◌≡◌, ◌≢◌, refl, sym, ap, ◌∙◌, subst, List, [], ◌∷◌, ◌++◌, ◌==◌,
  eq-cases, eq_self, ne_test, if_true, if_false, inl, inr, arith, map, count, count-append,
  count-singleton, length, set, nth, drop_last, one_if, eq_test, replaced, count-replaced,
}
use pipert.SteadyHeap.{std_find}
use pipert.SteadyHeap.Force.{std_find_lem}
use pipert.Lifetime.{put}

length-map : (f : ℕ → ℕ) (xs : List ℕ) → length (map f xs) ≡ length xs
length-map f [] = refl
length-map f (x ∷ xs) = ap suc (length-map f xs)

nth-map : (f : ℕ → ℕ) (xs : List ℕ) (i : ℕ) → i < length xs → nth (map f xs) i ≡ f (nth xs i)
unfolding nth
nth-map f [] i h = absurd (omega (arith, h))
nth-map f (x ∷ xs) zero h = refl
nth-map f (x ∷ xs) (suc i) h = nth-map f xs i (omega (arith, h))

set-map : (f : ℕ → ℕ) (xs : List ℕ) (i x : ℕ) → map f (set xs i x) ≡ set (map f xs) i (f x)
set-map f [] i x = refl
set-map f (y ∷ ys) zero x = refl
set-map f (y ∷ ys) (suc i) x = ap (◌∷◌ (f y)) (set-map f ys i x)

drop_last-map : (f : ℕ → ℕ) (xs : List ℕ) → map f (drop_last xs) ≡ drop_last (map f xs)
drop_last-map f [] = refl
drop_last-map f (x ∷ []) = refl
drop_last-map f (x ∷ y ∷ xs) = ap (◌∷◌ (f x)) (drop_last-map f (y ∷ xs))

map_last : (f : ℕ → ℕ) (xs : List ℕ) (x : ℕ) → map f (xs ++ x ∷ []) ≡ map f xs ++ f x ∷ []
map_last f [] x = refl
map_last f (y ∷ xs) x = ap (◌∷◌ (f y)) (map_last f xs x)

-- An update of `f` where no entry is changes nothing.
map-put : (f : ℕ → ℕ) (c v : ℕ) (xs : List ℕ) → count c xs ≡ 0 → map (put f c v) xs ≡ map f xs
unfolding count
map-put f c v [] h = refl
map-put f c v (x ∷ xs) h =
    let n : x ≢ c = λ e. ground (arith, h, e) in
    ap (λ z. z ∷ map (put f c v) xs) (if_false v (f x) (ne_test n))
    ∙ ap (◌∷◌ (f x)) (map-put f c v xs (omega (arith, h)))

map-replaced :
    (f : ℕ → ℕ) (xs : List ℕ) (i : ℕ)
    → i < length xs
    → map f (replaced xs i) ≡ replaced (map f xs) i
map-replaced f xs i h =
    let last = length xs - 1 in
    drop_last-map f (set xs i (nth xs last))
    ∙ ap drop_last (
        set-map f xs i (nth xs last)
        ∙ ap (set (map f xs) i) (
            sym (nth-map f xs last (omega (arith, h)))
            ∙ ap (λ n. nth (map f xs) (n - 1)) (sym (length-map f xs))))

count-map-replaced :
    (f : ℕ → ℕ) (a : ℕ) (xs : List ℕ) (i : ℕ)
    → i < length xs
    → count a (map f (replaced xs i)) + one_if (f (nth xs i) == a) ≡ count a (map f xs)
count-map-replaced f a xs i h =
    let r = count-replaced a (map f xs) i (omega (arith, h, length-map f xs)) in
    ap (λ ys. count a ys + one_if (f (nth xs i) == a)) (map-replaced f xs i h)
    ∙ ap (λ n. count a (replaced (map f xs) i) + one_if (n == a)) (sym (nth-map f xs i h))
    ∙ r

-- A channel that is put at the end of the channels.
module _ (f : ℕ → ℕ) (c v : ℕ) (xs ys : List ℕ) (added : ys ≡ xs ++ c ∷ [])
    (new : count c xs ≡ 0) where
  count-added : (x : ℕ) → count x ys ≡ count x xs + one_if (c == x)
  count-added x =
      ap (count x) added
      ∙ count-append x xs (c ∷ [])
      ∙ ap (λ n. count x xs + n) (count-singleton x c)

  pub count-added_other : (x : ℕ) → x ≢ c → count x ys ≡ count x xs
  count-added_other x n =
      count-added x ∙ ap (λ b. count x xs + one_if b) (ne_test (λ e. n (sym e))) ∙ omega arith

  pub map-added : map (put f c v) ys ≡ map f xs ++ v ∷ []
  map-added =
      ap (map (put f c v)) added
      ∙ map_last (put f c v) xs c
      ∙ ap (λ zs. zs ++ put f c v c ∷ []) (map-put f c v xs new)
      ∙ ap (λ z. map f xs ++ z ∷ []) (if_true v (f c) (eq_self c))

pub once_added :
    (c x : ℕ) (xs ys : List ℕ)
    → ys ≡ xs ++ c ∷ []
    → count c xs ≡ 0
    → count x xs ≤ 1
    → count x ys ≤ 1
once_added c x xs ys added new once = elim (eq-cases c x) [
  | inl e ↦
      rw (count-added (λ y. y) c 0 xs ys added new x, eq_test e, subst (λ y. count y xs ≡ 0) e new)
        (omega arith)
  | inr n ↦ rw (count-added (λ y. y) c 0 xs ys added new x, ne_test n) (omega (arith, once))
]

-- A channel that is taken out of the channels; the last one takes its place.
module _ (f : ℕ → ℕ) (c : ℕ) (xs : List ℕ) (present : 0 < count c xs) (once : count c xs ≤ 1) where
  pub taken_out : (a : ℕ) → count a (replaced xs (std_find xs c)) + one_if (c == a) ≡ count a xs
  taken_out a =
      let (inside, found) = std_find_lem xs c present in
      ap (λ n. count a (replaced xs (std_find xs c)) + one_if (n == a)) (sym found)
      ∙ count-replaced a xs (std_find xs c) inside

  gone : count c (replaced xs (std_find xs c)) ≡ 0
  gone = ground (arith, taken_out c, once)

  pub count-mapped :
      (a : ℕ)
      → count a (map (put f c 0) (replaced xs (std_find xs c))) + one_if (f c == a)
        ≡ count a (map f xs)
  count-mapped a =
      let (inside, found) = std_find_lem xs c present in
      let i = std_find xs c in
      ap (λ ys. count a ys + one_if (f c == a)) (map-put f c 0 (replaced xs i) gone)
      ∙ ap (λ n. count a (map f (replaced xs i)) + one_if (f n == a)) (sym found)
      ∙ count-map-replaced f a xs i inside

  pub count-mapped_pos : 0 < count (f c) (map f xs)
  count-mapped_pos = ground (arith, count-mapped (f c))

  pub still_other : (x : ℕ) → 0 < count x (replaced xs (std_find xs c)) → (x ≢ c) × (0 < count x xs)
  still_other x h = (
    λ e. omega (arith, subst (λ y. 0 < count y (replaced xs (std_find xs c))) e h, gone),
    omega (arith, h, taken_out x),
  )
