-- ===== src/Base/Bags.antt =====
-- Vectors of pointers up to the order of their elements.
use Prim.Native.Nat.{ℕ, suc, ◌+◌, ◌≤◌, ◌<◌}
use mathlib.Core.Path.{◌≡◌, refl, sym, ap, ap₂, ◌∙◌, subst}
use mathlib.Core.Logic.{◌≢◌, inl, inr}
use mathlib.Core.List.{List, [], ◌∷◌, map, Perm}
use mathlib.Core.List.Perm
use native.Mathlib.Omega.{arith}
use pipert.Base.Tests.{◌==◌, eq-cases, eq_self}
use pipert.Base.Lists.{count, one_if, length}

count_head : (x : ℕ) (xs : List ℕ) → 0 < count x (x ∷ xs)
unfolding count
count_head x xs = ground (arith, eq_self x)

-- An element can be brought to the front.
bring_front :
    (x : ℕ) (ys : List ℕ)
    → 0 < count x ys
    → (rest : List ℕ) × Perm ys (x ∷ rest)
      × ((z : ℕ) → count z ys ≡ count z (x ∷ rest))
      × (length ys ≡ suc (length rest))
unfolding count
bring_front x [] h = absurd (omega (arith, h))
bring_front x (y ∷ ys) h = elim (eq-cases y x) [
  | inl e ↦ (ys, subst (λ z. Perm (y ∷ ys) (z ∷ ys)) e (Perm.refl (y ∷ ys)), λ z. rw e, refl)
  | inr n ↦
      let (rest, p, c, l) = bring_front x ys (ground (arith, n)) in
      (y ∷ rest, Perm.trans (Perm.cons y p) (Perm.swap x y rest), λ z. omega (arith, c z), ap suc l)
]

-- Lists with the same elements, as often.
pub perm_of_counts : (xs ys : List ℕ) → ((x : ℕ) → count x xs ≡ count x ys) → Perm xs ys
perm_of_counts [] [] h = Perm.refl []
perm_of_counts [] (y ∷ ys) h = unfold count in absurd (omega (arith, h y, count_head y ys))
perm_of_counts (x ∷ xs) ys h =
    let (rest, p, c, l) = bring_front x ys (omega (arith, h x, count_head x xs)) in
    Perm.trans (Perm.cons x (perm_of_counts xs rest (λ z. unfold count in omega (arith, h z, c z))))
      (Perm.symm p)

pub map-same {ℓ} :
    {A : Type ℓ} (f g : ℕ → A) (xs : List ℕ)
    → ((x : ℕ) → 0 < count x xs → f x ≡ g x)
    → map f xs ≡ map g xs
unfolding count
map-same f g [] h = refl
map-same f g (x ∷ xs) h =
    ap₂ ◌∷◌ (h x (count_head x xs)) (map-same f g xs (λ z k. h z (omega (arith, k))))

-- What a function makes of the elements, when one is added or taken out and `f` changes at most at it.
module _ {ℓ} {A : Type ℓ} (f f' : ℕ → A) (xs ys : List ℕ) (x : ℕ) where
  pub map-added_perm :
      ((z : ℕ) → count z ys ≡ count z xs + one_if (x == z))
      → ((z : ℕ) → 0 < count z xs → f' z ≡ f z)
      → Perm (map f' ys) (f' x ∷ map f xs)
  unfolding count
  map-added_perm counts same =
      subst (λ zs. Perm (map f' ys) (f' x ∷ zs)) (map-same f' f xs same)
        (Perm.map f' (perm_of_counts ys (x ∷ xs) (λ z. omega (arith, counts z))))

  pub map-taken_perm :
      ((z : ℕ) → count z ys + one_if (x == z) ≡ count z xs)
      → ((z : ℕ) → 0 < count z ys → f' z ≡ f z)
      → Perm (f x ∷ map f' ys) (map f xs)
  unfolding count
  map-taken_perm counts same =
      subst (λ zs. Perm (f x ∷ zs) (map f xs)) (sym (map-same f' f ys same))
        (Perm.map f (perm_of_counts (x ∷ ys) xs (λ z. omega (arith, counts z))))

  -- One element is changed by `f'` where it stands.
  pub map-changed_perm :
      ((z : ℕ) → count z ys ≡ count z xs)
      → 0 < count x xs
      → count x xs ≤ 1
      → ((z : ℕ) → z ≢ x → f' z ≡ f z)
      → Perm (f x ∷ map f' ys) (f' x ∷ map f xs)
  unfolding count
  map-changed_perm counts inside once same =
      let (rest, p, c, l) = bring_front x xs inside in
      let kept : map f' rest ≡ map f rest =
        map-same f' f rest
          (λ z h. same z (λ e. ground (arith, ap (λ w. count w rest) e, c x, eq_self x))) in
      let moved : Perm (map f' ys) (f' x ∷ map f rest) =
        subst (λ zs. Perm (map f' ys) (f' x ∷ zs)) kept
          (Perm.map f' (perm_of_counts ys (x ∷ rest) (λ z. counts z ∙ c z))) in
      Perm.trans (Perm.cons (f x) moved) (
        Perm.trans (Perm.swap (f' x) (f x) (map f rest))
          (Perm.cons (f' x) (Perm.symm (Perm.map f p))))

-- A list whose elements occur at least as often in another is no longer than that.
pub length_of_counts :
    (xs ys : List ℕ) → ((x : ℕ) → count x xs ≤ count x ys) → length xs ≤ length ys
unfolding count
length_of_counts [] ys h = omega arith
length_of_counts (x ∷ xs) ys h =
    let (rest, p, c, l) = bring_front x ys (omega (arith, h x, count_head x xs)) in
    omega (arith, length_of_counts xs rest (λ z. omega (arith, h z, c z)), l)
