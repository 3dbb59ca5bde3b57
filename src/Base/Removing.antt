-- ===== src/Base/Removing.antt =====
-- Removing an entry of a vector by moving the last one into its place.
use Prim.Native.Nat.{ℕ, ◌+◌, ◌-◌, ◌<◌}
use mathlib.Core.Path.{◌≡◌, refl, ◌∙◌}
use mathlib.Core.Bool.{Bool, true, false}
use mathlib.Core.List.{List}
use native.Mathlib.Omega.{arith}
use pipert.Base.Tests.{◌==◌, if◌then◌else◌}
use pipert.Base.Lists.{
  length, set, drop_last, nth, one_if, count, length-set, nth-set, count-set, count-drop_last,
}

abbrev pub replaced : List ℕ → ℕ → List ℕ
replaced xs i = drop_last (set xs i (nth xs (length xs - 1)))

same_branches : (b : Bool) (x : ℕ) → (if b then x else x) ≡ x
same_branches true x = refl
same_branches false x = refl

last-set :
    (xs : List ℕ) (i : ℕ)
    → i < length xs
    → nth (set xs i (nth xs (length xs - 1))) (length xs - 1) ≡ nth xs (length xs - 1)
last-set xs i h =
    let last = nth xs (length xs - 1) in
    nth-set xs i (length xs - 1) last h ∙ same_branches (length xs - 1 == i) last

pub count-replaced :
    (x : ℕ) (xs : List ℕ) (i : ℕ)
    → i < length xs
    → count x (replaced xs i) + one_if (nth xs i == x) ≡ count x xs
count-replaced x xs i h =
    let back = nth xs (length xs - 1) in
    let ys = set xs i back in
    let size = length-set xs i back in
    let dropped = count-drop_last x ys (omega (arith, size)) in
    let same : one_if (nth ys (length ys - 1) == x) ≡ one_if (back == x) =
      rw (size, last-set xs i h) refl in
    omega (arith, dropped, same, count-set x xs i back h)
