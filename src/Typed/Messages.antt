-- ===== src/Typed/Messages.antt =====
-- The messages that a channel of include/pipert/Channel.h has queued: time stamps with data.
use pipert.Base.{
  ℕ, ◌≡◌, ap, ◌∙◌, ◌≢◌, eq_self, ne_test, List, [], ◌∷◌, refl, true, is_empty, Option, map,
}
use pipert.Timer.{Time}
use pipert.Channel.{stamp}
use pipert.Typed.{Typed, put_at}

map_empty {ℓ} : {A : Type ℓ} (f : ℕ → A) (xs : List ℕ) → is_empty xs ≡ true → map f xs ≡ []
map_empty f [] e = refl
map_empty f (x ∷ xs) e = cc

module _ {ℓ} {T : Type ℓ} where
  -- The message of the packet `x`.
  abbrev pub message : Typed T → ℕ → ℕ → Time × Option T
  message ty c x = (stamp (ty.pipeline.channel c) x, ty.contents c x)

  unfoldable pub messages : Typed T → ℕ → List (Time × Option T)
  messages ty c = map (message ty c) (ty.pipeline.channel c).queued_packets.heap

  pub messages-none :
      (ty : Typed T) (c : ℕ)
      → is_empty (ty.pipeline.channel c).queued_packets.heap ≡ true
      → messages ty c ≡ []
  unfolding messages
  messages-none ty c vacant =
      map_empty (message ty c) (ty.pipeline.channel c).queued_packets.heap vacant

  pub pair_eq :
      {t u : Time} {a b : Option T} → t ≡ u → a ≡ b → ◌≡◌ {A = Time × Option T} (t, a) (u, b)
  pair_eq {t} {u} {a} {b} e f = ap (λ x. (x, a)) e ∙ ap (λ y. (u, y)) f

module _ {ℓ} {A : Type ℓ} (m : ℕ → ℕ → A) (c x : ℕ) (a : A) where
  pub put_at_self : put_at m c x a c x ≡ a
  put_at_self = rw (eq_self c, eq_self x)

  pub put_at_packet : {z : ℕ} → z ≢ x → put_at m c x a c z ≡ m c z
  put_at_packet n = rw (eq_self c, ne_test n)

  pub put_at_channel : {y : ℕ} (z : ℕ) → y ≢ c → put_at m c x a y z ≡ m y z
  put_at_channel z n = rw (ne_test n)
