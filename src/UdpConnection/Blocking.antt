-- ===== src/UdpConnection/Blocking.antt =====
-- `SetBlockingMode` of src/UDPConnection.cpp.
use pipert.Base.{
  ℕ, ◌+◌, ◌-◌, ◌/◌, ◌%◌, ◌≡◌, refl, sym, ap, ◌∙◌, Bool, true, false, some, Option, not, subst, ◌⊎◌,
  inl, inr, if◌then◌else◌, arith,
}
use pipert.UdpConnection.{OperatingSystem, UdpConnection, set_blocking_mode, has_flag}

-- The flags but for `O_NONBLOCK` are the same.
pub record SameOthers (flags flags' : ℕ) : Type 0 where
  pub low : flags' % 2048 ≡ flags % 2048
  pub high : flags' / 4096 ≡ flags / 4096

cleared_flag :
    (flags : ℕ)
    → has_flag 2048 flags ≡ true
    → (has_flag 2048 (flags - 2048) ≡ false) × SameOthers flags (flags - 2048)
cleared_flag flags h =
    let odd : (flags / 2048) % 2 ≡ 1 = ground (arith, h) in
    ((ground (arith, odd)), record { low = omega (arith, odd); high = omega (arith, odd) })

set_flag :
    (flags : ℕ)
    → has_flag 2048 flags ≡ false
    → (has_flag 2048 (flags + 2048) ≡ true) × SameOthers flags (flags + 2048)
set_flag flags h =
    let even : (flags / 2048) % 2 ≡ 0 = ground (arith, h) in
    ((ground (arith, even)), record { low = omega (arith, even); high = omega (arith, even) })

module _ {ℓ} {W : Type ℓ} (os : OperatingSystem W) where
  -- What the call gives is the mode `is_blocking`, reached from the flags `flags`.
  abbrev Mode : ℕ → ℕ → Bool → Option ℕ × W → Type 0
  Mode fd flags is_blocking r =
      (r.0 ≡ some 0)
      × (has_flag os.nonblock (os.get_flags fd r.1) ≡ not is_blocking)
      × SameOthers flags (os.get_flags fd r.1)

  module _ (c : UdpConnection) (fd : ℕ) (w : W) (e : c.socket_filedesc ≡ some fd) where
    mode-kept :
        (is_blocking : Bool)
        → has_flag os.nonblock (os.get_flags fd w) ≡ not is_blocking
        → set_blocking_mode os c is_blocking w ≡ (some 0, w)
    unfolding set_blocking_mode
    mode-kept true n = rw (e, n) refl
    mode-kept false n = rw (e, n) refl

    mode-changed :
        (is_blocking : Bool)
        → has_flag os.nonblock (os.get_flags fd w) ≡ is_blocking
        → set_blocking_mode os c is_blocking w
          ≡ os.set_flags fd
              (if is_blocking
                then os.get_flags fd w - os.nonblock
                else os.get_flags fd w + os.nonblock)
              w
    unfolding set_blocking_mode
    mode-changed true n = rw (e, n) refl
    mode-changed false n = rw (e, n) refl

  Mode-of_flags :
      (fd flags new : ℕ) (is_blocking : Bool) (w : W)
      → ((os.set_flags fd new w).0 ≡ some 0) × (os.get_flags fd (os.set_flags fd new w).1 ≡ new)
      → (has_flag os.nonblock new ≡ not is_blocking) × SameOthers flags new
      → Mode fd flags is_blocking (os.set_flags fd new w)
  Mode-of_flags fd flags new is_blocking w (ok, same) (flag, others) =
      (ok, rw same flag, rw same others)

  changed_flags :
      (flags : ℕ) (is_blocking : Bool)
      → os.nonblock ≡ 2048
      → has_flag os.nonblock flags ≡ is_blocking
      → (has_flag os.nonblock (if is_blocking then flags - os.nonblock else flags + os.nonblock)
          ≡ not is_blocking)
        × SameOthers flags (if is_blocking then flags - os.nonblock else flags + os.nonblock)
  changed_flags flags true b n = rw b (cleared_flag flags (ap (λ x. has_flag x flags) (sym b) ∙ n))
  changed_flags flags false b n = rw b (set_flag flags (ap (λ x. has_flag x flags) (sym b) ∙ n))

  Bool-same_or_not : (a b : Bool) → (a ≡ not b) ⊎ (a ≡ b)
  Bool-same_or_not true true = inr refl
  Bool-same_or_not true false = inl refl
  Bool-same_or_not false true = inl refl
  Bool-same_or_not false false = inr refl

  -- On an open connection where `fcntl` sets the flags that it is given and `O_NONBLOCK` is 04000,
  -- `SetBlockingMode` leaves that flag set exactly in the mode that does not block, and the other flags
  -- as they were.
  pub set_blocking_mode-result :
      (c : UdpConnection) (fd : ℕ) (is_blocking : Bool) (w : W)
      → c.socket_filedesc ≡ some fd
      → os.nonblock ≡ 2048
      → ((flags : ℕ)
          → ((os.set_flags fd flags w).0 ≡ some 0)
            × (os.get_flags fd (os.set_flags fd flags w).1 ≡ flags))
      → ((set_blocking_mode os c is_blocking w).0 ≡ some 0)
        × (has_flag os.nonblock (os.get_flags fd (set_blocking_mode os c is_blocking w).1)
            ≡ not is_blocking)
        × SameOthers (os.get_flags fd w) (os.get_flags fd (set_blocking_mode os c is_blocking w).1)
  set_blocking_mode-result c fd is_blocking w e b sets =
      let flags = os.get_flags fd w in
      elim (Bool-same_or_not (has_flag os.nonblock flags) is_blocking) [
        | inl n ↦
            subst (Mode fd flags is_blocking) (sym (mode-kept c fd w e is_blocking n))
              (refl, n, record { low = refl; high = refl })
        | inr n ↦
            let new = if is_blocking then flags - os.nonblock else flags + os.nonblock in
            subst (Mode fd flags is_blocking) (sym (mode-changed c fd w e is_blocking n)) (
              Mode-of_flags fd flags new is_blocking w (sets new)
                (changed_flags flags is_blocking b n))
      ]
