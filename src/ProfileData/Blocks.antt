-- ===== src/ProfileData/Blocks.antt =====
-- The pieces that `GatherNSerialize` of src/ProfileData.cpp writes, and their sizes.
use pipert.Base.{
  ℕ, ◌^◌, ◌≤◌, ◌<◌, ◌≡◌, refl, sym, ap, ◌∙◌, List, [], ◌∷◌, ◌++◌, ◌==◌, inl, inr, eq-cases, ne_test,
  arith, length, length-append,
}
use pipert.Endianness.{shift_in, convert_network_to_host, convert_double_to_network}
use pipert.Endianness.{shift_out, convert_host_to_network}
use pipert.Endianness.RoundTrip.{network-host}
use pipert.LogAggregate.{Serialized}
use pipert.SenderLogger.{first_chars}
use pipert.SenderLogger.Counting.{length-first_chars}
use pipert.ProfileData.{
  Memory, ProfileData, serialize_string, count_number, double_bytes, aggregate_bytes, logged_block,
  header,
}

pub length-serialize_string : (str : List ℕ) → length (serialize_string str) ≤ 28
unfolding serialize_string
length-serialize_string str =
    omega (arith, length-append (first_chars 27 str) (0 ∷ []), length-first_chars 27 str)

pub length-header {ℓ} :
    {A : Type ℓ} (string_at : ℕ → List ℕ) (p : ProfileData A) → length (header string_at p) ≤ 32
unfolding header
length-header string_at p = omega (arith, length-serialize_string (string_at p.data_group_name))

length-fields :
    (a b c d e : List ℕ)
    → length a ≡ 4
    → length b ≡ 4
    → length c ≡ 8
    → length d ≡ 8
    → length e ≡ 8
    → length (a ++ b ++ c ++ d ++ e) ≡ 32
length-fields a b c d e p q r s t = omega (
  arith,
  length-append (a ++ b ++ c ++ d) e,
  length-append (a ++ b ++ c) d,
  length-append (a ++ b) c,
  length-append a b,
  p,
  q,
  r,
  s,
  t,
)

abbrev zeros : List ℕ
zeros = 0 ∷ 0 ∷ 0 ∷ 0 ∷ []

module _ {ℓ} {A : Type ℓ} (M : Memory A) where
  length-double_bytes : (a : A) → length (double_bytes M a) ≡ 8
  unfolding double_bytes
  length-double_bytes a = M.length-store 8 (convert_double_to_network M.load (M.bits a))

  length-aggregate_bytes : (s : Serialized A) → length (aggregate_bytes M s) ≡ 32
  unfolding aggregate_bytes
  length-aggregate_bytes s =
      length-fields (M.store 4 (count_number M s))
        (M.store 4 (convert_host_to_network M.load 4 s.time_field)) (double_bytes M s.min_field)
        (double_bytes M s.max_field) (double_bytes M s.avg_field)
        (M.length-store 4 (count_number M s))
        (M.length-store 4 (convert_host_to_network M.load 4 s.time_field))
        (length-double_bytes s.min_field) (length-double_bytes s.max_field)
        (length-double_bytes s.avg_field)

  pub length-logged_block :
      (string_at : ℕ → List ℕ) (name : ℕ) (s : Serialized A)
      → length (logged_block M string_at name s) ≤ 64
  unfolding logged_block
  length-logged_block string_at name s = omega (
    arith,
    length-append (serialize_string (string_at name)) (aggregate_bytes M s),
    length-serialize_string (string_at name),
    length-aggregate_bytes s,
  )

  -- A number that is converted to network byte order is 0 if and only if it was 0.
  converted_zero : convert_host_to_network M.load 4 0 ≡ 0
  unfolding convert_host_to_network shift_out
  converted_zero = M.load-zeros

  stored_zero : convert_network_to_host (M.store 4) 4 0 ≡ 0
  unfolding convert_network_to_host shift_in
  stored_zero = ap (shift_in 4 0) (
      ap (M.store 4) (sym M.load-zeros)
      ∙ M.store-load 4 zeros refl (omega arith, (omega arith, (omega arith, (omega arith, tt)))))

  of_converted_zero : (n : ℕ) → n < 256 ^ 4 → convert_host_to_network M.load 4 n ≡ 0 → n ≡ 0
  of_converted_zero n h e =
      sym (network-host M.load (M.store 4) 4 n (omega arith) (M.store-load 4) h)
      ∙ ap (convert_network_to_host (M.store 4) 4) e
      ∙ stored_zero

  pub count_number_zero :
      (s : Serialized A) → s.count_field < 256 ^ 4 → (count_number M s == 0) ≡ (s.count_field == 0)
  unfolding count_number
  count_number_zero s h = elim (eq-cases s.count_field 0) [
    | inl e ↦ rw (e, converted_zero) refl
    | inr n ↦ ne_test (λ e. n (of_converted_zero s.count_field h e)) ∙ sym (ne_test n)
  ]
