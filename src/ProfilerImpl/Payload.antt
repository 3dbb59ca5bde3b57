-- ===== src/ProfilerImpl/Payload.antt =====
-- What the buffers of `ProfilerImpl::GatherNSend` in src/ProfilerImpl.cpp carry, whatever their size.
use pipert.Base.{
  ℕ, zero, suc, ◌≤◌, ◌≡◌, refl, sym, ap, ◌∙◌, false, List, [], ◌∷◌, ◌++◌, some, is_empty, length,
  append_assoc, arith,
}
use pipert.Timer.{Time}
use pipert.LogAggregate.{Doubles}
use pipert.ProfileData.{Memory, Entries, ProfileData, header, begin_round}
use pipert.ProfileData.Gathering.{Readable, block_of, report, all_cleared}
use pipert.ProfilerImpl.{flush_data}
use pipert.ProfilerImpl.Flushing.{all_entries, frames, flush_data-Flushed}

-- A buffer without its first `n` bytes.
without : ℕ → List ℕ → List ℕ
without zero bytes = bytes
without (suc n) [] = []
without (suc n) (x ∷ xs) = without n xs

-- What follows the header, of `n` bytes, in all the buffers.
pub payload : ℕ → List (List ℕ) → List ℕ
unfolding without
payload n [] = []
payload n (buffer ∷ buffers) = without n buffer ++ payload n buffers

without-append : (xs ys : List ℕ) → without (length xs) (xs ++ ys) ≡ ys
unfolding without
without-append [] ys = refl
without-append (x ∷ xs) ys = without-append xs ys

module _ {ℓ} {A : Type ℓ} (D : Doubles A) (M : Memory A) (string_at : ℕ → List ℕ)
    (now : ℕ → Time) where
  report-append :
      (gs hs : Entries A)
      → report D M string_at now (gs ++ hs)
        ≡ report D M string_at now gs ++ report D M string_at now hs
  unfolding report
  report-append [] hs = refl
  report-append ((name, g) ∷ gs) hs =
      ap (λ x. block_of D M string_at now name g ++ x) (report-append gs hs)
      ∙ sym (
          append_assoc (block_of D M string_at now name g) (report D M string_at now gs)
            (report D M string_at now hs))

  without-frame :
      (head senders bytes : List ℕ)
      → without (length head) (head ++ senders ++ bytes) ≡ senders ++ bytes
  without-frame head senders bytes =
      ap (without (length head)) (append_assoc head senders bytes)
      ∙ without-append head (senders ++ bytes)

  payload-later :
      (head : List ℕ) (segments : List (Entries A))
      → payload (length head) (frames D M string_at now head [] segments)
        ≡ report D M string_at now (all_entries segments)
  unfolding payload frames all_entries report
  payload-later head [] = refl
  payload-later head (segment ∷ segments) =
      ap (λ x. x ++ payload (length head) (frames D M string_at now head [] segments))
        (without-frame head [] (report D M string_at now segment))
      ∙ ap (λ x. report D M string_at now segment ++ x) (payload-later head segments)
      ∙ sym (report-append segment (all_entries segments))

  payload-frames :
      (head senders : List ℕ) (segments : List (Entries A))
      → is_empty segments ≡ false
      → payload (length head) (frames D M string_at now head senders segments)
        ≡ senders ++ report D M string_at now (all_entries segments)
  unfolding payload frames all_entries
  payload-frames head senders [] h = absurd (ground (arith, h))
  payload-frames head senders (segment ∷ segments) h =
      ap (λ x. x ++ payload (length head) (frames D M string_at now head [] segments))
        (without-frame head senders (report D M string_at now segment))
      ∙ append_assoc senders (report D M string_at now segment)
          (payload (length head) (frames D M string_at now head [] segments))
      ∙ ap (λ x. senders ++ (report D M string_at now segment ++ x)) (payload-later head segments)
      ∙ ap (λ x. senders ++ x) (sym (report-append segment (all_entries segments)))

  -- With any buffer of at least 128 bytes, and entries that can be read, what the buffers of an object
  -- carry after their headers is the same as if all were written at once: the senders at the beginning
  -- of a round, and the blocks of the entries that are left. The object that is left is the same, too.
  pub flush_data-payload :
      (size size' : ℕ) (p : ProfileData A)
      → 128 ≤ size
      → 128 ≤ size'
      → Readable now (begin_round string_at p).1.pending
      → (buffers buffers' : List (List ℕ)) × (p' : ProfileData A) × (flush_data D M string_at now
            size p
          ≡ some (buffers, p'))
        × (flush_data D M string_at now size' p ≡ some (buffers', p'))
        × (payload (length (header string_at p)) buffers
            ≡ (begin_round string_at p).0
              ++ report D M string_at now (begin_round string_at p).1.pending)
        × (payload (length (header string_at p)) buffers'
            ≡ (begin_round string_at p).0
              ++ report D M string_at now (begin_round string_at p).1.pending)
  unfolding flush_data
  flush_data-payload size size' p room room' readable =
      let start = begin_round string_at p in
      let f = flush_data-Flushed D M string_at now size p room readable in
      let f' = flush_data-Flushed D M string_at now size' p room' readable in
      (
        frames D M string_at now (header string_at p) start.0 f.segments,
        frames D M string_at now (header string_at p) start.0 f'.segments,
        record start.1 {
          passed = start.1.passed ++ all_cleared D M string_at now start.1.pending;
          pending = [];
        },
        f.result,
        f'.result,
        payload-frames (header string_at p) start.0 f.segments f.some_segment
            ∙ ap (λ x. start.0 ++ report D M string_at now x) f.complete,
        payload-frames (header string_at p) start.0 f'.segments f'.some_segment
            ∙ ap (λ x. start.0 ++ report D M string_at now x) f'.complete,
      )
