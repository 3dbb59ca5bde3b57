-- ===== src/ProfilerImpl/Sending.antt =====
-- `ProfilerImpl::GatherNSend` of src/ProfilerImpl.cpp: all objects are emptied.
use pipert.Base.{
  ℕ, suc, ◌+◌, ◌≤◌, ◌<◌, ◌≡◌, refl, sym, ap, ◌∙◌, subst, List, [], ◌∷◌, ◌++◌, some, ◌==◌,
  if◌then◌else◌, inl, inr, lt-cases, ◌≢◌, eq_self, ne_test, arith, count, length,
}
use pipert.Timer.{Time}
use pipert.LogAggregate.{Doubles}
use pipert.SenderLogger as Sender
use pipert.ProfileData.{Memory, Entries, ProfileData, header, begin_round}
use pipert.ProfileData.Gathering.{Readable, all_cleared}
use pipert.ProfilerImpl.{
  ℤ, pos, ProfilerImpl, minus_1, next_int, send_from, gather_n_send, flush_data, enter,
}
use pipert.ProfilerImpl.Flushing.{all_entries, AllFit, frames, Flushed, flush_data-Flushed}

AllFit-append :
    (size : ℕ) (bs cs : List (List ℕ)) → AllFit size bs → AllFit size cs → AllFit size (bs ++ cs)
unfolding AllFit
AllFit-append size [] cs f g = g
AllFit-append size (b ∷ bs) cs (h, f) g = (h, AllFit-append size bs cs f g)

module _ {ℓ} {A : Type ℓ} (D : Doubles A) (M : Memory A) (string_at : ℕ → List ℕ) where
  -- The object when all is sent.
  unfoldable pub drained : (ℕ → Time) → ProfileData A → ProfileData A
  drained now p = record p {
    sender_logger = (Sender.serialize_n_clear string_at p.sender_logger).1;
    passed = all_cleared D M string_at now p.passed;
    pending = [];
  }

  module _ (now : ℕ → ℕ → Time) where
    -- For each object in turn, the buffers with its senders and all its entries.
    unfoldable pub Sends : List ℕ → (ℕ → ProfileData A) → List (List ℕ) → Type ℓ
    Sends [] store buffers = (buffers ≡ []) × Unit {ℓ}
    Sends (a ∷ xs) store buffers =
        (segments : List (Entries A)) × (rest : List (List ℕ)) × (all_entries segments
          ≡ (store a).passed)
        × (buffers
            ≡ frames D M string_at (now a) (header string_at (store a))
                (Sender.serialize_n_clear string_at (store a).sender_logger).0 segments
              ++ rest)
        × Sends xs store rest

    -- A round begins for the object, and its entries can be read.
    unfoldable pub Idle : (ℕ → ProfileData A) → ℕ → Type ℓ
    Idle store a = ((store a).pending ≡ []) × Readable (now a) (store a).passed

    -- What a run of the loop on the objects `xs` leaves.
    record Sent (xs : List ℕ) (d : ProfilerImpl) (store : ℕ → ProfileData A) : Type ℓ where
      buffers : List (List ℕ)
      next : ℤ
      store' : ℕ → ProfileData A
      result :
          send_from D M string_at now xs d store
          ≡ some (buffers, record d { next_profile_data = next }, store')
      sends : Sends xs store buffers
      fits : AllFit d.buffer_size buffers
      emptied : (a : ℕ) → 0 < count a xs → store' a ≡ drained (now a) (store a)
      others : (a : ℕ) → count a xs ≡ 0 → store' a ≡ store a

    Sends-same :
        (xs : List ℕ) (store store' : ℕ → ProfileData A) (buffers : List (List ℕ))
        → ((a : ℕ) → 0 < count a xs → store' a ≡ store a)
        → Sends xs store' buffers
        → Sends xs store buffers
    unfolding Sends count
    Sends-same [] store store' buffers same s = s
    Sends-same (a ∷ xs) store store' buffers same (segments, rest, all, parts, s) =
        let e = same a (ground arith) in
        (
          segments,
          rest,
          all ∙ ap (λ p. p.passed) e,
          parts
              ∙ ap
                  (λ p.
                    frames D M string_at (now a) (header string_at p)
                      (Sender.serialize_n_clear string_at p.sender_logger).0 segments
                    ++ rest)
                  e,
          Sends-same xs store store' rest (λ x h. same x (omega (arith, h))) s,
        )

    begun_idle :
        (p : ProfileData A)
        → p.pending ≡ []
        → begin_round string_at p ≡ (
          (Sender.serialize_n_clear string_at p.sender_logger).0,
          record p {
            sender_logger = (Sender.serialize_n_clear string_at p.sender_logger).1;
            passed = [];
            pending = p.passed;
          },
        )
    unfolding begin_round
    begun_idle p e = rw e refl

    -- The loop that empties an object at the beginning of a round.
    record Emptied (size : ℕ) (a : ℕ) (p : ProfileData A) : Type ℓ where
      segments : List (Entries A)
      result :
          flush_data D M string_at (now a) size p
          ≡ some (
            frames D M string_at
                (now a)
                (header string_at p)
                (Sender.serialize_n_clear string_at p.sender_logger).0
                segments,
            drained (now a) p,
          )
      complete : all_entries segments ≡ p.passed
      fits : AllFit size (
          frames D M string_at
            (now a)
            (header string_at p)
            (Sender.serialize_n_clear string_at p.sender_logger).0
            segments)

    flush_data-Emptied :
        (size a : ℕ) (p : ProfileData A)
        → 128 ≤ size
        → p.pending ≡ []
        → Readable (now a) p.passed
        → Emptied size a p
    unfolding flush_data drained
    flush_data-Emptied size a p room e readable =
        let start : List ℕ × ProfileData A = (
          (Sender.serialize_n_clear string_at p.sender_logger).0,
          record p {
            sender_logger = (Sender.serialize_n_clear string_at p.sender_logger).1;
            passed = [];
            pending = p.passed;
          },
        ) in
        let fuel = suc (length p.passed + length p.pending) in
        let b = begun_idle p e in
        let r : Flushed D M string_at (now a) size fuel p start =
          subst (Flushed D M string_at (now a) size fuel p) b (
            flush_data-Flushed D M string_at (now a) size p room
              (subst (λ x. Readable (now a) x.1.pending) (sym b) readable)) in
        record { segments = r.segments; result = r.result; complete = r.complete; fits = r.fits }

    -- The store once the object `x` is emptied, as `send_from` updates it.
    abbrev middle : (ℕ → ProfileData A) → ℕ → ℕ → ProfileData A
    middle store x a = if a == x then drained (now x) (store x) else store a

    middle_self :
        (store : ℕ → ProfileData A) (x a : ℕ) → a ≡ x → middle store x a ≡ drained (now a) (store a)
    middle_self store x a e = rw (e, eq_self x) refl

    middle_other : (store : ℕ → ProfileData A) (x a : ℕ) → a ≢ x → middle store x a ≡ store a
    middle_other store x a n = rw (ne_test n) refl

    Sent-step :
        (x : ℕ) (xs : List ℕ) (d : ProfilerImpl) (store : ℕ → ProfileData A)
        → ((a : ℕ) → 0 < count a xs → a ≢ x)
        → Emptied d.buffer_size x (store x)
        → Sent xs (record d { next_profile_data = next_int d.next_profile_data }) (middle store x)
        → Sent (x ∷ xs) d store
    unfolding send_from Sends count
    Sent-step x xs d store apart f r =
        let first =
          frames D M string_at (now x) (header string_at (store x))
            (Sender.serialize_n_clear string_at (store x).sender_logger).0 f.segments in
        let same : (a : ℕ) → 0 < count a xs → middle store x a ≡ store a =
          λ a h. middle_other store x a (apart a h) in
        record {
          buffers = first ++ r.buffers;
          next = r.next;
          store' = r.store';
          result = rw (f.result, r.result) refl;
          sends = (
            f.segments,
            r.buffers,
            f.complete,
            refl,
            Sends-same xs store (middle store x) r.buffers same r.sends,
          );
          fits = AllFit-append d.buffer_size first r.buffers f.fits r.fits;
          emptied = λ a h. elim (lt-cases 0 (count a xs)) [
            | inl later ↦ r.emptied a later ∙ ap (drained (now a)) (same a later)
            | inr never ↦
                r.others a (omega (arith, never)) ∙ middle_self store x a (ground (arith, h, never))
          ];
          others =
              λ a h. r.others a (omega (arith, h)) ∙ middle_other store x a (ground (arith, h));
        }

    apart_of_once :
        (x : ℕ) (xs : List ℕ) → ((a : ℕ) → count a (x ∷ xs) ≤ 1) → (a : ℕ) → 0 < count a xs → a ≢ x
    unfolding count
    apart_of_once x xs once a h e = absurd (ground (arith, once a, h, e))

    send_from-Sent :
        (xs : List ℕ) (d : ProfilerImpl) (store : ℕ → ProfileData A)
        → 128 ≤ d.buffer_size
        → ((a : ℕ) → count a xs ≤ 1)
        → ((a : ℕ) → 0 < count a xs → Idle store a)
        → Sent xs d store
    unfolding send_from Sends Idle AllFit count
    send_from-Sent [] d store room once idle = record {
      buffers = [];
      next = d.next_profile_data;
      store' = store;
      result = refl;
      sends = (refl, tt);
      fits = tt;
      emptied = λ a h. absurd (omega (arith, h));
      others = λ a h. refl;
    }
    send_from-Sent (x ∷ xs) d store room once idle =
        let (e, readable) = idle x (ground arith) in
        let apart = apart_of_once x xs once in
        Sent-step x xs d store apart (flush_data-Emptied d.buffer_size x (store x) room e readable)
          (send_from-Sent xs (record d { next_profile_data = next_int d.next_profile_data })
            (middle store x) room (λ a. omega (arith, once a))
            (λ a h.
              subst (λ p. (p.pending ≡ []) × Readable (now a) p.passed)
                (sym (middle_other store x a (apart a h))) (idle a (omega (arith, h)))))

    -- With a buffer of at least 128 bytes, no operation under way, no object registered twice, and all
    -- of them at the beginning of a round and readable, `GatherNSend` ends. It sends, object by object,
    -- the senders and every entry with a logged event once, no buffer beyond its size and no entry in
    -- two buffers; all registered objects are emptied, and nothing else changes.
    pub gather_n_send-Sends :
        (d : ProfilerImpl) (store : ℕ → ProfileData A)
        → d.next_profile_data ≡ minus_1
        → 128 ≤ d.buffer_size
        → ((a : ℕ) → count a d.profile_data ≤ 1)
        → ((a : ℕ) → 0 < count a d.profile_data → Idle store a)
        → (buffers : List (List ℕ)) × (store' : (ℕ → ProfileData A)) × (gather_n_send D M string_at
              now d store
            ≡ some (buffers, d, store'))
          × Sends d.profile_data store buffers
          × AllFit d.buffer_size buffers
          × ((a : ℕ) → 0 < count a d.profile_data → store' a ≡ drained (now a) (store a))
          × ((a : ℕ) → count a d.profile_data ≡ 0 → store' a ≡ store a)
    unfolding gather_n_send enter
    gather_n_send-Sends d store free room once idle =
        let r =
          send_from-Sent d.profile_data (record d { next_profile_data = pos 0 }) store room once
            idle in
        (r.buffers, r.store', rw (free, r.result) refl, r.sends, r.fits, r.emptied, r.others)
