-- ===== src/Policy/Breaker/Book/Atomic.antt =====
-- `admit_pair` is all or nothing, and an operation touches the breaker of its own key only.
use i_doris.Prelude.{
  ℕ, ◌+◌, ◌≤◌, true, false, ◌&&◌, Option, some, ◌≡◌, ◌≢◌, arith, refl, sym, ap, none≢some,
  >>=-eq-some, ◌∙◌, u64_max, Option-cases, ◌⊎◌, inl, inr,
}
use i_doris.Prelude.Equality.{Eq}
use i_doris.Policy.Breaker
use i_doris.Policy.Breaker.{
  CredentialClass, Breaker, Admission, allowed, admitted, AdmissionTicket, Admit, next_issuer, new,
}
use i_doris.Policy.Breaker.Book.{
  PairReject, ok, err, Key, Book, key_eq_iff, find, put, get_or_new, readiness, admit, modify,
  on_success, on_failure, on_failure_with_retry_after, on_retry_after, or_insert, admit_both,
  admit_pair,
}
use i_doris.Policy.Breaker.Window.{readiness-admit}
use i_doris.Policy.Breaker.Book.Pairs.{
  find-put, find-put_ne, Entered, prepare-Prepares, get_or_new-same, admit_pair-cases,
  admit_both_prepared,
}

second_eq :
    {A B C : Type 0} {a a' : A} {b b' : B} {c c' : C}
    → ◌≡◌ {A = Option (A × B × C)} (some (a, b, c)) (some (a', b', c'))
    → b ≡ b'
second_eq h = cc

module _ {K : Type 0} ⦃e : Eq K⦄ where
  modify_other :
      (book : Book K) (k j : Key K) (f : Breaker → Breaker)
      → k ≢ j
      → find j (modify book k f) ≡ find j book
  unfolding modify
  modify_other book k j f n = elim (Option-cases (find k book)) [
    | inl h ↦ rw (h, modify) refl
    | inr (b, h) ↦ rw (h, modify) (find-put_ne j k (f b) book n)
  ]

  admit_first :
      (book : Book K) (k : Key K) (now next n : ℕ) (b : Breaker)
      → get_or_new k book next ≡ some (b, n)
      → admit book k.1 k.0 now next
        ≡ some ((Breaker.admit b now).1, put k (Breaker.admit b now).0 book, n)
  unfolding admit
  admit_first book k now next n b g = rw (g, admit) refl

  admit_both_not_err :
      (book book' : Book K) (f s : Key K) (now next next' : ℕ) (r : PairReject)
      → f ≢ s
      → ¬ (admit_both book f s now next ≡ some (err r, book', next'))
  unfolding admit_both
  admit_both_not_err book book' f s now next next' r f≢s h = elim (prepare-Prepares f book next) [
    | inl (e, _) ↦ none≢some (rw (e, admit_both) at h)
    | inr (p, b, n, e, _, _, enter, _) ↦ elim (prepare-Prepares s book n) [
      | inl (e', _) ↦ none≢some (rw e' at (rw (e, admit_both) at h))
      | inr (q, c, m, e', _, _, enter', _) ↦
          cc (admit_both_prepared book f s now next n m p q b c f≢s e e' enter enter')
    ]
  ]

  -- What `admit_pair` leaves in the book is what the two single admissions leave.
  same_entries :
      (book : Book K) (f s j : Key K) (p q : Option Breaker) (b c b' c' : Breaker)
      → f ≢ s
      → Entered f book p b
      → Entered s book q c
      → find j (put s c' (put f b' (or_insert s q (or_insert f p book))))
        ≡ find j (put s c' (put f b' book))
  same_entries book f s j p q b c b' c' f≢s enter enter' =
      let mid = enter book refl in
      let last = enter' (or_insert f p book) (mid.1 s f≢s) in
      ground (
        arith,
        find-put j s c' (put f b' (or_insert s q (or_insert f p book))),
        find-put j f b' (or_insert s q (or_insert f p book)),
        find-put j s c' (put f b' book),
        find-put j f b' book,
        key_eq_iff s j,
        key_eq_iff f j,
        mid.1 j,
        last.1 j,
      )

  -- A pair that is refused, for whatever reason, leaves the book and the counter of identities as
  -- they were, and is refused only for two equal keys or a closed gate.
  pub admit_pair_refused :
      (book book' : Book K) (f s : Key K) (now next next' : ℕ) (r : PairReject)
      → admit_pair book (f.1, f.0) (s.1, s.0) now next ≡ some (err r, book', next')
      → (book' ≡ book)
        × (next' ≡ next)
        × ((f ≡ s)
            ⊎ ((admitted (readiness book f.1 f.0 now) && admitted (readiness book s.1 s.0 now))
                ≡ false))
  admit_pair_refused book book' f s now next next' r h = elim (admit_pair-cases book f s now next) [
    | inl (inl (same, q)) ↦ ground (arith, key_eq_iff f s)
    | inl (inr (closed_gate, q)) ↦ ground arith
    | inr (other, _, _, q) ↦ absurd (
        admit_both_not_err book book' f s now next next' r (λ same. cc ((key_eq_iff f s).1 same))
          (sym q ∙ h))
  ]

  -- Two different keys whose gates both let a request through are admitted together, whenever the
  -- counter can still give two identities: no panic, both requests admitted, and the answers, the
  -- counter and every entry of the book are those of the two single admissions, one after the other.
  pub admit_pair_sequential :
      (book : Book K) (f s : Key K) (now next : ℕ)
      → f ≢ s
      → admitted (readiness book f.1 f.0 now) ≡ true
      → admitted (readiness book s.1 s.0 now) ≡ true
      → next + 2 ≤ u64_max
      → (a d : Admit) × (book' book₁ book₂ : Book K) × (n m : ℕ) × (admit_pair book
            (f.1, f.0)
            (s.1, s.0)
            now
            next
          ≡ some (ok a d, book', m))
        × (admit book f.1 f.0 now next ≡ some (a, book₁, n))
        × (admit book₁ s.1 s.0 now n ≡ some (d, book₂, m))
        × (admitted a.admission ≡ true)
        × (admitted d.admission ≡ true)
        × ((j : Key K) → find j book' ≡ find j book₂)
  admit_pair_sequential book f s now next f≢s ra rd room =
      elim (admit_pair-cases book f s now next) [
        | inl (inl (same, q)) ↦ absurd (f≢s ((key_eq_iff f s).0 same))
        | inl (inr (closed_gate, q)) ↦ absurd (ground arith)
        | inr (other, _, _, paired) ↦ elim (prepare-Prepares f book next) [
          | inl (_, full) ↦ absurd (omega arith)
          | inr (p, b, n, e, g, le, enter, rb) ↦ elim (prepare-Prepares s book n) [
            | inl (_, full) ↦ absurd (omega arith)
            | inr (q, c, m, e', g', _, enter', rc) ↦
                let book₁ = put f (Breaker.admit b now).0 book in
                (
                  (Breaker.admit b now).1,
                  (Breaker.admit c now).1,
                  put s (Breaker.admit c now).0
                      (put f (Breaker.admit b now).0 (or_insert s q (or_insert f p book))),
                  book₁,
                  put s (Breaker.admit c now).0 book₁,
                  n,
                  m,
                  paired ∙ admit_both_prepared book f s now next n m p q b c f≢s e e' enter enter',
                  admit_first book f now next n b g,
                  admit_first book₁ s now n m c
                      (get_or_new-same s book book₁ n (find-put_ne s f _ book f≢s) ∙ g'),
                  ap admitted (sym (readiness-admit b now).0 ∙ sym (rb now)) ∙ ra,
                  ap admitted (sym (readiness-admit c now).0 ∙ sym (rc now)) ∙ rd,
                  λ j. same_entries book f s j p q b c _ _ f≢s enter enter',
                )
          ]
        ]
      ]

  readiness_same :
      (j : Key K) (book book' : Book K) (now : ℕ)
      → find j book' ≡ find j book
      → readiness book' j.1 j.0 now ≡ readiness book j.1 j.0 now
  unfolding readiness
  readiness_same (c, k) book book' now h = rw (h, readiness) refl

  -- A report through the book, of any kind and with any ticket, leaves the breaker of every other
  -- class or key as it was.
  pub reports_isolated :
      (book : Book K) (k j : Key K) (t : AdmissionTicket) (now ms : ℕ) (retry : Option ℕ)
      → k ≢ j
      → (find j (on_success book k.1 k.0 t) ≡ find j book)
        × (find j (on_failure book k.1 k.0 t now) ≡ find j book)
        × (find j (on_retry_after book k.1 k.0 t now ms) ≡ find j book)
        × (find j (on_failure_with_retry_after book k.1 k.0 t now retry) ≡ find j book)
  unfolding on_success on_failure on_retry_after on_failure_with_retry_after
  reports_isolated book k j t now ms retry n = (
    modify_other book k j _ n,
    modify_other book k j _ n,
    modify_other book k j _ n,
    modify_other book k j _ n,
  )

  -- An admission through the book leaves the breaker of every other class or key as it was, and
  -- the readiness that it answers at any time.
  pub admission_isolated :
      (book book' : Book K) (k j : Key K) (now later next next' : ℕ) (a : Admit)
      → k ≢ j
      → admit book k.1 k.0 now next ≡ some (a, book', next')
      → (find j book' ≡ find j book)
        × (readiness book' j.1 j.0 later ≡ readiness book j.1 j.0 later)
  unfolding admit
  admission_isolated book book' k j now later next next' a n h =
      let (_, _, q) = >>=-eq-some (get_or_new k book next) _ h in
      let e : find j book' ≡ find j book =
        ap (find j) (sym (second_eq q)) ∙ find-put_ne j k _ book n in
      (e, readiness_same j book book' later e)
