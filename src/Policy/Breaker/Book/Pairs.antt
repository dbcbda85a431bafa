-- ===== src/Policy/Breaker/Book/Pairs.antt =====
-- The book as a map of breakers, and what `admit_pair` does step by step.
use i_doris.Prelude.{
  ℕ, ◌+◌, ◌≤◌, true, false, ◌&&◌, Option, none, some, [], ◌∷◌, if◌then◌else◌, ◌≡◌, ◌≢◌, arith, refl,
  sym, ◌∙◌, u64_max, Bool-cases, Option-cases, ◌⊎◌, inl, inr,
}
use i_doris.Prelude.Equality.{Eq}
use i_doris.Policy.Breaker
use i_doris.Policy.Breaker.{
  CredentialClass, Breaker, Admission, allowed, admitted, AdmissionTicket, Admit, next_issuer, new,
}
use i_doris.Policy.Breaker.Book.{
  PairResult, ok, err, duplicate, gate, Key, Book, key_eq, key_eq_iff, find, put, get_or_new,
  readiness, prepare, or_insert, admit_both, admit_pair,
}

next_issuer-cases :
    (next : ℕ)
    → (next_issuer next ≡ none) × (next ≡ u64_max) ⊎ (next_issuer next ≡ some (next, next + 1))
unfolding next_issuer
next_issuer-cases next = ground arith

module _ {K : Type 0} ⦃e : Eq K⦄ where
  pub find-put :
      (j k : Key K) (b : Breaker) (book : Book K)
      → find j (put k b book) ≡ (if key_eq k j then some b else find j book)
  unfolding find put
  find-put j k b [] = refl
  find-put j k b ((i, c) ∷ book) =
      ground (arith, key_eq_iff i k, key_eq_iff k j, key_eq_iff i j, find-put j k b book)

  pub find-put_ne :
      (j k : Key K) (b : Breaker) (book : Book K) → k ≢ j → find j (put k b book) ≡ find j book
  find-put_ne j k b book n = ground (arith, find-put j k b book, key_eq_iff k j)

  find-put_self : (k : Key K) (b : Breaker) (book : Book K) → find k (put k b book) ≡ some b
  find-put_self k b book = ground (arith, find-put k k b book, key_eq_iff k k)

  -- What preparing a breaker for a key does, beside the entry that a single admission would use.
  abbrev pub Entered : Key K → Book K → Option Breaker → Breaker → Type 0
  Entered k book p b =
      (book' : Book K)
      → find k book' ≡ find k book
      → (find k (or_insert k p book') ≡ some b)
        × ((j : Key K) → k ≢ j → find j (or_insert k p book') ≡ find j book')

  abbrev pub Prepares : Key K → Book K → ℕ → Type 0
  Prepares k book next =
      (prepare k book next ≡ none) × (next ≡ u64_max)
      ⊎ ((p : Option Breaker) × (b : Breaker) × (n : ℕ) × (prepare k book next ≡ some (p, n))
          × (get_or_new k book next ≡ some (b, n))
          × (n ≤ next + 1)
          × Entered k book p b
          × ((now : ℕ) → readiness book k.1 k.0 now ≡ Breaker.readiness b now))

  Entered-found :
      (k : Key K) (book : Book K) (b : Breaker) → find k book ≡ some b → Entered k book none b
  unfolding or_insert
  Entered-found k book b h book' q = (q ∙ h, λ j n. refl)

  Entered-new :
      (k : Key K) (book : Book K) (b : Breaker) → find k book ≡ none → Entered k book (some b) b
  unfolding or_insert find
  Entered-new k book b h book' q =
      rw (q ∙ h, or_insert) (find-put_self k b book', λ j n. find-put_ne j k b book' n)

  pub prepare-Prepares : (k : Key K) (book : Book K) (next : ℕ) → Prepares k book next
  unfolding prepare get_or_new readiness
  prepare-Prepares (c, k) book next = elim (Option-cases (find (c, k) book)) [
    | inr (b, h) ↦ inr (
      none,
      b,
      next,
      rw (h, prepare) refl,
      rw (h, get_or_new) refl,
      omega arith,
      Entered-found (c, k) book b h,
      λ now. rw (h, readiness) refl,
    )
    | inl h ↦ elim (next_issuer-cases next) [
      | inl (e, q) ↦ inl (rw (h, prepare) (rw e refl), q)
      | inr e ↦ inr (
        some (new c next),
        new c next,
        next + 1,
        rw (h, prepare) (rw e refl),
        rw (h, get_or_new) (rw e refl),
        omega arith,
        Entered-new (c, k) book (new c next) h,
        λ now. rw (h, readiness) (unfold Breaker.readiness new in refl),
      )
    ]
  ]

  pub get_or_new-same :
      (k : Key K) (book book' : Book K) (next : ℕ)
      → find k book' ≡ find k book
      → get_or_new k book' next ≡ get_or_new k book next
  unfolding get_or_new
  get_or_new-same (c, k) book book' next h = rw (h, get_or_new) refl

  -- The three ways through `admit_pair`.
  abbrev pub Refuses : Book K → Key K → Key K → ℕ → ℕ → Option (PairResult × Book K × ℕ) → Type 0
  Refuses book f s now next r =
      ((key_eq f s ≡ true) × (r ≡ some (err duplicate, book, next)))
      ⊎ (((admitted (readiness book f.1 f.0 now) && admitted (readiness book s.1 s.0 now)) ≡ false)
          × (r
              ≡ some (
                err (gate (readiness book f.1 f.0 now) (readiness book s.1 s.0 now)),
                book,
                next,
              )))

  pub admit_pair-cases :
      (book : Book K) (f s : Key K) (now next : ℕ)
      → let r = admit_pair book (f.1, f.0) (s.1, s.0) now next in
        Refuses book f s now next r
        ⊎ ((key_eq f s ≡ false)
            × (admitted (readiness book f.1 f.0 now) ≡ true)
            × (admitted (readiness book s.1 s.0 now) ≡ true)
            × (r ≡ admit_both book f s now next))
  unfolding admit_pair
  admit_pair-cases book (c, k) (d, l) now next = elim (Bool-cases (key_eq (c, k) (d, l))) [
    | inl same ↦ inl (inl (same, rw same refl))
    | inr other ↦ rw other (ground arith)
  ]

  -- Both breakers stand in the book once they are prepared, and `admit_both` answers for them.
  pub admit_both_prepared :
      (book : Book K) (f s : Key K) (now next n m : ℕ) (p q : Option Breaker) (b c : Breaker)
      → f ≢ s
      → prepare f book next ≡ some (p, n)
      → prepare s book n ≡ some (q, m)
      → Entered f book p b
      → Entered s book q c
      → let book' = or_insert s q (or_insert f p book) in
        admit_both book f s now next
        ≡ some (
          ok (Breaker.admit b now).1 (Breaker.admit c now).1,
          put s (Breaker.admit c now).0 (put f (Breaker.admit b now).0 book'),
          m,
        )
  unfolding admit_both
  admit_both_prepared book f s now next n m p q b c f≢s e e' enter enter' =
      let mid = enter book refl in
      let last = enter' (or_insert f p book) (mid.1 s f≢s) in
      let here : find f (or_insert s q (or_insert f p book)) ≡ some b =
        last.1 f (λ r. f≢s (sym r)) ∙ mid.0 in
      rw (e, admit_both) (rw e' (rw here (rw last.0 refl)))
