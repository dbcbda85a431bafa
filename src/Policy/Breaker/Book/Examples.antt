-- ===== src/Policy/Breaker/Book/Examples.antt =====
-- Runs of a book with one breaker, whose window is over after a minute.
use i_doris.Prelude.{ℕ, ◌≡◌, refl, true, false, some, [], ◌∷◌, arith}
use i_doris.Prelude.Equality.{nat_eq}
use i_doris.Policy.Breaker
use i_doris.Policy.Breaker.{
  Breaker, CredentialClass, o_auth, api_key, opened, half_open, AdmissionTicket, Admit, probe,
  admitted, next_issuer, new,
}
use i_doris.Policy.Breaker.Book
use i_doris.Policy.Breaker.Book.{
  Book, Key, PairReject, duplicate, ok, err, find, put, get_or_new, admit_pair,
}
use i_doris.Policy.Breaker.Book.Atomic.{admit_pair_sequential}

abbrev foreign : AdmissionTicket
foreign = record { issuer = 8; generation = 0; is_probe = false }

abbrev probe_ticket : AdmissionTicket
probe_ticket = record { issuer = 7; generation = 1; is_probe = true }

abbrev tripped : Breaker
tripped = record {
  issuer = 7;
  class = o_auth;
  state = opened 60000;
  generation = 1;
  open_cohort = some 0;
}

abbrev probing : Breaker
probing = record tripped { state = half_open true }

abbrev next : ℕ
next = 5

abbrev book : Book ℕ
book = ((o_auth, 1), tripped) ∷ []

abbrev probing_book : Book ℕ
probing_book = ((o_auth, 1), probing) ∷ []

refused_pair : admit_pair book (2, api_key) (2, api_key) 0 5 ≡ some (err duplicate, book, 5)
unfolding admit_pair
refused_pair = refl

two_keys : ¬ (◌≡◌ {A = Key ℕ} (api_key, 2) (api_key, 3))
two_keys e = cc

other_classes : ¬ (◌≡◌ {A = Key ℕ} (o_auth, 1) (api_key, 2))
other_classes e = cc

admit_pair_sequential_example :
    (a d : Admit) × (book' book₁ book₂ : Book ℕ) × (n m : ℕ) × (admit_pair book
        (2, api_key)
        (3, api_key)
        0
        5
      ≡ some (ok a d, book', m))
    × (Book.admit book 2 api_key 0 5 ≡ some (a, book₁, n))
    × (Book.admit book₁ 3 api_key 0 n ≡ some (d, book₂, m))
    × (admitted a.admission ≡ true)
    × (admitted d.admission ≡ true)
    × ((j : Key ℕ) → find j book' ≡ find j book₂)
unfolding Book.readiness find
admit_pair_sequential_example =
    admit_pair_sequential book (api_key, 2) (api_key, 3) 0 5 (λ e. two_keys e) refl refl
      (omega arith)

admitted_probe :
    Book.admit book 1 o_auth 60000 next
    ≡ some (record { admission = probe; ticket = some probe_ticket }, probing_book, next)
unfolding Book.admit Breaker.admit find put get_or_new
admitted_probe = refl
