-- ===== src/Policy/Breaker/Book.antt =====
-- crates/idoris-policy/src/breaker.rs, `BreakerBook`: one breaker for each class and key. The hash
-- map is a list of entries that is read and written by key. An operation that may create a breaker
-- takes and returns the counter of `next_issuer`; `none` is a panic.
pub mod Pairs
pub mod Atomic
mod Examples
use i_doris.Prelude.{
  ℕ, Bool, true, false, not, ◌&&◌, ◌||◌, Option, none, some, List, [], ◌∷◌, ◌>>=◌, if◌then◌else◌,
  ◌≡◌, arith, ◌↔◌, refl,
}
use i_doris.Prelude.Equality.{Eq}
use i_doris.Policy.Breaker
use i_doris.Policy.Breaker.{
  CredentialClass, o_auth, api_key, local, Breaker, Admission, allowed, admitted, AdmissionTicket,
  Admit, next_issuer, new,
}

abbrev pub class_eq : CredentialClass → CredentialClass → Bool
class_eq o_auth o_auth = true
class_eq api_key api_key = true
class_eq local local = true
class_eq _ _ = false

class_eq_iff : (c d : CredentialClass) → (class_eq c d ≡ true) ↔ (c ≡ d)
class_eq_iff c d = (ground arith, ground arith)

-- `PairReject`.
pub data PairReject : Type 0 where
  duplicate : PairReject
  gate : Admission → Admission → PairReject

pub data PairResult : Type 0 where
  ok : Admit → Admit → PairResult
  err : PairReject → PairResult

abbrev pub Key : Type 0 → Type 0
Key K = CredentialClass × K

abbrev pub Book : Type 0 → Type 0
Book K = List (Key K × Breaker)

module _ {K : Type 0} ⦃e : Eq K⦄ where
  abbrev pub key_eq : Key K → Key K → Bool
  key_eq (c, k) (d, l) = class_eq c d && e.same k l

  pub key_eq_iff : (j k : Key K) → (key_eq j k ≡ true) ↔ (j ≡ k)
  key_eq_iff (c, k) (d, l) = (
    λ h. ground (arith, (class_eq_iff c d).0, (e.same_iff k l).0),
    λ h. ground (arith, (class_eq_iff c d).1, (e.same_iff k l).1),
  )

  pub find : Key K → Book K → Option Breaker
  find k [] = none
  find k ((j, b) ∷ book) = if key_eq j k then some b else find k book

  pub put : Key K → Breaker → Book K → Book K
  put k b [] = (k, b) ∷ []
  put k b ((j, c) ∷ book) = if key_eq j k then (j, b) ∷ book else (j, c) ∷ put k b book

  -- The breaker of a key, or a new one that has drawn its identity.
  pub get_or_new : Key K → Book K → ℕ → Option (Breaker × ℕ)
  get_or_new (class, k) book next = elim (find (class, k) book) [
    | some b ↦ some (b, next)
    | none ↦ do (issuer, next') ← next_issuer next; some (new class issuer, next')
  ]

  unfoldable pub readiness : Book K → K → CredentialClass → ℕ → Admission
  readiness book key class now = elim (find (class, key) book) [
    | none ↦ allowed
    | some b ↦ Breaker.readiness b now
  ]

  unfoldable pub admit : Book K → K → CredentialClass → ℕ → ℕ → Option (Admit × Book K × ℕ)
  unfolding get_or_new
  admit book key class now next = do
    (b, next') ← get_or_new (class, key) book next
    let (b', a) = Breaker.admit b now
    some (a, put (class, key) b' book, next')

  -- The four reports find the breaker and pass the ticket on; without one they do nothing.
  pub modify : Book K → Key K → (Breaker → Breaker) → Book K
  modify book key f = elim (find key book) [ none ↦ book | some b ↦ put key (f b) book ]

  unfoldable pub on_success : Book K → K → CredentialClass → AdmissionTicket → Book K
  unfolding modify
  on_success book key class t = modify book (class, key) (λ b. Breaker.on_success b t)

  unfoldable pub on_failure : Book K → K → CredentialClass → AdmissionTicket → ℕ → Book K
  unfolding modify
  on_failure book key class t now = modify book (class, key) (λ b. Breaker.on_failure b t now)

  unfoldable pub on_failure_with_retry_after :
      Book K → K → CredentialClass → AdmissionTicket → ℕ → Option ℕ → Book K
  unfolding modify
  on_failure_with_retry_after book key class t now ms =
      modify book (class, key) (λ b. Breaker.on_failure_with_retry_after b t now ms)

  unfoldable pub on_retry_after : Book K → K → CredentialClass → AdmissionTicket → ℕ → ℕ → Book K
  unfolding modify
  on_retry_after book key class t now ms =
      modify book (class, key) (λ b. Breaker.on_retry_after b t now ms)

  -- `admit_pair` prepares a breaker for a key that has none.
  pub prepare : Key K → Book K → ℕ → Option (Option Breaker × ℕ)
  prepare (class, k) book next = elim (find (class, k) book) [
    | some b ↦ some (none, next)
    | none ↦ do (issuer, next') ← next_issuer next; some (some (new class issuer), next')
  ]

  -- `entry(key).or_insert(breaker)`, if one was prepared.
  pub or_insert : Key K → Option Breaker → Book K → Book K
  or_insert key none book = book
  or_insert key (some b) book = elim (find key book) [ none ↦ put key b book | some c ↦ book ]

  pub admit_both : Book K → Key K → Key K → ℕ → ℕ → Option (PairResult × Book K × ℕ)
  admit_both book first second now next = do
    (p, next') ← prepare first book next
    (q, next'') ← prepare second book next'
    let book' = or_insert second q (or_insert first p book)
    b ← find first book'
    c ← find second book'
    let (b', a) = Breaker.admit b now
    let (c', d) = Breaker.admit c now
    some (ok a d, put second c' (put first b' book'), next'')

  pub admit_pair :
      Book K → K × CredentialClass → K × CredentialClass → ℕ → ℕ → Option (PairResult × Book K × ℕ)
  unfolding admit_both readiness prepare or_insert
  admit_pair book (k, c) (l, d) now next =
      let r = readiness book k c now in
      let s = readiness book l d now in
      if class_eq c d && e.same k l
      then some (err duplicate, book, next)
      else if not (admitted r) || not (admitted s)
      then some (err (gate r s), book, next)
      else admit_both book (c, k) (d, l) now next
