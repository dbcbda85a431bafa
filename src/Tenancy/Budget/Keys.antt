-- ===== src/Tenancy/Budget/Keys.antt =====
-- crates/idoris-tenancy/src/budget: the keys of the ledger's tables, and tables read and written by
-- key. A row's primary key stands in the table at most once.
use i_doris.Prelude.{
  Bool, true, false, ◌&&◌, Option, none, some, List, [], ◌∷◌, ◌≡◌, ◌≢◌, ◌↔◌, refl, arith,
  if◌then◌else◌, filter, Bool-cases, inl, inr,
}
use i_doris.Prelude.Equality.{Text, text_eq, text_eq_iff, Eq}
use i_doris.Tenancy.Budget.Types.{BudgetScope}

-- Two scopes are equal only where all four fields match.
abbrev pub scope_eq : BudgetScope → BudgetScope → Bool
scope_eq a b =
    text_eq a.tenant_id b.tenant_id
    && text_eq a.key_id b.key_id
    && text_eq a.provider_id b.provider_id
    && text_eq a.model_id b.model_id

pub scope_eq_iff : (a b : BudgetScope) → (scope_eq a b ≡ true) ↔ (a ≡ b)
scope_eq_iff a b = (
  λ h. ground (
    arith,
    (text_eq_iff a.tenant_id b.tenant_id).0,
    (text_eq_iff a.key_id b.key_id).0,
    (text_eq_iff a.provider_id b.provider_id).0,
    (text_eq_iff a.model_id b.model_id).0,
  ),
  λ e. ground (
    arith,
    (text_eq_iff a.tenant_id b.tenant_id).1,
    (text_eq_iff a.key_id b.key_id).1,
    (text_eq_iff a.provider_id b.provider_id).1,
    (text_eq_iff a.model_id b.model_id).1,
  ),
)

instance abbrev pub scope_equality : Eq BudgetScope
scope_equality = record { same = scope_eq; same_iff = scope_eq_iff }

-- An entry of a table by period is keyed by the account and the period.
pub record PeriodKey (Account : Type 0) : Type 0 where
  pub account : Account
  pub period : Text

module _ {Account : Type 0} ⦃e : Eq Account⦄ where
  abbrev pub period_key_eq : PeriodKey Account → PeriodKey Account → Bool
  period_key_eq a b = e.same a.account b.account && text_eq a.period b.period

  pub period_key_eq_iff : (a b : PeriodKey Account) → (period_key_eq a b ≡ true) ↔ (a ≡ b)
  period_key_eq_iff a b = (
    λ h. ground (arith, (e.same_iff a.account b.account).0, (text_eq_iff a.period b.period).0),
    λ q. ground (arith, (e.same_iff a.account b.account).1, (text_eq_iff a.period b.period).1),
  )

  instance abbrev pub period_equality : Eq (PeriodKey Account)
  period_equality = record { same = period_key_eq; same_iff = period_key_eq_iff }

pub record Entry (Key Value : Type 0) : Type 0 where
  pub key : Key
  pub value : Value

module _ {Key Value : Type 0} ⦃e : Eq Key⦄ where
  -- `SELECT … WHERE` the key.
  abbrev pub select : Key → List (Entry Key Value) → Option Value
  select k [] = none
  select k (row ∷ table) = if e.same row.key k then some row.value else select k table

  -- `INSERT … ON CONFLICT … DO UPDATE`.
  abbrev pub upsert : Key → Value → List (Entry Key Value) → List (Entry Key Value)
  upsert k v [] = record { key = k; value = v } ∷ []
  upsert k v (row ∷ table) =
      if e.same row.key k
      then record { key = row.key; value = v } ∷ table
      else row ∷ upsert k v table

  pub select-upsert_same :
      (k : Key) (v : Value) (table : List (Entry Key Value)) → select k (upsert k v table) ≡ some v
  select-upsert_same k v [] = ground (arith, (e.same_iff k k).1 refl)
  select-upsert_same k v (row ∷ table) =
      ground (arith, (e.same_iff k k).1 refl, select-upsert_same k v table)

  pub select-upsert_ne :
      (j k : Key) (v : Value) (table : List (Entry Key Value))
      → j ≢ k
      → select j (upsert k v table) ≡ select j table
  select-upsert_ne j k v [] h = ground (arith, (e.same_iff k j).0)
  select-upsert_ne j k v (row ∷ table) h = ground (
    arith,
    (e.same_iff row.key k).0,
    (e.same_iff row.key j).0,
    (e.same_iff k j).0,
    select-upsert_ne j k v table h,
  )

  -- Rows that are deleted by key are not found, and the others are.
  pub select-filter :
      (q : Key → Bool) (k : Key) (table : List (Entry Key Value))
      → select k (filter (λ (row : Entry Key Value). q row.key) table)
        ≡ (if q k then select k table else none)
  select-filter q k [] = elim (Bool-cases (q k)) [ inl e ↦ rw e refl | inr e ↦ rw e refl ]
  select-filter q k (row ∷ table) =
      let rest = select-filter q k table in
      elim (Bool-cases (e.same row.key k)) [
        | inl h ↦
            let same = (e.same_iff row.key k).0 h in
            elim (Bool-cases (q k)) [
              | inl f ↦ let g : q row.key ≡ true = rw same f in rw (g, f, h) refl
              | inr f ↦ let g : q row.key ≡ false = rw same f in rw (g, f) (rw f at rest)
            ]
        | inr h ↦ elim (Bool-cases (q row.key)) [ inl g ↦ rw (g, h) rest | inr g ↦ rw (g, h) rest ]
      ]
