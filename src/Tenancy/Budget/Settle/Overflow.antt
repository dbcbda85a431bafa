-- ===== src/Tenancy/Budget/Settle/Overflow.antt =====
-- crates/idoris-tenancy/src/budget/ledger.rs: a cost that a total cannot take is kept, and the tenant
-- spends no more until it is reconciled.
use i_doris.Prelude.{
  ◌≡◌, refl, ◌∙◌, Bool, true, false, Option, none, some, List, [], ◌∷◌, ◌++◌, filter, any, inl, inr,
  Bool-cases,
}
use i_doris.Prelude.Int.{ℤ, pos, ltb_ℤ}
use i_doris.Prelude.Equality.{Text, text_eq_refl}
use i_doris.Prelude.Results.{ok, err}
use i_doris.Tenancy.Budget.Amount.{checked_add}
use i_doris.Tenancy.Budget.Types.{
  BudgetScope, BudgetError, amount_overflow, Price, ReservationStatus, active, settled, released,
  expired,
}
use i_doris.Tenancy.Budget.Period.{TimeZones}
use i_doris.Tenancy.Budget.Store.{
  Store, Reservation, AmountOverflow, transact, first, is_pending, no_overflow, find_reservation,
  reject_amount_overflow, tenant_spent_for, spent_for,
}
use i_doris.Tenancy.Budget.Store.Rows.{find_reservation-same}
use i_doris.Tenancy.Budget.Settle.{
  Settlement, settle, lateness, charge, retained, has_reservation_id,
}
use i_doris.Tenancy.Budget.Settle.Endings.{with_overflow}
use i_doris.Tenancy.Budget.Settle.Once.{IsRepeat}
use i_doris.Tenancy.Budget.Extend.{release, finish}
use i_doris.Tenancy.Budget.Admit.{Draws, reserve}
use i_doris.Tenancy.Budget.Admit.Endings.{rolled_back, over, checked, persisted, admit-AdmitEnd}

first-append :
    (p : AmountOverflow → Bool) (rows : List AmountOverflow) (row : AmountOverflow)
    → no_overflow (first (filter p rows)) ≡ ok tt
    → p row ≡ true
    → first (filter p (rows ++ row ∷ [])) ≡ some row
first-append p [] row h e = rw e refl
first-append p (x ∷ rows) row h e = elim (Bool-cases (p x)) [
  | inl f ↦ absurd (refused x (rw f at h))
  | inr f ↦ rw f (first-append p rows row (rw f at h) e)
]
  where
    refused : (o : AmountOverflow) → ¬ (no_overflow (some o) ≡ ok tt)
    refused o q = cc

first-some :
    (p : AmountOverflow → Bool) (rows : List AmountOverflow) (row : AmountOverflow)
    → p row ≡ true
    → ¬ (no_overflow (first (filter p (rows ++ row ∷ []))) ≡ ok tt)
first-some p [] row e h = pending row (rw e at h)
  where
    pending : (o : AmountOverflow) → ¬ (no_overflow (some o) ≡ ok tt)
    pending o q = cc
first-some p (x ∷ rows) row e h = elim (Bool-cases (p x)) [
  | inl f ↦ pending x (rw f at h)
  | inr f ↦ first-some p rows row e (rw f at h)
]
  where
    pending : (o : AmountOverflow) → ¬ (no_overflow (some o) ≡ ok tt)
    pending o q = cc

-- The reservation's own record is the one that stands in the way.
pending_own :
    (s : Store) (c : Settlement)
    → reject_amount_overflow s c.tenant_id (some c.reservation_id) ≡ ok tt
    → reject_amount_overflow (with_overflow s c) c.tenant_id (some c.reservation_id)
      ≡ err (amount_overflow c.reservation_id c.actual_cost_minor)
unfolding reject_amount_overflow
pending_own s c h =
    rw
      (first-append (is_pending c.tenant_id (some c.reservation_id)) s.amount_overflows (retained c)
        h (rw (text_eq_refl c.tenant_id, text_eq_refl c.reservation_id) refl))
      refl

pending_any :
    (s : Store) (c : Settlement)
    → ¬ (reject_amount_overflow (with_overflow s c) c.tenant_id none ≡ ok tt)
unfolding reject_amount_overflow
pending_any s c h =
    first-some (is_pending c.tenant_id none) s.amount_overflows (retained c)
      (text_eq_refl c.tenant_id) h

-- No call of `reserve` of a tenant with a pending overflow succeeds or changes anything.
reserve_blocked :
    (zones : TimeZones) (ttl_ms : ℤ) (s : Store) (scope : BudgetScope) (price : Price)
    (draws : Draws)
    → ¬ (reject_amount_overflow s scope.tenant_id none ≡ ok tt)
    → (e : BudgetError) × (reserve zones ttl_ms s scope price draws ≡ (s, err e))
unfolding reserve
reserve_blocked zones ttl_ms s scope price draws h =
    elim (admit-AdmitEnd zones s scope price draws ttl_ms true) [
      | rolled_back e q ↦ (e, rw q refl)
      | over r e q ↦ absurd (h r.no_pending)
      | checked r f e q ↦ absurd (h r.no_pending)
      | persisted e p ↦ absurd (h p.request.no_pending)
    ]

charge_overflow :
    (s : Store) (c : Settlement) (row : Reservation) (late : Bool) (o : Option ℤ)
    → any (has_reservation_id c.reservation_id) s.amount_overflows ≡ false
    → charge s c row late o none
      ≡ ok (with_overflow s c, err (amount_overflow c.reservation_id c.actual_cost_minor))
charge_overflow s c row late none h = rw h refl
charge_overflow s c row late (some a) h = rw h refl

-- What is left of the tenant's and the reservation's operations.
pub record IsBlocked (zones : TimeZones) (ttl_ms : ℤ) (s : Store) (c d : Settlement)
    (scope : BudgetScope) (price : Price) (draws : Draws) : Type 0 where
  pub kept :
      settle s c ≡ (with_overflow s c, err (amount_overflow c.reservation_id c.actual_cost_minor))
  pub not_again :
      settle (with_overflow s c) d
      ≡ (with_overflow s c, err (amount_overflow c.reservation_id c.actual_cost_minor))
  pub not_released :
      release (with_overflow s c) c.tenant_id c.reservation_id
      ≡ (with_overflow s c, err (amount_overflow c.reservation_id c.actual_cost_minor))
  pub not_reserved :
      (e : BudgetError) × (reserve zones ttl_ms (with_overflow s c) scope price draws
        ≡ (with_overflow s c, err e))

finish_blocked :
    (s s' : Store) (c : Settlement) (row : Reservation) (status : ReservationStatus) (late : Bool)
    {e : BudgetError}
    → lateness c.reservation_id row c.now_ms status ≡ ok late
    → reject_amount_overflow s' c.tenant_id (some c.reservation_id) ≡ err e
    → transact s' (finish s' c.tenant_id c.reservation_id status) ≡ (s', err e)
finish_blocked s s' c row active late h p = rw p refl
finish_blocked s s' c row expired late h p = rw p refl
finish_blocked s s' c row settled late h p = absurd (cc)
finish_blocked s s' c row released late h p = absurd (cc)

late_any :
    (id : Text) (row : Reservation) (a b : ℤ) (status : ReservationStatus) {late : Bool}
    → lateness id row a status ≡ ok late
    → (l : Bool) × (lateness id row b status ≡ ok l)
late_any id row a b active h = (_, refl)
late_any id row a b expired h = (true, refl)
late_any id row a b settled h = absurd (cc)
late_any id row a b released h = absurd (cc)

-- Where the total of the tenant cannot take the cost of a settlement, the cost is kept in a record
-- and both totals, and every reservation, stay as they are. From then on the reservation is neither
-- settled, at any amount that is not negative, nor released, and no call of `reserve` for the tenant
-- succeeds, whatever the scope, the price and the time; none of these calls changes the store.
pub settle-IsBlocked :
    (zones : TimeZones) (ttl_ms : ℤ) (s : Store) (c d : Settlement) (row : Reservation)
    (late : Bool) (scope : BudgetScope) (price : Price) (draws : Draws)
    → ltb_ℤ c.actual_cost_minor (pos 0) ≡ false
    → find_reservation s c.tenant_id c.reservation_id ≡ ok row
    → lateness c.reservation_id row c.now_ms row.status ≡ ok late
    → reject_amount_overflow s c.tenant_id (some c.reservation_id) ≡ ok tt
    → any (has_reservation_id c.reservation_id) s.amount_overflows ≡ false
    → checked_add (tenant_spent_for s c.tenant_id row.tenant_period) c.actual_cost_minor ≡ none
    → IsRepeat c d
    → scope.tenant_id ≡ c.tenant_id
    → IsBlocked zones ttl_ms s c d scope price draws
unfolding settle release
settle-IsBlocked zones ttl_ms s c d row late scope price draws n f l p k o r t =
    let own = pending_own s c p in
    let found : find_reservation (with_overflow s c) c.tenant_id c.reservation_id ≡ ok row =
      find_reservation-same s (with_overflow s c) c.tenant_id c.reservation_id refl ∙ f in
    let (again, m) = late_any c.reservation_id row c.now_ms d.now_ms row.status l in
    record {
      kept =
          rw
            (
              n,
              f,
              l,
              p,
              o,
              charge_overflow s c row late
                  (checked_add (spent_for s row.scope row.period) c.actual_cost_minor) k,
            )
            refl;
      not_again = rw (r.amount, r.tenant, r.reservation, found, m, own) refl;
      not_released = rw found (finish_blocked s (with_overflow s c) c row row.status late l own);
      not_reserved =
          reserve_blocked zones ttl_ms (with_overflow s c) scope price draws
            (rw t (pending_any s c));
    }
