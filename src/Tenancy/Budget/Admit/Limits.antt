-- ===== src/Tenancy/Budget/Admit/Limits.antt =====
-- crates/idoris-tenancy/src/budget/ledger.rs: a reservation that is granted fits the limits.
use i_doris.Prelude.{
  ◌≡◌, refl, Bool, true, false, not, ◌&&◌, Option, none, some, arith, if◌then◌else◌,
}
use i_doris.Prelude.Int.{ℤ, pos, ◌+ℤ◌, ◌-ℤ◌, ltb_ℤ, leb_ℤ, ◌≤ℤ◌, +ℤ_parts, -ℤ_parts}
use i_doris.Prelude.Equality.{Text}
use i_doris.Prelude.Results.{Result, ok, >>=-eq-ok}
use i_doris.Tenancy.Budget.Amount.{clamp_i64, checked_add_i64, checked_sub_i64, i64_max}
use i_doris.Tenancy.Budget.Types.{
  BudgetScope, SpendGate, ScopeConfig, TenantConfig, BudgetError, is_paid_only,
}
use i_doris.Tenancy.Budget.Store.{
  Store, spent_for, tenant_spent_for, exceeds_limit, active_reserved_for,
  tenant_active_reserved_for, in_scope_period, in_tenant_period,
}
use i_doris.Tenancy.Budget.Store.Held.{
  held_total, active_reserved_for_exact, tenant_active_reserved_for_exact,
}
use i_doris.Tenancy.Budget.Admit.{
  is_zero, skip_zero_cost, over_limit, check_scope_limit, check_tenant_limit,
}

-- The balance is positive and covers the cost.
room :
    (cost balance : ℤ) (paid : Bool)
    → pos 0 ≤ℤ cost
    → paid && is_zero cost ≡ false
    → (if leb_ℤ cost (pos 0) && leb_ℤ (pos 0) cost && not paid
        then leb_ℤ balance (pos 0)
        else ltb_ℤ balance cost)
      ≡ false
    → (cost ≤ℤ balance) × (ltb_ℤ (pos 0) balance ≡ true)
room cost balance paid h k e = ground arith

unclamped_high : (a : ℤ) → ltb_ℤ (pos 0) (clamp_i64 a) ≡ true → clamp_i64 a ≤ℤ a
unclamped_high a h = ground arith

unclamped_low : (a : ℤ) → ltb_ℤ (clamp_i64 a) i64_max ≡ true → a ≤ℤ clamp_i64 a
unclamped_low a h = ground arith

below_max :
    (limit c : ℤ) → limit ≤ℤ i64_max → ltb_ℤ (pos 0) (limit -ℤ c) ≡ true → ltb_ℤ c i64_max ≡ true
below_max limit c h k = ground (arith, -ℤ_parts limit c)

covered : (limit c x cost : ℤ) → x ≤ℤ c → cost ≤ℤ limit -ℤ c → x +ℤ cost ≤ℤ limit
covered limit c x cost h k = ground (arith, -ℤ_parts limit c, +ℤ_parts x cost)

trans_ℤ : (a b c : ℤ) → a ≤ℤ b → b ≤ℤ c → a ≤ℤ c
trans_ℤ a b c h k = omega (arith, h, k)

positive : (a b : ℤ) → ltb_ℤ (pos 0) a ≡ true → a ≤ℤ b → ltb_ℤ (pos 0) b ≡ true
positive a b h k = ground arith

-- What passes the test fits the limit, without any overflow.
exceeds_limit-Fits :
    (cost limit spent held : ℤ) (gate : SpendGate)
    → pos 0 ≤ℤ cost
    → limit ≤ℤ i64_max
    → skip_zero_cost gate cost ≡ false
    → exceeds_limit cost limit (checked_add_i64 spent held) gate ≡ false
    → spent +ℤ held +ℤ cost ≤ℤ limit
unfolding exceeds_limit checked_add_i64 checked_sub_i64
exceeds_limit-Fits cost limit spent held gate h m k e =
    let x = spent +ℤ held in
    let c = clamp_i64 x in
    let (fits, some_room) = room cost (clamp_i64 (limit -ℤ c)) (is_paid_only gate) h k e in
    let high = unclamped_high (limit -ℤ c) some_room in
    let low =
      unclamped_low x
        (below_max limit c m (positive (clamp_i64 (limit -ℤ c)) (limit -ℤ c) some_room high)) in
    covered limit c x cost low (trans_ℤ cost (clamp_i64 (limit -ℤ c)) (limit -ℤ c) fits high)

not_over :
    (tenant : Text) (limit committed : ℤ) (gate : SpendGate) (cost : ℤ)
    → over_limit tenant limit committed gate cost ≡ none
    → exceeds_limit cost limit committed gate ≡ false
not_over tenant limit committed gate cost h = fits (exceeds_limit cost limit committed gate) _ h
  where
    fits : (b : Bool) (e : BudgetError) → (if b then some e else none) ≡ none → b ≡ false
    fits true e h = cc
    fits false e h = refl

ok_none : {A : Type 0} {a b : A} → ◌≡◌ {A = Result BudgetError A} (ok a) (ok b) → a ≡ b
ok_none h = cc

-- A limit that is not set is not exceeded.
abbrev pub Within : Option ℤ → ℤ → Type 0
Within none sum = Unit {0}
Within (some limit) sum = sum ≤ℤ limit

abbrev pub scope_limit : Option ScopeConfig → Option ℤ
scope_limit none = none
scope_limit (some config) = some config.limit_minor

abbrev pub tenant_limit : Option TenantConfig → Option ℤ
tenant_limit none = none
tenant_limit (some config) = some config.limit_minor

-- A limit is an `i64`.
abbrev pub IsI64 : Option ℤ → Type 0
IsI64 none = Unit {0}
IsI64 (some limit) = limit ≤ℤ i64_max

pub check_scope_limit-Within :
    (s : Store) (scope : BudgetScope) (period : Text) (now_ms : ℤ) (gate : SpendGate) (cost : ℤ)
    (config : Option ScopeConfig)
    → pos 0 ≤ℤ cost
    → IsI64 (scope_limit config)
    → skip_zero_cost gate cost ≡ false
    → check_scope_limit s scope period now_ms gate cost config ≡ ok none
    → Within (scope_limit config) (
        spent_for s scope period
        +ℤ held_total (in_scope_period scope period) now_ms s.reservations
        +ℤ cost)
unfolding check_scope_limit
check_scope_limit-Within s scope period now_ms gate cost none h m k e = tt
check_scope_limit-Within s scope period now_ms gate cost (some config) h m k e =
    let (r, f, q) = >>=-eq-ok (active_reserved_for s scope period now_ms) _ e in
    let exact = active_reserved_for_exact s scope period now_ms f in
    rw (← exact) (
      exceeds_limit-Fits cost config.limit_minor (spent_for s scope period) r gate h m k (
        not_over scope.tenant_id config.limit_minor (checked_add_i64 (spent_for s scope period) r)
          gate cost (ok_none q)))

pub check_tenant_limit-Within :
    (s : Store) (tenant_id period : Text) (now_ms : ℤ) (gate : SpendGate) (cost : ℤ)
    (config : Option TenantConfig)
    → pos 0 ≤ℤ cost
    → IsI64 (tenant_limit config)
    → skip_zero_cost gate cost ≡ false
    → check_tenant_limit s tenant_id period now_ms gate cost config ≡ ok none
    → Within (tenant_limit config) (
        tenant_spent_for s tenant_id period
        +ℤ held_total (in_tenant_period tenant_id period) now_ms s.reservations
        +ℤ cost)
unfolding check_tenant_limit
check_tenant_limit-Within s tenant_id period now_ms gate cost none h m k e = tt
check_tenant_limit-Within s tenant_id period now_ms gate cost (some config) h m k e =
    let (r, f, q) = >>=-eq-ok (tenant_active_reserved_for s tenant_id period now_ms) _ e in
    let exact = tenant_active_reserved_for_exact s tenant_id period now_ms f in
    rw (← exact) (
      exceeds_limit-Fits cost config.limit_minor (tenant_spent_for s tenant_id period) r gate h m k
        (not_over tenant_id config.limit_minor
          (checked_add_i64 (tenant_spent_for s tenant_id period) r) gate cost (ok_none q)))
