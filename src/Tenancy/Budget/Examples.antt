-- ===== src/Tenancy/Budget/Examples.antt =====
-- One tenant reserves, settles, renews, releases and overflows.
use i_doris.Prelude.{◌≡◌, ◌≢◌, refl, some, true, false, List, ◌∷◌, ◌⊎◌, arith}
use i_doris.Prelude.Equality.{codes, text_eq_iff}
use i_doris.Prelude.Int.{ℤ, pos, ltb_ℤ, ◌+ℤ◌, ◌-ℤ◌}
use i_doris.Prelude.Results.{ok, err}
use i_doris.Prelude.Text.{trim_matches}
use i_doris.Tenancy.Budget.Amount.{
  checked_add, checked_add_i64, checked_sub_i64, times_four, sum_from, checked_mul_four,
}
use i_doris.Tenancy.Budget.Zones.{is_iana_time_zone}
use i_doris.Tenancy.Budget.Views.{balance, tenant_balance, tenant_readview}
use i_doris.Tenancy.Budget.Types.{
  TenantBudgetReadView, Budget402Body, invalid_ttl, to_402_body, new_exceeded, known, BudgetError,
}
use i_doris.Tenancy.Budget.Period.{billing_period_key}
use i_doris.Tenancy.Budget.Store.{
  Reservation, find_reservation, spent_for, tenant_spent_for, active_reserved_for,
  tenant_active_reserved_for, exceeds_limit, reject_amount_overflow, validate_scope, is_blank,
  load_config, load_tenant_config, sweep_expired_scope, in_scope_period, in_tenant_period,
  sibling_sub_scope_timezone, has_active_reservations_for_scope, has_active_reservations_for_tenant,
}
use i_doris.Tenancy.Budget.Store.Held.{held_total}
use i_doris.Tenancy.Budget.Accounts.{charged}
use i_doris.Tenancy.Budget.Accounts.Book.{book_total, book_of, run-Book}
use i_doris.Tenancy.Budget.Admit.{
  reserve, admit, persist, check_scope_limit, check_tenant_limit, check_reservation_deadline,
}
use i_doris.Tenancy.Budget.Admit.Grants.{Granted, reserve-Granted}
use i_doris.Tenancy.Budget.Admit.Refusals.{reserve_refused}
use i_doris.Tenancy.Budget.Settle.{settle, record_overage}
use i_doris.Tenancy.Budget.Settle.Endings.{is_charged}
use i_doris.Tenancy.Budget.Settle.Charges.{Charges, settle-Charges}
use i_doris.Tenancy.Budget.Settle.Once.{IsRepeat, IsFinal, settle-IsFinal}
use i_doris.Tenancy.Budget.Settle.Overflow.{IsBlocked, settle-IsBlocked}
use i_doris.Tenancy.Budget.Extend.{check_ttl, extend, release}
use i_doris.Tenancy.Budget.Extend.Lifetime.{Renewed, extend-Renewed}
use i_doris.Tenancy.Budget.Extend.Release.{IsReleased, StaysReleased, release-IsReleased}
use i_doris.Tenancy.Budget.Configure.{configure, configure_tenant}
use i_doris.Tenancy.Budget.Configure.Agreement.{IsAgreed}
use i_doris.Tenancy.Budget.Configure.History.{run-IsAgreed}
use i_doris.Tenancy.Budget.Isolation.{step_isolated}
use i_doris.Tenancy.Budget.Operations.{Operation, run, step, empty_store}
use i_doris.Tenancy.Budget.Fixtures.{
  one_month, ttl, acme, first_draws, slow_draws, held_row, configured_store, held_store, full_store,
  at_cost, one_more_minute, one_charge,
}

-- A reservation of 30 settled at 25 leaves 25 spent.
one_charge_spent :
    tenant_spent_for (run one_month ttl one_charge empty_store) (codes "acme") (codes "2026-11")
    ≡ pos 25
unfolding configure configure_tenant validate_scope is_blank trim_matches load_config
    load_tenant_config is_iana_time_zone sibling_sub_scope_timezone
    has_active_reservations_for_scope has_active_reservations_for_tenant reserve admit persist
    check_scope_limit check_tenant_limit check_reservation_deadline settle record_overage
    tenant_spent_for spent_for active_reserved_for tenant_active_reserved_for exceeds_limit
    reject_amount_overflow sweep_expired_scope find_reservation checked_add checked_add_i64
    checked_sub_i64 times_four sum_from billing_period_key ◌+ℤ◌ ◌-ℤ◌
one_charge_spent = refl

granted_first :
    (reserve one_month ttl configured_store acme (known (pos 30)) first_draws).1 ≡ ok (codes "r1")
unfolding validate_scope is_blank trim_matches load_config load_tenant_config reserve admit persist
    check_scope_limit check_tenant_limit check_reservation_deadline tenant_spent_for spent_for
    active_reserved_for tenant_active_reserved_for exceeds_limit reject_amount_overflow
    sweep_expired_scope checked_add checked_add_i64 checked_sub_i64 sum_from billing_period_key ◌+ℤ◌
    ◌-ℤ◌
granted_first = refl

reserve-Granted_example :
    Granted one_month configured_store
      (reserve one_month ttl configured_store acme (known (pos 30)) first_draws).0
      acme
      (pos 30)
      first_draws
unfolding load_config load_tenant_config
reserve-Granted_example =
    reserve-Granted one_month ttl configured_store acme (pos 30) first_draws (codes "r1")
      (omega arith) (omega arith) refl granted_first

refused_late :
    (e : BudgetError) × ((reserve one_month ttl configured_store acme (known (pos 30)) slow_draws).1
      ≡ err e)
unfolding validate_scope is_blank trim_matches load_config load_tenant_config reserve admit persist
    check_scope_limit check_tenant_limit check_reservation_deadline tenant_spent_for spent_for
    active_reserved_for tenant_active_reserved_for exceeds_limit reject_amount_overflow
    sweep_expired_scope checked_add checked_add_i64 checked_sub_i64 sum_from billing_period_key ◌+ℤ◌
    ◌-ℤ◌
refused_late = (_, refl)

reserve_refused_example :
    let s' = (reserve one_month ttl configured_store acme (known (pos 30)) slow_draws).0 in
    (held_total (in_scope_period acme (codes "2026-11")) (pos 900000) s'.reservations
      ≡ held_total
          (in_scope_period acme (codes "2026-11"))
          (pos 900000)
          configured_store.reservations)
    × (held_total (in_tenant_period (codes "acme") (codes "2026-11")) (pos 900000) s'.reservations
        ≡ held_total
            (in_tenant_period (codes "acme") (codes "2026-11"))
            (pos 900000)
            configured_store.reservations)
    × (spent_for s' acme (codes "2026-11") ≡ spent_for configured_store acme (codes "2026-11"))
    × (tenant_spent_for s' (codes "acme") (codes "2026-11")
        ≡ tenant_spent_for configured_store (codes "acme") (codes "2026-11"))
reserve_refused_example =
    reserve_refused one_month ttl configured_store acme (known (pos 30)) slow_draws refused_late.0
      (pos 900000) acme (codes "acme") (codes "2026-11") refused_late.1 (omega arith) (omega arith)

charged_25 : is_charged (settle held_store (at_cost (pos 25))).1 ≡ true
unfolding settle record_overage tenant_spent_for spent_for reject_amount_overflow find_reservation
    checked_add checked_sub_i64 times_four ◌+ℤ◌ ◌-ℤ◌
charged_25 = refl

settle-Charges_example :
    (row : Reservation) × Charges held_store
      (settle held_store (at_cost (pos 25))).0
      (at_cost (pos 25))
      row
settle-Charges_example = settle-Charges held_store (at_cost (pos 25)) charged_25

repeated : (cost : ℤ) → ltb_ℤ cost (pos 0) ≡ false → IsRepeat (at_cost (pos 25)) (at_cost cost)
repeated cost h = record { tenant = refl; reservation = refl; amount = h }

settle-IsFinal_example :
    IsFinal (settle held_store (at_cost (pos 25))).0 (at_cost (pos 25)) (at_cost (pos 40))
settle-IsFinal_example =
    settle-IsFinal held_store (at_cost (pos 25)) (at_cost (pos 40)) charged_25
      (repeated (pos 40) refl)

settle-IsBlocked_example :
    IsBlocked one_month ttl full_store
      (at_cost (pos 25))
      (at_cost (pos 0))
      acme
      (known (pos 0))
      first_draws
unfolding find_reservation reject_amount_overflow tenant_spent_for checked_add ◌+ℤ◌
settle-IsBlocked_example =
    settle-IsBlocked one_month ttl full_store (at_cost (pos 25)) (at_cost (pos 0)) held_row false
      acme (known (pos 0)) first_draws refl refl refl refl refl refl (repeated (pos 0) refl) refl

-- What follows the release: a settlement, a sweep, a renewal, and what would reserve and settle under
-- the same identity.
abbrev later_calls : List Operation
later_calls =
    Operation.settle (at_cost (pos 25))
    ∷ Operation.sweep_expired (pos 100)
    ∷ Operation.extend one_more_minute
    ∷ one_charge

release-IsReleased_example :
    ((release held_store (codes "acme") (codes "r1")).1 ≡ ok tt)
    × IsReleased held_store (release held_store (codes "acme") (codes "r1")).0 (at_cost (pos 25))
    × StaysReleased
        (run one_month ttl later_calls (release held_store (codes "acme") (codes "r1")).0)
        (at_cost (pos 25))
        (at_cost (pos 40))
unfolding find_reservation reject_amount_overflow
release-IsReleased_example =
    release-IsReleased one_month ttl later_calls held_store (at_cost (pos 25)) (at_cost (pos 40))
      held_row (refl, tt) refl refl refl (repeated (pos 40) refl)

extend-Renewed_example :
    ((e : BudgetError) × (extend ttl held_store one_more_minute ≡ (held_store, err e)))
    ⊎ Renewed ttl held_store (extend ttl held_store one_more_minute).0 one_more_minute
extend-Renewed_example = extend-Renewed ttl held_store one_more_minute

-- The renewal goes through.
renewed_once : (extend ttl held_store one_more_minute).1 ≡ ok tt
unfolding extend find_reservation checked_add checked_mul_four times_four check_reservation_deadline
    ◌+ℤ◌
renewed_once = refl

run-IsAgreed_example : IsAgreed (run one_month ttl one_charge empty_store)
run-IsAgreed_example = run-IsAgreed one_month ttl one_charge

run-Book_example :
    let s = run one_month ttl one_charge empty_store in
    let book = book_of one_month ttl one_charge empty_store in
    (spent_for s acme (codes "2026-11") ≡ book_total (in_scope_period acme (codes "2026-11")) book)
    × (tenant_spent_for s (codes "acme") (codes "2026-11")
        ≡ book_total (in_tenant_period (codes "acme") (codes "2026-11")) book)
    × (charged (in_scope_period acme (codes "2026-11")) s.reservations
        ≡ book_total (in_scope_period acme (codes "2026-11")) book)
    × (charged (in_tenant_period (codes "acme") (codes "2026-11")) s.reservations
        ≡ book_total (in_tenant_period (codes "acme") (codes "2026-11")) book)
run-Book_example = run-Book one_month ttl one_charge acme (codes "acme") (codes "2026-11")

not_acme : codes "evil" ≢ codes "acme"
not_acme h = differ ((text_eq_iff (codes "evil") (codes "acme")).1 h)
  where
    differ : ¬ (false ≡ true)
    differ k = cc

step_isolated_example :
    (find_reservation
        (step one_month ttl (Operation.release (codes "acme") (codes "r1")) held_store)
        (codes "evil")
        (codes "r1")
      ≡ find_reservation held_store (codes "evil") (codes "r1"))
    × (tenant_spent_for
          (step one_month ttl (Operation.release (codes "acme") (codes "r1")) held_store)
          (codes "evil")
          (codes "2026-11")
        ≡ tenant_spent_for held_store (codes "evil") (codes "2026-11"))
step_isolated_example =
    step_isolated one_month ttl (Operation.release (codes "acme") (codes "r1")) held_store
      (codes "acme") (codes "evil") (codes "r1") (codes "2026-11") (refl, tt) refl not_acme

-- With 30 of 100 held, 70 are left to the scope, and 470 of 500 to the tenant.
left_over :
    (balance one_month held_store acme (pos 2000) ≡ ok (pos 70))
    × (tenant_balance one_month held_store (codes "acme") (pos 2000) ≡ ok (pos 470))
unfolding balance tenant_balance load_config load_tenant_config billing_period_key spent_for
    tenant_spent_for active_reserved_for tenant_active_reserved_for sum_from checked_add
    checked_add_i64 checked_sub_i64 ◌+ℤ◌ ◌-ℤ◌
left_over = (refl, refl)

available_470 :
    (v : TenantBudgetReadView) × (tenant_readview one_month held_store (codes "acme") (pos 2000)
      ≡ ok v)
    × (v.available_minor ≡ pos 470)
unfolding tenant_readview load_tenant_config billing_period_key tenant_spent_for is_blank
    trim_matches tenant_active_reserved_for sum_from checked_add checked_sub_i64 ◌+ℤ◌ ◌-ℤ◌
available_470 = (_, refl, refl)

lifetimes : (check_ttl (pos 0) ≡ err (invalid_ttl (pos 0))) × (check_ttl (pos 1) ≡ ok tt)
unfolding check_ttl
lifetimes = (refl, refl)

-- A refusal is a body of status 402, with the amount that is missing.
short_of_180 :
    (body : Budget402Body) × (to_402_body (new_exceeded (codes "acme") (pos 100) (pos 30) (pos 250))
      ≡ some body)
    × (body.shortfall ≡ pos 180)
unfolding new_exceeded checked_sub_i64 ◌-ℤ◌
short_of_180 = (_, refl, refl)
