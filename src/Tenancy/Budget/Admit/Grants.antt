-- ===== src/Tenancy/Budget/Admit/Grants.antt =====
-- crates/idoris-tenancy/src/budget/ledger.rs: what `reserve` grants, and what it leaves when it
-- refuses.
use i_doris.Prelude.{◌≡◌, refl, Bool, true, false, Option, none, some, arith, if◌then◌else◌}
use i_doris.Prelude.Int.{ℤ, pos, ◌+ℤ◌, ltb_ℤ, leb_ℤ, ◌≤ℤ◌, +ℤ_parts}
use i_doris.Prelude.Equality.{Text}
use i_doris.Prelude.Results.{ok, err, ◌>>=◌}
use i_doris.Tenancy.Budget.Types.{BudgetScope, known, BudgetError, invalid_estimate}
use i_doris.Tenancy.Budget.Period.{TimeZones}
use i_doris.Tenancy.Budget.Store.{
  Store, Answered, spent_for, tenant_spent_for, load_config, load_tenant_config, in_scope_period,
  in_tenant_period, sweep_expired_scope, reject_if,
}
use i_doris.Tenancy.Budget.Store.Held.{held_total, held_total-append}
use i_doris.Tenancy.Budget.Admit.{
  Draws, gate_of, skip_zero_cost, priced, reserve, reserved_id, new_reservation,
  check_reservation_deadline,
}
use i_doris.Tenancy.Budget.Admit.Endings.{
  Request, Persisted, rolled_back, over, checked, persisted, admit-AdmitEnd, inserted,
}
use i_doris.Tenancy.Budget.Admit.Limits.{
  Within, IsI64, scope_limit, tenant_limit, check_scope_limit-Within, check_tenant_limit-Within,
}

priced_known : (cost : ℤ) {c : ℤ} → priced (known cost) ≡ ok c → (c ≡ cost) × (pos 0 ≤ℤ cost)
priced_known cost h = known_if (ltb_ℤ cost (pos 0)) refl h
  where
    known_if :
        (b : Bool) {c : ℤ}
        → ltb_ℤ cost (pos 0) ≡ b
        → (if b then err (invalid_estimate cost) else ok cost) ≡ ok c
        → (c ≡ cost) × (pos 0 ≤ℤ cost)
    known_if true e q = cc
    known_if false e q = (cc, ground arith)

-- A sum that grows by at most the cost stays within what has room for the cost.
Within-less :
    (limit : Option ℤ) (spent held cost own : ℤ)
    → own ≤ℤ cost
    → Within limit (spent +ℤ held +ℤ cost)
    → Within limit (spent +ℤ (held +ℤ own))
Within-less none spent held cost own h w = tt
Within-less (some l) spent held cost own h w = ground (
  arith,
  +ℤ_parts spent held,
  +ℤ_parts (spent +ℤ held) cost,
  +ℤ_parts held own,
  +ℤ_parts spent (held +ℤ own),
)

own_share : (b : Bool) (cost : ℤ) → pos 0 ≤ℤ cost → (if b then cost else pos 0) ≤ℤ cost
own_share true cost h = ground arith
own_share false cost h = h

-- The reservation is written, and what is spent and held at the time of the call, the new
-- reservation included, is within the limit of the scope and within that of the tenant.
pub record Granted (zones : TimeZones) (s s' : Store) (scope : BudgetScope) (cost : ℤ)
    (draws : Draws) : Type 0 where
  pub request : Request zones s scope (known cost) draws
  pub expires_at_ms : ℤ
  pub written :
      s'
      ≡ inserted
          (sweep_expired_scope s scope request.period draws.now_ms)
          (new_reservation scope request.period request.tenant_period cost expires_at_ms draws)
  pub unexpired : leb_ℤ expires_at_ms draws.after_commit_ms ≡ false
  pub scope_within : Within (scope_limit (load_config s scope)) (
      spent_for s' scope request.period
      +ℤ held_total (in_scope_period scope request.period) draws.now_ms s'.reservations)
  pub tenant_within : Within (tenant_limit (load_tenant_config s scope.tenant_id)) (
      tenant_spent_for s' scope.tenant_id request.tenant_period
      +ℤ held_total
          (in_tenant_period scope.tenant_id request.tenant_period)
          draws.now_ms
          s'.reservations)

after_deadline :
    (b : Bool) (e : BudgetError) (given : Text) {id : Text}
    → reserved_id (reject_if b e >>= λ _. ok (some given)) ≡ ok id
    → b ≡ false
after_deadline true e given h = cc
after_deadline false e given h = refl

Persisted-Granted :
    (zones : TimeZones) (ttl_ms : ℤ) (s : Store) (scope : BudgetScope) (cost : ℤ) (draws : Draws)
    (answer : Answered (Option Text)) (p : Persisted zones s scope (known cost) draws ttl_ms answer)
    → IsI64 (scope_limit (load_config s scope))
    → IsI64 (tenant_limit (load_tenant_config s scope.tenant_id))
    → skip_zero_cost (gate_of (load_tenant_config s scope.tenant_id)) cost ≡ false
    → leb_ℤ p.expires_at_ms draws.after_commit_ms ≡ false
    → Granted zones s answer.0 scope cost draws
unfolding spent_for tenant_spent_for
Persisted-Granted zones ttl_ms s scope cost draws answer p i j k live =
    let q = p.request in
    let (e, positive) = priced_known cost q.is_priced in
    let before = sweep_expired_scope s scope q.period draws.now_ms in
    let row = new_reservation scope q.period q.tenant_period cost p.expires_at_ms draws in
    let scope_room : Within (scope_limit (load_config s scope)) (
        spent_for before scope q.period
        +ℤ held_total (in_scope_period scope q.period) draws.now_ms before.reservations
        +ℤ cost) =
      check_scope_limit-Within before scope q.period draws.now_ms
        (gate_of (load_tenant_config s scope.tenant_id)) cost (load_config s scope) positive i k
        (rw (e, k) at p.fits.scope_fits) in
    let tenant_room : Within (tenant_limit (load_tenant_config s scope.tenant_id)) (
        tenant_spent_for before scope.tenant_id q.tenant_period
        +ℤ held_total (in_tenant_period scope.tenant_id q.tenant_period) draws.now_ms
            before.reservations
        +ℤ cost) =
      check_tenant_limit-Within before scope.tenant_id q.tenant_period draws.now_ms
        (gate_of (load_tenant_config s scope.tenant_id)) cost (load_tenant_config s scope.tenant_id)
        positive j k (rw (e, k) at p.fits.tenant_fits) in
    rw p.is_end (record {
      request = q;
      expires_at_ms = p.expires_at_ms;
      written = rw e refl;
      unexpired = live;
      scope_within =
          rw
            (
              e,
              held_total-append (in_scope_period scope q.period) draws.now_ms before.reservations
                  row,
            )
            (Within-less (scope_limit (load_config s scope)) (spent_for before scope q.period)
              (held_total (in_scope_period scope q.period) draws.now_ms before.reservations) cost _
              (own_share _ cost positive) scope_room);
      tenant_within =
          rw
            (
              e,
              held_total-append (in_tenant_period scope.tenant_id q.tenant_period) draws.now_ms
                  before.reservations row,
            )
            (Within-less (tenant_limit (load_tenant_config s scope.tenant_id))
              (tenant_spent_for before scope.tenant_id q.tenant_period)
              (held_total (in_tenant_period scope.tenant_id q.tenant_period) draws.now_ms
                before.reservations)
              cost _ (own_share _ cost positive) tenant_room);
    })

-- A reservation that `reserve` grants fits, unless its cost is zero and free requests are not
-- checked: what is spent and what all active reservations hold at that time, the new one included,
-- is at most the limit of the scope, where one is set, and at most the limit of the tenant, where
-- one is set. The limits are taken to be of type `i64`. The row is in the store, and has not expired
-- at the last reading of the clock.
pub reserve-Granted :
    (zones : TimeZones) (ttl_ms : ℤ) (s : Store) (scope : BudgetScope) (cost : ℤ) (draws : Draws)
    (id : Text)
    → IsI64 (scope_limit (load_config s scope))
    → IsI64 (tenant_limit (load_tenant_config s scope.tenant_id))
    → skip_zero_cost (gate_of (load_tenant_config s scope.tenant_id)) cost ≡ false
    → (reserve zones ttl_ms s scope (known cost) draws).1 ≡ ok id
    → Granted zones s (reserve zones ttl_ms s scope (known cost) draws).0 scope cost draws
unfolding reserve check_reservation_deadline
reserve-Granted zones ttl_ms s scope cost draws id i j k h =
    elim (admit-AdmitEnd zones s scope (known cost) draws ttl_ms true) [
      | rolled_back e q ↦ absurd (refused e (rw q at h))
      | over r e q ↦ absurd (refused e (rw q at h))
      | checked r f e q ↦ absurd (cc)
      | persisted e p ↦
          Persisted-Granted zones ttl_ms s scope cost draws _ p i j k
            (after_deadline _ _ draws.id (rw p.is_end at h))
    ]
  where
    refused : (e : BudgetError) → ¬ (reserved_id (err e) ≡ ok id)
    refused e q = cc
