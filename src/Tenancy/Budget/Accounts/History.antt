-- ===== src/Tenancy/Budget/Accounts/History.antt =====
-- crates/idoris-tenancy/src/budget/ledger.rs: the totals of spending after any history of calls.
use i_doris.Prelude.{
  ◌≡◌, refl, Bool, true, false, ◌&&◌, some, List, [], ◌∷◌, inl, inr, arith, filter, if◌then◌else◌,
  sym, ◌∙◌, Memᴰ,
}
use i_doris.Prelude.Equality.{Text}
use i_doris.Prelude.Int.{ℤ, pos, ◌+ℤ◌, leb_ℤ}
use i_doris.Prelude.Results.{Result, ok, err, Result-cases}
use i_doris.Tenancy.Budget.Types.{
  BudgetScope, ReservationStatus, active, settled, released, expired, BudgetError, is_active,
  SettleReceipt, Price, SpendGate, reservation_not_active, overage_too_large,
}
use i_doris.Tenancy.Budget.Period.{TimeZones}
use i_doris.Tenancy.Budget.Store.{
  Store, Reservation, Answered, transact, find_reservation, has_id, update_rows,
  reject_amount_overflow, sweep_expired_scope, in_scope_period, in_tenant_period, spent_for,
  tenant_spent_for, is_own, first,
}
use i_doris.Tenancy.Budget.Store.Rows.{Keeps, Keeps-if, map-IsDistinct, find_reservation-Found}
use i_doris.Tenancy.Budget.Accounts.{
  IsBalanced, cost_of, charged, charged-update_rows, in_scope_period-Stable,
  in_tenant_period-Stable,
}
use i_doris.Tenancy.Budget.Amount.Sums.{+ℤ_zero}
use i_doris.Tenancy.Budget.Accounts.Steps.{
  same-IsBalanced, map-IsBalanced, insert-IsBalanced, expire-IsBalanced, Charge-IsBalanced,
}
use i_doris.Tenancy.Budget.Settle.{Settlement, replayed, replay_settlement, same_amount, is_settled}
use i_doris.Tenancy.Budget.Settle
use i_doris.Tenancy.Budget.Settle.Endings.{refused, overflowed, charged_to, settle-SettleEnd}
use i_doris.Tenancy.Budget.Extend.Lifetime.{extend-cases}
use i_doris.Tenancy.Budget.Configure.Endings.{configure-cases, configure_tenant-cases}
use i_doris.Tenancy.Budget.Extend.{Extension, is_lapsed, finish, released_row, renewed}
use i_doris.Tenancy.Budget.Extend
use i_doris.Tenancy.Budget.Admit.{Draws}
use i_doris.Tenancy.Budget.Admit
use i_doris.Tenancy.Budget.Admit.Endings.{rolled_back, over, checked, persisted, admit-AdmitEnd}
use i_doris.Tenancy.Budget.Configure
use i_doris.Tenancy.Budget.Operations.{Operation, step, run, empty_store}

settle-IsBalanced : (s : Store) (c : Settlement) → IsBalanced s → IsBalanced (Settle.settle s c).0
settle-IsBalanced s c h = elim (settle-SettleEnd s c) [
  | refused e z q ↦ rw q h
  | overflowed p q ↦ rw q (same-IsBalanced s _ refl refl refl h)
  | charged_to charge ↦ Charge-IsBalanced s c charge h
]

pub replayed_store :
    (c : Settlement) (s : Store) (answer : Result BudgetError SettleReceipt)
    → (replayed c (s, answer)).0 ≡ s
replayed_store c s (ok r) = refl
replayed_store c s (err (overage_too_large id reserved actual)) = refl
replayed_store c s (err (reservation_not_active id status)) = either (
    same_amount c.actual_cost_minor (
      first (
        filter (λ row. is_own c.tenant_id c.reservation_id row && is_settled row.status)
          s.reservations)))
  where
    either :
        (b : Bool)
        → let done : Answered (Unit {0}) = (s, ok tt) in
          (if b then done else (s, err (reservation_not_active id status))).0 ≡ s
    either true = refl
    either false = refl
replayed_store c s (err e) = refl

replay_settlement-IsBalanced :
    (s : Store) (c : Settlement) → IsBalanced s → IsBalanced (replay_settlement s c).0
unfolding replay_settlement
replay_settlement-IsBalanced s c h =
    let (after, answer) = Settle.settle s c in
    rw (replayed_store c (Settle.settle s c).0 (Settle.settle s c).1) (settle-IsBalanced s c h)

sweep_expired-IsBalanced :
    (s : Store) (now_ms : ℤ) → IsBalanced s → IsBalanced (Extend.sweep_expired s now_ms).0
unfolding Extend.sweep_expired
sweep_expired-IsBalanced s now_ms h =
    expire-IsBalanced s (is_lapsed now_ms) (λ row e. ground arith) h

sweep_expired_scope-IsBalanced :
    (s : Store) (scope : BudgetScope) (period : Text) (now_ms : ℤ)
    → IsBalanced s
    → IsBalanced (sweep_expired_scope s scope period now_ms)
unfolding sweep_expired_scope
sweep_expired_scope-IsBalanced s scope period now_ms h =
    expire-IsBalanced s
      (λ row.
        in_scope_period scope period row && is_active row.status && leb_ℤ row.expires_at_ms now_ms)
      (λ row e. ground arith) h

admit-IsBalanced :
    (zones : TimeZones) (ttl_ms : ℤ) (s : Store) (scope : BudgetScope) (price : Price)
    (persists : Bool) (draws : Draws)
    → IsBalanced s
    → IsBalanced (Admit.admit zones ttl_ms s scope price persists draws).0
admit-IsBalanced zones ttl_ms s scope price persists draws h =
    elim (admit-AdmitEnd zones s scope price draws ttl_ms persists) [
      | rolled_back e q ↦ rw q h
      | over r e q ↦ rw q (sweep_expired_scope-IsBalanced s scope r.period draws.now_ms h)
      | checked r f e q ↦ rw q (sweep_expired_scope-IsBalanced s scope r.period draws.now_ms h)
      | persisted e p ↦ rw p.is_end (
          insert-IsBalanced _ _ refl p.fresh
            (sweep_expired_scope-IsBalanced s scope p.request.period draws.now_ms h))
    ]

-- Renewing and releasing move no cost.
renewed-IsBalanced :
    (s : Store) (id : Text) (expires_at_ms : ℤ)
    → IsBalanced s
    → IsBalanced (record s { reservations = update_rows id (renewed expires_at_ms) s.reservations })
renewed-IsBalanced s id expires_at_ms h =
    map-IsBalanced s
      (λ (row : Reservation). if has_id id row then renewed expires_at_ms row else row)
      (Keeps-if (has_id id) (record {
        id = λ row. refl;
        scope = λ row. refl;
        period = λ row. refl;
        tenant_period = λ row. refl;
      }))
      (λ row. chosen (has_id id row) row) h
  where
    chosen :
        (b : Bool) (row : Reservation)
        → cost_of (if b then renewed expires_at_ms row else row) ≡ cost_of row
    chosen true row = refl
    chosen false row = refl

extend-IsBalanced :
    (ttl_ms : ℤ) (s : Store) (x : Extension)
    → IsBalanced s
    → IsBalanced (Extend.extend ttl_ms s x).0
extend-IsBalanced ttl_ms s x h = elim (extend-cases ttl_ms s x) [
  | inl (e, q) ↦ rw q h
  | inr e ↦ rw e.is_end (renewed-IsBalanced s x.reservation_id e.expires_at_ms h)
]

configure-IsBalanced :
    (s : Store) (scope : BudgetScope) (limit : ℤ) (zone : Text) (now : ℤ)
    → IsBalanced s
    → IsBalanced (Configure.configure s scope limit zone now).0
configure-IsBalanced s scope limit zone now h = elim (configure-cases s scope limit zone now) [
  | inl (e, q) ↦ rw q h
  | inr e ↦ rw e.is_end (same-IsBalanced s _ refl refl refl h)
]

configure_tenant-IsBalanced :
    (s : Store) (tenant : Text) (limit : ℤ) (zone : Text) (gate : SpendGate) (now : ℤ)
    → IsBalanced s
    → IsBalanced (Configure.configure_tenant s tenant limit zone gate now).0
configure_tenant-IsBalanced s tenant limit zone gate now h =
    elim (configure_tenant-cases s tenant limit zone gate now) [
      | inl (e, q) ↦ rw q h
      | inr e ↦ rw e.is_end (same-IsBalanced s _ refl refl refl h)
    ]

delete_tenants-IsBalanced :
    (stale : List Text) (s : Store) → IsBalanced s → IsBalanced (Configure.delete_tenants stale s)
delete_tenants-IsBalanced [] s h = h
delete_tenants-IsBalanced (t ∷ stale) s h =
    delete_tenants-IsBalanced stale (Configure.delete_tenant t s)
      (same-IsBalanced s _ refl refl refl h)

released_nothing : (b : Bool) (a : ℤ) → a +ℤ (if b then pos 0 else pos 0) ≡ a
released_nothing true a = +ℤ_zero a
released_nothing false a = +ℤ_zero a

released-IsBalanced :
    (s : Store) (row : Reservation) (id : Text)
    → row.id ≡ id
    → Memᴰ row s.reservations
    → cost_of row ≡ pos 0
    → IsBalanced s
    → IsBalanced (record s { reservations = update_rows id released_row s.reservations })
unfolding spent_for tenant_spent_for
released-IsBalanced s row id e m z h =
    let keeps : Keeps released_row = record {
      id = λ row. refl;
      scope = λ row. refl;
      period = λ row. refl;
      tenant_period = λ row. refl;
    } in
    rw (← e) (record {
      distinct = map-IsDistinct (Keeps-if (has_id row.id) keeps) s.reservations h.distinct;
      scope_totals = λ scope period.
          let p = in_scope_period scope period in
          h.scope_totals scope period
          ∙ sym (
              charged-update_rows p (in_scope_period-Stable scope period) keeps s.reservations row
                h.distinct m z
              ∙ released_nothing (p row) (charged p s.reservations));
      tenant_totals = λ tenant_id period.
          let p = in_tenant_period tenant_id period in
          h.tenant_totals tenant_id period
          ∙ sym (
              charged-update_rows p (in_tenant_period-Stable tenant_id period) keeps s.reservations
                row h.distinct m z
              ∙ released_nothing (p row) (charged p s.reservations));
    })

finish-IsBalanced :
    (s : Store) (tenant id : Text) (row : Reservation) (status : ReservationStatus)
    → row.status ≡ status
    → row.id ≡ id
    → Memᴰ row s.reservations
    → IsBalanced s
    → IsBalanced (transact s (finish s tenant id status)).0
finish-IsBalanced s tenant id row released q e m h = h
finish-IsBalanced s tenant id row settled q e m h = h
finish-IsBalanced s tenant id row active q e m h =
    elim (Result-cases (reject_amount_overflow s tenant (some id))) [
      | inl (r, f) ↦ rw f h
      | inr (tt, f) ↦ rw f (released-IsBalanced s row id e m (rw q refl) h)
    ]
finish-IsBalanced s tenant id row expired q e m h =
    elim (Result-cases (reject_amount_overflow s tenant (some id))) [
      | inl (r, f) ↦ rw f h
      | inr (tt, f) ↦ rw f (released-IsBalanced s row id e m (rw q refl) h)
    ]

release-IsBalanced :
    (s : Store) (tenant id : Text) → IsBalanced s → IsBalanced (Extend.release s tenant id).0
unfolding Extend.release
release-IsBalanced s tenant id h = elim (Result-cases (find_reservation s tenant id)) [
  | inl (e, f) ↦ rw f h
  | inr (row, f) ↦
      let own = find_reservation-Found s tenant id f in
      rw f (finish-IsBalanced s tenant id row row.status refl own.id own.mem h)
]

step-IsBalanced :
    (zones : TimeZones) (ttl_ms : ℤ) (o : Operation) (s : Store)
    → IsBalanced s
    → IsBalanced (step zones ttl_ms o s)
unfolding Admit.reserve Admit.check_admission Configure.retain_tenants
step-IsBalanced zones ttl (Operation.configure scope limit zone now) s h =
    configure-IsBalanced s scope limit zone now h
step-IsBalanced zones ttl (Operation.configure_tenant tenant limit zone gate now) s h =
    configure_tenant-IsBalanced s tenant limit zone gate now h
step-IsBalanced zones ttl (Operation.retain_tenants keep) s h =
    delete_tenants-IsBalanced (Configure.stale_tenants s keep) s h
step-IsBalanced zones ttl (Operation.reserve scope price draws) s h =
    admit-IsBalanced zones ttl s scope price true draws h
step-IsBalanced zones ttl (Operation.check_admission scope price draws) s h =
    admit-IsBalanced zones ttl s scope price false draws h
step-IsBalanced zones ttl (Operation.sweep_expired now) s h = sweep_expired-IsBalanced s now h
step-IsBalanced zones ttl (Operation.settle c) s h = settle-IsBalanced s c h
step-IsBalanced zones ttl (Operation.replay_settlement c) s h = replay_settlement-IsBalanced s c h
step-IsBalanced zones ttl (Operation.extend x) s h = extend-IsBalanced ttl s x h
step-IsBalanced zones ttl (Operation.release tenant id) s h = release-IsBalanced s tenant id h

pub empty-IsBalanced : IsBalanced empty_store
unfolding spent_for tenant_spent_for
empty-IsBalanced = record {
  distinct = tt;
  scope_totals = λ scope period. refl;
  tenant_totals = λ tenant_id period. refl;
}

pub run-IsBalanced :
    (zones : TimeZones) (ttl_ms : ℤ) (history : List Operation) (s : Store)
    → IsBalanced s
    → IsBalanced (run zones ttl_ms history s)
run-IsBalanced zones ttl [] s h = h
run-IsBalanced zones ttl (o ∷ history) s h =
    run-IsBalanced zones ttl history (step zones ttl o s) (step-IsBalanced zones ttl o s h)
