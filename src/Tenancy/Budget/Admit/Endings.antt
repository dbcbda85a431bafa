-- ===== src/Tenancy/Budget/Admit/Endings.antt =====
-- crates/idoris-tenancy/src/budget/ledger.rs: how `admit` ends.
use i_doris.Prelude.{
  ◌≡◌, refl, Bool, true, false, Option, none, some, ◌++◌, [], ◌∷◌, inl, inr, Option-cases, any,
  Bool-cases, if◌then◌else◌,
}
use i_doris.Prelude.Int.{ℤ}
use i_doris.Prelude.Equality.{Text}
use i_doris.Prelude.Results.{ok, err, ◌>>=◌, Result-cases}
use i_doris.Tenancy.Budget.Amount.{checked_add}
use i_doris.Tenancy.Budget.Types.{
  SpendGate, BudgetScope, Price, BudgetError, storage, invalid_timestamp,
}
use i_doris.Tenancy.Budget.Period.{TimeZones}
use i_doris.Tenancy.Budget.Store.{
  Store, Reservation, Answered, transact, validate_scope, reject_amount_overflow, load_config,
  load_tenant_config, sweep_expired_scope, has_id,
}
use i_doris.Tenancy.Budget.Admit.{
  Draws, new_reservation, priced, gate_of, skip_zero_cost, unless_skipped, check_scope_limit,
  check_tenant_limit, check_reservation_deadline, persist, scope_period, tenant_period_or, admit,
  refuse_or,
}

abbrev pub inserted : Store → Reservation → Store
inserted s row = record s { reservations = s.reservations ++ row ∷ [] }

-- What an admission has found out before it looks at the limits.
pub record Request (zones : TimeZones) (s : Store) (scope : BudgetScope) (price : Price)
    (draws : Draws) : Type 0 where
  pub cost : ℤ
  pub period : Text
  pub tenant_period : Text
  pub is_priced : priced price ≡ ok cost
  pub no_pending : reject_amount_overflow s scope.tenant_id none ≡ ok tt
  pub in_period :
      scope_period zones scope draws.now_ms
        (load_config s scope)
        (load_tenant_config s scope.tenant_id)
      ≡ ok period
  pub in_tenant_period :
      tenant_period_or zones draws.now_ms period (load_tenant_config s scope.tenant_id)
      ≡ ok tenant_period

module _ (zones : TimeZones) (s : Store) (scope : BudgetScope) (price : Price) (draws : Draws) where
  abbrev pub swept : Request zones s scope price draws → Store
  swept q = sweep_expired_scope s scope q.period draws.now_ms

  abbrev pub gate : SpendGate
  gate = gate_of (load_tenant_config s scope.tenant_id)

  abbrev pub skipped : Request zones s scope price draws → Bool
  skipped q = skip_zero_cost gate q.cost

  -- The cost fits both limits, or is free.
  pub record Fits (q : Request zones s scope price draws) : Type 0 where
    pub scope_fits :
        unless_skipped (skipped q) (
          check_scope_limit (swept q) scope q.period draws.now_ms gate q.cost (load_config s scope))
        ≡ ok none
    pub tenant_fits :
        unless_skipped (skipped q) (
          check_tenant_limit
            (swept q)
            scope.tenant_id
            q.tenant_period
            draws.now_ms
            gate
            q.cost
            (load_tenant_config s scope.tenant_id))
        ≡ ok none

  abbrev pub row_of : Request zones s scope price draws → ℤ → Reservation
  row_of q expires_at_ms = new_reservation scope q.period q.tenant_period q.cost expires_at_ms draws

  -- The row is committed; the answer depends on the time that the commit took.
  pub record Persisted (ttl_ms : ℤ) (answer : Answered (Option Text)) : Type 0 where
    pub request : Request zones s scope price draws
    pub fits : Fits request
    pub expires_at_ms : ℤ
    pub lives : checked_add draws.now_ms ttl_ms ≡ some expires_at_ms
    pub fresh : any (has_id draws.id) (swept request).reservations ≡ false
    pub before : check_reservation_deadline draws.id expires_at_ms draws.before_commit_ms ≡ ok tt
    pub is_end : answer ≡ (
      inserted (swept request) (row_of request expires_at_ms),
      (do
        _ ← check_reservation_deadline draws.id expires_at_ms draws.after_commit_ms
        ok (some draws.id)),
    )

  pub data AdmitEnd (ttl_ms : ℤ) (persists : Bool) (answer : Answered (Option Text)) : Type 0 where
    rolled_back : (e : BudgetError) → answer ≡ (s, err e) → AdmitEnd ttl_ms persists answer
    over :
        (q : Request zones s scope price draws) (e : BudgetError)
        → answer ≡ (swept q, err e)
        → AdmitEnd ttl_ms persists answer
    checked :
        (q : Request zones s scope price draws)
        → Fits q
        → persists ≡ false
        → answer ≡ (swept q, ok none)
        → AdmitEnd ttl_ms persists answer
    persisted : persists ≡ true → Persisted ttl_ms answer → AdmitEnd ttl_ms persists answer

  -- The part that writes the row.
  persist-AdmitEnd :
      (ttl_ms : ℤ) (q : Request zones s scope price draws)
      → Fits q
      → (answer : Answered (Option Text))
      → answer ≡ transact s (persist (swept q) scope q.period q.tenant_period q.cost ttl_ms draws)
      → AdmitEnd ttl_ms true answer
  unfolding persist
  persist-AdmitEnd ttl_ms q fits answer h = elim (Option-cases (checked_add draws.now_ms ttl_ms)) [
    | inl e ↦ rolled_back (invalid_timestamp draws.now_ms) (rw e at h)
    | inr (expires, e) ↦ elim (Bool-cases (any (has_id draws.id) (swept q).reservations)) [
      | inl f ↦ rolled_back storage (rw (e, f) at h)
      | inr f ↦
          elim (Result-cases (check_reservation_deadline draws.id expires draws.before_commit_ms)) [
            | inl (r, g) ↦ rolled_back r (rw (e, f, g) at h)
            | inr (tt, g) ↦ persisted refl (record {
              request = q;
              fits = fits;
              expires_at_ms = expires;
              lives = e;
              fresh = f;
              before = g;
              is_end = rw (e, f, g) at h;
            })
          ]
    ]
  ]

  write-AdmitEnd :
      (ttl_ms : ℤ) (persists : Bool) (q : Request zones s scope price draws)
      → Fits q
      → (answer : Answered (Option Text))
      → answer
        ≡ transact s (
            if persists
            then persist (swept q) scope q.period q.tenant_period q.cost ttl_ms draws
            else ok (swept q, ok none))
      → AdmitEnd ttl_ms persists answer
  write-AdmitEnd ttl_ms true q fits answer h = persist-AdmitEnd ttl_ms q fits answer h
  write-AdmitEnd ttl_ms false q fits answer h = checked q fits refl h

  limits-AdmitEnd :
      (ttl_ms : ℤ) (persists : Bool) (q : Request zones s scope price draws)
      → (answer : Answered (Option Text))
      → answer
        ≡ transact s (do
          sub_refusal ← unless_skipped (skipped q) (
              check_scope_limit
                (swept q)
                scope
                q.period
                draws.now_ms
                gate
                q.cost
                (load_config s scope))
          refuse_or sub_refusal (swept q) (do
            refusal ← unless_skipped (skipped q) (
                check_tenant_limit
                  (swept q)
                  scope.tenant_id
                  q.tenant_period
                  draws.now_ms
                  gate
                  q.cost
                  (load_tenant_config s scope.tenant_id))
            refuse_or refusal (swept q) (
                if persists
                then persist (swept q) scope q.period q.tenant_period q.cost ttl_ms draws
                else ok (swept q, ok none))))
      → AdmitEnd ttl_ms persists answer
  limits-AdmitEnd ttl_ms persists q answer h =
      elim (Result-cases (
        unless_skipped (skipped q) (
          check_scope_limit (swept q) scope q.period draws.now_ms gate q.cost
            (load_config s scope)))) [
              | inl (r, e) ↦ rolled_back r (rw e at h)
              | inr (some r, e) ↦ over q r (rw e at h)
              | inr (none, e) ↦
                  elim (Result-cases (
                    unless_skipped (skipped q) (
                      check_tenant_limit (swept q) scope.tenant_id q.tenant_period draws.now_ms gate
                        q.cost (load_tenant_config s scope.tenant_id)))) [
                          | inl (r, f) ↦ rolled_back r (rw (e, f) at h)
                          | inr (some r, f) ↦ over q r (rw (e, f) at h)
                          | inr (none, f) ↦
                              write-AdmitEnd ttl_ms persists q
                                (record { scope_fits = e; tenant_fits = f }) answer (rw (e, f) at h)
                        ]
            ]

  pub admit-AdmitEnd :
      (ttl_ms : ℤ) (persists : Bool)
      → AdmitEnd ttl_ms persists (admit zones ttl_ms s scope price persists draws)
  unfolding admit
  admit-AdmitEnd ttl_ms persists = elim (Result-cases (validate_scope scope)) [
    | inl (r, e) ↦ rolled_back r (rw e refl)
    | inr (tt, e) ↦ elim (Result-cases (priced price)) [
      | inl (r, f) ↦ rolled_back r (rw (e, f) refl)
      | inr (cost, f) ↦ elim (Result-cases (reject_amount_overflow s scope.tenant_id none)) [
        | inl (r, g) ↦ rolled_back r (rw (e, f, g) refl)
        | inr (tt, g) ↦
            elim (Result-cases (
              scope_period zones scope draws.now_ms (load_config s scope)
                (load_tenant_config s scope.tenant_id))) [
                  | inl (r, p) ↦ rolled_back r (rw (e, f, g, p) refl)
                  | inr (period, p) ↦
                      elim (Result-cases (
                        tenant_period_or zones draws.now_ms period
                          (load_tenant_config s scope.tenant_id))) [
                            | inl (r, t) ↦ rolled_back r (rw (e, f, g, p, t) refl)
                            | inr (tenant_period, t) ↦
                                limits-AdmitEnd ttl_ms persists
                                  (record {
                                    cost = cost;
                                    period = period;
                                    tenant_period = tenant_period;
                                    is_priced = f;
                                    no_pending = g;
                                    in_period = p;
                                    in_tenant_period = t;
                                  })
                                  _ (rw (e, f, g, p, t) refl)
                          ]
                ]
      ]
    ]
  ]
