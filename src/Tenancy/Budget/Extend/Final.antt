-- ===== src/Tenancy/Budget/Extend/Final.antt =====
-- crates/idoris-tenancy/src/budget/ledger.rs: no call of the ledger opens a released reservation
-- again.
use i_doris.Prelude.{
  ◌≡◌, ◌≢◌, refl, ◌∙◌, sym, Bool, true, false, ◌&&◌, some, List, [], ◌∷◌, ◌++◌, filter, any,
  any_intro, Memᴰ, arith, Bool-cases, inl, inr,
}
use i_doris.Prelude.Equality.{Text, text_eq, text_eq_iff}
use i_doris.Prelude.Int.{ℤ, leb_ℤ}
use i_doris.Prelude.Results.{ok, Result-cases}
use i_doris.Tenancy.Budget.Types.{
  BudgetScope, SpendGate, Price, ReservationStatus, active, settled, released, expired, is_active,
}
use i_doris.Tenancy.Budget.Period.{TimeZones}
use i_doris.Tenancy.Budget.Store.{
  Store, Reservation, transact, find_reservation, has_id, is_own, first, update_rows,
  reject_amount_overflow, sweep_expired_scope, in_scope_period,
}
use i_doris.Tenancy.Budget.Store.Rows.{Keeps-if, find_reservation-Found, find_reservation-first}
use i_doris.Tenancy.Budget.Settle.{Settlement, settled_row, lateness, replay_settlement}
use i_doris.Tenancy.Budget.Settle
use i_doris.Tenancy.Budget.Settle.Endings.{refused, overflowed, charged_to, settle-SettleEnd}
use i_doris.Tenancy.Budget.Settle.Charges.{settled_row-Keeps}
use i_doris.Tenancy.Budget.Configure
use i_doris.Tenancy.Budget.Configure.Endings.{configure-cases, configure_tenant-cases}
use i_doris.Tenancy.Budget.Extend.{Extension, finish, released_row, renewed, is_lapsed}
use i_doris.Tenancy.Budget.Extend
use i_doris.Tenancy.Budget.Extend.Lifetime.{extend-cases, renewed-Keeps}
use i_doris.Tenancy.Budget.Admit.{Draws}
use i_doris.Tenancy.Budget.Admit
use i_doris.Tenancy.Budget.Admit.Endings.{rolled_back, over, checked, persisted, admit-AdmitEnd}
use i_doris.Tenancy.Budget.Accounts.History.{replayed_store}
use i_doris.Tenancy.Budget.Operations.{Operation, step, run}
use i_doris.Tenancy.Budget.Extend.Closed.{
  AllReleased, IsClosed, closed_status, map-IsClosed, same-IsClosed, update-IsClosed,
  expired-IsClosed,
}

first-append :
    (p : Reservation → Bool) (rows : List Reservation) (x row : Reservation)
    → first (filter p rows) ≡ some row
    → first (filter p (rows ++ x ∷ [])) ≡ some row
first-append p [] x row h = cc
first-append p (y ∷ rows) x row h = elim (Bool-cases (p y)) [
  | inl e ↦ rw e (rw e at h)
  | inr e ↦ rw e (first-append p rows x row (rw e at h))
]

AllReleased-append :
    (id : Text) (rows : List Reservation) (x : Reservation)
    → has_id id x ≡ false
    → AllReleased id rows
    → AllReleased id (rows ++ x ∷ [])
AllReleased-append id [] x ne h = (λ e. cc, tt)
AllReleased-append id (y ∷ rows) x ne h = (h.0, AllReleased-append id rows x ne h.1)

-- A new row has another identity.
insert-IsClosed :
    (s : Store) (tenant id : Text) (x : Reservation)
    → any (has_id x.id) s.reservations ≡ false
    → IsClosed s tenant id
    → IsClosed (record s { reservations = s.reservations ++ x ∷ [] }) tenant id
unfolding find_reservation
insert-IsClosed s tenant id x fresh h =
    let own = find_reservation-Found s tenant id h.found in
    let there = find_reservation-first s tenant id h.found in
    record {
      row = h.row;
      found = rw (first-append (is_own tenant id) s.reservations x h.row there) refl;
      rows = AllReleased-append id s.reservations x (other own.mem own.id) h.rows;
    }
  where
    other : Memᴰ h.row s.reservations → h.row.id ≡ id → has_id id x ≡ false
    other m e = elim (Bool-cases (text_eq x.id id)) [
      | inl f ↦
          let same = e ∙ sym ((text_eq_iff x.id id).0 f) in
          let bad = any_intro (has_id x.id) s.reservations m ((text_eq_iff h.row.id x.id).1 same) in
          absurd (cc)
      | inr f ↦ f
    ]

not_timely :
    (id : Text) (row : Reservation) (now : ℤ) (status : ReservationStatus) {b : Bool}
    → lateness id row now status ≡ ok b
    → status ≢ released
not_timely id row now active h e = cc
not_timely id row now settled h e = cc
not_timely id row now released h e = cc
not_timely id row now expired h e = cc

module _ (s : Store) (tenant id : Text) (h : IsClosed s tenant id) where
  -- A row whose status is another is not found under the identity.
  another_id :
      (caller sought : Text) (row : Reservation)
      → find_reservation s caller sought ≡ ok row
      → row.status ≢ released
      → text_eq sought id ≡ false
  another_id caller sought row f open_row = elim (Bool-cases (text_eq sought id)) [
    | inl e ↦
        let same = (text_eq_iff sought id).0 e in
        absurd (open_row (closed_status s tenant id caller row h (rw same at f)))
    | inr e ↦ e
  ]

  settle-IsClosed : (c : Settlement) → IsClosed (Settle.settle s c).0 tenant id
  settle-IsClosed c = elim (settle-SettleEnd s c) [
    | refused e z q ↦ rw q h
    | overflowed p q ↦ rw q (same-IsClosed s _ tenant id refl h)
    | charged_to e ↦
        let ne =
          another_id c.tenant_id c.reservation_id e.row e.found
            (not_timely c.reservation_id e.row c.now_ms e.row.status e.timely) in
        rw e.is_end (
          update-IsClosed s _ tenant id c.reservation_id (settled_row-Keeps c.actual_cost_minor) ne
            refl h)
  ]

  extend-IsClosed : (ttl_ms : ℤ) (x : Extension) → IsClosed (Extend.extend ttl_ms s x).0 tenant id
  extend-IsClosed ttl_ms x = elim (extend-cases ttl_ms s x) [
    | inl (e, q) ↦ rw q h
    | inr e ↦
        let ne =
          another_id x.tenant_id x.reservation_id e.row e.found
            (λ q. let bad = rw q at e.alive in cc bad) in
        rw e.is_end
          (update-IsClosed s _ tenant id x.reservation_id (renewed-Keeps e.expires_at_ms) ne refl h)
  ]

  released-IsClosed :
      (other : Text)
      → IsClosed
          (record s { reservations = update_rows other released_row s.reservations })
          tenant
          id
  released-IsClosed other =
      map-IsClosed s _ tenant id
        (Keeps-if (has_id other) (record {
          id = λ row. refl;
          scope = λ row. refl;
          period = λ row. refl;
          tenant_period = λ row. refl;
        }))
        (λ row _ q. ground arith) refl h

  finish_open :
      (caller other : Text) → IsClosed (transact s (finish s caller other active)).0 tenant id
  finish_open caller other = elim (Result-cases (reject_amount_overflow s caller (some other))) [
    | inl (r, f) ↦ rw f h
    | inr (tt, f) ↦ rw f (released-IsClosed other)
  ]

  finish-IsClosed :
      (caller other : Text) (status : ReservationStatus)
      → IsClosed (transact s (finish s caller other status)).0 tenant id
  finish-IsClosed caller other released = h
  finish-IsClosed caller other settled = h
  finish-IsClosed caller other active = finish_open caller other
  finish-IsClosed caller other expired = finish_open caller other

  release-IsClosed : (caller other : Text) → IsClosed (Extend.release s caller other).0 tenant id
  unfolding Extend.release
  release-IsClosed caller other = elim (Result-cases (find_reservation s caller other)) [
    | inl (e, f) ↦ rw f h
    | inr (row, f) ↦ rw f (finish-IsClosed caller other row.status)
  ]

  sweep_expired-IsClosed : (now : ℤ) → IsClosed (Extend.sweep_expired s now).0 tenant id
  unfolding Extend.sweep_expired
  sweep_expired-IsClosed now =
      expired-IsClosed s _ tenant id (is_lapsed now) (λ row e. ground arith) refl h

  swept-IsClosed :
      (scope : BudgetScope) (period : Text) (now : ℤ)
      → IsClosed (sweep_expired_scope s scope period now) tenant id
  unfolding sweep_expired_scope
  swept-IsClosed scope period now =
      expired-IsClosed s _ tenant id
        (λ row.
          in_scope_period scope period row && is_active row.status && leb_ℤ row.expires_at_ms now)
        (λ row e. ground arith) refl h

  admit-IsClosed :
      (zones : TimeZones) (ttl_ms : ℤ) (scope : BudgetScope) (price : Price) (persists : Bool)
      (draws : Draws)
      → IsClosed (Admit.admit zones ttl_ms s scope price persists draws).0 tenant id
  admit-IsClosed zones ttl_ms scope price persists draws =
      elim (admit-AdmitEnd zones s scope price draws ttl_ms persists) [
        | rolled_back e q ↦ rw q h
        | over r e q ↦ rw q (swept-IsClosed scope r.period draws.now_ms)
        | checked r f e q ↦ rw q (swept-IsClosed scope r.period draws.now_ms)
        | persisted e p ↦ rw p.is_end (
            insert-IsClosed _ tenant id _ p.fresh
              (swept-IsClosed scope p.request.period draws.now_ms))
      ]

  configure-IsClosed :
      (scope : BudgetScope) (limit : ℤ) (zone : Text) (now : ℤ)
      → IsClosed (Configure.configure s scope limit zone now).0 tenant id
  configure-IsClosed scope limit zone now = elim (configure-cases s scope limit zone now) [
    | inl (e, q) ↦ rw q h
    | inr e ↦ rw e.is_end (same-IsClosed s _ tenant id refl h)
  ]

  configure_tenant-IsClosed :
      (t : Text) (limit : ℤ) (zone : Text) (gate : SpendGate) (now : ℤ)
      → IsClosed (Configure.configure_tenant s t limit zone gate now).0 tenant id
  configure_tenant-IsClosed t limit zone gate now =
      elim (configure_tenant-cases s t limit zone gate now) [
        | inl (e, q) ↦ rw q h
        | inr e ↦ rw e.is_end (same-IsClosed s _ tenant id refl h)
      ]

delete_tenants-IsClosed :
    (stale : List Text) (s : Store) (tenant id : Text)
    → IsClosed s tenant id
    → IsClosed (Configure.delete_tenants stale s) tenant id
delete_tenants-IsClosed [] s tenant id h = h
delete_tenants-IsClosed (t ∷ stale) s tenant id h =
    delete_tenants-IsClosed stale (Configure.delete_tenant t s) tenant id
      (same-IsClosed s _ tenant id refl h)

step-IsClosed :
    (zones : TimeZones) (ttl_ms : ℤ) (o : Operation) (s : Store) (tenant id : Text)
    → IsClosed s tenant id
    → IsClosed (step zones ttl_ms o s) tenant id
unfolding Admit.reserve Admit.check_admission Configure.retain_tenants replay_settlement
step-IsClosed zones ttl (Operation.configure scope limit zone now) s tenant id h =
    configure-IsClosed s tenant id h scope limit zone now
step-IsClosed zones ttl (Operation.configure_tenant t limit zone gate now) s tenant id h =
    configure_tenant-IsClosed s tenant id h t limit zone gate now
step-IsClosed zones ttl (Operation.retain_tenants keep) s tenant id h =
    delete_tenants-IsClosed (Configure.stale_tenants s keep) s tenant id h
step-IsClosed zones ttl (Operation.reserve scope price draws) s tenant id h =
    admit-IsClosed s tenant id h zones ttl scope price true draws
step-IsClosed zones ttl (Operation.check_admission scope price draws) s tenant id h =
    admit-IsClosed s tenant id h zones ttl scope price false draws
step-IsClosed zones ttl (Operation.sweep_expired now) s tenant id h =
    sweep_expired-IsClosed s tenant id h now
step-IsClosed zones ttl (Operation.settle c) s tenant id h = settle-IsClosed s tenant id h c
step-IsClosed zones ttl (Operation.replay_settlement c) s tenant id h =
    rw (replayed_store c (Settle.settle s c).0 (Settle.settle s c).1)
      (settle-IsClosed s tenant id h c)
step-IsClosed zones ttl (Operation.extend x) s tenant id h = extend-IsClosed s tenant id h ttl x
step-IsClosed zones ttl (Operation.release caller other) s tenant id h =
    release-IsClosed s tenant id h caller other

-- Whatever is called afterwards, a released reservation is found and is released.
pub run-IsClosed :
    (zones : TimeZones) (ttl_ms : ℤ) (history : List Operation) (s : Store) (tenant id : Text)
    → IsClosed s tenant id
    → IsClosed (run zones ttl_ms history s) tenant id
run-IsClosed zones ttl [] s tenant id h = h
run-IsClosed zones ttl (o ∷ history) s tenant id h =
    run-IsClosed zones ttl history (step zones ttl o s) tenant id
      (step-IsClosed zones ttl o s tenant id h)
