-- ===== src/Tenancy/Budget/Isolation.antt =====
-- crates/idoris-tenancy/src/budget/ledger.rs: what a tenant does to a reservation reaches no other
-- tenant.
use i_doris.Prelude.{
  ◌≡◌, ◌≢◌, refl, sym, ◌∙◌, false, Option, none, some, List, [], ◌∷◌, Memᴰ, inl, inr, ap,
  Bool-cases, any_intro, some_eq,
}
use i_doris.Prelude.Equality.{Text, text_eq, text_eq_iff, text_eq→eq}
use i_doris.Prelude.Int.{ℤ}
use i_doris.Prelude.Results.{ok, Result-cases}
use i_doris.Tenancy.Budget.Amount.Sums.{+ℤ_zero}
use i_doris.Tenancy.Budget.Types.{ReservationStatus, active, settled, released, expired}
use i_doris.Tenancy.Budget.Period.{TimeZones}
use i_doris.Tenancy.Budget.Store.{
  Store, Reservation, transact, find_reservation, has_id, update_rows, tenant_spent_for,
  reject_amount_overflow, in_tenant_period,
}
use i_doris.Tenancy.Budget.Store.Rows.{
  IsDistinct, Keeps, Keeps-if, find_reservation-map, find_reservation-Found,
}
use i_doris.Tenancy.Budget.Settle.{Settlement, replay_settlement, settled_row, booked}
use i_doris.Tenancy.Budget.Settle
use i_doris.Tenancy.Budget.Settle.Endings.{refused, overflowed, charged_to, settle-SettleEnd}
use i_doris.Tenancy.Budget.Settle.Charges.{Charge-Charges, settled_row-Keeps}
use i_doris.Tenancy.Budget.Extend.{Extension, finish, released_row, renewed}
use i_doris.Tenancy.Budget.Extend
use i_doris.Tenancy.Budget.Extend.Lifetime.{extend-cases, renewed-Keeps}
use i_doris.Tenancy.Budget.Accounts.History.{replayed_store}
use i_doris.Tenancy.Budget.Operations.{Operation, step}

-- An identity stands for one row.
pub distinct_same :
    (rows : List Reservation) {a b : Reservation}
    → IsDistinct rows
    → Memᴰ a rows
    → Memᴰ b rows
    → a.id ≡ b.id
    → a ≡ b
distinct_same [] d m n e = elim m [ ]
distinct_same (x ∷ rows) d (Memᴰ.head p) (Memᴰ.head q) e = p ∙ sym q
distinct_same (x ∷ rows) {a} {b} d (Memᴰ.head p) (Memᴰ.tail n) e =
    let k =
      any_intro (has_id x.id) rows n
        ((text_eq_iff b.id x.id).1 (sym e ∙ ap (λ (r : Reservation). r.id) p)) in
    absurd (cc)
distinct_same (x ∷ rows) {a} {b} d (Memᴰ.tail m) (Memᴰ.head q) e =
    let k =
      any_intro (has_id x.id) rows m
        ((text_eq_iff a.id x.id).1 (e ∙ ap (λ (r : Reservation). r.id) q)) in
    absurd (cc)
distinct_same (x ∷ rows) d (Memᴰ.tail m) (Memᴰ.tail n) e = distinct_same rows d.1 m n e

-- An update of a tenant's row is not seen by another tenant.
other_tenant :
    (s s' : Store) (change : Reservation → Reservation) (tenant id other sought : Text)
    (row : Reservation)
    → IsDistinct s.reservations
    → find_reservation s tenant id ≡ ok row
    → Keeps change
    → s'.reservations ≡ update_rows id change s.reservations
    → other ≢ tenant
    → find_reservation s' other sought ≡ find_reservation s other sought
other_tenant s s' change tenant id other sought row d f k e ne =
    find_reservation-map s s' other sought (Keeps-if (has_id id) k) e
    ∙ elim (Result-cases (find_reservation s other sought)) [
      | inl (r, g) ↦ rw g refl
      | inr (theirs, g) ↦
          let mine = find_reservation-Found s tenant id f in
          let them = find_reservation-Found s other sought g in
          elim (Bool-cases (text_eq theirs.id id)) [
            | inl h ↦
                let same =
                  distinct_same s.reservations d them.mem mine.mem
                    (text_eq→eq theirs.id id h ∙ sym mine.id) in
                absurd (
                  ne (
                    sym them.tenant
                    ∙ ap (λ (r : Reservation). r.scope.tenant_id) same
                    ∙ mine.tenant))
            | inr h ↦ rw (g, h) refl
          ]
    ]

-- The tenant that calls, for the calls about one reservation.
abbrev pub caller : Operation → Option Text
caller (Operation.settle c) = some c.tenant_id
caller (Operation.replay_settlement c) = some c.tenant_id
caller (Operation.extend x) = some x.tenant_id
caller (Operation.release tenant id) = some tenant
caller _ = none

-- What another tenant finds and has spent.
record Unseen (s s' : Store) (other sought period : Text) : Type 0 where
  found : find_reservation s' other sought ≡ find_reservation s other sought
  spent : tenant_spent_for s' other period ≡ tenant_spent_for s other period

not_theirs :
    (row : Reservation) (other period : Text)
    → other ≢ row.scope.tenant_id
    → in_tenant_period other period row ≡ false
not_theirs row other period ne = elim (Bool-cases (text_eq row.scope.tenant_id other)) [
  | inl h ↦ absurd (ne (sym (text_eq→eq row.scope.tenant_id other h)))
  | inr h ↦ rw h refl
]

module _ (s : Store) (other sought period : Text) (d : IsDistinct s.reservations) where
  settle-Unseen :
      (c : Settlement) → other ≢ c.tenant_id → Unseen s (Settle.settle s c).0 other sought period
  unfolding find_reservation tenant_spent_for
  settle-Unseen c ne = elim (settle-SettleEnd s c) [
    | refused e z q ↦ rw q (record { found = refl; spent = refl })
    | overflowed p q ↦ rw q (record { found = refl; spent = refl })
    | charged_to e ↦
        let own = find_reservation-Found s c.tenant_id c.reservation_id e.found in
        let done = Charge-Charges s c (Settle.settle s c) e in
        record {
          found =
              other_tenant s (Settle.settle s c).0 (settled_row c.actual_cost_minor) c.tenant_id
                c.reservation_id other sought e.row d e.found
                (settled_row-Keeps c.actual_cost_minor) (rw e.is_end refl) ne;
          spent =
              done.tenant_totals other period
              ∙ rw (not_theirs e.row other period (rw own.tenant ne))
                  (+ℤ_zero (tenant_spent_for s other period));
        }
  ]

  extend-Unseen :
      (ttl_ms : ℤ) (x : Extension)
      → other ≢ x.tenant_id
      → Unseen s (Extend.extend ttl_ms s x).0 other sought period
  unfolding tenant_spent_for
  extend-Unseen ttl_ms x ne = elim (extend-cases ttl_ms s x) [
    | inl (e, q) ↦ rw q (record { found = refl; spent = refl })
    | inr e ↦ record {
      found =
          other_tenant s (Extend.extend ttl_ms s x).0 (renewed e.expires_at_ms) x.tenant_id
            x.reservation_id other sought e.row d e.found (renewed-Keeps e.expires_at_ms)
            (rw e.is_end refl) ne;
      spent = rw e.is_end refl;
    }
  ]

  released-Unseen :
      (tenant id : Text) (row : Reservation)
      → other ≢ tenant
      → find_reservation s tenant id ≡ ok row
      → Unseen s
          (record s { reservations = update_rows id released_row s.reservations })
          other
          sought
          period
  unfolding tenant_spent_for
  released-Unseen tenant id row ne f = record {
    found =
        other_tenant s _ released_row tenant id other sought row d f
          (record {
            id = λ r. refl;
            scope = λ r. refl;
            period = λ r. refl;
            tenant_period = λ r. refl;
          })
          refl ne;
    spent = refl;
  }

  finish-Unseen :
      (tenant id : Text) (row : Reservation) (status : ReservationStatus)
      → other ≢ tenant
      → find_reservation s tenant id ≡ ok row
      → Unseen s (transact s (finish s tenant id status)).0 other sought period
  finish-Unseen tenant id row released ne f = record { found = refl; spent = refl }
  finish-Unseen tenant id row settled ne f = record { found = refl; spent = refl }
  finish-Unseen tenant id row active ne f =
      elim (Result-cases (reject_amount_overflow s tenant (some id))) [
        | inl (r, g) ↦ rw g (record { found = refl; spent = refl })
        | inr (tt, g) ↦ rw g (released-Unseen tenant id row ne f)
      ]
  finish-Unseen tenant id row expired ne f =
      elim (Result-cases (reject_amount_overflow s tenant (some id))) [
        | inl (r, g) ↦ rw g (record { found = refl; spent = refl })
        | inr (tt, g) ↦ rw g (released-Unseen tenant id row ne f)
      ]

  release-Unseen :
      (tenant id : Text)
      → other ≢ tenant
      → Unseen s (Extend.release s tenant id).0 other sought period
  unfolding Extend.release
  release-Unseen tenant id ne = elim (Result-cases (find_reservation s tenant id)) [
    | inl (e, f) ↦ rw f (record { found = refl; spent = refl })
    | inr (row, f) ↦ rw f (finish-Unseen tenant id row row.status ne f)
  ]

-- A tenant that settles, replays, renews or releases a reservation changes nothing that another
-- tenant can find, whatever identity it names, and nothing that the other tenant has spent. The
-- identities in the store are distinct, as they are after any history.
pub step_isolated :
    (zones : TimeZones) (ttl_ms : ℤ) (o : Operation) (s : Store) (tenant other sought period : Text)
    → IsDistinct s.reservations
    → caller o ≡ some tenant
    → other ≢ tenant
    → (find_reservation (step zones ttl_ms o s) other sought ≡ find_reservation s other sought)
      × (tenant_spent_for (step zones ttl_ms o s) other period ≡ tenant_spent_for s other period)
unfolding replay_settlement
step_isolated zones ttl (Operation.settle c) s tenant other sought period d e ne =
    let u = settle-Unseen s other sought period d c (λ q. ne (q ∙ some_eq e)) in (u.found, u.spent)
step_isolated zones ttl (Operation.replay_settlement c) s tenant other sought period d e ne =
    let u = settle-Unseen s other sought period d c (λ q. ne (q ∙ some_eq e)) in
    rw (replayed_store c (Settle.settle s c).0 (Settle.settle s c).1) (u.found, u.spent)
step_isolated zones ttl (Operation.extend x) s tenant other sought period d e ne =
    let u = extend-Unseen s other sought period d ttl x (λ q. ne (q ∙ some_eq e)) in
    (u.found, u.spent)
step_isolated zones ttl (Operation.release t id) s tenant other sought period d e ne =
    let u = release-Unseen s other sought period d t id (λ q. ne (q ∙ some_eq e)) in
    (u.found, u.spent)
step_isolated zones ttl _ s tenant other sought period d e ne = absurd (cc)
