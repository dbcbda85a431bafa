-- ===== src/Tenancy/Budget/Accounts/Book.antt =====
-- crates/idoris-tenancy/src/budget/ledger.rs: what the ledger promises, as a book to which each
-- settlement that is acknowledged adds one charge. The totals of the store are those of the book.
use i_doris.Prelude.{
  ◌≡◌, refl, sym, ◌∙◌, Bool, true, false, List, [], ◌∷◌, ◌++◌, inl, inr, if◌then◌else◌, ap,
  Bool-cases,
}
use i_doris.Prelude.Equality.{Text}
use i_doris.Prelude.Int.{ℤ, pos, ◌+ℤ◌}
use i_doris.Prelude.Results.{Result, ok, err}
use i_doris.Tenancy.Budget.Amount.Sums.{+ℤ_zero, zero_+ℤ, +ℤ_assoc}
use i_doris.Tenancy.Budget.Types.{BudgetScope, SpendGate, BudgetError}
use i_doris.Tenancy.Budget.Period.{TimeZones}
use i_doris.Tenancy.Budget.Store.{
  Store, Reservation, spent_for, tenant_spent_for, in_scope_period, in_tenant_period,
  find_reservation,
}
use i_doris.Tenancy.Budget.Settle.{Settlement, replay_settlement, receipt, is_too_large}
use i_doris.Tenancy.Budget.Settle
use i_doris.Tenancy.Budget.Settle.Endings.{
  refused, overflowed, charged_to, settle-SettleEnd, is_charged,
}
use i_doris.Tenancy.Budget.Settle.Charges.{Charge-Charges}
use i_doris.Tenancy.Budget.Extend.{Extension, finish}
use i_doris.Tenancy.Budget.Extend
use i_doris.Tenancy.Budget.Configure
use i_doris.Tenancy.Budget.Configure.Endings.{configure-cases, configure_tenant-cases}
use i_doris.Tenancy.Budget.Admit
use i_doris.Tenancy.Budget.Admit.{Draws}
use i_doris.Tenancy.Budget.Operations.Frame.{Frame, admit-Frame, extend-Frame, release-Frame}
use i_doris.Tenancy.Budget.Operations.{Operation, step, run, empty_store}
use i_doris.Tenancy.Budget.Accounts.{charged}
use i_doris.Tenancy.Budget.Accounts.History.{replayed_store, run-IsBalanced, empty-IsBalanced}

-- A charge: the reservation it is for, and the cost.
pub record Booking : Type 0 where
  pub row : Reservation
  pub cost : ℤ

abbrev pub Book : Type 0
Book = List Booking

abbrev booking : Result BudgetError Reservation → ℤ → Book
booking (ok row) cost = record { row = row; cost = cost } ∷ []
booking (err e) cost = []

abbrev acknowledged_settlement : Settlement → Store → Book
acknowledged_settlement c s =
    if is_charged (Settle.settle s c).1
    then booking (find_reservation s c.tenant_id c.reservation_id) c.actual_cost_minor
    else []

-- What the caller of an operation is told to be charged.
abbrev acknowledged : Operation → Store → Book
acknowledged (Operation.settle c) s = acknowledged_settlement c s
acknowledged (Operation.replay_settlement c) s = acknowledged_settlement c s
acknowledged _ s = []

abbrev pub book_total : (Reservation → Bool) → Book → ℤ
book_total p [] = pos 0
book_total p (b ∷ book) = (if p b.row then b.cost else pos 0) +ℤ book_total p book

-- The book of a history.
abbrev pub book_of : TimeZones → ℤ → List Operation → Store → Book
book_of zones ttl_ms [] s = []
book_of zones ttl_ms (o ∷ history) s =
    acknowledged o s ++ book_of zones ttl_ms history (step zones ttl_ms o s)

book_total-append :
    (p : Reservation → Bool) (b d : Book) → book_total p (b ++ d) ≡ book_total p b +ℤ book_total p d
book_total-append p [] d = sym (zero_+ℤ (book_total p d))
book_total-append p (x ∷ b) d =
    rw (book_total-append p b d)
      (sym (+ℤ_assoc (if p x.row then x.cost else pos 0) (book_total p b) (book_total p d)))

-- The totals grow as the book does.
record Grows (s s' : Store) (book : Book) : Type 0 where
  scope_totals :
      (scope : BudgetScope) (period : Text)
      → spent_for s' scope period
        ≡ spent_for s scope period +ℤ book_total (in_scope_period scope period) book
  tenant_totals :
      (tenant_id period : Text)
      → tenant_spent_for s' tenant_id period
        ≡ tenant_spent_for s tenant_id period +ℤ book_total (in_tenant_period tenant_id period) book

quiet-Grows :
    (s s' : Store)
    → s'.budget_periods ≡ s.budget_periods
    → s'.tenant_periods ≡ s.tenant_periods
    → Grows s s' []
unfolding spent_for tenant_spent_for
quiet-Grows s s' b t = record {
  scope_totals = λ scope period. rw b (sym (+ℤ_zero (spent_for s scope period)));
  tenant_totals = λ tenant_id period. rw t (sym (+ℤ_zero (tenant_spent_for s tenant_id period)));
}

receipt-is_charged :
    (c : Settlement) (row : Reservation) (late : Bool) → is_charged (receipt c row late) ≡ true
receipt-is_charged c row late = elim (Bool-cases (is_too_large c.actual_cost_minor row)) [
  | inl e ↦ rw e refl
  | inr e ↦ rw e refl
]

settle-Grows :
    (s : Store) (c : Settlement) → Grows s (Settle.settle s c).0 (acknowledged_settlement c s)
settle-Grows s c = elim (settle-SettleEnd s c) [
  | refused e z q ↦ rw (q, z) (quiet-Grows s s refl refl)
  | overflowed p q ↦ rw q (quiet-Grows s _ refl refl)
  | charged_to e ↦
      let done = Charge-Charges s c (Settle.settle s c) e in
      let told : is_charged (Settle.settle s c).1 ≡ true =
        rw e.is_end (receipt-is_charged c e.row e.is_late) in
      rw (told, e.found)
        (record {
          scope_totals = λ scope period.
              done.scope_totals scope period
              ∙ ap (λ t. spent_for s scope period +ℤ t)
                  (sym (
                    +ℤ_zero
                      (if in_scope_period scope period e.row then c.actual_cost_minor else pos 0)));
          tenant_totals = λ tenant_id period.
              done.tenant_totals tenant_id period
              ∙ ap (λ t. tenant_spent_for s tenant_id period +ℤ t)
                  (sym (
                    +ℤ_zero (
                      if in_tenant_period tenant_id period e.row
                      then c.actual_cost_minor
                      else pos 0)));
        })
]

replay_settlement-Grows :
    (s : Store) (c : Settlement) → Grows s (replay_settlement s c).0 (acknowledged_settlement c s)
unfolding replay_settlement
replay_settlement-Grows s c =
    rw (replayed_store c (Settle.settle s c).0 (Settle.settle s c).1) (settle-Grows s c)

delete_tenants-Grows :
    (stale : List Text) (s s' : Store)
    → s'.budget_periods ≡ s.budget_periods
    → s'.tenant_periods ≡ s.tenant_periods
    → Grows s (Configure.delete_tenants stale s') []
delete_tenants-Grows [] s s' b t = quiet-Grows s s' b t
delete_tenants-Grows (x ∷ stale) s s' b t =
    delete_tenants-Grows stale s (Configure.delete_tenant x s') b t

configure-Grows :
    (s : Store) (scope : BudgetScope) (limit : ℤ) (zone : Text) (now : ℤ)
    → Grows s (Configure.configure s scope limit zone now).0 []
configure-Grows s scope limit zone now = elim (configure-cases s scope limit zone now) [
  | inl (e, q) ↦ rw q (quiet-Grows s s refl refl)
  | inr e ↦ rw e.is_end (quiet-Grows s _ refl refl)
]

configure_tenant-Grows :
    (s : Store) (tenant : Text) (limit : ℤ) (zone : Text) (gate : SpendGate) (now : ℤ)
    → Grows s (Configure.configure_tenant s tenant limit zone gate now).0 []
configure_tenant-Grows s tenant limit zone gate now =
    elim (configure_tenant-cases s tenant limit zone gate now) [
      | inl (e, q) ↦ rw q (quiet-Grows s s refl refl)
      | inr e ↦ rw e.is_end (quiet-Grows s _ refl refl)
    ]

framed-Grows : (s s' : Store) → Frame s s' → Grows s s' []
framed-Grows s s' f = quiet-Grows s s' f.scope_totals f.tenant_totals

step-Grows :
    (zones : TimeZones) (ttl_ms : ℤ) (o : Operation) (s : Store)
    → Grows s (step zones ttl_ms o s) (acknowledged o s)
unfolding Admit.reserve Admit.check_admission Configure.retain_tenants Extend.sweep_expired
    Extend.release
step-Grows zones ttl (Operation.configure scope limit zone now) s =
    configure-Grows s scope limit zone now
step-Grows zones ttl (Operation.configure_tenant tenant limit zone gate now) s =
    configure_tenant-Grows s tenant limit zone gate now
step-Grows zones ttl (Operation.retain_tenants keep) s =
    delete_tenants-Grows (Configure.stale_tenants s keep) s s refl refl
step-Grows zones ttl (Operation.reserve scope price draws) s =
    framed-Grows s _ (admit-Frame zones ttl s scope price true draws)
step-Grows zones ttl (Operation.check_admission scope price draws) s =
    framed-Grows s _ (admit-Frame zones ttl s scope price false draws)
step-Grows zones ttl (Operation.sweep_expired now) s = quiet-Grows s _ refl refl
step-Grows zones ttl (Operation.settle c) s = settle-Grows s c
step-Grows zones ttl (Operation.replay_settlement c) s = replay_settlement-Grows s c
step-Grows zones ttl (Operation.extend x) s = framed-Grows s _ (extend-Frame ttl s x)
step-Grows zones ttl (Operation.release tenant id) s = framed-Grows s _ (release-Frame s tenant id)

run-Grows :
    (zones : TimeZones) (ttl_ms : ℤ) (history : List Operation) (s : Store)
    → Grows s (run zones ttl_ms history s) (book_of zones ttl_ms history s)
run-Grows zones ttl [] s = quiet-Grows s s refl refl
run-Grows zones ttl (o ∷ history) s =
    let now = step-Grows zones ttl o s in
    let later = run-Grows zones ttl history (step zones ttl o s) in
    record {
      scope_totals = λ scope period.
          grown (in_scope_period scope period) _ _ _ (acknowledged o s) _
            (now.scope_totals scope period) (later.scope_totals scope period);
      tenant_totals = λ tenant_id period.
          grown (in_tenant_period tenant_id period) _ _ _ (acknowledged o s) _
            (now.tenant_totals tenant_id period) (later.tenant_totals tenant_id period);
    }
  where
    grown :
        (p : Reservation → Bool) (x y z : ℤ) (b d : Book)
        → y ≡ x +ℤ book_total p b
        → z ≡ y +ℤ book_total p d
        → z ≡ x +ℤ book_total p (b ++ d)
    grown p x y z b d e f =
        f
        ∙ ap (λ t. t +ℤ book_total p d) e
        ∙ +ℤ_assoc x (book_total p b) (book_total p d)
        ∙ ap (λ t. x +ℤ t) (sym (book_total-append p b d))

-- The ledger refines the book: after any history of calls on an empty store, the total of a scope in
-- a period, and that of a tenant, is the sum of the costs of the settlements and replays that were
-- acknowledged by a receipt, or by the report of a cost that is too large, for the reservations of
-- that scope or tenant in that period; and the settled reservations in the store add up to the same.
pub run-Book :
    (zones : TimeZones) (ttl_ms : ℤ) (history : List Operation) (scope : BudgetScope)
    (tenant_id period : Text)
    → let s = run zones ttl_ms history empty_store in
      let book = book_of zones ttl_ms history empty_store in
      (spent_for s scope period ≡ book_total (in_scope_period scope period) book)
      × (tenant_spent_for s tenant_id period ≡ book_total (in_tenant_period tenant_id period) book)
      × (charged (in_scope_period scope period) s.reservations
          ≡ book_total (in_scope_period scope period) book)
      × (charged (in_tenant_period tenant_id period) s.reservations
          ≡ book_total (in_tenant_period tenant_id period) book)
unfolding spent_for tenant_spent_for
run-Book zones ttl history scope tenant_id period =
    let grown = run-Grows zones ttl history empty_store in
    let balanced = run-IsBalanced zones ttl history empty_store empty-IsBalanced in
    let book = book_of zones ttl history empty_store in
    let a =
      grown.scope_totals scope period ∙ zero_+ℤ (book_total (in_scope_period scope period) book) in
    let b =
      grown.tenant_totals tenant_id period
      ∙ zero_+ℤ (book_total (in_tenant_period tenant_id period) book) in
    (
      a,
      b,
      sym (balanced.scope_totals scope period) ∙ a,
      sym (balanced.tenant_totals tenant_id period) ∙ b,
    )
