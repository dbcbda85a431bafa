-- ===== src/Backend/Capacity/History.antt =====
-- Histories of calls on a ledger.
use i_doris.Prelude.{
  ℕ, ◌+◌, ◌≤◌, ◌≡◌, refl, ◌∙◌, Bool, true, false, Option, none, some, List, [], ◌∷◌, arith, inl,
  inr, ◌⊎◌, max,
}
use i_doris.Prelude.Equality.{Text}
use i_doris.Prelude.Float.{F64}
use i_doris.Prelude.Results.{Result, ok, err, >>=-eq-ok}
use i_doris.Backend.Error.{BackendError}
use i_doris.Backend.Capacity.{
  CapacityAllocation, Allocations, insert, Ledger, get, reserve_with_headroom, release,
  ExpectedAllocation, estimate, charge, units_of, set, valid_estimate, allocation_for,
  compare_and_set, resize, allocation_of_charge, update_charge, claim_charge,
}
use i_doris.Backend.Capacity.Totals.{sum-remove, remove-insert}
use i_doris.Backend.Capacity.Growth.{charged, reserve_with_headroom-Granted}
use i_doris.Backend.Capacity.Exchanges.{Exchanged, replace_allocation-Exchanged}

abbrev IsWithin : Ledger → Type 0
IsWithin l = charged l ≤ l.budget_units + l.admission_epsilon_units

abbrev SameBudget : Ledger → Ledger → Type 0
SameBudget l l' =
    (l'.budget_units ≡ l.budget_units) × (l'.admission_epsilon_units ≡ l.admission_epsilon_units)

abbrev Keeps : Ledger → Ledger → Type 0
Keeps l l' = IsWithin l' × SameBudget l l'

Exchanged-Keeps :
    (l l' : Ledger) (key : Text) (expected : ExpectedAllocation) (next : Option CapacityAllocation)
    → IsWithin l
    → Exchanged l l' key expected next true
    → Keeps l l'
Exchanged-Keeps l l' key expected next w x =
    let same = same_budget x.result in (by_case x.admitted same, same)
  where
    same_budget : l' ≡ record l { allocations = set key next l.allocations } → SameBudget l l'
    same_budget e = rw e (refl, refl)

    by_case :
        (true ≡ false)
          ⊎ (units_of next ≤ units_of (get key l.allocations))
          ⊎ (charged l' ≤ l.budget_units + l.admission_epsilon_units)
        → SameBudget l l'
        → IsWithin l'
    by_case (inl h) (p, q) = cc
    by_case (inr (inl h)) (p, q) = omega (arith, p, q, w, h, x.balance)
    by_case (inr (inr h)) (p, q) = omega (arith, p, q, h)

-- The calls that must be admitted. An observation that is recorded without admission is none.
pub data Event : Type 0 where
  reserves : Text → F64 → Bool → Event
  releases : Text → Event
  resizes : Text → Option F64 → Option F64 → Event
  updates : Text → Option ℕ → ℕ → Event
  claims : Text → ℕ → ℕ → Bool → Event

-- A call that fails leaves the ledger as it was.
abbrev pub after : Ledger → Result BackendError Ledger → Ledger
after l (ok l') = l'
after l (err e) = l

unfoldable pub step : Ledger → Event → Ledger
step l (reserves key gb allow) = after l (reserve_with_headroom l key gb allow)
step l (releases key) = (release l key).1
step l (resizes key expected next) = after l (resize l key expected next)
step l (updates key expected next) = after l (update_charge l key expected next true)
step l (claims key current planned allow) = after l (claim_charge l key current planned allow)

unfoldable pub run : Ledger → List Event → Ledger
run l [] = l
run l (e ∷ es) = run (step l e) es

after-Keeps :
    (l : Ledger) (r : Result BackendError Ledger)
    → IsWithin l
    → ((l' : Ledger) → r ≡ ok l' → Keeps l l')
    → Keeps l (after l r)
after-Keeps l (ok l') w h = h l' refl
after-Keeps l (err e) w h = (w, (refl, refl))

granted-Keeps :
    (l l' : Ledger) {allocations : Allocations}
    → l' ≡ record l { allocations = allocations }
    → charged l' ≤ l.budget_units + l.admission_epsilon_units
    → Keeps l l'
granted-Keeps l l' e h = (rw e (rw e at h), rw e (refl, refl))

reserve-Keeps :
    (l l' : Ledger) (key : Text) (gb : F64) (allow : Bool)
    → IsWithin l
    → reserve_with_headroom l key gb allow ≡ ok l'
    → Keeps l l'
reserve-Keeps l l' key gb allow w h = elim (reserve_with_headroom-Granted l l' key gb allow h) [
  | inl (existing, _, _, same) ↦ rw same (w, (refl, refl))
  | inr (units, _, g) ↦ granted-Keeps l l' g.result g.fits
]

resize-Keeps :
    (l l' : Ledger) (key : Text) (expected next : Option F64)
    → IsWithin l
    → resize l key expected next ≡ ok l'
    → Keeps l l'
unfolding resize compare_and_set
resize-Keeps l l' key expected next w h =
    let (u, a, h₁) = >>=-eq-ok (valid_estimate expected) _ h in
    let (n, b, h₂) = >>=-eq-ok (allocation_for next) _ h₁ in
    Exchanged-Keeps l l' key (estimate expected) n w
      (replace_allocation-Exchanged l l' key (estimate expected) n true none true h₂)

update-Keeps :
    (l l' : Ledger) (key : Text) (expected : Option ℕ) (next : ℕ)
    → IsWithin l
    → update_charge l key expected next true ≡ ok l'
    → Keeps l l'
unfolding update_charge
update-Keeps l l' key expected next w h =
    Exchanged-Keeps l l' key (charge expected) (some (allocation_of_charge next)) w (
      replace_allocation-Exchanged l l' key (charge expected) (some (allocation_of_charge next))
        true none true h)

claim-Keeps :
    (l l' : Ledger) (key : Text) (current planned : ℕ) (allow : Bool)
    → IsWithin l
    → claim_charge l key current planned allow ≡ ok l'
    → Keeps l l'
unfolding claim_charge
claim-Keeps l l' key current planned allow w h =
    let next = some (allocation_of_charge (max current planned)) in
    Exchanged-Keeps l l' key (charge (some current)) next w (
      replace_allocation-Exchanged l l' key (charge (some current)) next true (some planned) allow
        h)

release-Keeps : (l : Ledger) (key : Text) → IsWithin l → Keeps l (release l key).1
unfolding release
release-Keeps l key w = (omega (arith, sum-remove key l.allocations), (refl, refl))

step-Keeps : (l : Ledger) (e : Event) → IsWithin l → Keeps l (step l e)
unfolding step
step-Keeps l (reserves key gb allow) w =
    after-Keeps l _ w (λ l' h. reserve-Keeps l l' key gb allow w h)
step-Keeps l (releases key) w = release-Keeps l key w
step-Keeps l (resizes key expected next) w =
    after-Keeps l _ w (λ l' h. resize-Keeps l l' key expected next w h)
step-Keeps l (updates key expected next) w =
    after-Keeps l _ w (λ l' h. update-Keeps l l' key expected next w h)
step-Keeps l (claims key current planned allow) w =
    after-Keeps l _ w (λ l' h. claim-Keeps l l' key current planned allow w h)

run-Keeps : (l : Ledger) (es : List Event) → IsWithin l → Keeps l (run l es)
unfolding run
run-Keeps l [] w = (w, (refl, refl))
run-Keeps l (e ∷ es) w =
    let (v, (p, q)) = step-Keeps l e w in
    let (u, (r, s)) = run-Keeps (step l e) es v in (u, (r ∙ p, s ∙ q))

-- In every history of reservations, releases and admitted exchanges, failed calls among them, a
-- ledger whose total is within its budget and tolerance, as that of a new ledger is, keeps its
-- total within them.
pub run-IsWithin :
    (l : Ledger) (es : List Event)
    → IsWithin l
    → charged (run l es) ≤ l.budget_units + l.admission_epsilon_units
run-IsWithin l es w = let (v, (p, q)) = run-Keeps l es w in omega (arith, v, p, q)

released_trace :
    (l l' : Ledger) (key : Text) (a : CapacityAllocation)
    → get key l.allocations ≡ none
    → l' ≡ record l { allocations = insert key a l.allocations }
    → get key l'.allocations ≡ some a
    → release l' key ≡ (true, l)
unfolding release
released_trace l l' key a absent e held =
    rw e (rw (remove-insert key a l.allocations absent) (rw (rw e at held) refl))

-- A reservation of a new key, once released, leaves no trace.
pub release-reserve :
    (l l' : Ledger) (key : Text) (gb : F64) (allow : Bool)
    → get key l.allocations ≡ none
    → reserve_with_headroom l key gb allow ≡ ok l'
    → release l' key ≡ (true, l)
unfolding release
release-reserve l l' key gb allow absent h =
    elim (reserve_with_headroom-Granted l l' key gb allow h) [
      | inl (existing, e, _, _) ↦ cc (rw absent at e)
      | inr (units, _, g) ↦
          released_trace l l' key (record { requested_gb = gb; charged_units = units }) absent
            g.result g.held
    ]
