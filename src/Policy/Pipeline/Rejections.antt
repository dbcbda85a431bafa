-- ===== src/Policy/Pipeline/Rejections.antt =====
-- How each stage of the pipeline fails.
use i_doris.Prelude.{
  true, false, not, ◌&&◌, Option, none, some, List, ◌≡◌, refl, ◌⊎◌, inl, inr, arith, filter,
  is_empty, Bool-cases,
}
use i_doris.Prelude.Equality.{Text}
use i_doris.Prelude.Int.{ℤ}
use i_doris.Prelude.Orders.{min_by_total}
use i_doris.Prelude.Results.{ok, err, >>=-eq-ok, >>=-eq-err}
use i_doris.Contracts.{is_local_only}
use i_doris.Policy.Budget.{BudgetSnapshot, is_over}
use i_doris.Policy.Card.{Card}
use i_doris.Policy.Privacy.{is_local_capable}
use i_doris.Policy.Pipeline.Types.{
  RequestProfile, Stage, effective_privacy, allow_fallback, PolicyCtx, ReasonCode, Degradation,
  local_only_unavailable, no_eligible_candidate,
}
use i_doris.Policy.Pipeline.Pick.{pick, compare_cards, cost_or_zero}
use i_doris.Policy.Pipeline.Stages.{
  Failure, rejects, privacy_stage, catalog_role, role_stage, pricing_stage, admission_stage,
  exceeded, freezes_all, would_exceed, is_free, is_paid, cheapest_paid_cost, budget_gate,
  budget_stage_for, Outcome,
}
use i_doris.Policy.Pipeline.Starved.{
  IsStarved, role_stage_for-err, pricing_stage-err, admission_stage-err,
}
use i_doris.Policy.Pipeline.Decide.{admission_eligible}

privacy_stage-err :
    (req : RequestProfile) (cards : List Card) (e : Failure)
    → privacy_stage req cards ≡ err e
    → (e ≡ rejects local_only_unavailable)
      × (is_local_only (effective_privacy req) ≡ true)
      × (is_empty (filter is_local_capable cards) ≡ true)
unfolding privacy_stage
privacy_stage-err req cards e h = ground arith

-- The stages before the budget fail for the privacy, as stated, or because no candidate that reached
-- a stage passes it.
pub admission_eligible-err :
    (req : RequestProfile) (cards : List Card) (ctx : PolicyCtx) (e : Failure)
    → admission_eligible req cards ctx ≡ err e
    → ((e ≡ rejects local_only_unavailable)
        × (is_local_only (effective_privacy req) ≡ true)
        × (is_empty (filter is_local_capable cards) ≡ true))
      ⊎ ((s : Stage) × (e ≡ rejects (no_eligible_candidate s)) × IsStarved req cards ctx s)
unfolding admission_eligible
admission_eligible-err req cards ctx e h = elim (>>=-eq-err (privacy_stage req cards) _ h) [
  | inl f ↦ inl (privacy_stage-err req cards e f)
  | inr (p, hp, h₁) ↦ elim (>>=-eq-err (role_stage req ctx p.0) _ h₁) [
    | inl f ↦
        let (label, nobody) =
          role_stage_for-err req ctx p.0 (catalog_role req) e (unfold role_stage in f) in
        inr (Stage.role_capability, label, IsStarved.at_role p.0 p.1 hp nobody)
    | inr (r, hr, h₂) ↦ elim (>>=-eq-err (pricing_stage r.0) _ h₂) [
      | inl f ↦
          let (label, nobody) = pricing_stage-err r.0 e f in
          inr (Stage.pricing, label, IsStarved.at_pricing p.0 r.0 p.1 r.1 r.2 hp hr nobody)
      | inr (q, hq, h₃) ↦ elim (>>=-eq-err (admission_stage q.0) _ h₃) [
        | inl f ↦
            let (label, nobody) = admission_stage-err q.0 e f in
            inr (
              Stage.admission,
              label,
              IsStarved.at_admission p.0 r.0 q.0 p.1 r.1 q.1 r.2 hp hr hq nobody,
            )
        | inr (x, hx, h₄) ↦ cc
      ]
    ]
  ]
]

admission_stage_nonempty :
    (cards xs : List Card) → admission_stage cards ≡ ok xs → is_empty xs ≡ false
unfolding admission_stage
admission_stage_nonempty cards xs h = ground arith

pub admission_eligible_nonempty :
    (req : RequestProfile) (cards : List Card) (ctx : PolicyCtx) (xs : List Card)
    (rs : List ReasonCode) (d : Option Degradation)
    → admission_eligible req cards ctx ≡ ok (xs, rs, d)
    → is_empty xs ≡ false
unfolding admission_eligible
admission_eligible_nonempty req cards ctx xs rs d h =
    let (p, _, h₁) = >>=-eq-ok (privacy_stage req cards) _ h in
    let (r, _, h₂) = >>=-eq-ok (role_stage req ctx p.0) _ h₁ in
    let (q, _, h₃) = >>=-eq-ok (pricing_stage r.0) _ h₂ in
    let (e, he, h₄) = >>=-eq-ok (admission_stage q.0) _ h₃ in
    let same : e ≡ xs = ground arith in rw (← same) (admission_stage_nonempty q.0 e he)

-- Why the budget gate refuses.
abbrev pub OverBudget : RequestProfile → BudgetSnapshot → List Card → Card → Failure → Type 0
OverBudget req s xs natural e =
    ((c : ℤ) × ((freezes_all s.scope && is_over s) ≡ true) × (e ≡ exceeded s c))
    ⊎ ((would_exceed s (cost_or_zero natural) ≡ true)
        × ((allow_fallback req && not (is_empty (filter is_free xs))) ≡ false)
        × (e ≡ exceeded s (cost_or_zero natural)))

budget_gate-err :
    (req : RequestProfile) (s : BudgetSnapshot) (xs : List Card) (natural : Card) (e : Failure)
    → budget_gate req s xs natural ≡ err e
    → OverBudget req s xs natural e
unfolding budget_gate
budget_gate-err req s xs natural e h = elim (Bool-cases (freezes_all s.scope && is_over s)) [
  | inl frozen ↦ inl (cheapest_paid_cost (filter is_paid xs), frozen, ground arith)
  | inr open_gate ↦ inr (ground arith)
]

budget_gate_nonempty :
    (req : RequestProfile) (s : BudgetSnapshot) (xs : List Card) (natural : Card) (ys : List Card)
    (rs : List ReasonCode) (d : Option Degradation)
    → is_empty xs ≡ false
    → budget_gate req s xs natural ≡ ok (ys, rs, d)
    → is_empty ys ≡ false
unfolding budget_gate
budget_gate_nonempty req s xs natural ys rs d n h = ground arith

pub pick-some :
    (xs : List Card) (key : Option Text) (ready : List Text)
    → is_empty xs ≡ false
    → (card : Card) × (pick xs key ready ≡ some card)
unfolding pick
pick-some xs key ready n = min_by_total (compare_cards key ready) xs n

-- On candidates that are not empty the budget stage fails only over a budget, and leaves some.
abbrev pub BudgetStageResult :
    RequestProfile → Option BudgetSnapshot → List Card → Option Text → List Text → Outcome → Type 0
BudgetStageResult req o xs key ready (ok (ys, rs, d)) = is_empty ys ≡ false
BudgetStageResult req o xs key ready (err e) =
    (s : BudgetSnapshot) × (natural : Card) × (o ≡ some s)
    × (pick xs key ready ≡ some natural)
    × OverBudget req s xs natural e

budget_natural-result :
    (req : RequestProfile) (s : BudgetSnapshot) (xs : List Card) (key : Option Text)
    (ready : List Text) (natural : Card)
    → is_empty xs ≡ false
    → pick xs key ready ≡ some natural
    → (r : Outcome) → budget_gate req s xs natural ≡ r
    → BudgetStageResult req (some s) xs key ready r
budget_natural-result req s xs key ready natural n p (ok (ys, rs, d)) h =
    budget_gate_nonempty req s xs natural ys rs d n h
budget_natural-result req s xs key ready natural n p (err e) h =
    (s, natural, refl, p, budget_gate-err req s xs natural e h)

pub budget_stage_for-result :
    (req : RequestProfile) (o : Option BudgetSnapshot) (xs : List Card) (key : Option Text)
    (ready : List Text)
    → is_empty xs ≡ false
    → BudgetStageResult req o xs key ready (budget_stage_for req o xs key ready)
budget_stage_for-result req none xs key ready n = n
budget_stage_for-result req (some s) xs key ready n =
    let (natural, p) = pick-some xs key ready n in
    rw p (budget_natural-result req s xs key ready natural n p _ refl)
