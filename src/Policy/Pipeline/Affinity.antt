-- ===== src/Policy/Pipeline/Affinity.antt =====
-- The session and the set of ready cards break ties only.
use i_doris.Prelude.{
  Option, none, some, List, [], ◌∷◌, ◌++◌, ◌≡◌, ◌≢◌, refl, inl, inr, arith, Ordering, Option-cases,
}
use i_doris.Prelude.Equality.{Text}
use i_doris.Prelude.Int.{eq_of_parts}
use i_doris.Prelude.Orders.{min_by, min_by-mem, min_by-least, not_gt_antisym}
use i_doris.Prelude.Results.{Result, ok, err, ◌>>=◌}
use i_doris.Policy.Budget.{BudgetSnapshot}
use i_doris.Policy.Card.{Card}
use i_doris.Policy.Pipeline.Types.{RequestProfile, PolicyCtx, ReasonCode, Degradation, Decision}
use i_doris.Policy.Pipeline.Pick.{
  pick, compare_policy, compare_cards, cost_or_zero, compare_cards-IsPreorder,
  compare_policy-IsPreorder,
}
use i_doris.Policy.Pipeline.Stages.{
  Failure, budget_snapshot, budget_gate, budget_natural, budget_stage_for, budget_stage,
  admission_reasons,
}
use i_doris.Policy.Pipeline.Decide.{
  to_list, conclude, admission_eligible, decide_with_affinity_and_ready_selected,
}

policy_not_gt :
    (key : Option Text) (ready : List Text) (a b : Card)
    → compare_cards key ready a b ≢ Ordering.gt
    → compare_policy a b ≢ Ordering.gt
policy_not_gt key ready a b h = λ g. h (rw g refl)

-- Two picks from one list are equal in admission and in cost.
picks_alike :
    (k₁ k₂ : Option Text) (r₁ r₂ : List Text) (xs : List Card) (a b : Card)
    → pick xs k₁ r₁ ≡ some a
    → pick xs k₂ r₂ ≡ some b
    → compare_policy a b ≡ Ordering.eq
unfolding pick
picks_alike k₁ k₂ r₁ r₂ xs a b p q =
    let le = policy_not_gt k₁ r₁ a b (
      min_by-least (compare_cards-IsPreorder k₁ r₁) xs p (min_by-mem (compare_cards k₂ r₂) xs q)) in
    let ge = policy_not_gt k₂ r₂ b a (
      min_by-least (compare_cards-IsPreorder k₂ r₂) xs q (min_by-mem (compare_cards k₁ r₁) xs p)) in
    not_gt_antisym compare_policy-IsPreorder a b le ge

same_cost : (a b : Card) → compare_policy a b ≡ Ordering.eq → cost_or_zero a ≡ cost_or_zero b
same_cost a b h = eq_of_parts (cost_or_zero a) (cost_or_zero b) (ground arith)

budget_gate-cost :
    (req : RequestProfile) (s : BudgetSnapshot) (xs : List Card) (a b : Card)
    → cost_or_zero a ≡ cost_or_zero b
    → budget_gate req s xs a ≡ budget_gate req s xs b
unfolding budget_gate
budget_gate-cost req s xs a b e = rw e refl

-- A pick fails on the empty list only.
pick_none :
    (xs : List Card) (k₁ k₂ : Option Text) (r₁ r₂ : List Text)
    → pick xs k₁ r₁ ≡ none
    → pick xs k₂ r₂ ≡ none
unfolding pick min_by
pick_none [] k₁ k₂ r₁ r₂ h = refl
pick_none (x ∷ xs) k₁ k₂ r₁ r₂ h = cc

budget_natural-same :
    (req : RequestProfile) (s : BudgetSnapshot) (xs : List Card) (k₁ k₂ : Option Text)
    (r₁ r₂ : List Text)
    → budget_natural req s xs (pick xs k₁ r₁) ≡ budget_natural req s xs (pick xs k₂ r₂)
budget_natural-same req s xs k₁ k₂ r₁ r₂ = elim (Option-cases (pick xs k₁ r₁)) [
  | inl e ↦ rw e (rw (pick_none xs k₁ k₂ r₁ r₂ e) refl)
  | inr (a, e) ↦ elim (Option-cases (pick xs k₂ r₂)) [
    | inl f ↦ rw f (rw (pick_none xs k₂ k₁ r₂ r₁ f) refl)
    | inr (b, f) ↦
        rw e (
          rw f (budget_gate-cost req s xs a b (same_cost a b (picks_alike k₁ k₂ r₁ r₂ xs a b e f))))
  ]
]

budget_stage_for-same :
    (req : RequestProfile) (o : Option BudgetSnapshot) (xs : List Card) (k₁ k₂ : Option Text)
    (r₁ r₂ : List Text)
    → budget_stage_for req o xs k₁ r₁ ≡ budget_stage_for req o xs k₂ r₂
budget_stage_for-same req none xs k₁ k₂ r₁ r₂ = refl
budget_stage_for-same req (some s) xs k₁ k₂ r₁ r₂ = budget_natural-same req s xs k₁ k₂ r₁ r₂

-- Two outcomes that differ at most in which of several equally ranked cards was chosen.
abbrev pub Alike : Result Failure (Decision × Card) → Result Failure (Decision × Card) → Type 0
Alike (ok (d, a)) (ok (e, b)) =
    (d.reason_codes ≡ e.reason_codes)
    × (d.degradations ≡ e.degradations)
    × (compare_policy a b ≡ Ordering.eq)
Alike (err e) (err f) = e ≡ f
Alike _ _ = ⊥

conclude-Alike :
    (rs : List ReasonCode) (ds : List Degradation) (ys : List Card) (k₁ k₂ : Option Text)
    (r₁ r₂ : List Text)
    → Alike (conclude rs ds (pick ys k₁ r₁)) (conclude rs ds (pick ys k₂ r₂))
conclude-Alike rs ds ys k₁ k₂ r₁ r₂ = elim (Option-cases (pick ys k₁ r₁)) [
  | inl e ↦ rw e (rw (pick_none ys k₁ k₂ r₁ r₂ e) refl)
  | inr (a, e) ↦ elim (Option-cases (pick ys k₂ r₂)) [
    | inl f ↦ rw f (rw (pick_none ys k₂ k₁ r₂ r₁ f) refl)
    | inr (b, f) ↦ rw e (rw f (refl, refl, picks_alike k₁ k₂ r₁ r₂ ys a b e f))
  ]
]

>>=-Alike :
    {E : Type 0} (m : Result Failure E) (f g : E → Result Failure (Decision × Card))
    → ((e : E) → Alike (f e) (g e))
    → Alike (m >>= f) (m >>= g)
>>=-Alike (ok e) f g h = h e
>>=-Alike (err e) f g h = refl

-- The session and the ready set decide nothing but ties: with any two sessions, or none, and any
-- two sets of ready ids a request is rejected with the same error, or decided with the same reason
-- codes and the same degradations and with cards of equal admission and equal cost.
pub affinity_breaks_ties_only :
    (req : RequestProfile) (cards : List Card) (ctx : PolicyCtx) (k₁ k₂ : Option Text)
    (r₁ r₂ : List Text)
    → Alike
        (decide_with_affinity_and_ready_selected req cards ctx k₁ r₁)
        (decide_with_affinity_and_ready_selected req cards ctx k₂ r₂)
unfolding decide_with_affinity_and_ready_selected budget_stage
affinity_breaks_ties_only req cards ctx k₁ k₂ r₁ r₂ =
    >>=-Alike (admission_eligible req cards ctx) _ _ λ e.
      rw (budget_stage_for-same req (budget_snapshot req ctx) e.0 k₁ k₂ r₁ r₂) (
        >>=-Alike (budget_stage_for req (budget_snapshot req ctx) e.0 k₂ r₂) _ _ λ b.
          conclude-Alike (e.1 ++ (b.1 ++ admission_reasons b.0)) (to_list e.2 ++ to_list b.2) b.0 k₁
            k₂ r₁ r₂)
