-- ===== src/Policy/Pipeline/Inversion.antt =====
-- A decision taken apart: the budget stage, the pick, and what each leaves.
use i_doris.Prelude.{
  true, false, ◌&&◌, Option, none, some, List, ◌++◌, Memᴰ, Memᴰ-filter, ◌≡◌, refl, ap, ◌⊎◌, inl,
  inr, arith, filter,
}
use i_doris.Prelude.Equality.{Text}
use i_doris.Prelude.Results.{ok, >>=-eq-ok}
use i_doris.Policy.Budget.{BudgetSnapshot, is_over}
use i_doris.Policy.Card.{Card, id}
use i_doris.Policy.Pipeline.Types.{
  RequestProfile, allow_fallback, PolicyCtx, ReasonCode, Degradation, budget_fallback, Decision,
}
use i_doris.Policy.Pipeline.Pick.{pick, cost_or_zero}
use i_doris.Policy.Pipeline.Stages.{
  budget_snapshot, freezes_all, would_exceed, is_free, budget_gate, budget_natural,
  budget_stage_for, budget_stage,
}
use i_doris.Policy.Pipeline.Decide.{
  to_list, conclude, admission_eligible, decide_with_affinity_and_ready_selected,
}

-- The two ways through the budget gate.
abbrev pub Passes :
    RequestProfile → BudgetSnapshot → List Card → Card → List Card → Option Degradation → Type 0
Passes req s xs natural ys d =
    ((freezes_all s.scope && is_over s) ≡ false)
    × ((would_exceed s (cost_or_zero natural) ≡ false) × (ys ≡ xs) × (d ≡ none)
        ⊎ (would_exceed s (cost_or_zero natural) ≡ true)
          × (allow_fallback req ≡ true)
          × (ys ≡ filter is_free xs)
          × (d ≡ some (budget_fallback (cost_or_zero natural))))

budget_gate-Passes :
    (req : RequestProfile) (s : BudgetSnapshot) (xs : List Card) (natural : Card) (ys : List Card)
    (rs : List ReasonCode) (d : Option Degradation)
    → budget_gate req s xs natural ≡ ok (ys, rs, d)
    → Passes req s xs natural ys d
unfolding budget_gate
budget_gate-Passes req s xs natural ys rs d h = ground arith

-- With no snapshot the stage is idle; with one, the natural pick went through the gate.
abbrev pub Budgeted :
    RequestProfile
    → List Card
    → Option Text
    → List Text
    → Option BudgetSnapshot
    → List Card
    → Option Degradation
    → Type 0
Budgeted req xs key ready none ys d = (ys ≡ xs) × (d ≡ none)
Budgeted req xs key ready (some s) ys d =
    (natural : Card) × (pick xs key ready ≡ some natural) × Passes req s xs natural ys d

budget_natural-Passes :
    (req : RequestProfile) (s : BudgetSnapshot) (xs : List Card) (o : Option Card) (ys : List Card)
    (rs : List ReasonCode) (d : Option Degradation)
    → budget_natural req s xs o ≡ ok (ys, rs, d)
    → (natural : Card) × (o ≡ some natural) × Passes req s xs natural ys d
budget_natural-Passes req s xs none ys rs d h = cc
budget_natural-Passes req s xs (some natural) ys rs d h =
    (natural, refl, budget_gate-Passes req s xs natural ys rs d h)

budget_stage_for-Budgeted :
    (req : RequestProfile) (o : Option BudgetSnapshot) (xs : List Card) (key : Option Text)
    (ready : List Text) (ys : List Card) (rs : List ReasonCode) (d : Option Degradation)
    → budget_stage_for req o xs key ready ≡ ok (ys, rs, d)
    → Budgeted req xs key ready o ys d
budget_stage_for-Budgeted req none xs key ready ys rs d h = ground arith
budget_stage_for-Budgeted req (some s) xs key ready ys rs d h =
    budget_natural-Passes req s xs (pick xs key ready) ys rs d h

conclude-eq :
    (rs : List ReasonCode) (ds : List Degradation) (o : Option Card) (dec : Decision) (card : Card)
    → conclude rs ds o ≡ ok (dec, card)
    → (o ≡ some card) × (dec ≡ record { chosen_id = id card; reason_codes = rs; degradations = ds })
conclude-eq rs ds none dec card h = cc
conclude-eq rs ds (some c) dec card h = ground arith

-- A decision taken apart: the eligible cards, what the budget stage left of them, and the pick.
pub record Decided (req : RequestProfile) (cards : List Card) (ctx : PolicyCtx) (key : Option Text)
    (ready : List Text) (dec : Decision) (card : Card) : Type 0 where
  pub eligible : List Card
  pub after_budget : List Card
  pub reasons : List ReasonCode
  pub role_degradation : Option Degradation
  pub budget_degradation : Option Degradation
  pub before : admission_eligible req cards ctx ≡ ok (eligible, reasons, role_degradation)
  pub budgeted :
      Budgeted req eligible key ready (budget_snapshot req ctx) after_budget budget_degradation
  pub picked : pick after_budget key ready ≡ some card
  pub named : dec.chosen_id ≡ id card
  pub degraded : dec.degradations ≡ to_list role_degradation ++ to_list budget_degradation

pub decided :
    (req : RequestProfile) (cards : List Card) (ctx : PolicyCtx) (key : Option Text)
    (ready : List Text) (dec : Decision) (card : Card)
    → decide_with_affinity_and_ready_selected req cards ctx key ready ≡ ok (dec, card)
    → Decided req cards ctx key ready dec card
unfolding decide_with_affinity_and_ready_selected
decided req cards ctx key ready dec card h =
    let (e, he, h₁) = >>=-eq-ok (admission_eligible req cards ctx) _ h in
    let (b, hb, h₂) = >>=-eq-ok (budget_stage req ctx e.0 key ready) _ h₁ in
    let c = conclude-eq _ _ (pick b.0 key ready) dec card h₂ in
    record {
      eligible = e.0;
      after_budget = b.0;
      reasons = e.1;
      role_degradation = e.2;
      budget_degradation = b.2;
      before = he;
      budgeted =
          budget_stage_for-Budgeted req (budget_snapshot req ctx) e.0 key ready b.0 b.1 b.2
            (unfold budget_stage in hb);
      picked = c.0;
      named = ap (λ (x : Decision). x.chosen_id) c.1;
      degraded = ap (λ (x : Decision). x.degradations) c.1;
    }

pub Budgeted-mem :
    (req : RequestProfile) (xs ys : List Card) (key : Option Text) (ready : List Text)
    (o : Option BudgetSnapshot) (d : Option Degradation) (a : Card)
    → Budgeted req xs key ready o ys d
    → Memᴰ a ys
    → Memᴰ a xs
Budgeted-mem req xs ys key ready none d a (e, _) m = rw e at m
Budgeted-mem req xs ys key ready (some s) d a (n, p, (f, inl (_, e, _))) m = rw e at m
Budgeted-mem req xs ys key ready (some s) d a (n, p, (f, inr (_, _, e, _))) m =
    (Memᴰ-filter is_free xs (rw e at m)).0
