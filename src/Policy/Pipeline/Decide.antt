-- ===== src/Policy/Pipeline/Decide.antt =====
-- crates/idoris-policy/src/pipeline/mod.rs: `decide` and its variants.
use i_doris.Prelude.{◌≡◌, ◌∙◌, ap, Option, none, some, List, [], ◌∷◌, ◌++◌}
use i_doris.Prelude.Equality.{Text}
use i_doris.Prelude.Results.{Result, ok, err, ◌>>=◌, >>=-eq-ok}
use i_doris.Policy.Card.{Card, id}
use i_doris.Policy.Pipeline.Types.{RequestProfile, PolicyCtx, ReasonCode, Degradation, Decision}
use i_doris.Policy.Pipeline.Pick.{pick}
use i_doris.Policy.Pipeline.Stages.{
  Failure, panics, privacy_stage, role_stage, pricing_stage, admission_stage, budget_stage,
  admission_reasons,
}

abbrev pub to_list : Option Degradation → List Degradation
to_list none = []
to_list (some d) = d ∷ []

-- The last stage: the decision on the card that was picked.
abbrev pub conclude :
    List ReasonCode → List Degradation → Option Card → Result Failure (Decision × Card)
conclude reasons degradations none = err panics
conclude reasons degradations (some chosen) =
    ok (
      record { chosen_id = id chosen; reason_codes = reasons; degradations = degradations },
      chosen,
    )

-- The candidates that the stages before the budget leave, with their reason codes and the
-- degradation of the role stage.
unfoldable pub admission_eligible :
    RequestProfile
    → List Card
    → PolicyCtx
    → Result Failure (List Card × List ReasonCode × Option Degradation)
admission_eligible req cards ctx = do
  (privacy_ok, privacy_reasons) ← privacy_stage req cards
  (matched, role_reasons, role_degradation) ← role_stage req ctx privacy_ok
  (priced_known, price_reasons) ← pricing_stage matched
  eligible ← admission_stage priced_known
  ok (eligible, privacy_reasons ++ (role_reasons ++ price_reasons), role_degradation)

unfoldable pub decide_with_affinity_and_ready_selected :
    RequestProfile
    → List Card
    → PolicyCtx
    → Option Text
    → List Text
    → Result Failure (Decision × Card)
decide_with_affinity_and_ready_selected req cards ctx affinity_key ready_ids = do
  (eligible, reasons, role_degradation) ← admission_eligible req cards ctx
  (after_budget, budget_reasons, budget_degradation) ←
      budget_stage req ctx eligible affinity_key ready_ids
  conclude (reasons ++ (budget_reasons ++ admission_reasons after_budget))
      (to_list role_degradation ++ to_list budget_degradation)
      (pick after_budget affinity_key ready_ids)

decide_with_affinity_and_ready :
    RequestProfile → List Card → PolicyCtx → Option Text → List Text → Result Failure Decision
decide_with_affinity_and_ready req cards ctx affinity_key ready_ids = do
  (decision, card) ← decide_with_affinity_and_ready_selected req cards ctx affinity_key ready_ids
  ok decision

decide_with_affinity :
    RequestProfile → List Card → PolicyCtx → Option Text → Result Failure Decision
decide_with_affinity req cards ctx affinity_key =
    decide_with_affinity_and_ready req cards ctx affinity_key []

pub decide : RequestProfile → List Card → PolicyCtx → Result Failure Decision
decide req cards ctx = decide_with_affinity req cards ctx none

same_decision : {d e : Decision} → ◌≡◌ {A = Result Failure Decision} (ok d) (ok e) → d ≡ e
same_decision h = cc

-- A decision without a session is one of the whole pipeline with neither session nor ready set.
decide-selected :
    (req : RequestProfile) (cards : List Card) (ctx : PolicyCtx) {decision : Decision}
    → decide req cards ctx ≡ ok decision
    → (card : Card) × (decide_with_affinity_and_ready_selected req cards ctx none []
        ≡ ok (decision, card))
unfolding decide decide_with_affinity decide_with_affinity_and_ready
decide-selected req cards ctx h =
    let ((d, card), e, f) =
      >>=-eq-ok (decide_with_affinity_and_ready_selected req cards ctx none []) _ h in
    (card, e ∙ ap (λ x. ok (x, card)) (same_decision f))
