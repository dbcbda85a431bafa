-- ===== src/Policy/Pipeline/Failures.antt =====
-- When the pipeline rejects a request, and that it never panics.
use i_doris.Prelude.{
  true, false, Option, some, List, [], ◌∷◌, Memᴰ, ◌≡◌, ◌≢◌, ◌↔◌, refl, ◌⊎◌, inl, inr, arith, filter,
  filter_empty, is_empty,
}
use i_doris.Prelude.Equality.{Text}
use i_doris.Prelude.Results.{ok, err, >>=-eq-err}
use i_doris.Contracts.{is_local_only}
use i_doris.Policy.Budget.{BudgetSnapshot}
use i_doris.Policy.Card.{Card}
use i_doris.Policy.Privacy.{is_local_capable}
use i_doris.Policy.Pipeline.Types.{
  RequestProfile, Stage, effective_privacy, PolicyCtx, ReasonCode, Degradation,
  local_only_unavailable, no_eligible_candidate,
}
use i_doris.Policy.Pipeline.Pick.{pick}
use i_doris.Policy.Pipeline.Stages.{Failure, rejects, privacy_stage, budget_snapshot, budget_stage}
use i_doris.Policy.Pipeline.Decide.{
  conclude, admission_eligible, decide_with_affinity_and_ready_selected,
}
use i_doris.Policy.Pipeline.Starved.{IsStarved}
use i_doris.Policy.Pipeline.Rejections.{
  admission_eligible-err, admission_eligible_nonempty, OverBudget, budget_stage_for-result,
  pick-some,
}

abbrev pub NoLocalCard : RequestProfile → List Card → Type 0
NoLocalCard req cards =
    (is_local_only (effective_privacy req) ≡ true)
    × ((a : Card) → Memᴰ a cards → is_local_capable a ≡ false)

-- The tenant's budget stops the request at the card that would have been picked.
abbrev pub StoppedByBudget :
    RequestProfile → List Card → PolicyCtx → Option Text → List Text → Failure → Type 0
StoppedByBudget req cards ctx key ready e =
    (xs : List Card) × (rs : List ReasonCode) × (d : Option Degradation) × (s : BudgetSnapshot)
    × (natural : Card) × (admission_eligible req cards ctx ≡ ok (xs, rs, d))
    × (budget_snapshot req ctx ≡ some s)
    × (pick xs key ready ≡ some natural)
    × OverBudget req s xs natural e

conclude_total :
    (rs : List ReasonCode) (ds : List Degradation) (ys : List Card) (key : Option Text)
    (ready : List Text) (e : Failure)
    → is_empty ys ≡ false
    → conclude rs ds (pick ys key ready) ≢ err e
conclude_total rs ds ys key ready e n h = let (card, p) = pick-some ys key ready n in cc (rw p at h)

-- A failed decision has one of three causes: an effective privacy of local only with no
-- local-capable card among the listed; a stage before the budget, named in the error, that none of
-- the candidates which reached it passes; or the tenant's budget, frozen, or exceeded by the natural
-- pick where no fallback to a free candidate is declared and possible. At the stage for roles, where
-- the request names a role of the catalogue, none is eligible for it with the needed capabilities,
-- and no fallback is declared or none is eligible at all with them; where it names none, none is
-- eligible with them. At the stage for prices all have an unknown or a negative one; at the stage for
-- admission all are blocked. So the pipeline never panics.
pub failure_causes :
    (req : RequestProfile) (cards : List Card) (ctx : PolicyCtx) (key : Option Text)
    (ready : List Text) (e : Failure)
    → decide_with_affinity_and_ready_selected req cards ctx key ready ≡ err e
    → (e ≡ rejects local_only_unavailable) × NoLocalCard req cards
      ⊎ ((s : Stage) × (e ≡ rejects (no_eligible_candidate s)) × IsStarved req cards ctx s)
      ⊎ StoppedByBudget req cards ctx key ready e
unfolding decide_with_affinity_and_ready_selected budget_stage
failure_causes req cards ctx key ready e h =
    elim (>>=-eq-err (admission_eligible req cards ctx) _ h) [
      | inl f ↦ elim (admission_eligible-err req cards ctx e f) [
        | inl (q, t, none_local) ↦
            inl (q, (t, λ a m. filter_empty is_local_capable cards none_local m))
        | inr s ↦ inr (inl s)
      ]
      | inr ((xs, rs, d), he, h₁) ↦
          let n = admission_eligible_nonempty req cards ctx xs rs d he in
          let w = budget_stage_for-result req (budget_snapshot req ctx) xs key ready n in
          elim (>>=-eq-err (budget_stage req ctx xs key ready) _ h₁) [
            | inl f ↦
                let (s, natural, q, p, over) = rw f at w in
                inr (inr (xs, rs, d, s, natural, he, q, p, over))
            | inr ((ys, _, _), hb, h₂) ↦ absurd (conclude_total _ _ ys key ready e (rw hb at w) h₂)
          ]
    ]

filter_none :
    (cards : List Card)
    → ((a : Card) → Memᴰ a cards → is_local_capable a ≡ false)
    → is_empty (filter is_local_capable cards) ≡ true
filter_none [] h = refl
filter_none (a ∷ cards) h = rw (h a (Memᴰ.head refl)) (filter_none cards (λ b m. h b (Memᴰ.tail m)))

privacy_stage_none :
    (req : RequestProfile) (cards : List Card)
    → is_local_only (effective_privacy req) ≡ true
    → is_empty (filter is_local_capable cards) ≡ true
    → privacy_stage req cards ≡ err (rejects local_only_unavailable)
unfolding privacy_stage
privacy_stage_none req cards p q = ground arith

only_local :
    (req : RequestProfile) (cards : List Card) (ctx : PolicyCtx) (key : Option Text)
    (ready : List Text) (e : Failure)
    → e ≡ rejects local_only_unavailable
    → (e ≡ rejects local_only_unavailable) × NoLocalCard req cards
      ⊎ ((s : Stage) × (e ≡ rejects (no_eligible_candidate s)) × IsStarved req cards ctx s)
      ⊎ StoppedByBudget req cards ctx key ready e
    → NoLocalCard req cards
only_local req cards ctx key ready e q (inl (_, n)) = n
only_local req cards ctx key ready e q (inr (inl (s, f, _))) = cc
only_local req cards ctx key ready e q (inr (inr (_, _, _, _, _, _, _, _, inl (_, _, f)))) = cc
only_local req cards ctx key ready e q (inr (inr (_, _, _, _, _, _, _, _, inr (_, _, f)))) = cc

-- A request is told that no local model is available exactly when its effective privacy, after the
-- content check, is local only and no listed card is local-capable: never because of a role, a
-- price, an admission or a budget, and in that case always, whatever else holds.
pub local_only_unavailable_iff :
    (req : RequestProfile) (cards : List Card) (ctx : PolicyCtx) (key : Option Text)
    (ready : List Text)
    → (decide_with_affinity_and_ready_selected req cards ctx key ready
        ≡ err (rejects local_only_unavailable))
      ↔ NoLocalCard req cards
unfolding decide_with_affinity_and_ready_selected admission_eligible
local_only_unavailable_iff req cards ctx key ready = (
  λ h. only_local req cards ctx key ready _ refl (failure_causes req cards ctx key ready _ h),
  λ n. rw (privacy_stage_none req cards n.0 (filter_none cards n.1)) refl,
)
