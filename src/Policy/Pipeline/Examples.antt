-- ===== src/Policy/Pipeline/Examples.antt =====
-- A request for the role `daily` that a local card serves, and one that no card may serve.
use i_doris.Prelude.{true, false, Option, none, some, [], ◌∷◌, ◌++◌, Memᴰ, ◌≡◌, ◌↔◌, ◌⊎◌, refl, any}
use i_doris.Prelude.Equality.{codes}
use i_doris.Prelude.Int.{pos}
use i_doris.Prelude.Results.{ok, err}
use i_doris.Prelude.Orders.{min_by}
use i_doris.Contracts.{local_only, paid_only}
use i_doris.Policy.Role.{Role, daily, role_eq}
use i_doris.Policy.Card.{Card, id, is_eligible_for_role}
use i_doris.Policy.Privacy.{
  is_local_capable, effective_served_locality, is_subscription_provider_id,
}
use i_doris.Policy.Privacy
use i_doris.Policy.Budget.{BudgetSnapshot, is_over, balance_minor}
use i_doris.Policy.Fixtures.{local_card}
use i_doris.Policy.Pipeline.Types.{
  RequestProfile, PolicyCtx, Stage, role_matched, privacy_loopback_only, budget_within_limit,
  admission_ready, Decision, Degradation, local_only_unavailable, no_eligible_candidate,
}
use i_doris.Policy.Pipeline.Pick.{pick}
use i_doris.Policy.Pipeline.Stages.{
  Failure, rejects, privacy_stage, role_stage, pricing_stage, admission_stage, budget_stage,
  budget_gate, catalog_role, budget_snapshot, is_free, admission_reasons,
}
use i_doris.Policy.Pipeline.Decide.{
  to_list, admission_eligible, decide_with_affinity_and_ready_selected,
}
use i_doris.Policy.Pipeline.Gates.{IsEligible}
use i_doris.Policy.Pipeline.Spending.{
  Affordable, FellBack, chosen-IsEligible, chosen-Affordable, chosen-least, no_silent_fallback,
}
use i_doris.Policy.Pipeline.Affinity.{Alike, affinity_breaks_ties_only}
use i_doris.Policy.Pipeline.Starved.{IsStarved}
use i_doris.Policy.Pipeline.Precedence.{Precedes}
use i_doris.Policy.Pipeline.Failures.{
  NoLocalCard, StoppedByBudget, failure_causes, local_only_unavailable_iff,
}

abbrev request : RequestProfile
request = record {
  task = record {
    privacy = some local_only;
    intent = none;
    complexity = none;
    capabilities = none;
    fallback = none;
  };
  role = some daily;
  tenant_id = some (codes "t");
  content_tightening = none;
}

abbrev account : BudgetSnapshot
account = record { limit_minor = pos 100; spent_minor = pos 40; scope = paid_only }

abbrev ctx : PolicyCtx
ctx = record { min_ram_gb = none; budget = some (λ tenant. some account) }

abbrev decision : Decision
decision = record {
  chosen_id = codes "omlx";
  reason_codes =
      privacy_loopback_only ∷ role_matched daily ∷ budget_within_limit ∷ admission_ready ∷ [];
  degradations = [];
}

decided :
    decide_with_affinity_and_ready_selected request (local_card ∷ []) ctx none []
    ≡ ok (decision, local_card)
unfolding decide_with_affinity_and_ready_selected admission_eligible privacy_stage is_local_capable
    role_stage pricing_stage admission_stage budget_stage budget_gate pick min_by admission_reasons
    Privacy.effective_privacy is_eligible_for_role balance_minor is_over
decided = refl

refused :
    decide_with_affinity_and_ready_selected request [] ctx none []
    ≡ err (rejects local_only_unavailable)
unfolding decide_with_affinity_and_ready_selected admission_eligible privacy_stage
    Privacy.effective_privacy
refused = refl

chosen-IsEligible_example :
    IsEligible request (local_card ∷ []) ctx local_card × (decision.chosen_id ≡ id local_card)
chosen-IsEligible_example =
    chosen-IsEligible request (local_card ∷ []) ctx none [] decision local_card decided

chosen-Affordable_example : Affordable account local_card
chosen-Affordable_example =
    chosen-Affordable request (local_card ∷ []) ctx none [] decision local_card account decided refl

eligible :
    admission_eligible request (local_card ∷ []) ctx
    ≡ ok (local_card ∷ [], privacy_loopback_only ∷ role_matched daily ∷ [], none)
unfolding admission_eligible privacy_stage is_local_capable role_stage pricing_stage admission_stage
    Privacy.effective_privacy is_eligible_for_role
eligible = refl

chosen-least_example :
    Precedes none [] local_card local_card
    ⊎ ((is_free local_card ≡ false)
        × (degraded : Option Degradation) × (decision.degradations
            ≡ to_list none ++ to_list degraded)
        × FellBack request
            (local_card ∷ [])
            none
            []
            (budget_snapshot request ctx)
            degraded
            local_card)
chosen-least_example =
    chosen-least request (local_card ∷ []) ctx none [] decision local_card local_card
      (local_card ∷ []) (privacy_loopback_only ∷ role_matched daily ∷ []) none decided eligible
      (Memᴰ.head refl)

no_silent_fallback_example :
    (decision.degradations ≡ [])
    × ((role : Role)
        → catalog_role request ≡ some role
        → any (role_eq role) local_card.roles ≡ true)
no_silent_fallback_example =
    no_silent_fallback request (local_card ∷ []) ctx none [] decision local_card decided refl

affinity_breaks_ties_only_example :
    Alike (decide_with_affinity_and_ready_selected request (local_card ∷ []) ctx none []) (
      decide_with_affinity_and_ready_selected request
        (local_card ∷ [])
        ctx
        (some (codes "s"))
        (codes "omlx" ∷ []))
affinity_breaks_ties_only_example =
    affinity_breaks_ties_only request (local_card ∷ []) ctx none (some (codes "s")) []
      (codes "omlx" ∷ [])

failure_causes_example :
    (◌≡◌ {A = Failure} (rejects local_only_unavailable) (rejects local_only_unavailable))
      × NoLocalCard request []
    ⊎ ((s : Stage) × (◌≡◌ {A = Failure}
          (rejects local_only_unavailable)
          (rejects (no_eligible_candidate s)))
        × IsStarved request [] ctx s)
    ⊎ StoppedByBudget request [] ctx none [] (rejects local_only_unavailable)
failure_causes_example =
    failure_causes request [] ctx none [] (rejects local_only_unavailable) refused

local_only_unavailable_iff_example :
    (decide_with_affinity_and_ready_selected request [] ctx none []
      ≡ err (rejects local_only_unavailable))
    ↔ NoLocalCard request []
local_only_unavailable_iff_example = local_only_unavailable_iff request [] ctx none []

in_one : (c : Card) → Memᴰ c (local_card ∷ []) → Memᴰ c (local_card ∷ local_card ∷ [])
in_one c (Memᴰ.head e) = Memᴰ.head e
in_one c (Memᴰ.tail m) = elim m [ ]

in_two : (c : Card) → Memᴰ c (local_card ∷ local_card ∷ []) → Memᴰ c (local_card ∷ [])
in_two c (Memᴰ.head e) = Memᴰ.head e
in_two c (Memᴰ.tail m) = m

unique : (c d : Card) → Memᴰ c (local_card ∷ []) → Memᴰ d (local_card ∷ []) → id c ≡ id d → c ≡ d
unique c d (Memᴰ.head p) (Memᴰ.head q) e = cc
unique c d (Memᴰ.head p) (Memᴰ.tail q) e = elim q [ ]
unique c d (Memᴰ.tail p) q e = elim p [ ]
