-- ===== src/Policy/Pipeline/Stages.antt =====
-- crates/idoris-policy/src/pipeline/mod.rs: the stages of the pipeline, in the order in which
-- `decide_with_affinity_and_ready_selected` runs them. A stage gives the candidates that are left
-- with the reason codes that it adds. `panics` is a failed `expect`.
use i_doris.Prelude.{
  Bool, true, false, not, ◌&&◌, ◌||◌, Option, none, some, List, [], ◌∷◌, ◌++◌, filter, any, all,
  is_empty, length, ltb, if◌then◌else◌,
}
use i_doris.Prelude.Equality.{Text}
use i_doris.Prelude.Int.{ℤ, pos, leb_ℤ, ltb_ℤ}
use i_doris.Prelude.Orders.{compare_ℤ, min_by}
use i_doris.Prelude.Results.{Result, ok, err}
use i_doris.Contracts.{Capability, capability_eq, is_local_only, BudgetScope}
use i_doris.Policy.Budget.{BudgetSnapshot, is_over, balance_minor}
use i_doris.Policy.Card.{
  Card, AdmissionStatus, ready, requires_eviction, blocked, is_catalog_eligible,
  is_eligible_for_role,
}
use i_doris.Policy.Privacy.{is_local_capable}
use i_doris.Policy.Role.{Role, is_catalog_role}
use i_doris.Policy.Pipeline.Types.{
  RequestProfile, privacy_floor, effective_privacy, effective_capabilities, allow_fallback,
  PolicyCtx, Stage, ReasonCode, privacy_loopback_only, privacy_tightened_by_content, role_matched,
  role_fallback_capability_only, price_unknown_excluded, budget_within_limit,
  budget_no_tenant_context, budget_fallback_to_free_candidate, admission_ready,
  admission_requires_eviction, Degradation, role_fallback, budget_fallback, Rejection,
  local_only_unavailable, budget_exceeded, no_eligible_candidate,
}
use i_doris.Policy.Pipeline.Pick.{pick, cost_or_zero}

pub data Failure : Type 0 where
  rejects : Rejection → Failure
  panics : Failure

-- What a stage leaves: candidates, reason codes, and a degradation if it made one.
abbrev pub Outcome : Type 0
Outcome = Result Failure (List Card × List ReasonCode × Option Degradation)

abbrev pub has_capabilities : Card → List Capability → Bool
has_capabilities card needed =
    all (λ c. any (capability_eq c) card.component.provider.capabilities) needed

unfoldable pub privacy_stage :
    RequestProfile → List Card → Result Failure (List Card × List ReasonCode)
privacy_stage req cards =
    let privacy = effective_privacy req in
    let trusted = filter is_local_capable cards in
    let reasons =
      if not (is_local_only (privacy_floor req)) && is_local_only privacy
      then privacy_tightened_by_content ∷ []
      else [] in
    if is_local_only privacy
    then if is_empty trusted
      then err (rejects local_only_unavailable)
      else ok (trusted, reasons ++ privacy_loopback_only ∷ [])
    else ok (cards, reasons)

-- The catalogue role that the request names, if any.
abbrev pub catalog_role : RequestProfile → Option Role
catalog_role req = elim req.role [
  | none ↦ none
  | some role ↦ if is_catalog_role role then some role else none
]

abbrev pub is_role_candidate : RequestProfile → PolicyCtx → Role → Card → Bool
is_role_candidate req ctx role card =
    is_eligible_for_role card role ctx.min_ram_gb
    && has_capabilities card (effective_capabilities req)

abbrev pub is_capability_candidate : RequestProfile → PolicyCtx → Card → Bool
is_capability_candidate req ctx card =
    is_catalog_eligible card ctx.min_ram_gb && has_capabilities card (effective_capabilities req)

-- No card matches the named role: only a declared fallback may widen the search.
unfoldable pub fallback_stage : RequestProfile → PolicyCtx → List Card → Role → Outcome
fallback_stage req ctx cards requested =
    let capable = filter (is_capability_candidate req ctx) cards in
    if not (allow_fallback req)
    then err (rejects (no_eligible_candidate Stage.role_capability))
    else if is_empty capable
    then err (rejects (no_eligible_candidate Stage.role_capability))
    else ok (capable, role_fallback_capability_only ∷ [], some (role_fallback requested))

abbrev pub role_stage_for : RequestProfile → PolicyCtx → List Card → Option Role → Outcome
role_stage_for req ctx cards (some role) =
    let matched = filter (is_role_candidate req ctx role) cards in
    if is_empty matched
    then fallback_stage req ctx cards role
    else ok (matched, role_matched role ∷ [], none)
role_stage_for req ctx cards none =
    let capable = filter (is_capability_candidate req ctx) cards in
    if is_empty capable
    then err (rejects (no_eligible_candidate Stage.role_capability))
    else ok (capable, [], none)

unfoldable pub role_stage : RequestProfile → PolicyCtx → List Card → Outcome
role_stage req ctx cards = role_stage_for req ctx cards (catalog_role req)

abbrev pub is_priced : Card → Bool
is_priced card = elim card.estimated_cost_minor [ none ↦ false | some v ↦ leb_ℤ (pos 0) v ]

unfoldable pub pricing_stage : List Card → Result Failure (List Card × List ReasonCode)
pricing_stage matched =
    let priced_known = filter is_priced matched in
    if is_empty priced_known
    then err (rejects (no_eligible_candidate Stage.pricing))
    else ok (
      priced_known,
      if ltb (length priced_known) (length matched) then price_unknown_excluded ∷ [] else [],
    )

abbrev pub is_blocked : AdmissionStatus → Bool
is_blocked blocked = true
is_blocked _ = false

abbrev pub is_admissible : Card → Bool
is_admissible card = not (is_blocked card.admission_status)

unfoldable pub admission_stage : List Card → Result Failure (List Card)
admission_stage priced_known =
    let eligible = filter is_admissible priced_known in
    if is_empty eligible then err (rejects (no_eligible_candidate Stage.admission)) else ok eligible

-- `ctx.budget.zip(req.tenant_id).and_then(|(view, tenant)| view.snapshot(tenant))`.
abbrev pub budget_snapshot : RequestProfile → PolicyCtx → Option BudgetSnapshot
budget_snapshot req ctx = elim ctx.budget [
  | none ↦ none
  | some view ↦ elim req.tenant_id [ none ↦ none | some tenant ↦ view tenant ]
]

abbrev is_zero : ℤ → Bool
is_zero z = leb_ℤ z (pos 0) && leb_ℤ (pos 0) z

abbrev pub is_free : Card → Bool
is_free card = elim card.estimated_cost_minor [ none ↦ false | some v ↦ is_zero v ]

abbrev pub is_paid : Card → Bool
is_paid card = elim card.estimated_cost_minor [ none ↦ false | some v ↦ ltb_ℤ (pos 0) v ]

known_costs : List Card → List ℤ
known_costs [] = []
known_costs (card ∷ cards) = elim card.estimated_cost_minor [
  | none ↦ known_costs cards
  | some v ↦ v ∷ known_costs cards
]

pub cheapest_paid_cost : List Card → ℤ
unfolding known_costs
cheapest_paid_cost paid = elim (min_by compare_ℤ (known_costs paid)) [ none ↦ pos 0 | some v ↦ v ]

abbrev pub exceeded : BudgetSnapshot → ℤ → Failure
exceeded s cost = rejects (
    budget_exceeded (balance_minor s) cost
      (record { balance_minor = balance_minor s; estimated_cost_minor = cost }))

abbrev pub freezes_all : BudgetScope → Bool
freezes_all BudgetScope.all = true
freezes_all BudgetScope.paid_only = false

abbrev pub would_exceed : BudgetSnapshot → ℤ → Bool
would_exceed s cost = ltb_ℤ (pos 0) cost && (is_over s || ltb_ℤ (balance_minor s) cost)

-- The budget stage, once the snapshot and the natural pick are known.
unfoldable pub budget_gate : RequestProfile → BudgetSnapshot → List Card → Card → Outcome
unfolding cheapest_paid_cost
budget_gate req s candidates natural_pick =
    let natural_cost = cost_or_zero natural_pick in
    let free = filter is_free candidates in
    if freezes_all s.scope && is_over s
    then err (exceeded s (cheapest_paid_cost (filter is_paid candidates)))
    else if not (would_exceed s natural_cost)
    then ok (candidates, budget_within_limit ∷ [], none)
    else if allow_fallback req && not (is_empty free)
    then ok (free, budget_fallback_to_free_candidate ∷ [], some (budget_fallback natural_cost))
    else err (exceeded s natural_cost)

abbrev pub budget_natural : RequestProfile → BudgetSnapshot → List Card → Option Card → Outcome
budget_natural req s candidates none = err panics
budget_natural req s candidates (some natural_pick) = budget_gate req s candidates natural_pick

abbrev pub budget_stage_for :
    RequestProfile → Option BudgetSnapshot → List Card → Option Text → List Text → Outcome
budget_stage_for req none candidates affinity_key ready_ids =
    ok (candidates, budget_no_tenant_context ∷ [], none)
budget_stage_for req (some s) candidates affinity_key ready_ids =
    budget_natural req s candidates (pick candidates affinity_key ready_ids)

unfoldable pub budget_stage :
    RequestProfile → PolicyCtx → List Card → Option Text → List Text → Outcome
budget_stage req ctx candidates affinity_key ready_ids =
    budget_stage_for req (budget_snapshot req ctx) candidates affinity_key ready_ids

abbrev is_ready : AdmissionStatus → Bool
is_ready ready = true
is_ready _ = false

abbrev evicts : AdmissionStatus → Bool
evicts requires_eviction = true
evicts _ = false

unfoldable pub admission_reasons : List Card → List ReasonCode
admission_reasons cards =
    (if any (λ (c : Card). evicts c.admission_status) cards
      then admission_requires_eviction ∷ []
      else [])
    ++ (if any (λ (c : Card). is_ready c.admission_status) cards then admission_ready ∷ [] else [])
