-- ===== src/Policy/Pipeline/Starved.antt =====
-- crates/idoris-policy/src/pipeline/mod.rs: what a stage before the budget that fails says of the
-- candidates.
use i_doris.Prelude.{
  true, false, not, ◌&&◌, Option, none, some, List, ◌≡◌, refl, ◌⊎◌, inl, inr, arith, filter,
  is_empty, Bool-cases, Option-cases, filter_empty, Memᴰ,
}
use i_doris.Prelude.Int.{ℤ, pos, ltb_ℤ}
use i_doris.Prelude.Results.{ok, err}
use i_doris.Policy.Card.{
  Card, AdmissionStatus, ready, requires_eviction, blocked, is_catalog_eligible,
  is_eligible_for_role,
}
use i_doris.Policy.Role.{Role}
use i_doris.Policy.Pipeline.Types.{
  RequestProfile, Stage, effective_capabilities, allow_fallback, PolicyCtx, ReasonCode, Degradation,
  no_eligible_candidate,
}
use i_doris.Policy.Pipeline.Stages.{
  Failure, rejects, privacy_stage, catalog_role, is_role_candidate, is_capability_candidate,
  is_priced, is_blocked, has_capabilities, is_admissible, fallback_stage, role_stage_for,
  role_stage, pricing_stage, admission_stage,
}

-- A card that is not of the catalogue, or is too large, or lacks a capability that is needed.
abbrev pub IsIncapable : RequestProfile → PolicyCtx → Card → Type 0
IsIncapable req ctx a =
    (is_catalog_eligible a ctx.min_ram_gb && has_capabilities a (effective_capabilities req))
    ≡ false

-- The same for a role that is named, which the card may also not have.
abbrev pub IsUnfit : RequestProfile → PolicyCtx → Role → Card → Type 0
IsUnfit req ctx role a =
    (is_eligible_for_role a role ctx.min_ram_gb && has_capabilities a (effective_capabilities req))
    ≡ false

-- A card whose price is not known, or is negative.
abbrev pub IsUnpriced : Card → Type 0
IsUnpriced a =
    (a.estimated_cost_minor ≡ none)
    ⊎ ((v : ℤ) × (a.estimated_cost_minor ≡ some v) × (ltb_ℤ v (pos 0) ≡ true))

-- What holds of every card of a list.
abbrev pub EveryCard : (Card → Type 0) → List Card → Type 0
EveryCard P cards = (a : Card) → Memᴰ a cards → P a

-- No card that reached the stage for roles serves the request: none is capable where no role of the
-- catalogue is named; else none is fit for the role, and there is no fallback, or none for it.
abbrev pub NoRole : RequestProfile → PolicyCtx → List Card → Option Role → Type 0
NoRole req ctx cards none = EveryCard (IsIncapable req ctx) cards
NoRole req ctx cards (some role) =
    EveryCard (IsUnfit req ctx role) cards
    × ((allow_fallback req ≡ false) ⊎ EveryCard (IsIncapable req ctx) cards)

-- The candidates that reached a stage, none of which passes it.
pub data IsStarved (req : RequestProfile) (cards : List Card) (ctx : PolicyCtx)
    : Stage → Type 0 where
  at_role :
      (reached : List Card) (rs : List ReasonCode)
      → privacy_stage req cards ≡ ok (reached, rs)
      → NoRole req ctx reached (catalog_role req)
      → IsStarved req cards ctx Stage.role_capability
  at_pricing :
      (trusted reached : List Card) (rs rs' : List ReasonCode) (d : Option Degradation)
      → privacy_stage req cards ≡ ok (trusted, rs)
      → role_stage req ctx trusted ≡ ok (reached, rs', d)
      → EveryCard IsUnpriced reached
      → IsStarved req cards ctx Stage.pricing
  at_admission :
      (trusted matched reached : List Card) (rs rs' rs'' : List ReasonCode) (d : Option Degradation)
      → privacy_stage req cards ≡ ok (trusted, rs)
      → role_stage req ctx trusted ≡ ok (matched, rs', d)
      → pricing_stage matched ≡ ok (reached, rs'')
      → EveryCard (λ a. a.admission_status ≡ blocked) reached
      → IsStarved req cards ctx Stage.admission

fallback_stage-err :
    (req : RequestProfile) (ctx : PolicyCtx) (cards : List Card) (role : Role) (e : Failure)
    → fallback_stage req ctx cards role ≡ err e
    → (e ≡ rejects (no_eligible_candidate Stage.role_capability))
      × ((allow_fallback req ≡ false)
          ⊎ (is_empty (filter (is_capability_candidate req ctx) cards) ≡ true))
unfolding fallback_stage
fallback_stage-err req ctx cards role e h = ground arith

pub role_stage_for-err :
    (req : RequestProfile) (ctx : PolicyCtx) (cards : List Card) (o : Option Role) (e : Failure)
    → role_stage_for req ctx cards o ≡ err e
    → (e ≡ rejects (no_eligible_candidate Stage.role_capability)) × NoRole req ctx cards o
role_stage_for-err req ctx cards none e h =
    let p = is_capability_candidate req ctx in
    elim (Bool-cases (is_empty (filter p cards))) [
      | inl n ↦ (ground arith, λ a m. filter_empty p cards n m)
      | inr n ↦ cc (rw n at h)
    ]
role_stage_for-err req ctx cards (some role) e h =
    let p = is_role_candidate req ctx role in
    elim (Bool-cases (is_empty (filter p cards))) [
      | inl n ↦
          let (label, why) = fallback_stage-err req ctx cards role e (rw n at h) in
          let nobody : EveryCard (IsUnfit req ctx role) cards = λ a m. filter_empty p cards n m in
          elim why [
            | inl f ↦ (label, (nobody, inl f))
            | inr f ↦ (
              label,
              (nobody, inr (λ a m. filter_empty (is_capability_candidate req ctx) cards f m)),
            )
          ]
      | inr n ↦ cc (rw n at h)
    ]

unpriced : (a : Card) → is_priced a ≡ false → IsUnpriced a
unpriced a h = elim (Option-cases a.estimated_cost_minor) [
  | inl n ↦ inl n
  | inr (v, s) ↦ let negative = rw s at h in inr (v, s, ground arith)
]

pub pricing_stage-err :
    (cards : List Card) (e : Failure)
    → pricing_stage cards ≡ err e
    → (e ≡ rejects (no_eligible_candidate Stage.pricing)) × EveryCard IsUnpriced cards
unfolding pricing_stage
pricing_stage-err cards e h = elim (Bool-cases (is_empty (filter is_priced cards))) [
  | inl n ↦ (ground arith, λ a m. unpriced a (filter_empty is_priced cards n m))
  | inr n ↦ cc (rw n at h)
]

inadmissible : (a : AdmissionStatus) → not (is_blocked a) ≡ false → a ≡ blocked
inadmissible ready h = cc
inadmissible requires_eviction h = cc
inadmissible blocked h = refl

pub admission_stage-err :
    (cards : List Card) (e : Failure)
    → admission_stage cards ≡ err e
    → (e ≡ rejects (no_eligible_candidate Stage.admission))
      × EveryCard (λ a. a.admission_status ≡ blocked) cards
unfolding admission_stage
admission_stage-err cards e h = elim (Bool-cases (is_empty (filter is_admissible cards))) [
  | inl n ↦
      (ground arith, λ a m. inadmissible a.admission_status (filter_empty is_admissible cards n m))
  | inr n ↦ cc (rw n at h)
]
