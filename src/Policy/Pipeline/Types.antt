-- ===== src/Policy/Pipeline/Types.antt =====
-- crates/idoris-policy/src/pipeline/types.rs: requests, decisions and rejections.
use i_doris.Prelude.{ℕ, Bool, true, false, Option, none, some, List, [], ◌∷◌, is_empty, not}
use i_doris.Prelude.Equality.{Text, codes}
use i_doris.Prelude.Float.{F64}
use i_doris.Prelude.Int.{ℤ}
use i_doris.Contracts.{
  Capability, chat, FallbackPolicy, next_in_chain, PrivacyClass, local_only, TaskProfile,
}
use i_doris.Policy.Budget.{BudgetView}
use i_doris.Policy.Role.{Role, RoleParseError}
use i_doris.Policy.Privacy

pub record RequestProfile : Type 0 where
  pub task : TaskProfile
  pub role : Option Role
  pub tenant_id : Option Text
  pub content_tightening : Option PrivacyClass

-- `self.task.privacy.unwrap_or(PrivacyClass::LocalOnly)`.
abbrev pub privacy_floor : RequestProfile → PrivacyClass
privacy_floor req = elim req.task.privacy [ none ↦ local_only | some p ↦ p ]

abbrev pub effective_privacy : RequestProfile → PrivacyClass
effective_privacy req = Privacy.effective_privacy (privacy_floor req) req.content_tightening

abbrev pub effective_capabilities : RequestProfile → List Capability
effective_capabilities req = elim req.task.capabilities [ none ↦ chat ∷ [] | some cs ↦ cs ]

abbrev is_next_in_chain : FallbackPolicy → Bool
is_next_in_chain next_in_chain = true
is_next_in_chain _ = false

abbrev pub allow_fallback : RequestProfile → Bool
allow_fallback req = elim req.task.fallback [ none ↦ false | some f ↦ is_next_in_chain f ]

pub record PolicyCtx : Type 0 where
  pub min_ram_gb : Option F64
  pub budget : Option BudgetView

pub data Stage : Type 0 where
  role_capability pricing admission : Stage

pub data ReasonCode : Type 0 where
  privacy_loopback_only privacy_tightened_by_content : ReasonCode
  role_matched : Role → ReasonCode
  role_fallback_capability_only price_unknown_excluded : ReasonCode
  budget_within_limit budget_no_tenant_context budget_fallback_to_free_candidate : ReasonCode
  admission_ready admission_requires_eviction : ReasonCode

pub data Degradation : Type 0 where
  role_fallback : Role → Degradation
  budget_fallback : ℤ → Degradation

pub record Decision : Type 0 where
  pub chosen_id : Text
  pub reason_codes : List ReasonCode
  pub degradations : List Degradation

abbrev pub is_degraded : Decision → Bool
is_degraded d = not (is_empty d.degradations)

-- `topup_hint` is a text for people: the two amounts that are put into it.
pub record TopupHint : Type 0 where
  pub balance_minor : ℤ
  pub estimated_cost_minor : ℤ

pub data Rejection : Type 0 where
  unknown_role : Text → Rejection
  local_only_unavailable : Rejection
  budget_exceeded : ℤ → ℤ → TopupHint → Rejection
  no_eligible_candidate : Stage → Rejection

abbrev pub http_status : Rejection → ℕ
http_status (unknown_role requested) = 400
http_status local_only_unavailable = 503
http_status (budget_exceeded balance cost hint) = 402
http_status (no_eligible_candidate stage) = 503

abbrev pub error_type : Rejection → Text
error_type (unknown_role requested) = codes "unknown_role"
error_type local_only_unavailable = codes "local_only_unavailable"
error_type (budget_exceeded balance cost hint) = codes "budget_exceeded"
error_type (no_eligible_candidate stage) = codes "no_eligible_candidate"

-- `From<RoleParseError>`.
abbrev pub of_role_parse_error : RoleParseError → Rejection
of_role_parse_error e = unknown_role e.requested
