-- ===== src/Policy/Card.antt =====
-- crates/idoris-policy/src/card.rs, and the conditions on a card of role.rs.
use i_doris.Prelude.{Bool, true, Option, List, any, ◌≡◌, arith}
use i_doris.Prelude.Equality.{Text}
use i_doris.Prelude.Float.{F64}
use i_doris.Prelude.Int.{ℤ}
use i_doris.Contracts.{ComponentCard}
use i_doris.Policy.Role.{Role, role_eq, is_catalog_metadata_eligible, is_role_metadata_eligible}

pub data AdmissionStatus : Type 0 where
  ready requires_eviction blocked : AdmissionStatus

pub record Card : Type 0 where
  pub component : ComponentCard
  pub roles : List Role
  pub experiment : Bool
  pub min_ram_gb : F64
  pub estimated_cost_minor : Option ℤ
  pub admission_status : AdmissionStatus

abbrev pub id : Card → Text
id card = card.component.provider.id

pub is_catalog_eligible : Card → Option F64 → Bool
unfolding is_catalog_metadata_eligible
is_catalog_eligible card min_ram_gb =
    is_catalog_metadata_eligible card.experiment card.min_ram_gb min_ram_gb

unfoldable pub is_eligible_for_role : Card → Role → Option F64 → Bool
unfolding is_role_metadata_eligible
is_eligible_for_role card role min_ram_gb =
    is_role_metadata_eligible card.experiment card.min_ram_gb card.roles role min_ram_gb

-- A card that serves a role is one that may be considered at all.
pub is_eligible_for_role_lem :
    (card : Card) (role : Role) (min_ram_gb : Option F64)
    → is_eligible_for_role card role min_ram_gb ≡ true
    → (is_catalog_eligible card min_ram_gb ≡ true) × (any (role_eq role) card.roles ≡ true)
unfolding is_eligible_for_role is_catalog_eligible
is_eligible_for_role_lem card role min_ram_gb h = ground arith
