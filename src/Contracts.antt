-- ===== src/Contracts.antt =====
-- crates/idoris-contracts: the enumerations and records that the router's components share.
-- A text is a list of bytes. `extensions` keeps, for each key of the JSON object, what `as_str`
-- says of its value, which is all that the code reads of it. `cost` is left out: no modelled code
-- reads it.
use i_doris.Prelude.{ℕ, Bool, true, false, Option, List, ◌==◌, ◌≡◌, arith}
use i_doris.Prelude.Equality.{Text}

pub data Capability : Type 0 where
  chat reasoning vision asr tts coding embedding rerank : Capability

pub data PrivacyClass : Type 0 where
  local_only any : PrivacyClass

pub data Tier : Type 0 where
  local remote lora : Tier

pub data Complexity : Type 0 where
  simple complex : Complexity

pub data FallbackPolicy : Type 0 where
  fail_closed next_in_chain : FallbackPolicy

pub data Form : Type 0 where
  http_service spawn_cli bundled_binary nostr_node mitm_proxy batch_job : Form

pub data Egress : Type 0 where
  none loopback lan internet : Egress

pub data Family : Type 0 where
  idoris claude openai local other : Family

pub data Locality : Type 0 where
  loopback lan remote : Locality

pub data LoadMode : Type 0 where
  resident on_demand evict_to_load : LoadMode

pub data Keepalive : Type 0 where
  pinned : Bool → Keepalive
  idle_ttl : ℕ → Keepalive

pub data LoadAdmission : Type 0 where
  coexist requires_eviction : LoadAdmission

pub data BudgetScope : Type 0 where
  paid_only all : BudgetScope

pub record LoadPolicy : Type 0 where
  pub mode : LoadMode
  pub keepalive : Keepalive
  pub admission : LoadAdmission

abbrev pub Extensions : Type 0
Extensions = List (Text × Option Text)

pub record ProviderDescriptor : Type 0 where
  pub id : Text
  pub family : Family
  pub tier : Tier
  pub capabilities : List Capability
  pub privacy_class : PrivacyClass
  pub locality : Locality
  pub extensions : Option Extensions

pub record ComponentCard : Type 0 where
  pub provider : ProviderDescriptor
  pub form : Form
  pub endpoint : Text
  pub version_pin : Text
  pub privacy_class : PrivacyClass
  pub allowed_egress : List Egress
  pub fallback_policy : FallbackPolicy
  pub fail_closed : Bool
  pub load_policy : Option LoadPolicy
  pub extensions : Option Extensions

pub record TaskProfile : Type 0 where
  pub privacy : Option PrivacyClass
  pub intent : Option Text
  pub complexity : Option Complexity
  pub capabilities : Option (List Capability)
  pub fallback : Option FallbackPolicy

-- The derived `PartialEq` of the enumerations that the code compares.
abbrev capability_tag : Capability → ℕ
capability_tag chat = 0
capability_tag reasoning = 1
capability_tag vision = 2
capability_tag asr = 3
capability_tag tts = 4
capability_tag coding = 5
capability_tag embedding = 6
capability_tag rerank = 7

abbrev pub capability_eq : Capability → Capability → Bool
capability_eq a b = capability_tag a == capability_tag b

capability_eq→eq : (a b : Capability) → capability_eq a b ≡ true → a ≡ b
capability_eq→eq a b h = ground arith

abbrev pub is_local_only : PrivacyClass → Bool
is_local_only local_only = true
is_local_only any = false
