-- ===== src/Policy/Registration.antt =====
-- crates/idoris-policy/src/registry.rs and card_validation.rs: which cards may be registered. The
-- URL parser of the `url` crate is the parameter `parse`; the build's choice to allow the scheme
-- `mock` is `dev_mock`. The values of `extensions` are lists of code points.
pub mod Accepted
mod Examples
use i_doris.Prelude.{
  ℕ, Bool, true, false, not, ◌&&◌, ◌||◌, Option, none, some, List, [], ◌∷◌, any, all, is_empty,
  length, leb, ◌==◌, if◌then◌else◌,
}
use i_doris.Prelude.Equality.{Text, codes, text_eq}
use i_doris.Prelude.Text.{trim_matches, is_whitespace}
use i_doris.Prelude.Results.{Result, ok, err, ◌>>=◌}
use i_doris.Contracts
use i_doris.Contracts.{
  Form, http_service, nostr_node, mitm_proxy, Egress, internet, Tier, Locality, PrivacyClass,
  is_local_only, LoadMode, resident, Keepalive, pinned, idle_ttl, LoadPolicy, Extensions,
}
use i_doris.Policy.Card.{Card, id}
use i_doris.Policy.Privacy.{is_subscription_provider_id, is_spawn_cli, is_loopback, stays_on_host}

pub data Rule : Type 0 where
  extensions_missing_degradation local_only_requires_fail_closed privacy_class_mismatch : Rule
  local_tier_cannot_be_remote_locality local_tier_requires_load_policy : Rule
  load_policy_mode_keepalive_mismatch egress_none_must_be_exclusive : Rule
  local_only_cannot_allow_internet local_only_egress_must_be_loopback : Rule

pub data RegistrationError : Type 0 where
  duplicate_provider_id : Text → RegistrationError
  endpoint_unparseable loopback_host_mismatch unsupported_scheme : Text → Text → RegistrationError
  contradictory_relay_claim : Text → RegistrationError
  card_policy_violation : Text → Rule → RegistrationError

-- What is read of a parsed URL.
pub record Url : Type 0 where
  pub scheme : Text
  pub host_str : Option Text

abbrev pub loopback_hosts : List Text
loopback_hosts = codes "127.0.0.1" ∷ codes "[::1]" ∷ codes "localhost" ∷ []

abbrev pub network_schemes : List Text
network_schemes = codes "http" ∷ codes "https" ∷ codes "ws" ∷ codes "wss" ∷ []

abbrev pub contains : List Text → Text → Bool
contains xs x = any (text_eq x) xs

abbrev pub declares_network_endpoint : Form → Bool
declares_network_endpoint http_service = true
declares_network_endpoint nostr_node = true
declares_network_endpoint mitm_proxy = true
declares_network_endpoint _ = false

abbrev pub is_dev_mock_scheme_allowed : Bool → Text → Bool
is_dev_mock_scheme_allowed dev_mock scheme = dev_mock && text_eq scheme (codes "mock")

abbrev pub is_local_tier : Tier → Bool
is_local_tier Tier.local = true
is_local_tier _ = false

abbrev pub check_host : Card → Url → Option Text → Result RegistrationError (Option Url)
check_host card url none = err (endpoint_unparseable (id card) card.component.endpoint)
check_host card url (some host) =
    if contains loopback_hosts host
    then ok (some url)
    else err (loopback_host_mismatch (id card) host)

abbrev pub check_url : Bool → Card → Option Url → Result RegistrationError (Option Url)
check_url dev_mock card none = err (endpoint_unparseable (id card) card.component.endpoint)
check_url dev_mock card (some url) =
    if is_dev_mock_scheme_allowed dev_mock url.scheme
    then ok none
    else if not (contains network_schemes url.scheme)
    then err (unsupported_scheme (id card) url.scheme)
    else check_host card url url.host_str

pub assert_no_contradictory_relay_claim : Card → Result RegistrationError (Unit {0})
assert_no_contradictory_relay_claim card =
    let c = card.component in
    if not (is_spawn_cli c.form || is_subscription_provider_id (id card))
    then ok tt
    else if not (is_local_only c.privacy_class) && not (is_local_tier c.provider.tier)
    then ok tt
    else err (contradictory_relay_claim (id card))

-- White space of ECMAScript's `trim`: that of Unicode without NEL and with the byte order mark.
abbrev is_js_whitespace : ℕ → Bool
is_js_whitespace c = is_whitespace c && not (c == 0x85) || c == 0xfeff

has_js_non_whitespace : Text → Bool
has_js_non_whitespace value = not (is_empty (trim_matches is_js_whitespace value))

get_str : Text → Extensions → Option Text
get_str key [] = none
get_str key ((k, v) ∷ rest) = if text_eq k key then v else get_str key rest

-- Extensions that are there and not empty name their own degradation.
pub declares_degradation : Option Extensions → Bool
declares_degradation none = true
declares_degradation (some extensions) =
    is_empty extensions || (elim (get_str (codes "_degradation") extensions) [
      | none ↦ false
      | some value ↦ has_js_non_whitespace value
    ])

abbrev is_remote : Locality → Bool
is_remote Locality.remote = true
is_remote _ = false

abbrev is_resident : LoadMode → Bool
is_resident resident = true
is_resident _ = false

abbrev is_pinned : Keepalive → Bool
is_pinned (pinned p) = p
is_pinned (idle_ttl seconds) = false

abbrev pub mode_fits : LoadPolicy → Bool
mode_fits p = if is_resident p.mode then is_pinned p.keepalive else not (is_pinned p.keepalive)

abbrev pub load_policy_fits : Option LoadPolicy → Bool
load_policy_fits none = true
load_policy_fits (some p) = mode_fits p

abbrev has_load_policy : Option LoadPolicy → Bool
has_load_policy none = false
has_load_policy (some p) = true

abbrev is_none_egress : Egress → Bool
is_none_egress Egress.none = true
is_none_egress _ = false

abbrev is_internet : Egress → Bool
is_internet internet = true
is_internet _ = false

-- The rules in the order in which they are tried, each with whether it is violated.
abbrev rules : Card → List (Bool × Rule)
rules card =
    let c = card.component in
    let local_only = is_local_only c.privacy_class in
    let local_tier = is_local_tier c.provider.tier in
    (local_only && not c.fail_closed, local_only_requires_fail_closed)
    ∷ (is_local_only c.provider.privacy_class && not local_only, privacy_class_mismatch)
    ∷ (local_tier && is_remote c.provider.locality, local_tier_cannot_be_remote_locality)
    ∷ (local_tier && not (has_load_policy c.load_policy), local_tier_requires_load_policy)
    ∷ (not (load_policy_fits c.load_policy), load_policy_mode_keepalive_mismatch)
    ∷ (
      any is_none_egress c.allowed_egress && not (length c.allowed_egress == 1),
      egress_none_must_be_exclusive,
    )
    ∷ (local_only && any is_internet c.allowed_egress, local_only_cannot_allow_internet)
    ∷ (local_only && not (all stays_on_host c.allowed_egress), local_only_egress_must_be_loopback)
    ∷ []

first_violated : Text → List (Bool × Rule) → Result RegistrationError (Unit {0})
first_violated card_id [] = ok tt
first_violated card_id ((violated, rule) ∷ rest) =
    if violated then err (card_policy_violation card_id rule) else first_violated card_id rest

pub validate_card_policy : Card → Result RegistrationError (Unit {0})
unfolding first_violated
validate_card_policy card =
    if not (declares_degradation card.component.extensions)
      || not (declares_degradation card.component.provider.extensions)
    then err (card_policy_violation (id card) extensions_missing_degradation)
    else first_violated (id card) (rules card)

pub check_duplicates : List Text → List Card → Result RegistrationError (Unit {0})
check_duplicates seen [] = ok tt
check_duplicates seen (card ∷ cards) =
    let rest = check_duplicates (id card ∷ seen) cards in
    if contains seen (id card) then err (duplicate_provider_id (id card)) else rest

module _ (parse : Text → Option Url) (dev_mock : Bool) where
  pub parse_loopback_endpoint_url : Card → Result RegistrationError (Option Url)
  parse_loopback_endpoint_url card =
      if not (declares_network_endpoint card.component.form)
        || not (is_loopback card.component.provider.locality)
      then ok none
      else check_url dev_mock card (parse card.component.endpoint)

  pub check_card : Card → Result RegistrationError (Unit {0})
  check_card card = do
    _ ← parse_loopback_endpoint_url card
    _ ← assert_no_contradictory_relay_claim card
    validate_card_policy card

  pub check_cards : List Card → Result RegistrationError (Unit {0})
  check_cards [] = ok tt
  check_cards (card ∷ cards) = let rest = check_cards cards in check_card card >>= λ _. rest

  pub validate_registration : List Card → Result RegistrationError (Unit {0})
  unfolding check_duplicates check_cards
  validate_registration cards = check_duplicates [] cards >>= λ _. check_cards cards
