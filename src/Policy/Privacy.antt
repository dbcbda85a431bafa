-- ===== src/Policy/Privacy.antt =====
-- crates/idoris-policy/src/privacy.rs: where a card's inference runs, and the privacy of a request.
use i_doris.Prelude.{
  Bool, true, false, ◌&&◌, ◌||◌, Option, none, some, all, if◌then◌else◌, ◌≡◌, arith,
}
use i_doris.Prelude.Equality.{Text, codes, text_eq}
use i_doris.Contracts.{
  Form, spawn_cli, Egress, Locality, PrivacyClass, local_only, any, is_local_only,
}
use i_doris.Policy.Card.{Card, id}

abbrev pub subscription_provider_id : Text
subscription_provider_id = codes "subscription"

unfoldable pub is_subscription_provider_id : Text → Bool
is_subscription_provider_id provider_id = text_eq provider_id subscription_provider_id

abbrev pub is_spawn_cli : Form → Bool
is_spawn_cli spawn_cli = true
is_spawn_cli _ = false

unfoldable pub effective_served_locality : Card → Locality
unfolding is_subscription_provider_id
effective_served_locality card =
    if is_spawn_cli card.component.form || is_subscription_provider_id (id card)
    then Locality.remote
    else card.component.provider.locality

abbrev pub is_loopback : Locality → Bool
is_loopback Locality.loopback = true
is_loopback _ = false

abbrev pub stays_on_host : Egress → Bool
stays_on_host Egress.none = true
stays_on_host Egress.loopback = true
stays_on_host _ = false

unfoldable pub is_local_capable : Card → Bool
unfolding effective_served_locality
is_local_capable card =
    is_loopback (effective_served_locality card)
    && is_local_only card.component.privacy_class
    && all stays_on_host card.component.allowed_egress

unfoldable pub effective_privacy : PrivacyClass → Option PrivacyClass → PrivacyClass
effective_privacy floor (some local_only) = local_only
effective_privacy floor (some any) = floor
effective_privacy floor none = floor

-- A card that counts as local runs its inference on the host: it spawns no command, it is not the
-- subscription relay, its locality is loopback, it carries local requests only, and it sends
-- nothing beyond the host.
pub is_local_capable_lem :
    (card : Card)
    → is_local_capable card ≡ true
    → (is_spawn_cli card.component.form ≡ false)
      × (is_subscription_provider_id (id card) ≡ false)
      × (card.component.provider.locality ≡ Locality.loopback)
      × (card.component.privacy_class ≡ local_only)
      × (all stays_on_host card.component.allowed_egress ≡ true)
unfolding is_local_capable
is_local_capable_lem card h = ground arith
