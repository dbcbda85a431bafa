-- ===== src/Policy/Registration/Examples.antt =====
-- The registration of a local card.
use i_doris.Prelude.{false, Option, some, [], ◌∷◌, ◌≡◌, refl, Memᴰ}
use i_doris.Prelude.Equality.{Text, codes}
use i_doris.Prelude.Results.{ok}
use i_doris.Policy.Fixtures.{local_card}
use i_doris.Policy.Privacy.{is_subscription_provider_id}
use i_doris.Policy.Registration.{
  Url, parse_loopback_endpoint_url, assert_no_contradictory_relay_claim, validate_card_policy,
  check_duplicates, check_card, check_cards, validate_registration, declares_degradation,
}
use i_doris.Policy.Registration.Accepted.{IsAccepted, validate_registration-IsAccepted}

-- A parser that knows one text.
abbrev parse : Text → Option Url
parse endpoint = some (record { scheme = codes "http"; host_str = some (codes "127.0.0.1") })

local_card_registered : validate_registration parse false (local_card ∷ []) ≡ ok tt
unfolding validate_registration check_card parse_loopback_endpoint_url
    assert_no_contradictory_relay_claim validate_card_policy is_subscription_provider_id
    check_duplicates check_cards declares_degradation
local_card_registered = refl

validate_registration-IsAccepted_example : IsAccepted parse false local_card
validate_registration-IsAccepted_example =
    validate_registration-IsAccepted parse false (local_card ∷ []) local_card local_card_registered
      (Memᴰ.head refl)
