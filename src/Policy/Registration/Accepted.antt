-- ===== src/Policy/Registration/Accepted.antt =====
-- What a registered set of cards satisfies.
use i_doris.Prelude.{
  Bool, true, false, ◌&&◌, ◌||◌, Option, none, some, List, [], ◌∷◌, all, ◌≡◌, ◌≢◌, refl, sym, ◌∙◌,
  arith, Memᴰ, Bool-cases, ◌⊎◌, inl, inr,
}
use i_doris.Prelude.Equality.{Text, text_eq, text_eq_refl}
use i_doris.Prelude.Results.{ok, >>=-eq-ok}
use i_doris.Contracts.{is_local_only, Locality}
use i_doris.Policy.Card.{Card, id}
use i_doris.Policy.Privacy.{
  is_subscription_provider_id, is_spawn_cli, is_loopback, stays_on_host, is_local_capable,
  effective_served_locality,
}
use i_doris.Policy.Registration.{
  Url, loopback_hosts, network_schemes, contains, declares_network_endpoint,
  is_dev_mock_scheme_allowed, is_local_tier, check_host, check_url,
  assert_no_contradictory_relay_claim, declares_degradation, load_policy_fits, validate_card_policy,
  check_duplicates, parse_loopback_endpoint_url, check_card, check_cards, validate_registration,
}

-- What a parsed endpoint must be: a mock's, or that of a loopback host over a network scheme.
abbrev pub IsServable : Bool → Url → Type 0
IsServable dev_mock url =
    (is_dev_mock_scheme_allowed dev_mock url.scheme ≡ true)
    ⊎ ((host : Text) × (url.host_str ≡ some host)
        × (contains loopback_hosts host ≡ true)
        × (contains network_schemes url.scheme ≡ true))

-- A card whose form declares a network endpoint, and whose provider claims the loopback interface,
-- has an endpoint that may be served.
abbrev pub HostChecked : (Text → Option Url) → Bool → Card → Type 0
HostChecked parse dev_mock card =
    declares_network_endpoint card.component.form ≡ true
    → is_loopback card.component.provider.locality ≡ true
    → (url : Url) × (parse card.component.endpoint ≡ some url) × IsServable dev_mock url

-- The cross-field policy of a card.
pub record PolicyHolds (card : Card) : Type 0 where
  pub closed_by_default :
      is_local_only card.component.privacy_class ≡ true → card.component.fail_closed ≡ true
  pub stays :
      is_local_only card.component.privacy_class ≡ true
      → all stays_on_host card.component.allowed_egress ≡ true
  pub not_looser :
      is_local_only card.component.provider.privacy_class ≡ true
      → is_local_only card.component.privacy_class ≡ true
  pub local_tier :
      is_local_tier card.component.provider.tier ≡ true
      → card.component.provider.locality ≢ Locality.remote
  pub load_policy : load_policy_fits card.component.load_policy ≡ true
  pub degradation : declares_degradation card.component.extensions ≡ true

abbrev pub RelayHonest : Card → Type 0
RelayHonest card =
    (is_spawn_cli card.component.form || is_subscription_provider_id (id card)) ≡ true
    → (is_local_only card.component.privacy_class ≡ false)
      × (is_local_tier card.component.provider.tier ≡ false)

validate_card_policy-PolicyHolds :
    (card : Card) → validate_card_policy card ≡ ok tt → PolicyHolds card
unfolding validate_card_policy
validate_card_policy-PolicyHolds card h = ground arith

relay-RelayHonest :
    (card : Card) → assert_no_contradictory_relay_claim card ≡ ok tt → RelayHonest card
unfolding assert_no_contradictory_relay_claim
relay-RelayHonest card h = ground arith

module _ (dev_mock : Bool) (card : Card) (url : Url) where
  check_host-ok :
      (o : Option Text) {u : Option Url}
      → check_host card url o ≡ ok u
      → (host : Text) × (o ≡ some host) × (contains loopback_hosts host ≡ true)
  check_host-ok none h = cc
  check_host-ok (some host) h = elim (Bool-cases (contains loopback_hosts host)) [
    | inl e ↦ (host, refl, e)
    | inr e ↦ let bad = rw e at h in cc
  ]

  check_url-ok :
      {u : Option Url} → check_url dev_mock card (some url) ≡ ok u → IsServable dev_mock url
  check_url-ok h = elim (Bool-cases (is_dev_mock_scheme_allowed dev_mock url.scheme)) [
    | inl e ↦ inl e
    | inr e ↦ elim (Bool-cases (contains network_schemes url.scheme)) [
      | inl k ↦
          let (host, a, b) = check_host-ok url.host_str (rw k at (rw e at h)) in inr (host, a, b, k)
      | inr k ↦ let bad = rw k at (rw e at h) in cc
    ]
  ]

check_parsed-ok :
    (dev_mock : Bool) (card : Card) (o : Option Url) {u : Option Url}
    → check_url dev_mock card o ≡ ok u
    → (url : Url) × (o ≡ some url) × IsServable dev_mock url
check_parsed-ok dev_mock card none h = cc
check_parsed-ok dev_mock card (some url) h = (url, refl, check_url-ok dev_mock card url h)

accepted_is_local_capable :
    (card : Card)
    → RelayHonest card
    → (is_local_only card.component.privacy_class ≡ true
        → all stays_on_host card.component.allowed_egress ≡ true)
    → is_local_capable card
      ≡ (is_loopback card.component.provider.locality && is_local_only card.component.privacy_class)
unfolding is_local_capable effective_served_locality
accepted_is_local_capable card relay stays = ground arith

-- The checks of one card.
pub record IsAccepted (parse : Text → Option Url) (dev_mock : Bool) (card : Card) : Type 0 where
  pub host : HostChecked parse dev_mock card
  pub relay : RelayHonest card
  pub policy : PolicyHolds card

check_duplicates-seen :
    (cards : List Card) (seen : List Text)
    → check_duplicates seen cards ≡ ok tt
    → {a : Card} → Memᴰ a cards
    → contains seen (id a) ≡ false
unfolding check_duplicates
check_duplicates-seen [] seen h m = elim m [ ]
check_duplicates-seen (card ∷ cards) seen h (Memᴰ.head e) = rw e (ground arith)
check_duplicates-seen (card ∷ cards) seen h {a} (Memᴰ.tail m) =
    ground (arith, check_duplicates-seen cards (id card ∷ seen) (ground arith) m)

check_duplicates-tail :
    (card : Card) (cards : List Card) (seen : List Text)
    → check_duplicates seen (card ∷ cards) ≡ ok tt
    → check_duplicates (id card ∷ seen) cards ≡ ok tt
unfolding check_duplicates
check_duplicates-tail card cards seen h = ground arith

-- A card after the first has another identifier than the first.
later_id :
    (card : Card) (cards : List Card) (seen : List Text)
    → check_duplicates seen (card ∷ cards) ≡ ok tt
    → {a : Card} → Memᴰ a cards
    → id a ≢ id card
later_id card cards seen h {a} m e =
    let unseen =
      check_duplicates-seen cards (id card ∷ seen) (check_duplicates-tail card cards seen h) m in
    let same : text_eq (id a) (id card) ≡ true = rw e (text_eq_refl (id card)) in
    let bad = rw same at unseen in cc

check_duplicates-Distinct :
    (cards : List Card) (seen : List Text)
    → check_duplicates seen cards ≡ ok tt
    → {a b : Card} → Memᴰ a cards
    → Memᴰ b cards
    → id a ≡ id b
    → a ≡ b
check_duplicates-Distinct [] seen h m n e = elim m [ ]
check_duplicates-Distinct (card ∷ cards) seen h (Memᴰ.head p) (Memᴰ.head q) e = p ∙ sym q
check_duplicates-Distinct (card ∷ cards) seen h (Memᴰ.head p) (Memᴰ.tail n) e =
    absurd (later_id card cards seen h n (sym (rw p at e)))
check_duplicates-Distinct (card ∷ cards) seen h (Memᴰ.tail m) (Memᴰ.head q) e =
    absurd (later_id card cards seen h m (rw q at e))
check_duplicates-Distinct (card ∷ cards) seen h (Memᴰ.tail m) (Memᴰ.tail n) e =
    check_duplicates-Distinct cards (id card ∷ seen) (check_duplicates-tail card cards seen h) m n e

module _ (parse : Text → Option Url) (dev_mock : Bool) where
  endpoint-HostChecked :
      (card : Card) (u : Option Url)
      → parse_loopback_endpoint_url parse dev_mock card ≡ ok u
      → HostChecked parse dev_mock card
  unfolding parse_loopback_endpoint_url
  endpoint-HostChecked card u h network loopback =
      check_parsed-ok dev_mock card (parse card.component.endpoint)
        (rw loopback at (rw network at h))

  check_card-IsAccepted :
      (card : Card) → check_card parse dev_mock card ≡ ok tt → IsAccepted parse dev_mock card
  unfolding check_card
  check_card-IsAccepted card h =
      let (u, a, h₁) = >>=-eq-ok (parse_loopback_endpoint_url parse dev_mock card) _ h in
      let (v, b, c) = >>=-eq-ok (assert_no_contradictory_relay_claim card) _ h₁ in
      record {
        host = endpoint-HostChecked card u a;
        relay = relay-RelayHonest card b;
        policy = validate_card_policy-PolicyHolds card c;
      }

  check_cards-IsAccepted :
      (cards : List Card)
      → check_cards parse dev_mock cards ≡ ok tt
      → {a : Card} → Memᴰ a cards
      → IsAccepted parse dev_mock a
  unfolding check_cards
  check_cards-IsAccepted [] h m = elim m [ ]
  check_cards-IsAccepted (card ∷ cards) h m =
      let (u, first, rest) = >>=-eq-ok (check_card parse dev_mock card) _ h in
      elim m [
        | Memᴰ.head e ↦ rw e (check_card-IsAccepted card first)
        | Memᴰ.tail n ↦ check_cards-IsAccepted cards rest n
      ]

  -- Where a set of cards is registered, every card of it passed the endpoint, relay and policy
  -- checks. A card whose form declares a network endpoint (an HTTP service, a Nostr node or a MITM
  -- proxy) and whose provider claims the loopback interface has an endpoint that parses to a
  -- loopback host over a network scheme, or to an allowed mock; of the endpoint of other cards
  -- nothing is said. A relay (a spawned CLI, or the id of a subscription) is neither local only nor
  -- of the local tier. A local-only card fails closed and may send only to the host, a card of a
  -- local-only provider is local only, a provider of the local tier is not remote, a load policy has
  -- a keepalive that fits its mode, and the card's extensions, where there are any, name their
  -- degradation.
  pub validate_registration-IsAccepted :
      (cards : List Card) (card : Card)
      → validate_registration parse dev_mock cards ≡ ok tt
      → Memᴰ card cards
      → IsAccepted parse dev_mock card
  unfolding validate_registration
  validate_registration-IsAccepted cards card h m =
      let (u, a, b) = >>=-eq-ok (check_duplicates [] cards) _ h in check_cards-IsAccepted cards b m

  -- Where a set of cards is registered, an identifier names one card of it.
  pub validate_registration_unique :
      (cards : List Card) (a b : Card)
      → validate_registration parse dev_mock cards ≡ ok tt
      → Memᴰ a cards
      → Memᴰ b cards
      → id a ≡ id b
      → a ≡ b
  unfolding validate_registration
  validate_registration_unique cards a b h m n e =
      let (u, d, _) = >>=-eq-ok (check_duplicates [] cards) _ h in
      check_duplicates-Distinct cards [] d m n e

  -- A registered card counts as local exactly where it declares the loopback interface and local
  -- requests only: for such a card the relay and egress rules leave nothing else to test.
  pub registered-is_local_capable :
      (cards : List Card) (card : Card)
      → validate_registration parse dev_mock cards ≡ ok tt
      → Memᴰ card cards
      → is_local_capable card ≡ (
          is_loopback card.component.provider.locality
          && is_local_only card.component.privacy_class)
  registered-is_local_capable cards card h m =
      let accepted = validate_registration-IsAccepted cards card h m in
      accepted_is_local_capable card accepted.relay accepted.policy.stays
