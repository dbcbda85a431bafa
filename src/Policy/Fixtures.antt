-- ===== src/Policy/Fixtures.antt =====
-- A card of a local model, for the tests.
use i_doris.Prelude.{true, false, none, some, [], ◌∷◌}
use i_doris.Prelude.Equality.{codes}
use i_doris.Prelude.Int.{pos}
use i_doris.Prelude.Float.{finite}
use i_doris.Contracts.{
  chat, local_only, Tier, http_service, Egress, Family, Locality, FallbackPolicy, on_demand,
  idle_ttl, coexist,
}
use i_doris.Policy.Role.{daily}
use i_doris.Policy.Card.{Card, ready}

abbrev pub local_card : Card
local_card = record {
  component = record {
    provider = record {
      id = codes "omlx";
      family = Family.local;
      tier = Tier.local;
      capabilities = chat ∷ [];
      privacy_class = local_only;
      locality = Locality.loopback;
      extensions = none;
    };
    form = http_service;
    endpoint = codes "http://127.0.0.1:8000";
    version_pin = codes "1";
    privacy_class = local_only;
    allowed_egress = Egress.loopback ∷ [];
    fallback_policy = FallbackPolicy.fail_closed;
    fail_closed = true;
    load_policy = some (record { mode = on_demand; keepalive = idle_ttl 60; admission = coexist });
    extensions = none;
  };
  roles = daily ∷ [];
  experiment = false;
  min_ram_gb = finite (pos 0);
  estimated_cost_minor = some (pos 0);
  admission_status = ready;
}
