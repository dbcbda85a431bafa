-- ===== src/Tenancy/Budget/Zones.antt =====
-- crates/idoris-contracts/src/tenant.rs, `is_iana_time_zone`: the names of zones that are accepted.
-- A text is the list of its code points.
use i_doris.Prelude.{Bool, false, not, ◌&&◌, ◌||◌, List, [], ◌∷◌, ◌==◌, is_empty, any}
use i_doris.Prelude.Equality.{Text, text_eq, codes}

abbrev known_iana_time_zones : List Text
known_iana_time_zones =
    codes "UTC"
    ∷ codes "Asia/Bangkok"
    ∷ codes "Asia/Shanghai"
    ∷ codes "Asia/Tokyo"
    ∷ codes "Asia/Singapore"
    ∷ codes "Europe/London"
    ∷ codes "Europe/Berlin"
    ∷ codes "America/New_York"
    ∷ codes "America/Los_Angeles"
    ∷ codes "Australia/Sydney"
    ∷ []

abbrev starts_with_sign : Text → Bool
starts_with_sign [] = false
starts_with_sign (c ∷ rest) = c == b'+' || c == b'-' || c == 0x2212

unfoldable pub is_iana_time_zone : Text → Bool
is_iana_time_zone value =
    not (is_empty value)
    && not (starts_with_sign value)
    && any (text_eq value) known_iana_time_zones
