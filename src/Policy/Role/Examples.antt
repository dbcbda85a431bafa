-- ===== src/Policy/Role/Examples.antt =====
-- Model names that are read as roles.
use i_doris.Prelude.{◌≡◌, refl, some, ◌++◌}
use i_doris.Prelude.Equality.{codes}
use i_doris.Prelude.Results.{ok}
use i_doris.Policy.Role.{deep, as_str, parse_model_role}
use i_doris.Policy.Role.Parse.{parse_role_name}

parse_role_name_example :
    parse_model_role (codes " " ++ ((codes "IDoris/" ++ as_str deep) ++ codes "  "))
    ≡ ok (some deep)
parse_role_name_example =
    parse_role_name (codes " ") (codes "IDoris/") (codes "  ") deep refl refl refl
