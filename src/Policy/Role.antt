-- ===== src/Policy/Role.antt =====
-- crates/idoris-policy/src/role.rs: the role behind a model name `idoris/<role>`, and the catalogue
-- conditions of a candidate. A model name is a list of code points.
pub mod Parse
mod Examples
use i_doris.Prelude.{
  ℕ, ◌+◌, ◌-◌, Bool, true, false, not, ◌&&◌, ◌||◌, Option, none, some, List, [], ◌∷◌, ◌++◌, map,
  ◌>>=◌, ltb, leb, ◌==◌, if◌then◌else◌, any, length, ◌≡◌, arith,
}
use i_doris.Prelude.Equality.{Text, codes, text_eq}
use i_doris.Prelude.Text.{trim_matches}
use i_doris.Prelude.Float.{F64, is_nan}
use i_doris.Prelude.Float
use i_doris.Prelude.Results.{Result, ok, err}

pub data Role : Type 0 where
  fast daily deep vision embed rerank decide auto : Role

abbrev pub roles : List Role
roles = fast ∷ daily ∷ deep ∷ vision ∷ embed ∷ rerank ∷ decide ∷ auto ∷ []

abbrev pub as_str : Role → Text
as_str fast = codes "fast"
as_str daily = codes "daily"
as_str deep = codes "deep"
as_str vision = codes "vision"
as_str embed = codes "embed"
as_str rerank = codes "rerank"
as_str decide = codes "decide"
as_str auto = codes "auto"

find_role : Text → List Role → Option Role
find_role s [] = none
find_role s (r ∷ rs) = if text_eq (as_str r) s then some r else find_role s rs

pub from_exact : Text → Option Role
unfolding find_role
from_exact s = find_role s roles

abbrev pub is_catalog_role : Role → Bool
is_catalog_role auto = false
is_catalog_role _ = true

abbrev role_tag : Role → ℕ
role_tag fast = 0
role_tag daily = 1
role_tag deep = 2
role_tag vision = 3
role_tag embed = 4
role_tag rerank = 5
role_tag decide = 6
role_tag auto = 7

abbrev pub role_eq : Role → Role → Bool
role_eq a b = role_tag a == role_tag b

role_eq→eq : (a b : Role) → role_eq a b ≡ true → a ≡ b
role_eq→eq a b h = ground arith

pub record RoleParseError : Type 0 where
  pub requested : Text

abbrev pub max_requested_role_display_len : ℕ
max_requested_role_display_len = 64

-- `char::is_control`, the Unicode category Cc.
abbrev pub is_control : ℕ → Bool
is_control c = leb c 0x1f || leb 0x7f c && leb c 0x9f

abbrev clean_char : ℕ → ℕ
clean_char c = if is_control c then 0xfffd else c

-- `role_part.chars().take(n).map(clean_char)`.
take_clean : ℕ → Text → Text
take_clean n [] = []
take_clean n (c ∷ s) = let rest = take_clean (n - 1) s in if n == 0 then [] else clean_char c ∷ rest

pub role_parse_error : Text → RoleParseError
unfolding take_clean
role_parse_error role_part =
    let requested = take_clean max_requested_role_display_len role_part in
    record {
      requested =
          if ltb max_requested_role_display_len (length role_part)
          then requested ++ 0x2026 ∷ []
          else requested;
    }

abbrev pub idoris_prefix : Text
idoris_prefix = codes "idoris/"

abbrev pub is_ecmascript_whitespace : ℕ → Bool
is_ecmascript_whitespace c =
    leb 0x9 c && leb c 0xd
    || c == 0x20
    || c == 0xa0
    || c == 0x1680
    || leb 0x2000 c && leb c 0x200a
    || c == 0x2028
    || c == 0x2029
    || c == 0x202f
    || c == 0x205f
    || c == 0x3000
    || c == 0xfeff

-- The bytes of a character in UTF-8.
abbrev pub len_utf8 : ℕ → ℕ
len_utf8 c = if ltb c 0x80 then 1 else if ltb c 0x800 then 2 else if ltb c 0x10000 then 3 else 4

-- `s.get(..n)` with the rest behind it: none where `s` has fewer than `n` bytes, or where a
-- character straddles the cut.
pub split_at_byte : ℕ → Text → Option (Text × Text)
split_at_byte n [] = if n == 0 then some ([], []) else none
split_at_byte n (c ∷ s) =
    let rest = split_at_byte (n - len_utf8 c) s in
    if n == 0
    then some ([], c ∷ s)
    else if ltb n (len_utf8 c)
    then none
    else do (h, t) ← rest; some (c ∷ h, t)

abbrev pub to_ascii_lowercase : ℕ → ℕ
to_ascii_lowercase c = if leb b'A' c && leb c b'Z' then c + 32 else c

abbrev pub eq_ignore_ascii_case : Text → Text → Bool
eq_ignore_ascii_case s t = text_eq (map to_ascii_lowercase s) (map to_ascii_lowercase t)

-- `ok_or_else`: the role, or an error over the part that names none.
abbrev role_or_error : Text → Option Role → Result RoleParseError (Option Role)
role_or_error part (some r) = ok (some r)
role_or_error part none = err (role_parse_error part)

abbrev role_of_split : Option (Text × Text) → Result RoleParseError (Option Role)
role_of_split none = ok none
role_of_split (some (candidate, role_part)) =
    if eq_ignore_ascii_case candidate idoris_prefix
    then role_or_error role_part (from_exact role_part)
    else ok none

pub parse_model_role : Text → Result RoleParseError (Option Role)
unfolding split_at_byte
parse_model_role model =
    role_of_split
      (split_at_byte (length idoris_prefix) (trim_matches is_ecmascript_whitespace model))

unfoldable pub is_catalog_metadata_eligible : Bool → F64 → Option F64 → Bool
is_catalog_metadata_eligible experiment required none = not (experiment || is_nan required)
is_catalog_metadata_eligible experiment required (some available) =
    not (experiment || is_nan required) && not (is_nan available || Float.lt available required)

unfoldable pub is_role_metadata_eligible : Bool → F64 → List Role → Role → Option F64 → Bool
unfolding is_catalog_metadata_eligible
is_role_metadata_eligible experiment required rs role available =
    is_catalog_role role
    && is_catalog_metadata_eligible experiment required available
    && any (role_eq role) rs
