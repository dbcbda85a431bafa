-- ===== src/Policy/Role/Parse.antt =====
-- What `parse_model_role` accepts and what it reports.
use i_doris.Prelude.{
  ℕ, suc, ◌-◌, ◌≤◌, ◌<◌, ◌≡◌, refl, sym, ap, ◌∙◌, Bool, true, false, not, Option, none, some, List,
  [], ◌∷◌, ◌++◌, map, arith, all, length, ltb, Bool-cases, some_eq, none≢some, ◌≢◌, inl, inr,
  length-append,
}
use i_doris.Prelude.Equality.{Text, text_eq, text_eq→eq}
use i_doris.Prelude.Text.{trim_matches, trim_matches-padded, AllFail}
use i_doris.Prelude.Results.{Result, ok, err}
use i_doris.Policy.Role.{
  Role, fast, roles, as_str, find_role, from_exact, RoleParseError, is_control, take_clean,
  role_parse_error, idoris_prefix, is_ecmascript_whitespace, len_utf8, split_at_byte,
  to_ascii_lowercase, eq_ignore_ascii_case, role_or_error, role_of_split, parse_model_role,
}

from_exact-as_str : (role : Role) → from_exact (as_str role) ≡ some role
unfolding from_exact
from_exact-as_str fast = refl
from_exact-as_str _ = refl

-- A character that lowers to an ASCII character is one byte.
len_utf8_lowered : (c d : ℕ) → d < 128 → to_ascii_lowercase c ≡ d → len_utf8 c ≡ 1
len_utf8_lowered c d h e = ground arith

abbrev AllAscii : Text → Type 0
AllAscii [] = Unit {0}
AllAscii (c ∷ s) = (c < 128) × AllAscii s

split_at_prefix :
    (p q rest : Text)
    → AllAscii q
    → text_eq (map to_ascii_lowercase p) q ≡ true
    → split_at_byte (length q) (p ++ rest) ≡ some (p, rest)
unfolding split_at_byte
split_at_prefix [] [] [] a h = refl
split_at_prefix [] [] (x ∷ rest) a h = refl
split_at_prefix [] (d ∷ q) rest a h = cc
split_at_prefix (c ∷ p) [] rest a h = cc
split_at_prefix (c ∷ p) (d ∷ q) rest a h =
    let one : len_utf8 c ≡ 1 = len_utf8_lowered c d a.0 (ground arith) in
    let ih = split_at_prefix p q rest a.1 (ground arith) in
    let shorter : suc (length q) - 1 ≡ length q = omega arith in
    rw one (rw shorter (rw ih (ground arith)))

lowered_not_space :
    (c d : ℕ)
    → is_ecmascript_whitespace d ≡ false
    → to_ascii_lowercase c ≡ d
    → is_ecmascript_whitespace c ≡ false
lowered_not_space c d h e = ground arith

AllFail-of_all : (p : ℕ → Bool) (s : Text) → all (λ c. not (p c)) s ≡ true → AllFail p s
AllFail-of_all p [] h = tt
AllFail-of_all p (c ∷ s) h = (ground arith, AllFail-of_all p s (ground arith))

AllFail-append : (p : ℕ → Bool) (s t : Text) → AllFail p s → AllFail p t → AllFail p (s ++ t)
AllFail-append p [] t f g = g
AllFail-append p (c ∷ s) t f g = (f.0, AllFail-append p s t f.1 g)

AllFail-lowered :
    (p q : Text)
    → AllFail is_ecmascript_whitespace q
    → text_eq (map to_ascii_lowercase p) q ≡ true
    → AllFail is_ecmascript_whitespace p
AllFail-lowered [] q f h = tt
AllFail-lowered (c ∷ p) [] f h = cc
AllFail-lowered (c ∷ p) (d ∷ q) f h =
    (lowered_not_space c d f.0 (ground arith), AllFail-lowered p q f.1 (ground arith))

as_str_no_space : (role : Role) → all (λ c. not (is_ecmascript_whitespace c)) (as_str role) ≡ true
as_str_no_space fast = refl
as_str_no_space _ = refl

-- A model name that is the prefix `idoris/`, in any mixture of cases, and the name of a role, with
-- or without ECMAScript white space on either side, is read as that role.
pub parse_role_name :
    (l p r : Text) (role : Role)
    → all is_ecmascript_whitespace l ≡ true
    → eq_ignore_ascii_case p idoris_prefix ≡ true
    → all is_ecmascript_whitespace r ≡ true
    → parse_model_role (l ++ ((p ++ as_str role) ++ r)) ≡ ok (some role)
unfolding parse_model_role
parse_role_name l [] r role hl hp hr = cc
parse_role_name l (c ∷ p) r role hl hp hr =
    let f =
      AllFail-append is_ecmascript_whitespace (c ∷ p) (as_str role)
        (AllFail-lowered (c ∷ p) idoris_prefix
          (AllFail-of_all is_ecmascript_whitespace idoris_prefix refl) hp)
        (AllFail-of_all is_ecmascript_whitespace (as_str role) (as_str_no_space role)) in
    unfold parse_model_role in
    rw
      (
        trim_matches-padded is_ecmascript_whitespace l c (p ++ as_str role) r hl f hr,
        parse_model_role,
      )
      (rw (split_at_prefix (c ∷ p) idoris_prefix (as_str role) (omega arith) hp)
        (rw hp (rw (from_exact-as_str role) refl)))

find_role-as_str :
    (s : Text) (rs : List Role) (role : Role) → find_role s rs ≡ some role → s ≡ as_str role
unfolding find_role
find_role-as_str s [] role h = cc
find_role-as_str s (r ∷ rs) role h = elim (Bool-cases (text_eq (as_str r) s)) [
  | inl e ↦ sym (text_eq→eq (as_str r) s e) ∙ ap as_str (some_eq (rw e at h))
  | inr e ↦ find_role-as_str s rs role (rw e at h)
]

take_clean_lem :
    (n : ℕ) (s : Text)
    → (all (λ c. not (is_control c)) (take_clean n s) ≡ true) × (length (take_clean n s) ≤ n)
unfolding take_clean
take_clean_lem n [] = (refl, omega arith)
take_clean_lem n (c ∷ s) = ground (arith, take_clean_lem (n - 1) s)

all-snoc :
    (p : ℕ → Bool) (s : Text) (c : ℕ) → all p s ≡ true → p c ≡ true → all p (s ++ c ∷ []) ≡ true
all-snoc p [] c h k = ground arith
all-snoc p (d ∷ s) c h k = ground (arith, all-snoc p s c)

abbrev is_clean : ℕ → Bool
is_clean c = not (is_control c)

role_parse_error_lem :
    (part : Text)
    → (all is_clean (role_parse_error part).requested ≡ true)
      × (length (role_parse_error part).requested ≤ 65)
unfolding role_parse_error
role_parse_error_lem part =
    let (clean, short) = take_clean_lem 64 part in
    elim (Bool-cases (ltb 64 (length part))) [
      | inl long ↦ rw long (
        all-snoc is_clean (take_clean 64 part) 0x2026 clean refl,
        omega (arith, length-append (take_clean 64 part) (0x2026 ∷ [])),
      )
      | inr fits ↦ rw fits (clean, omega arith)
    ]

-- What an answer says of the prefix and of the part behind it.
abbrev pub Answers : Option (Text × Text) → Result RoleParseError (Option Role) → Type 0
Answers none (ok none) = Unit {0}
Answers none (ok (some role)) = ⊥
Answers none (err e) = ⊥
Answers (some (candidate, part)) (ok none) = eq_ignore_ascii_case candidate idoris_prefix ≡ false
Answers (some (candidate, part)) (ok (some role)) =
    (eq_ignore_ascii_case candidate idoris_prefix ≡ true) × (part ≡ as_str role)
Answers (some (candidate, part)) (err e) =
    (eq_ignore_ascii_case candidate idoris_prefix ≡ true)
    × ((role : Role) → part ≢ as_str role)
    × (all is_clean e.requested ≡ true)
    × (length e.requested ≤ 65)

from_exact_none : (part : Text) → from_exact part ≡ none → (role : Role) → part ≢ as_str role
from_exact_none part h role e = none≢some (sym (rw e at h) ∙ from_exact-as_str role)

role_or_error-Answers :
    (candidate part : Text) (o : Option Role)
    → eq_ignore_ascii_case candidate idoris_prefix ≡ true
    → from_exact part ≡ o
    → Answers (some (candidate, part)) (role_or_error part o)
unfolding from_exact
role_or_error-Answers candidate part none h e =
    let clean = role_parse_error_lem part in (h, from_exact_none part e, clean.0, clean.1)
role_or_error-Answers candidate part (some role) h e = (h, find_role-as_str part roles role e)

role_of_split-Answers : (o : Option (Text × Text)) → Answers o (role_of_split o)
role_of_split-Answers none = tt
role_of_split-Answers (some (candidate, part)) =
    elim (Bool-cases (eq_ignore_ascii_case candidate idoris_prefix)) [
      | inl h ↦ rw h (role_or_error-Answers candidate part (from_exact part) h refl)
      | inr h ↦ rw h h
    ]

-- A model name is no role request where its first seven bytes, white space trimmed, are not the
-- prefix `idoris/` in some mixture of cases; behind the prefix a role is answered for its exact name
-- only; any other text fails, and what is reported of it holds no control character and at most 65
-- characters.
pub parse_model_role-Answers :
    (model : Text)
    → Answers
        (split_at_byte 7 (trim_matches is_ecmascript_whitespace model))
        (parse_model_role model)
unfolding parse_model_role
parse_model_role-Answers model =
    role_of_split-Answers (split_at_byte 7 (trim_matches is_ecmascript_whitespace model))
