-- ===== src/Policy/Breaker/RetryAfter.antt =====
-- crates/idoris-policy/src/breaker.rs, `parse_retry_after_ms`. The text is a list of code points:
-- all bytes of a character beyond ASCII fail the digit test, as the character itself does.
use i_doris.Prelude.{
  ℕ, ◌+◌, ◌-◌, ◌*◌, ◌≡◌, ap, true, not, ◌||◌, Option, none, some, [], ◌∷◌, ◌++◌, min, arith,
  if◌then◌else◌, all, is_empty, saturating_add, saturating_mul, u64_max,
}
use i_doris.Prelude.Equality.{Text}
use i_doris.Prelude.Text.{trim_matches, is_whitespace, is_ascii_digit, AllFail, trim_matches-padded}

seconds_from : ℕ → Text → ℕ
seconds_from seconds [] = seconds
seconds_from seconds (c ∷ digits) =
    seconds_from (saturating_add (saturating_mul seconds 10) (c - b'0')) digits

pub parse_retry_after_ms : Text → Option ℕ
unfolding seconds_from
parse_retry_after_ms raw =
    let digits = trim_matches is_whitespace raw in
    if is_empty digits || not (all is_ascii_digit digits)
    then none
    else some (saturating_mul (seconds_from 0 digits) 1000)

-- The number that a row of digits writes.
abbrev pub value_from : ℕ → Text → ℕ
value_from n [] = n
value_from n (c ∷ digits) = value_from (n * 10 + (c - b'0')) digits

seconds_from-value :
    (n : ℕ) (digits : Text)
    → seconds_from (min n u64_max) digits ≡ min (value_from n digits) u64_max
unfolding seconds_from
seconds_from-value n [] = omega arith
seconds_from-value n (c ∷ digits) =
    let e : saturating_add (saturating_mul (min n u64_max) 10) (c - b'0')
        ≡ min (n * 10 + (c - b'0')) u64_max =
      omega arith in
    rw e (seconds_from-value (n * 10 + (c - b'0')) digits)

digits_not_whitespace :
    (digits : Text) → all is_ascii_digit digits ≡ true → AllFail is_whitespace digits
digits_not_whitespace [] h = tt
digits_not_whitespace (c ∷ digits) h = (ground arith, digits_not_whitespace digits (ground arith))

-- A row of decimal digits, with white space on either side or none, is read as that many seconds
-- in milliseconds; a value beyond `u64` is `u64::MAX`.
pub parse_retry_after_value :
    (l r : Text) (c : ℕ) (digits : Text)
    → all is_whitespace l ≡ true
    → all is_ascii_digit (c ∷ digits) ≡ true
    → all is_whitespace r ≡ true
    → parse_retry_after_ms (l ++ (c ∷ digits ++ r))
      ≡ some (min (value_from 0 (c ∷ digits) * 1000) u64_max)
unfolding parse_retry_after_ms
parse_retry_after_value l r c digits hl hd hr =
    rw
      (trim_matches-padded is_whitespace l c digits r hl (digits_not_whitespace (c ∷ digits) hd) hr)
      (rw hd (ap some (omega (arith, seconds_from-value 0 (c ∷ digits)))))
