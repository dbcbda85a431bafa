-- ===== src/Tenancy/Budget/Amount.antt =====
-- crates/idoris-tenancy/src/budget/error.rs: amounts and times are `i64`, kept in their range by
-- clamping or by a check.
pub mod Sums
use i_doris.Prelude.{
  ◌+◌, ◌≤◌, ◌<◌, ◌≡◌, Bool, true, false, Option, none, some, List, [], ◌∷◌, if◌then◌else◌, ◌>>=◌,
}
use i_doris.Prelude.Int.{ℤ, pos, negsuc, pos_part, neg_part, ◌+ℤ◌, ◌-ℤ◌, ltb_ℤ, ◌≤ℤ◌, int_laws}

abbrev pub i64_max : ℤ
i64_max = pos 9223372036854775807

abbrev i64_min : ℤ
i64_min = negsuc 9223372036854775807

-- `i128::clamp` to the range of `i64`.
abbrev pub clamp_i64 : ℤ → ℤ
clamp_i64 a = if ltb_ℤ i64_max a then i64_max else if ltb_ℤ a i64_min then i64_min else a

unfoldable pub checked_sub_i64 : ℤ → ℤ → ℤ
checked_sub_i64 a b = clamp_i64 (a -ℤ b)

unfoldable pub checked_add_i64 : ℤ → ℤ → ℤ
checked_add_i64 a b = clamp_i64 (a +ℤ b)

-- What the standard library's checked operations return.
abbrev fit_i64 : ℤ → Option ℤ
fit_i64 a = if ltb_ℤ i64_max a then none else if ltb_ℤ a i64_min then none else some a

unfoldable pub checked_add : ℤ → ℤ → Option ℤ
checked_add a b = fit_i64 (a +ℤ b)

-- Four times an amount, in `i128`, and `checked_mul(4)`.
unfoldable pub times_four : ℤ → ℤ
times_four a = a +ℤ a +ℤ (a +ℤ a)

unfoldable pub checked_mul_four : ℤ → Option ℤ
checked_mul_four a = fit_i64 (times_four a)

-- `max(0)`.
abbrev pub at_least_zero : ℤ → ℤ
at_least_zero a = pos (pos_part a)

-- The sum of SQL over a column of integers, which fails where a partial sum overflows.
unfoldable pub sum_from : ℤ → List ℤ → Option ℤ
sum_from total [] = some total
sum_from total (a ∷ rest) = checked_add total a >>= λ next. sum_from next rest
