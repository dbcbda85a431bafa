-- ===== src/Policy/Budget.antt =====
-- crates/idoris-policy/src/budget.rs: a tenant's budget as the pipeline reads it. Amounts are `i64`.
use i_doris.Prelude.{ℕ, ◌-◌, ◌%◌, ◌≡◌, Bool, Option, ltb, if◌then◌else◌, arith}
use i_doris.Prelude.Int.{ℤ, -ℤ_parts, pos, negsuc, ◌-ℤ◌, leb_ℤ, ◌≤ℤ◌}
use i_doris.Contracts.{BudgetScope}
use i_doris.Prelude.Equality.{Text}

-- Two's complement of 64 bits, which a release build wraps to.
from_bits : ℕ → ℤ
from_bits n = if ltb n 9223372036854775808 then pos n else negsuc (18446744073709551615 - n)

wrap_i64 : ℤ → ℤ
unfolding from_bits
wrap_i64 (pos n) = from_bits (n % 18446744073709551616)
wrap_i64 (negsuc n) = from_bits (18446744073709551615 - n % 18446744073709551616)

pub record BudgetSnapshot : Type 0 where
  pub limit_minor : ℤ
  pub spent_minor : ℤ
  pub scope : BudgetScope

unfoldable pub is_over : BudgetSnapshot → Bool
is_over s = leb_ℤ s.limit_minor s.spent_minor

unfoldable pub balance_minor : BudgetSnapshot → ℤ
unfolding wrap_i64 ◌-ℤ◌
balance_minor s = wrap_i64 (s.limit_minor -ℤ s.spent_minor)

-- The trait `BudgetView`, by what its one method answers.
abbrev pub BudgetView : Type 0
BudgetView = Text → Option BudgetSnapshot

-- Within the range of `i64` nothing is wrapped.
wrap_i64_exact :
    (z : ℤ) → negsuc 9223372036854775807 ≤ℤ z → z ≤ℤ pos 9223372036854775807 → wrap_i64 z ≡ z
unfolding wrap_i64
wrap_i64_exact (pos n) h k = ground arith
wrap_i64_exact (negsuc n) h k = ground arith

-- One number is at most another where their difference is not positive.
over_by_difference : (a b : ℤ) → leb_ℤ a b ≡ leb_ℤ (a -ℤ b) (pos 0)
over_by_difference a b = ground (arith, -ℤ_parts a b)

-- Where the limit less what is spent is in the range of `i64`, the balance is that difference, and
-- the budget is over exactly where the balance is not positive.
pub balance_minor_exact :
    (s : BudgetSnapshot)
    → negsuc 9223372036854775807 ≤ℤ s.limit_minor -ℤ s.spent_minor
    → s.limit_minor -ℤ s.spent_minor ≤ℤ pos 9223372036854775807
    → (balance_minor s ≡ s.limit_minor -ℤ s.spent_minor)
      × (is_over s ≡ leb_ℤ (balance_minor s) (pos 0))
unfolding balance_minor is_over
balance_minor_exact s h k =
    let e = wrap_i64_exact (s.limit_minor -ℤ s.spent_minor) h k in
    (e, rw e (over_by_difference s.limit_minor s.spent_minor))
