-- ===== src/Prelude/Float.antt =====
-- `f64`, as far as the program compares, adds and subtracts. `finite n` stands for n * 2 ^ -1074,
-- the unit of the smallest subnormal number, of which every finite `f64` is a multiple. Sums are
-- computed exactly and rounded to 53 binary digits, ties to even; a sum beyond the largest finite
-- number is infinite. The two zeros are one, since no comparison tells them apart.
use Prim.Native.Nat.{ℕ, zero, suc, ◌+◌, ◌-◌, ◌*◌, ◌/◌, ◌%◌, ◌^◌, max}
use mathlib.Core.Path.{◌≡◌, refl}
use mathlib.Core.Bool.{Bool, true, false, not, ◌&&◌}
use native.Mathlib.Omega.{arith}
use mathlib.Core.Logic.{inl, inr}
use i_doris.Prelude.Tests.{ltb, leb, ◌==◌, if◌then◌else◌, Bool-cases}
use i_doris.Prelude.Int.{ℤ, pos, negsuc, ◌+ℤ◌, ◌-ℤ◌, leb_ℤ, ltb_ℤ}

pub data F64 : Type 0 where
  nan : F64
  pos_infinity neg_infinity : F64
  finite : ℤ → F64

-- The number of binary digits, for a number below 2 ^ fuel.
bit_length : ℕ → ℕ → ℕ
bit_length zero n = 0
bit_length (suc fuel) n = elim (n == 0) [ true ↦ 0 | false ↦ suc (bit_length fuel (n / 2)) ]

-- Every exact sum has fewer than 2200 digits.
round_shift : ℕ → ℕ → ℕ
round_shift shift n =
    let unit = 2 ^ shift in
    let down = n / unit in
    let rest = n % unit * 2 in
    let up = if rest == unit then not (down % 2 == 0) else ltb unit rest in
    (if up then down + 1 else down) * unit

round_ℕ : ℕ → ℕ
unfolding bit_length round_shift
round_ℕ n =
    let digits = bit_length 2200 n in if leb digits 53 then n else round_shift (digits - 53) n

-- `f64::MAX` is (2 ^ 53 - 1) * 2 ^ 971.
max_units : ℕ
max_units = (2 ^ 53 - 1) * 2 ^ 2045

round_ℤ : ℤ → F64
unfolding round_ℕ max_units
round_ℤ (pos n) = let r = round_ℕ n in if leb r max_units then finite (pos r) else pos_infinity
round_ℤ (negsuc n) =
    let r = round_ℕ (suc n) in if leb r max_units then finite (pos 0 -ℤ pos r) else neg_infinity

unfoldable pub add : F64 → F64 → F64
unfolding round_ℤ ◌+ℤ◌ ◌-ℤ◌
add (finite a) (finite b) = round_ℤ (a +ℤ b)
add nan b = nan
add a nan = nan
add (finite a) b = b
add a (finite b) = a
add pos_infinity pos_infinity = pos_infinity
add neg_infinity neg_infinity = neg_infinity
add pos_infinity neg_infinity = nan
add neg_infinity pos_infinity = nan

neg : F64 → F64
unfolding ◌-ℤ◌
neg nan = nan
neg pos_infinity = neg_infinity
neg neg_infinity = pos_infinity
neg (finite a) = finite (pos 0 -ℤ a)

unfoldable pub sub : F64 → F64 → F64
unfolding add neg
sub a b = add a (neg b)

-- `a <= b` and `a < b`: false where one of the two is not a number.
abbrev pub le : F64 → F64 → Bool
le nan b = false
le (finite a) nan = false
le (finite a) (finite b) = leb_ℤ a b
le (finite a) pos_infinity = true
le (finite a) neg_infinity = false
le pos_infinity pos_infinity = true
le pos_infinity b = false
le neg_infinity nan = false
le neg_infinity b = true

abbrev pub lt : F64 → F64 → Bool
lt nan b = false
lt a nan = false
lt (finite a) (finite b) = ltb_ℤ a b
lt (finite a) pos_infinity = true
lt (finite a) neg_infinity = false
lt pos_infinity b = false
lt neg_infinity neg_infinity = false
lt neg_infinity b = true

abbrev pub is_nan : F64 → Bool
is_nan nan = true
is_nan _ = false

abbrev pub is_finite : F64 → Bool
is_finite (finite a) = true
is_finite _ = false

abbrev pub f64_eq : F64 → F64 → Bool
f64_eq a b = le a b && le b a

-- The significand of `finite (pos n)` in its encoding, and the exponent, counted from -1074.
unfoldable pub decode : ℕ → ℕ × ℕ
unfolding bit_length
decode n =
    let digits = bit_length 2200 n in
    if leb digits 53 then (n, 0) else (n / 2 ^ (digits - 53), digits - 53)

-- The `f64` nearest to n / d, ties to even, as a number of units of 2 ^ -1074: two more digits of
-- the quotient and a digit that says whether the rest is zero decide the rounding.
unfoldable pub nearest_quotient : ℕ → ℕ → F64
unfolding bit_length round_shift max_units
nearest_quotient n d =
    let q = n * 4 / d in
    let sticky = if n * 4 % d == 0 then q else q / 2 * 2 + 1 in
    let shift = max (bit_length 2200 sticky - 53) 2 in
    let r = round_shift shift sticky / 4 in if leb r max_units then finite (pos r) else pos_infinity

-- 1e-6, as the nearest `f64`.
unfoldable pub one_millionth : F64
one_millionth = finite (pos (4722366482869645 * 2 ^ 1002))

-- Of two numbers, the second finite, one is less than the other or at least as great.
pub le_of_not_lt :
    (a b : F64) → is_nan a ≡ false → is_finite b ≡ true → lt a b ≡ false → le b a ≡ true
le_of_not_lt nan b p q h = cc
le_of_not_lt pos_infinity nan p q h = cc
le_of_not_lt pos_infinity pos_infinity p q h = cc
le_of_not_lt pos_infinity neg_infinity p q h = cc
le_of_not_lt pos_infinity (finite b) p q h = refl
le_of_not_lt neg_infinity nan p q h = cc
le_of_not_lt neg_infinity pos_infinity p q h = cc
le_of_not_lt neg_infinity neg_infinity p q h = cc
le_of_not_lt neg_infinity (finite b) p q h = cc
le_of_not_lt (finite a) nan p q h = cc
le_of_not_lt (finite a) pos_infinity p q h = cc
le_of_not_lt (finite a) neg_infinity p q h = cc
le_of_not_lt (finite a) (finite b) p q h = ground arith

round_ℤ-is_nan : (z : ℤ) → is_nan (round_ℤ z) ≡ false
unfolding round_ℤ
round_ℤ-is_nan (pos n) = elim (Bool-cases (leb (round_ℕ n) max_units)) [
  | inl e ↦ rw e refl
  | inr e ↦ rw e refl
]
round_ℤ-is_nan (negsuc n) = elim (Bool-cases (leb (round_ℕ (suc n)) max_units)) [
  | inl e ↦ rw e refl
  | inr e ↦ rw e refl
]

-- A sum of finite numbers is a number.
pub add-is_nan : (a b : F64) → is_finite a ≡ true → is_finite b ≡ true → is_nan (add a b) ≡ false
unfolding add
add-is_nan nan b p q = cc
add-is_nan pos_infinity b p q = cc
add-is_nan neg_infinity b p q = cc
add-is_nan (finite a) nan p q = cc
add-is_nan (finite a) pos_infinity p q = cc
add-is_nan (finite a) neg_infinity p q = cc
add-is_nan (finite a) (finite b) p q = round_ℤ-is_nan (a +ℤ b)

units : ℕ → F64
units n = finite (pos (n * 2 ^ 1074))

one_and_two : add (units 1) (units 2) ≡ units 3
unfolding add units
one_and_two = refl

largest_doubled : add (finite (pos max_units)) (finite (pos max_units)) ≡ pos_infinity
unfolding add
largest_doubled = refl

absorbed : add (units (2 ^ 53)) (units 1) ≡ units (2 ^ 53)
unfolding add units
absorbed = refl

-- `f64::max` and `f64::min`: of a number and a NaN the number.
abbrev pub f64_max : F64 → F64 → F64
f64_max nan b = b
f64_max a nan = a
f64_max a b = if lt a b then b else a

abbrev pub f64_min : F64 → F64 → F64
f64_min nan b = b
f64_min a nan = a
f64_min a b = if lt b a then b else a
