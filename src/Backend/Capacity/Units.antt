-- ===== src/Backend/Capacity/Units.antt =====
-- crates/idoris-backend/src/global_capacity.rs: amounts of memory as whole units of 1e-9 GB.
pub mod Bounds
use i_doris.Prelude.{
  ℕ, ◌+◌, ◌-◌, ◌*◌, ◌/◌, ◌%◌, ◌^◌, Option, none, some, ltb, leb, ◌==◌, if◌then◌else◌, u128_max,
  checked_add_u128, checked_mul_u128, ◌>>=◌, ◌≡◌, refl, arith,
}
use i_doris.Prelude.Int.{ℤ, pos, negsuc}
use i_doris.Prelude.Float.{F64, nan, pos_infinity, neg_infinity, finite, decode, nearest_quotient}
use i_doris.Prelude.Results.{Result, ok, err}
use i_doris.Backend.Error.{BackendError, invalid_request}

abbrev pub capacity_units_per_gb : ℕ
capacity_units_per_gb = 1000000000

abbrev pub capacity_epsilon_units : ℕ
capacity_epsilon_units = 1000

pub data Rounding : Type 0 where
  down up : Rounding

-- The quotient by 2 ^ shift.
pub shift_right : Rounding → ℕ → ℕ → Option ℕ
shift_right down scaled shift = some (if leb 128 shift then 0 else scaled / 2 ^ shift)
shift_right up scaled shift =
    if leb 128 shift
    then some 1
    else if scaled % 2 ^ shift == 0
    then some (scaled / 2 ^ shift)
    else checked_add_u128 (scaled / 2 ^ shift) 1

-- `checked_shl` of 1 fails from 128 on.
pub shift_left : ℕ → ℕ → Option ℕ
shift_left scaled exponent =
    if leb 128 exponent then none else checked_mul_u128 scaled (2 ^ exponent)

-- A positive number, by its significand and its exponent counted from -1074.
pub scale : Rounding → ℕ × ℕ → Option ℕ
unfolding shift_right shift_left
scale rounding (significand, exponent) = do
  scaled ← checked_mul_u128 significand capacity_units_per_gb
  if leb 1074 exponent
      then shift_left scaled (exponent - 1074)
      else shift_right rounding scaled (1074 - exponent)

pub ok_or_range_error : Option ℕ → Result BackendError ℕ
ok_or_range_error none = err invalid_request
ok_or_range_error (some units) = ok units

unfoldable pub to_capacity_units : F64 → Rounding → Result BackendError ℕ
unfolding scale decode ok_or_range_error
to_capacity_units (finite (pos n)) rounding =
    if n == 0 then ok 0 else ok_or_range_error (scale rounding (decode n))
to_capacity_units _ rounding = err invalid_request

gb_of : F64 → F64
unfolding nearest_quotient
gb_of (finite (pos u)) = nearest_quotient u capacity_units_per_gb
gb_of other = other

-- The number of units as an `f64`, divided by 1e9.
pub units_to_gb : ℕ → F64
unfolding gb_of nearest_quotient
units_to_gb units = gb_of (nearest_quotient (units * 2 ^ 1074) 1)

half_a_gb : units_to_gb 500000000 ≡ finite (pos (2 ^ 1073))
unfolding units_to_gb
half_a_gb = refl

half_up : to_capacity_units (finite (pos (2 ^ 1073))) up ≡ ok 500000000
unfolding to_capacity_units
half_up = refl
