-- ===== src/Backend/Capacity/Units/Bounds.antt =====
-- The two roundings of an amount to units are the nearest below and the nearest above.
use i_doris.Prelude.{
  ℕ, suc, zero, ◌+◌, ◌-◌, ◌*◌, ◌/◌, ◌%◌, ◌^◌, ◌≤◌, ◌<◌, ◌≡◌, sym, ap, ◌∙◌, false, Option, none,
  some, leb, ◌==◌, u128_max, checked_add_u128, checked_mul_u128, >>=-eq-some, arith, Bool-cases,
  inl, inr, some_eq,
}
use native.Mathlib.Nat.{
  pow-suc, mul_assoc, mul_right_comm, add-mul, div-mul-le_self, lt-div-mul-add, mul-le-mul_right,
  mul-lt-mul_of_pos_right, mul-pos, zero-mul, one-mul, pow-le-pow_right,
}
use i_doris.Prelude.Int.{pos}
use i_doris.Prelude.Float.{finite, decode}
use i_doris.Prelude.Results.{ok}
use i_doris.Backend.Capacity.Units.{
  capacity_units_per_gb, Rounding, down, up, shift_right, shift_left, scale, ok_or_range_error,
  to_capacity_units,
}

pow_add : (a b : ℕ) → 2 ^ (a + b) ≡ 2 ^ a * 2 ^ b
pow_add a zero = grind arith
pow_add a (suc b) =
    let e : a + suc b ≡ suc (a + b) = omega arith in
    rw (e, pow-suc 2 (a + b), pow-suc 2 b, pow_add a b) (mul_assoc (2 ^ a) (2 ^ b) 2)

pow_positive : (a : ℕ) → 0 < 2 ^ a
pow_positive zero = omega arith
pow_positive (suc a) = rw (pow-suc 2 a) (omega (arith, pow_positive a))

scaled_below : (x d p : ℕ) → x / d * (d * p) ≤ x * p
scaled_below x d p = rw (← mul_assoc (x / d) d p) (mul-le-mul_right p (div-mul-le_self x d))

scaled_above : (x d p : ℕ) → 0 < d → 0 < p → x * p < x / d * (d * p) + d * p
scaled_above x d p hd hp =
    rw (← mul_assoc (x / d) d p)
      (rw (← add-mul (x / d * d) d p) (mul-lt-mul_of_pos_right (lt-div-mul-add hd) hp))

scaled_exact : (x d p : ℕ) → x % d ≡ 0 → x / d * (d * p) ≡ x * p
scaled_exact x d p h = rw (← mul_assoc (x / d) d p) (ap (λ y. y * p) (omega (arith, h)))

scaled_strict : (x d p : ℕ) → 0 < x % d → 0 < p → x / d * (d * p) < x * p
scaled_strict x d p h hp =
    rw (← mul_assoc (x / d) d p) (mul-lt-mul_of_pos_right (omega (arith, h)) hp)

checked_sum : (x y z : ℕ) → checked_add_u128 x y ≡ some z → z ≡ x + y
checked_sum x y z h = ground arith

checked_product : (x y z : ℕ) → checked_mul_u128 x y ≡ some z → (z ≡ x * y) × (z ≤ u128_max)
checked_product x y z h = ground arith

-- `u` is the whole number of pieces of `piece` nearest to `amount`, from below or from above.
abbrev pub IsNearest : Rounding → ℕ → ℕ → ℕ → Type 0
IsNearest down piece amount u = (u * piece ≤ amount) × (amount < u * piece + piece)
IsNearest up piece amount u = (amount ≤ u * piece) × (u * piece < amount + piece)

module _ (x shift p : ℕ) (positive : 0 < x) (bounded : x ≤ u128_max) (hp : 0 < p) where
  far : 128 ≤ shift → x * p < 2 ^ shift * p
  far h =
      let wide : 2 ^ 128 ≤ 2 ^ shift = pow-le-pow_right (omega arith) h in
      mul-lt-mul_of_pos_right (omega (arith, wide, bounded)) hp

  shift_down-IsNearest :
      (u : ℕ) → shift_right down x shift ≡ some u → IsNearest down (2 ^ shift * p) (x * p) u
  unfolding shift_right
  shift_down-IsNearest u h = elim (Bool-cases (leb 128 shift)) [
    | inl e ↦
        let zero_units : u ≡ 0 = sym (some_eq (rw e at h)) in
        rw zero_units
          (rw (zero-mul (2 ^ shift * p)) (omega arith, omega (arith, far (ground arith))))
    | inr e ↦
        let quotient : x / 2 ^ shift ≡ u = some_eq (rw e at h) in
        rw (← quotient)
          (scaled_below x (2 ^ shift) p, scaled_above x (2 ^ shift) p (pow_positive shift) hp)
  ]

  shift_up-IsNearest :
      (u : ℕ) → shift_right up x shift ≡ some u → IsNearest up (2 ^ shift * p) (x * p) u
  unfolding shift_right
  shift_up-IsNearest u h = elim (Bool-cases (leb 128 shift)) [
    | inl e ↦
        let one_unit : u ≡ 1 = sym (some_eq (rw e at h)) in
        let some_amount = mul-pos positive hp in
        rw one_unit (
          rw (one-mul (2 ^ shift * p))
            (omega (arith, far (ground arith)), omega (arith, some_amount)))
    | inr e ↦ elim (Bool-cases (x % 2 ^ shift == 0)) [
      | inl whole ↦
          let quotient : x / 2 ^ shift ≡ u = some_eq (rw whole at (rw e at h)) in
          let exact = scaled_exact x (2 ^ shift) p (ground arith) in
          let piece = mul-pos (pow_positive shift) hp in
          rw (← quotient) (omega (arith, exact), omega (arith, exact, piece))
      | inr part ↦
          let next : u ≡ x / 2 ^ shift + 1 =
            checked_sum (x / 2 ^ shift) 1 u (rw part at (rw e at h)) in
          let above = scaled_above x (2 ^ shift) p (pow_positive shift) hp in
          let strict = scaled_strict x (2 ^ shift) p (ground arith) hp in
          let one_more =
            rw (one-mul (2 ^ shift * p)) at (add-mul (x / 2 ^ shift) 1 (2 ^ shift * p)) in
          rw next (omega (arith, above, one_more), omega (arith, strict, one_more))
    ]
  ]

shift_right-IsNearest :
    (r : Rounding) (x shift p u : ℕ)
    → 0 < x
    → x ≤ u128_max
    → 0 < p
    → shift_right r x shift ≡ some u
    → IsNearest r (2 ^ shift * p) (x * p) u
shift_right-IsNearest down x shift p u a b c h = shift_down-IsNearest x shift p a b c u h
shift_right-IsNearest up x shift p u a b c h = shift_up-IsNearest x shift p a b c u h

-- A number of pieces that is exact is the nearest either way.
exact-IsNearest :
    (r : Rounding) (piece amount u : ℕ)
    → 0 < piece
    → amount ≡ u * piece
    → IsNearest r piece amount u
exact-IsNearest down piece amount u h e = (omega (arith, e), omega (arith, e))
exact-IsNearest up piece amount u h e = (omega (arith, e), omega (arith, e))

shift_left-exact : (x e u k : ℕ) → e + 1074 ≡ k → shift_left x e ≡ some u → x * 2 ^ k ≡ u * 2 ^ 1074
unfolding shift_left
shift_left-exact x e u k q h = elim (Bool-cases (leb 128 e)) [
  | inl big ↦ cc (rw big at h)
  | inr small ↦
      let product = (checked_product x (2 ^ e) u (rw small at h)).0 in
      rw (product, ← q, pow_add e 1074) (sym (mul_assoc x (2 ^ e) (2 ^ 1074)))
]

scale-IsNearest :
    (r : Rounding) (s k u : ℕ)
    → 0 < s
    → scale r (s, k) ≡ some u
    → IsNearest r (2 ^ 1074) (s * capacity_units_per_gb * 2 ^ k) u
unfolding scale
scale-IsNearest r s k u positive h =
    let (x, a, h₁) = >>=-eq-some (checked_mul_u128 s capacity_units_per_gb) _ h in
    let (product, bounded) = checked_product s capacity_units_per_gb x a in
    rw (← product) (elim (Bool-cases (leb 1074 k)) [
      | inl e ↦
          exact-IsNearest r (2 ^ 1074) (x * 2 ^ k) u (pow_positive 1074)
            (shift_left-exact x (k - 1074) u k (ground arith) (rw e at h₁))
      | inr e ↦
          let width : 1074 - k + k ≡ 1074 = ground arith in
          let whole : 2 ^ (1074 - k) * 2 ^ k ≡ 2 ^ 1074 =
            sym (pow_add (1074 - k) k) ∙ ap (λ i. 2 ^ i) width in
          rw whole at (
            shift_right-IsNearest r x (1074 - k) (2 ^ k) u (omega (arith, product, positive))
              bounded (pow_positive k) (rw e at h₁))
    ])

ok_or_range_error-ok : (units : Option ℕ) (u : ℕ) → ok_or_range_error units ≡ ok u → units ≡ some u
unfolding ok_or_range_error
ok_or_range_error-ok none u h = cc h
ok_or_range_error-ok (some v) u h = cc h

-- A positive amount that is converted to units, given as `s * 2 ^ k` with the significand and the exponent that `decode` finds and counted in pieces of 2 ^ -1074, becomes the whole number of units nearest to it from the side the rounding asks for: no unit is gained or lost to the shifts, and the error is under one unit.
pub to_capacity_units-IsNearest :
    (r : Rounding) (n s k u : ℕ)
    → decode n ≡ (s, k)
    → n ≡ s * 2 ^ k
    → 0 < s
    → to_capacity_units (finite (pos n)) r ≡ ok u
    → IsNearest r (2 ^ 1074) (n * capacity_units_per_gb) u
unfolding to_capacity_units
to_capacity_units-IsNearest r n s k u parts amount positive h =
    let nonzero : 0 < n = rw amount (mul-pos positive (pow_positive k)) in
    let test : (n == 0) ≡ false = ground arith in
    let scaled = ok_or_range_error-ok (scale r (s, k)) u (rw (test, parts) at h) in
    let swapped : s * capacity_units_per_gb * 2 ^ k ≡ n * capacity_units_per_gb =
      rw amount (mul_right_comm s capacity_units_per_gb (2 ^ k)) in
    rw swapped at (scale-IsNearest r s k u positive scaled)
