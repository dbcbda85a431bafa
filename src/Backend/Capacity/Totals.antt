-- ===== src/Backend/Capacity/Totals.antt =====
-- What the operations on the map of allocations do to its entries and to its total.
use i_doris.Prelude.{
  ℕ, ◌+◌, ◌≡◌, ◌≢◌, refl, ap, Option, none, some, [], ◌∷◌, arith, Bool-cases, inl, inr, leb,
  u128_max, some_eq,
}
use i_doris.Prelude.Equality.{Text, text_eq, text_eq→eq, text_eq_refl}
use i_doris.Backend.Capacity.{
  CapacityAllocation, Allocations, get, insert, remove, total_from, exact_total_units, units_of,
  set,
}

-- The total without bound.
abbrev pub sum_units : Allocations → ℕ
sum_units [] = 0
sum_units ((k, a) ∷ rest) = a.charged_units + sum_units rest

total_from-sum : (xs : Allocations) (t r : ℕ) → total_from t xs ≡ some r → r ≡ t + sum_units xs
unfolding total_from
total_from-sum [] t r h = omega (arith, some_eq h)
total_from-sum ((k, a) ∷ xs) t r h = elim (Bool-cases (leb (t + a.charged_units) u128_max)) [
  | inl e ↦ omega (arith, total_from-sum xs (t + a.charged_units) r (rw (e, total_from) at h))
  | inr e ↦ cc (rw (e, total_from) at h)
]

pub exact_total_units-sum :
    (xs : Allocations) (r : ℕ) → exact_total_units xs ≡ some r → r ≡ sum_units xs
exact_total_units-sum xs r h = omega (arith, total_from-sum xs 0 r h)

pub sum-insert :
    (key : Text) (a : CapacityAllocation) (xs : Allocations)
    → sum_units (insert key a xs) + units_of (get key xs) ≡ sum_units xs + a.charged_units
unfolding insert
sum-insert key a [] = omega arith
sum-insert key a ((k, b) ∷ xs) =
    let ih = sum-insert key a xs in
    elim (Bool-cases (text_eq k key)) [
      | inl e ↦ rw e (omega arith)
      | inr e ↦ rw e (omega (arith, ih))
    ]

pub sum-remove :
    (key : Text) (xs : Allocations)
    → sum_units (remove key xs) + units_of (get key xs) ≡ sum_units xs
unfolding remove
sum-remove key [] = omega arith
sum-remove key ((k, b) ∷ xs) =
    let ih = sum-remove key xs in
    elim (Bool-cases (text_eq k key)) [
      | inl e ↦ rw e (omega arith)
      | inr e ↦ rw e (omega (arith, ih))
    ]

pub sum-set :
    (key : Text) (next : Option CapacityAllocation) (xs : Allocations)
    → sum_units (set key next xs) + units_of (get key xs) ≡ sum_units xs + units_of next
sum-set key none xs = omega (arith, sum-remove key xs)
sum-set key (some a) xs = sum-insert key a xs

pub get-insert :
    (key : Text) (a : CapacityAllocation) (xs : Allocations) → get key (insert key a xs) ≡ some a
unfolding insert
get-insert key a [] = rw (text_eq_refl key) refl
get-insert key a ((k, b) ∷ xs) = elim (Bool-cases (text_eq k key)) [
  | inl e ↦ rw e (rw e refl)
  | inr e ↦ rw e (rw e (get-insert key a xs))
]

pub get-insert_ne :
    (key j : Text) (a : CapacityAllocation) (xs : Allocations)
    → key ≢ j
    → get j (insert key a xs) ≡ get j xs
unfolding insert
get-insert_ne key j a [] n = ground (arith, text_eq→eq key j)
get-insert_ne key j a ((k, b) ∷ xs) n =
    ground (arith, text_eq→eq k key, text_eq→eq k j, get-insert_ne key j a xs n)

get-remove_ne : (key j : Text) (xs : Allocations) → key ≢ j → get j (remove key xs) ≡ get j xs
unfolding remove
get-remove_ne key j [] n = refl
get-remove_ne key j ((k, b) ∷ xs) n =
    ground (arith, text_eq→eq k key, text_eq→eq k j, get-remove_ne key j xs n)

get-set_ne :
    (key j : Text) (next : Option CapacityAllocation) (xs : Allocations)
    → key ≢ j
    → get j (set key next xs) ≡ get j xs
get-set_ne key j none xs n = get-remove_ne key j xs n
get-set_ne key j (some a) xs n = get-insert_ne key j a xs n

-- What was put at a new key is taken away without a trace.
pub remove-insert :
    (key : Text) (a : CapacityAllocation) (xs : Allocations)
    → get key xs ≡ none
    → remove key (insert key a xs) ≡ xs
unfolding remove insert
remove-insert key a [] h = rw (text_eq_refl key) refl
remove-insert key a ((k, b) ∷ xs) h = elim (Bool-cases (text_eq k key)) [
  | inl e ↦ cc (rw e at h)
  | inr e ↦ rw e (rw e (ap (λ r. (k, b) ∷ r) (remove-insert key a xs (rw e at h))))
]
