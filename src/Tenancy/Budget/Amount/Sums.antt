-- ===== src/Tenancy/Budget/Amount/Sums.antt =====
-- crates/idoris-tenancy/src/budget/error.rs: what the sums over `i64` amounts come to.
use i_doris.Prelude.{◌≡◌, some, List, [], ◌∷◌, >>=-eq-some}
use i_doris.Prelude.Int.{ℤ, pos, ◌+ℤ◌, ◌≤ℤ◌, int_laws}
use i_doris.Tenancy.Budget.Amount.{i64_max, checked_add, sum_from}

pub +ℤ_zero : (a : ℤ) → a +ℤ pos 0 ≡ a
+ℤ_zero a = grind int_laws

pub zero_+ℤ : (a : ℤ) → pos 0 +ℤ a ≡ a
zero_+ℤ a = grind int_laws

pub +ℤ_assoc : (a b c : ℤ) → a +ℤ b +ℤ c ≡ a +ℤ (b +ℤ c)
+ℤ_assoc a b c = grind int_laws

-- A sum that is checked is exact.
pub checked_add_exact : (a b : ℤ) {c : ℤ} → checked_add a b ≡ some c → (c ≡ a +ℤ b) × (c ≤ℤ i64_max)
unfolding checked_add
checked_add_exact a b h = (grind int_laws, grind int_laws)

abbrev pub total : List ℤ → ℤ
total [] = pos 0
total (a ∷ rest) = a +ℤ total rest

-- A sum that is not refused is exact.
pub sum_from-total : (t : ℤ) (xs : List ℤ) {r : ℤ} → sum_from t xs ≡ some r → r ≡ t +ℤ total xs
unfolding sum_from
sum_from-total t [] h = grind int_laws
sum_from-total t (x ∷ xs) h =
    let (next, e, k) = >>=-eq-some (checked_add t x) (λ n. sum_from n xs) h in
    let ih = sum_from-total next xs k in
    let (f, b) = checked_add_exact t x e in rw ih (rw f (+ℤ_assoc t x (total xs)))
