-- ===== src/Prelude/Lists.antt =====
-- Lists measured by native numbers and searched by Boolean tests, under the library's names.
use Prim.Native.Nat.{ℕ, suc, ◌+◌}
use mathlib.Core.Path.{◌≡◌, refl}
use mathlib.Core.Logic.{◌⊎◌, inl, inr}
use mathlib.Core.Bool.{Bool, true, false, ◌&&◌, ◌||◌}
use mathlib.Core.List.{List, [], ◌∷◌, ◌++◌, Memᴰ}
use native.Mathlib.Omega.{arith}
use i_doris.Prelude.Tests.{if◌then◌else◌, Bool-cases}

module _ {ℓ} {A : Type ℓ} where
  abbrev pub length : List A → ℕ
  length [] = 0
  length (x ∷ xs) = suc (length xs)

  abbrev pub filter : (A → Bool) → List A → List A
  filter p [] = []
  filter p (x ∷ xs) = let rest = filter p xs in if p x then x ∷ rest else rest

  abbrev pub any : (A → Bool) → List A → Bool
  any p [] = false
  any p (x ∷ xs) = p x || any p xs

  abbrev pub all : (A → Bool) → List A → Bool
  all p [] = true
  all p (x ∷ xs) = p x && all p xs

  abbrev pub is_empty : List A → Bool
  is_empty [] = true
  is_empty (x ∷ xs) = false

  kept-cases :
      (b : Bool) {x a : A} {r : List A}
      → Memᴰ a (if b then x ∷ r else r)
      → (a ≡ x) × (b ≡ true) ⊎ Memᴰ a r
  kept-cases true (Memᴰ.head q) = inl (q, refl)
  kept-cases true (Memᴰ.tail m) = inr m
  kept-cases false m = inr m

  -- What a filter keeps is in the list and passes the test.
  pub Memᴰ-filter :
      (p : A → Bool) (xs : List A) {a : A} → Memᴰ a (filter p xs) → Memᴰ a xs × (p a ≡ true)
  Memᴰ-filter p [] m = elim m [ ]
  Memᴰ-filter p (x ∷ xs) m = elim (kept-cases (p x) m) [
    | inl (e, h) ↦ (Memᴰ.head e, rw e h)
    | inr r ↦ let ih = Memᴰ-filter p xs r in (Memᴰ.tail ih.0, ih.1)
  ]

  pub Memᴰ-filter_intro :
      (p : A → Bool) (xs : List A) {a : A} → Memᴰ a xs → p a ≡ true → Memᴰ a (filter p xs)
  Memᴰ-filter_intro p [] m h = elim m [ ]
  Memᴰ-filter_intro p (x ∷ xs) (Memᴰ.head e) h = rw (rw e at h) (Memᴰ.head e)
  Memᴰ-filter_intro p (x ∷ xs) (Memᴰ.tail m) h =
      let ih = Memᴰ-filter_intro p xs m h in
      elim (Bool-cases (p x)) [ inl e ↦ rw e (Memᴰ.tail ih) | inr e ↦ rw e ih ]

  is_empty_mem : (xs : List A) {a : A} → is_empty xs ≡ true → ¬ Memᴰ a xs
  is_empty_mem [] e m = elim m [ ]
  is_empty_mem (x ∷ xs) e m = cc

  pub filter_empty :
      (p : A → Bool) (xs : List A) {a : A} → is_empty (filter p xs) ≡ true → Memᴰ a xs → p a ≡ false
  filter_empty p xs {a} e m = elim (Bool-cases (p a)) [
    | inl h ↦ absurd (is_empty_mem (filter p xs) e (Memᴰ-filter_intro p xs m h))
    | inr h ↦ h
  ]

  pub any_intro : (p : A → Bool) (xs : List A) {a : A} → Memᴰ a xs → p a ≡ true → any p xs ≡ true
  any_intro p [] m h = elim m [ ]
  any_intro p (x ∷ xs) (Memᴰ.head e) h = rw (rw e at h) refl
  any_intro p (x ∷ xs) (Memᴰ.tail m) h = ground (arith, any_intro p xs m h)

  all_elim : (p : A → Bool) (xs : List A) {a : A} → all p xs ≡ true → Memᴰ a xs → p a ≡ true
  all_elim p [] h m = elim m [ ]
  all_elim p (x ∷ xs) h (Memᴰ.head e) = rw e (ground arith)
  all_elim p (x ∷ xs) h (Memᴰ.tail m) = all_elim p xs (ground arith) m

  pub length-append : (xs ys : List A) → length (xs ++ ys) ≡ length xs + length ys
  length-append [] ys = omega arith
  length-append (x ∷ xs) ys = omega (arith, length-append xs ys)
