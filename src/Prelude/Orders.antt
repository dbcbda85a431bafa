-- ===== src/Prelude/Orders.antt =====
-- `std::cmp::Ordering`: comparisons by keys, `then_with`, `min_by`, and the laws of a preorder.
use Prim.Native.Nat.{compare}
use i_doris.Prelude.{
  some_eq, ℕ, ◌+◌, Bool, true, false, Option, none, some, List, [], ◌∷◌, ◌≡◌, ◌≢◌, refl, ◌∙◌,
  is_empty, arith, Memᴰ, Ordering, ◌⊎◌, inl, inr,
}
use i_doris.Prelude.Int.{ℤ, pos_part, neg_part}
use i_doris.Prelude.Equality.{Text, text_cmp}

abbrev pub rev : Ordering → Ordering
rev Ordering.lt = Ordering.gt
rev Ordering.eq = Ordering.eq
rev Ordering.gt = Ordering.lt

abbrev pub then_with : Ordering → Ordering → Ordering
then_with Ordering.lt o = Ordering.lt
then_with Ordering.eq o = o
then_with Ordering.gt o = Ordering.gt

abbrev pub compare_ℤ : ℤ → ℤ → Ordering
compare_ℤ a b = compare (pos_part a + neg_part b) (pos_part b + neg_part a)

abbrev pub compare_bool : Bool → Bool → Ordering
compare_bool false true = Ordering.lt
compare_bool true false = Ordering.gt
compare_bool _ _ = Ordering.eq

-- `Iterator::min_by`: the first of the least elements.
abbrev pub keep_min {ℓ} : {A : Type ℓ} → (A → A → Ordering) → A → A → A
keep_min cmp a b = elim (cmp a b) [ Ordering.gt ↦ b | _ ↦ a ]

fold_min {ℓ} : {A : Type ℓ} → (A → A → Ordering) → A → List A → A
fold_min cmp a [] = a
fold_min cmp a (b ∷ bs) = fold_min cmp (keep_min cmp a b) bs

unfoldable pub min_by {ℓ} : {A : Type ℓ} → (A → A → Ordering) → List A → Option A
unfolding fold_min
min_by cmp [] = none
min_by cmp (a ∷ bs) = some (fold_min cmp a bs)

-- A comparison whose `eq` is a congruence and whose `lt` is transitive.
pub record IsPreorder {ℓ} {A : Type ℓ} (cmp : A → A → Ordering) : Type ℓ where
  pub swap : (a b : A) → cmp b a ≡ rev (cmp a b)
  pub cong : (a b c : A) → cmp a b ≡ Ordering.eq → cmp a c ≡ cmp b c
  pub trans : (a b c : A) → cmp a b ≡ Ordering.lt → cmp b c ≡ Ordering.lt → cmp a c ≡ Ordering.lt

compare-IsPreorder : IsPreorder compare
compare-IsPreorder = record {
  swap = λ a b. ground arith;
  cong = λ a b c h. ground arith;
  trans = λ a b c h k. ground arith;
}

pub by_key-IsPreorder {ℓ κ} :
    {A : Type ℓ} {B : Type κ} (f : A → B) {cmp : B → B → Ordering}
    → IsPreorder cmp
    → IsPreorder (λ a b. cmp (f a) (f b))
by_key-IsPreorder f p = record {
  swap = λ a b. p.swap (f a) (f b);
  cong = λ a b c. p.cong (f a) (f b) (f c);
  trans = λ a b c. p.trans (f a) (f b) (f c);
}

pub ℕ-IsPreorder {ℓ} : {A : Type ℓ} (f : A → ℕ) → IsPreorder (λ a b. compare (f a) (f b))
ℕ-IsPreorder f = by_key-IsPreorder f compare-IsPreorder

pub ℤ-IsPreorder {ℓ} : {A : Type ℓ} (f : A → ℤ) → IsPreorder (λ a b. compare_ℤ (f a) (f b))
ℤ-IsPreorder f = by_key-IsPreorder f {cmp = compare_ℤ} (record {
  swap = λ a b. ground arith;
  cong = λ a b c h. ground arith;
  trans = λ a b c h k. ground arith;
})

pub Bool-IsPreorder {ℓ} : {A : Type ℓ} (f : A → Bool) → IsPreorder (λ a b. compare_bool (f a) (f b))
Bool-IsPreorder f = by_key-IsPreorder f {cmp = compare_bool} (record {
  swap = λ a b. ground arith;
  cong = λ a b c h. ground arith;
  trans = λ a b c h k. ground arith;
})

pub equal-IsPreorder {ℓ} : {A : Type ℓ} → IsPreorder (λ (a b : A). Ordering.eq)
equal-IsPreorder = record { swap = λ a b. refl; cong = λ a b c h. refl; trans = λ a b c h k. h }

pub then_with-IsPreorder {ℓ} :
    {A : Type ℓ} {f g : A → A → Ordering}
    → IsPreorder f
    → IsPreorder g
    → IsPreorder (λ a b. then_with (f a b) (g a b))
then_with-IsPreorder p q = record {
  swap = λ a b. ground (arith, p.swap a b, q.swap a b);
  cong = λ a b c h. ground (arith, p.cong a b c, q.cong a b c);
  trans = λ a b c h k. ground (
    arith,
    p.cong a b c,
    p.trans a b c,
    q.trans a b c,
    p.cong b c a,
    p.swap a b,
    p.swap a c,
    p.swap b c,
    p.cong c b a,
  );
}

pub flip-IsPreorder {ℓ} :
    {A : Type ℓ} {f : A → A → Ordering} → IsPreorder f → IsPreorder (λ a b. f b a)
flip-IsPreorder p = record {
  swap = λ a b. p.swap b a;
  cong = λ a b c h. ground (arith, p.swap a b, p.cong a b c, p.swap b c, p.swap a c);
  trans = λ a b c h k. p.trans c b a k h;
}

text_cmp_swap : (s t : Text) → text_cmp t s ≡ rev (text_cmp s t)
unfolding text_cmp
text_cmp_swap [] [] = refl
text_cmp_swap [] (b ∷ t) = refl
text_cmp_swap (a ∷ s) [] = refl
text_cmp_swap (a ∷ s) (b ∷ t) = ground (arith, text_cmp_swap s t)

pub text_cmp→eq : (s t : Text) → text_cmp s t ≡ Ordering.eq → s ≡ t
unfolding text_cmp
text_cmp→eq [] [] h = refl
text_cmp→eq [] (b ∷ t) h = cc
text_cmp→eq (a ∷ s) [] h = cc
text_cmp→eq (a ∷ s) (b ∷ t) h = ground (arith, text_cmp→eq s t)

text_cmp_trans :
    (s t u : Text)
    → text_cmp s t ≡ Ordering.lt
    → text_cmp t u ≡ Ordering.lt
    → text_cmp s u ≡ Ordering.lt
unfolding text_cmp
text_cmp_trans [] [] [] h k = cc
text_cmp_trans [] (b ∷ t) [] h k = cc
text_cmp_trans [] [] (c ∷ u) h k = refl
text_cmp_trans [] (b ∷ t) (c ∷ u) h k = refl
text_cmp_trans (a ∷ s) [] u h k = cc
text_cmp_trans (a ∷ s) (b ∷ t) [] h k = cc
text_cmp_trans (a ∷ s) (b ∷ t) (c ∷ u) h k = ground (arith, text_cmp_trans s t u)

pub text_cmp-IsPreorder : IsPreorder text_cmp
text_cmp-IsPreorder = record {
  swap = text_cmp_swap;
  cong = λ a b c h. rw (text_cmp→eq a b h) refl;
  trans = text_cmp_trans;
}

-- The least element, and where it stands.
module _ {ℓ} {A : Type ℓ} {cmp : A → A → Ordering} (p : IsPreorder cmp) where
  not_gt_trans : (a b c : A) → cmp a b ≢ Ordering.gt → cmp b c ≢ Ordering.gt → cmp a c ≢ Ordering.gt
  not_gt_trans a b c h k = ground (
    arith,
    p.cong a b c,
    p.trans a b c,
    p.cong b c a,
    p.swap a b,
    p.swap a c,
    p.swap b c,
    p.cong c b a,
  )

  pub not_gt_antisym :
      (a b : A) → cmp a b ≢ Ordering.gt → cmp b a ≢ Ordering.gt → cmp a b ≡ Ordering.eq
  not_gt_antisym a b h k = ground (arith, p.swap a b)

  keep_min-le :
      (a b : A)
      → (cmp (keep_min cmp a b) a ≢ Ordering.gt) × (cmp (keep_min cmp a b) b ≢ Ordering.gt)
  keep_min-le a b = ground (arith, p.swap a b, p.swap a a, p.swap b b)

  fold_min-le : (a : A) (bs : List A) → cmp (fold_min cmp a bs) a ≢ Ordering.gt
  unfolding fold_min
  fold_min-le a [] = ground (arith, p.swap a a)
  fold_min-le a (b ∷ bs) =
      not_gt_trans (fold_min cmp (keep_min cmp a b) bs) (keep_min cmp a b) a
        (fold_min-le (keep_min cmp a b) bs) (keep_min-le a b).0

  fold_min-least :
      (a : A) (bs : List A) {x : A} → Memᴰ x bs → cmp (fold_min cmp a bs) x ≢ Ordering.gt
  unfolding fold_min
  fold_min-least a [] m = elim m [ ]
  fold_min-least a (b ∷ bs) (Memᴰ.head e) = rw e (
      not_gt_trans (fold_min cmp (keep_min cmp a b) bs) (keep_min cmp a b) b
        (fold_min-le (keep_min cmp a b) bs) (keep_min-le a b).1)
  fold_min-least a (b ∷ bs) (Memᴰ.tail m) = fold_min-least (keep_min cmp a b) bs m

  -- No element of the list is less than the one that `min_by` returns.
  pub min_by-least :
      (xs : List A) {m x : A} → min_by cmp xs ≡ some m → Memᴰ x xs → cmp m x ≢ Ordering.gt
  unfolding min_by
  min_by-least [] h i = elim i [ ]
  min_by-least (a ∷ bs) h (Memᴰ.head e) = rw (← some_eq h) (rw e (fold_min-le a bs))
  min_by-least (a ∷ bs) h (Memᴰ.tail i) = rw (← some_eq h) (fold_min-least a bs i)

module _ {ℓ} {A : Type ℓ} (cmp : A → A → Ordering) where
  keep_min-cases : (a b : A) → (keep_min cmp a b ≡ a) ⊎ (keep_min cmp a b ≡ b)
  keep_min-cases a b = ground arith

  fold_min-mem : (a : A) (bs : List A) → Memᴰ (fold_min cmp a bs) (a ∷ bs)
  unfolding fold_min
  fold_min-mem a [] = Memᴰ.head refl
  fold_min-mem a (b ∷ bs) = kept (keep_min-cases a b) (fold_min-mem (keep_min cmp a b) bs)
    where
      kept : {k m : A} → (k ≡ a) ⊎ (k ≡ b) → Memᴰ m (k ∷ bs) → Memᴰ m (a ∷ b ∷ bs)
      kept (inl e) (Memᴰ.head q) = Memᴰ.head (q ∙ e)
      kept (inr e) (Memᴰ.head q) = Memᴰ.tail (Memᴰ.head (q ∙ e))
      kept e (Memᴰ.tail i) = Memᴰ.tail (Memᴰ.tail i)

  pub min_by-mem : (xs : List A) {m : A} → min_by cmp xs ≡ some m → Memᴰ m xs
  unfolding min_by
  min_by-mem [] h = cc
  min_by-mem (a ∷ bs) h = rw (← some_eq h) (fold_min-mem a bs)

  pub min_by_total : (xs : List A) → is_empty xs ≡ false → (m : A) × (min_by cmp xs ≡ some m)
  unfolding min_by
  min_by_total [] h = cc
  min_by_total (a ∷ bs) h = (fold_min cmp a bs, refl)
