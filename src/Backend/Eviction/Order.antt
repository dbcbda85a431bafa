-- ===== src/Backend/Eviction/Order.antt =====
-- The candidates for eviction in the order of their last use, and the loop that chooses among them.
use i_doris.Prelude.{
  ℕ, true, false, ◌≤◌, ◌≡◌, refl, sym, ap, ◌⊎◌, inl, inr, List, [], ◌∷◌, ◌++◌, Memᴰ, filter,
  Memᴰ-filter, leb, if◌then◌else◌, Bool-cases, arith,
}
use i_doris.Prelude.Float.{F64, add}
use i_doris.Backend.Eviction.{
  ModelEntry, Snapshot, is_candidate, sum_from, insert_by_seq, sort_by_seq, candidates, reaches,
  choose,
}

-- No model of the list was used before `seq`.
abbrev pub NoneBefore : ℕ → List ModelEntry → Type 0
NoneBefore seq ms = (m : ModelEntry) → Memᴰ m ms → seq ≤ m.last_used_seq

abbrev pub IsSorted : List ModelEntry → Type 0
IsSorted [] = Unit {0}
IsSorted (m ∷ ms) = NoneBefore m.last_used_seq ms × IsSorted ms

Memᴰ-insert :
    (m : ModelEntry) (ms : List ModelEntry) {x : ModelEntry}
    → Memᴰ x (insert_by_seq m ms)
    → (x ≡ m) ⊎ Memᴰ x ms
unfolding insert_by_seq
Memᴰ-insert m [] (Memᴰ.head e) = inl e
Memᴰ-insert m [] (Memᴰ.tail k) = elim k [ ]
Memᴰ-insert m (n ∷ ns) k = elim (Bool-cases (leb m.last_used_seq n.last_used_seq)) [
  | inl e ↦ elim (rw e at k) [ Memᴰ.head q ↦ inl q | Memᴰ.tail q ↦ inr q ]
  | inr e ↦ elim (rw e at k) [
    | Memᴰ.head q ↦ inr (Memᴰ.head q)
    | Memᴰ.tail q ↦ elim (Memᴰ-insert m ns q) [ inl a ↦ inl a | inr b ↦ inr (Memᴰ.tail b) ]
  ]
]

insert-NoneBefore :
    (seq : ℕ) (m : ModelEntry) (ms : List ModelEntry)
    → seq ≤ m.last_used_seq
    → NoneBefore seq ms
    → NoneBefore seq (insert_by_seq m ms)
insert-NoneBefore seq m ms h k x q = elim (Memᴰ-insert m ms q) [ inl e ↦ rw e h | inr r ↦ k x r ]

insert-IsSorted :
    (m : ModelEntry) (ms : List ModelEntry) → IsSorted ms → IsSorted (insert_by_seq m ms)
unfolding insert_by_seq
insert-IsSorted m [] s = ((λ x q. elim q [ ]), tt)
insert-IsSorted m (n ∷ ns) (before, s) = elim (Bool-cases (leb m.last_used_seq n.last_used_seq)) [
  | inl e ↦ rw e (below_both m n ns (ground arith) before, (before, s))
  | inr e ↦
      rw e (insert-NoneBefore n.last_used_seq m ns (ground arith) before, insert-IsSorted m ns s)
]
  where
    below_both :
        (m n : ModelEntry) (ns : List ModelEntry)
        → m.last_used_seq ≤ n.last_used_seq
        → NoneBefore n.last_used_seq ns
        → NoneBefore m.last_used_seq (n ∷ ns)
    below_both m n ns h k x (Memᴰ.head e) = rw e h
    below_both m n ns h k x (Memᴰ.tail q) = let later = k x q in omega arith

sort-IsSorted : (ms : List ModelEntry) → IsSorted (sort_by_seq ms)
unfolding sort_by_seq
sort-IsSorted [] = tt
sort-IsSorted (m ∷ ms) = insert-IsSorted m (sort_by_seq ms) (sort-IsSorted ms)

Memᴰ-sort : (ms : List ModelEntry) {x : ModelEntry} → Memᴰ x (sort_by_seq ms) → Memᴰ x ms
unfolding sort_by_seq
Memᴰ-sort [] k = k
Memᴰ-sort (m ∷ ms) k = elim (Memᴰ-insert m (sort_by_seq ms) k) [
  | inl e ↦ Memᴰ.head e
  | inr r ↦ Memᴰ.tail (Memᴰ-sort ms r)
]

pub candidates-IsSorted : (state : Snapshot) → IsSorted (candidates state)
unfolding candidates
candidates-IsSorted state = sort-IsSorted (filter is_candidate state.models)

pub Memᴰ-candidates :
    (state : Snapshot) {x : ModelEntry}
    → Memᴰ x (candidates state)
    → Memᴰ x state.models × (is_candidate x ≡ true)
unfolding candidates
Memᴰ-candidates state k =
    Memᴰ-filter is_candidate state.models (Memᴰ-sort (filter is_candidate state.models) k)

pub Memᴰ-append : (xs ys : List ModelEntry) {x : ModelEntry} → Memᴰ x xs → Memᴰ x (xs ++ ys)
Memᴰ-append [] ys k = elim k [ ]
Memᴰ-append (z ∷ xs) ys (Memᴰ.head e) = Memᴰ.head e
Memᴰ-append (z ∷ xs) ys (Memᴰ.tail k) = Memᴰ.tail (Memᴰ-append xs ys k)

Memᴰ-append_right : (xs ys : List ModelEntry) {x : ModelEntry} → Memᴰ x ys → Memᴰ x (xs ++ ys)
Memᴰ-append_right [] ys k = k
Memᴰ-append_right (z ∷ xs) ys k = Memᴰ.tail (Memᴰ-append_right xs ys k)

-- In a sorted list no model of a first part was used after one of the rest.
pub IsSorted-split :
    (xs ys : List ModelEntry) {x y : ModelEntry}
    → IsSorted (xs ++ ys)
    → Memᴰ x xs
    → Memᴰ y ys
    → x.last_used_seq ≤ y.last_used_seq
IsSorted-split [] ys s k l = elim k [ ]
IsSorted-split (z ∷ xs) ys {x} {y} (before, s) (Memᴰ.head e) l =
    rw e (before y (Memᴰ-append_right xs ys l))
IsSorted-split (z ∷ xs) ys (before, s) (Memᴰ.tail k) l = IsSorted-split xs ys s k l

-- What the loop leaves: the models that it did not choose.
pub spared : F64 → F64 → List ModelEntry → List ModelEntry
spared shortfall_gb freed_gb [] = []
spared shortfall_gb freed_gb (m ∷ ms) =
    let rest = spared shortfall_gb (add freed_gb m.memory_gb) ms in
    if reaches shortfall_gb freed_gb then m ∷ ms else rest

module _ (shortfall_gb : F64) where
  pub choose-spared :
      (freed_gb : F64) (ms : List ModelEntry)
      → ms ≡ (choose shortfall_gb freed_gb ms).1 ++ spared shortfall_gb freed_gb ms
  unfolding choose spared
  choose-spared freed_gb [] = refl
  choose-spared freed_gb (m ∷ ms) =
      let ih = choose-spared (add freed_gb m.memory_gb) ms in
      elim (Bool-cases (reaches shortfall_gb freed_gb)) [
        | inl e ↦ rw e refl
        | inr e ↦ rw e (ap (λ r. m ∷ r) ih)
      ]

  pub choose-freed :
      (freed_gb : F64) (ms : List ModelEntry)
      → (choose shortfall_gb freed_gb ms).0 ≡ sum_from freed_gb (choose shortfall_gb freed_gb ms).1
  unfolding choose sum_from
  choose-freed freed_gb [] = refl
  choose-freed freed_gb (m ∷ ms) =
      let ih = choose-freed (add freed_gb m.memory_gb) ms in
      elim (Bool-cases (reaches shortfall_gb freed_gb)) [ inl e ↦ rw e refl | inr e ↦ rw e ih ]

  -- Where the loop's end does not reach the shortfall, it has chosen all.
  pub choose_all :
      (freed_gb : F64) (ms : List ModelEntry)
      → reaches shortfall_gb (choose shortfall_gb freed_gb ms).0 ≡ false
      → (choose shortfall_gb freed_gb ms).1 ≡ ms
  unfolding choose
  choose_all freed_gb [] h = refl
  choose_all freed_gb (m ∷ ms) h = elim (Bool-cases (reaches shortfall_gb freed_gb)) [
    | inl e ↦ let bad = rw e at h in cc
    | inr e ↦ rw e (ap (λ r. m ∷ r) (choose_all (add freed_gb m.memory_gb) ms (rw e at h)))
  ]

  -- Each choice was needed: what had been freed before it did not reach the shortfall.
  pub choose-needed :
      (freed_gb : F64) (ms before after : List ModelEntry) (m : ModelEntry)
      → (choose shortfall_gb freed_gb ms).1 ≡ before ++ (m ∷ after)
      → reaches shortfall_gb (sum_from freed_gb before) ≡ false
  unfolding choose sum_from
  choose-needed freed_gb [] [] after m h = cc
  choose-needed freed_gb [] (b ∷ before) after m h = cc
  choose-needed freed_gb (n ∷ ms) [] after m h = elim (Bool-cases (reaches shortfall_gb freed_gb)) [
    | inl e ↦ let bad = rw e at h in cc
    | inr e ↦ e
  ]
  choose-needed freed_gb (n ∷ ms) (b ∷ before) after m h =
      elim (Bool-cases (reaches shortfall_gb freed_gb)) [
        | inl e ↦ let bad = rw e at h in cc
        | inr e ↦
            let eq : (n ∷ (choose shortfall_gb (add freed_gb n.memory_gb) ms).1)
                ≡ b ∷ (before ++ (m ∷ after)) =
              rw e at h in
            let same : n ≡ b = cc in
            rw (sym same) (choose-needed (add freed_gb n.memory_gb) ms before after m (cc))
      ]
