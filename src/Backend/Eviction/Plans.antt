-- ===== src/Backend/Eviction/Plans.antt =====
-- What a plan of eviction promises, and when there is none.
use i_doris.Prelude.{
  true, false, ◌≤◌, ◌≡◌, refl, sym, inl, inr, List, ◌∷◌, ◌++◌, map, Memᴰ, Bool-cases, arith,
}
use i_doris.Prelude.Equality.{Text, codes}
use i_doris.Prelude.Float.{
  F64, nan, pos_infinity, neg_infinity, finite, add, sub, le, lt, is_finite, le_of_not_lt,
  add-is_nan, one_millionth,
}
use i_doris.Prelude.Results.{Result, ok, >>=-eq-ok}
use i_doris.Backend.Eviction.{
  ModelEntry, Snapshot, ModelReq, EvictionPlan, evict, PlanEvictionError, capacity_epsilon_gb,
  zero_gb, is_capacity, validate_capacity, is_candidate, sum_gb, candidates, reaches, choose,
  model_id, give_up, conclude, available_gb, fits, make_room, check_input, plan_eviction,
}
use i_doris.Backend.Eviction.Order.{
  IsSorted, candidates-IsSorted, Memᴰ-candidates, Memᴰ-append, IsSorted-split, spared,
  choose-spared, choose-freed, choose-needed,
}

abbrev pub shortfall_gb : Snapshot → ModelReq → F64
shortfall_gb state need = sub need.memory_gb (available_gb state)

-- A list of models that closes the shortfall: the candidates in the order of last use, up to the
-- first point that suffices.
pub record IsLruPrefix (state : Snapshot) (need : ModelReq) (chosen : List ModelEntry)
    : Type 0 where
  pub spared_models : List ModelEntry
  pub covers : candidates state ≡ chosen ++ spared_models
  pub least_recent :
      (x y : ModelEntry) → Memᴰ x chosen → Memᴰ y spared_models → x.last_used_seq ≤ y.last_used_seq
  pub evictable : (x : ModelEntry) → Memᴰ x chosen → Memᴰ x state.models × (is_candidate x ≡ true)
  pub needed :
      (before after : List ModelEntry) (m : ModelEntry)
      → chosen ≡ before ++ (m ∷ after)
      → reaches (shortfall_gb state need) (sum_gb before) ≡ false

pub validate_capacity-ok :
    (field : Text) (value : F64) → validate_capacity field value ≡ ok tt → is_capacity value ≡ true
unfolding validate_capacity
validate_capacity-ok field value h = ground arith

capacity-is_finite : (value : F64) → is_capacity value ≡ true → is_finite value ≡ true
capacity-is_finite value h = ground arith

le_excludes_lt : (a b : F64) → le b a ≡ true → lt a b ≡ false
le_excludes_lt nan b h = cc
le_excludes_lt pos_infinity nan h = refl
le_excludes_lt pos_infinity pos_infinity h = refl
le_excludes_lt pos_infinity neg_infinity h = refl
le_excludes_lt pos_infinity (finite b) h = refl
le_excludes_lt neg_infinity nan h = cc
le_excludes_lt neg_infinity pos_infinity h = cc
le_excludes_lt neg_infinity neg_infinity h = refl
le_excludes_lt neg_infinity (finite b) h = cc
le_excludes_lt (finite a) nan h = refl
le_excludes_lt (finite a) pos_infinity h = cc
le_excludes_lt (finite a) neg_infinity h = refl
le_excludes_lt (finite a) (finite b) h = ground arith

ok_evict :
    {ids js : List Text}
    → ◌≡◌ {A = Result PlanEvictionError EvictionPlan} (ok (evict ids)) (ok (evict js))
    → ids ≡ js
ok_evict h = cc

-- A finite sum that does not fall short reaches.
suffices :
    (freed s : F64)
    → is_finite freed ≡ true
    → is_finite s ≡ true
    → lt (add freed capacity_epsilon_gb) s ≡ false
    → reaches s freed ≡ true
unfolding one_millionth
suffices freed s p q h =
    le_of_not_lt (add freed capacity_epsilon_gb) s (add-is_nan freed capacity_epsilon_gb p refl) q h

pub le_excludes_reaches :
    (freed s : F64) → lt (add freed capacity_epsilon_gb) s ≡ true → reaches s freed ≡ false
le_excludes_reaches freed s h = elim (Bool-cases (reaches s freed)) [
  | inl e ↦ let bad = le_excludes_lt (add freed capacity_epsilon_gb) s e in cc
  | inr e ↦ e
]

sorted_parts :
    (cs xs ys : List ModelEntry)
    → cs ≡ xs ++ ys
    → IsSorted cs
    → (x y : ModelEntry) → Memᴰ x xs
    → Memᴰ y ys
    → x.last_used_seq ≤ y.last_used_seq
sorted_parts cs xs ys e s x y k l = IsSorted-split xs ys (rw e at s) k l

in_whole : (cs xs ys : List ModelEntry) {x : ModelEntry} → cs ≡ xs ++ ys → Memᴰ x xs → Memᴰ x cs
in_whole cs xs ys e k = rw e (Memᴰ-append xs ys k)

module _ (state : Snapshot) (need : ModelReq) where
  give_up-evict : (s : F64) {ids : List Text} → ¬ (give_up state need s ≡ ok (evict ids))
  give_up-evict s h =
      let (v, b, c) =
        >>=-eq-ok
          (validate_capacity (codes "sum of evictable candidate.memory_gb")
            (sum_gb (candidates state)))
          _ h in
      cc

  conclude-evict :
      (s freed : F64) (chosen : List ModelEntry) {ids : List Text}
      → conclude state need s (freed, chosen) ≡ ok (evict ids)
      → (is_capacity freed ≡ true)
        × (lt (add freed capacity_epsilon_gb) s ≡ false)
        × (ids ≡ map model_id chosen)
  unfolding conclude
  conclude-evict s freed chosen h =
      let (u, a, h₁) = >>=-eq-ok (validate_capacity (codes "cumulative freed_gb") freed) _ h in
      elim (Bool-cases (lt (add freed capacity_epsilon_gb) s)) [
        | inl e ↦ absurd (give_up-evict s (rw e at h₁))
        | inr e ↦ (validate_capacity-ok _ freed a, e, sym (ok_evict (rw e at h₁)))
      ]

  make_room-evict :
      {ids : List Text}
      → make_room state need ≡ ok (evict ids)
      → let r = choose (shortfall_gb state need) zero_gb (candidates state) in
        (is_capacity (shortfall_gb state need) ≡ true)
        × (is_capacity r.0 ≡ true)
        × (lt (add r.0 capacity_epsilon_gb) (shortfall_gb state need) ≡ false)
        × (ids ≡ map model_id r.1)
  unfolding make_room
  make_room-evict h =
      let (u, a, h₁) =
        >>=-eq-ok (validate_capacity (codes "shortfall_gb") (shortfall_gb state need)) _ h in
      let r = choose (shortfall_gb state need) zero_gb (candidates state) in
      let (b, c, d) = conclude-evict (shortfall_gb state need) r.0 r.1 h₁ in
      (validate_capacity-ok _ _ a, b, c, d)

  chosen-IsLruPrefix :
      IsLruPrefix state need (choose (shortfall_gb state need) zero_gb (candidates state)).1
  unfolding sum_gb
  chosen-IsLruPrefix =
      let s = shortfall_gb state need in
      let cs = candidates state in
      let split = choose-spared s zero_gb cs in
      record {
        spared_models = spared s zero_gb cs;
        covers = split;
        least_recent =
            sorted_parts cs (choose s zero_gb cs).1 (spared s zero_gb cs) split
              (candidates-IsSorted state);
        evictable = λ x k.
            Memᴰ-candidates state
              (in_whole cs (choose s zero_gb cs).1 (spared s zero_gb cs) split k);
        needed = λ before after m h. choose-needed s zero_gb cs before after m h;
      }

  plan-make_room :
      {ids : List Text}
      → plan_eviction state need ≡ ok (evict ids)
      → (fits state need ≡ false) × (make_room state need ≡ ok (evict ids))
  unfolding plan_eviction
  plan-make_room h =
      let (u, a, h₁) = >>=-eq-ok (check_input state need) _ h in
      elim (Bool-cases (fits state need)) [
        | inl e ↦ let bad = rw e at h₁ in cc
        | inr e ↦ (e, rw e at h₁)
      ]

  -- A plan that evicts names the candidates that were used least recently, in the order of their
  -- last use, and no more of them than needed: what precedes each of them frees too little, while
  -- all of them together close the shortfall, up to the tolerance. None is pinned, serves a call,
  -- is in a state other than ready or error, or frees nothing.
  pub plan_eviction-IsLruPrefix :
      {ids : List Text}
      → plan_eviction state need ≡ ok (evict ids)
      → (chosen : List ModelEntry) × (ids ≡ map model_id chosen)
        × IsLruPrefix state need chosen
        × (reaches (shortfall_gb state need) (sum_gb chosen) ≡ true)
  unfolding sum_gb
  plan_eviction-IsLruPrefix h =
      let (f, room) = plan-make_room h in
      let (a, b, c, d) = make_room-evict room in
      let s = shortfall_gb state need in
      let r = choose s zero_gb (candidates state) in
      let freed = choose-freed s zero_gb (candidates state) in
      let enough = suffices r.0 s (capacity-is_finite r.0 b) (capacity-is_finite s a) c in
      (r.1, d, chosen-IsLruPrefix, rw freed at enough)
