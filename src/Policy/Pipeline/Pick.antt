-- ===== src/Policy/Pipeline/Pick.antt =====
-- crates/idoris-policy/src/pipeline/mod.rs: the order of the candidates, and `pick`. The set of
-- ready ids is a list.
use Prim.Native.Nat.{bit_xor, compare}
use i_doris.Prelude.{ℕ, ◌*◌, ◌%◌, Bool, not, Option, none, some, List, [], ◌∷◌, ◌++◌, any, Ordering}
use i_doris.Prelude.Equality.{Text, text_eq, text_cmp}
use i_doris.Prelude.Int.{ℤ, pos}
use i_doris.Prelude.Orders.{
  then_with, compare_ℤ, compare_bool, min_by, IsPreorder, then_with-IsPreorder, ℕ-IsPreorder,
  ℤ-IsPreorder, Bool-IsPreorder, equal-IsPreorder, flip-IsPreorder, by_key-IsPreorder,
  text_cmp-IsPreorder,
}
use i_doris.Policy.Card.{Card, id, AdmissionStatus, ready, requires_eviction, blocked}

abbrev pub admission_rank : AdmissionStatus → ℕ
admission_rank ready = 0
admission_rank requires_eviction = 1
admission_rank blocked = 2

-- `estimated_cost_minor.unwrap_or(0)`.
abbrev pub cost_or_zero : Card → ℤ
cost_or_zero c = elim c.estimated_cost_minor [ none ↦ pos 0 | some v ↦ v ]

fnv_step : ℕ → Text → ℕ
fnv_step hash [] = hash
fnv_step hash (byte ∷ bytes) =
    fnv_step (bit_xor hash byte * 0x100000001b3 % 18446744073709551616) bytes

pub affinity_score : Text → Text → ℕ
unfolding fnv_step
affinity_score session candidate_id = fnv_step 0xcbf29ce484222325 (session ++ (0 ∷ candidate_id))

abbrev pub compare_policy : Card → Card → Ordering
compare_policy a b =
    then_with (compare (admission_rank a.admission_status) (admission_rank b.admission_status))
      (compare_ℤ (cost_or_zero a) (cost_or_zero b))

abbrev pub is_not_ready : List Text → Card → Bool
is_not_ready ready_ids c = not (any (text_eq (id c)) ready_ids)

abbrev pub compare_ready : Option Text → List Text → Card → Card → Ordering
compare_ready none ready_ids a b = Ordering.eq
compare_ready (some session) ready_ids a b =
    compare_bool (is_not_ready ready_ids a) (is_not_ready ready_ids b)

abbrev pub compare_affinity : Option Text → Card → Card → Ordering
compare_affinity none a b = Ordering.eq
compare_affinity (some session) a b =
    compare (affinity_score session (id b)) (affinity_score session (id a))

abbrev pub compare_ties : Option Text → List Text → Card → Card → Ordering
compare_ties affinity_key ready_ids a b =
    then_with (compare_ready affinity_key ready_ids a b)
      (then_with (compare_affinity affinity_key a b) (text_cmp (id a) (id b)))

abbrev pub compare_cards : Option Text → List Text → Card → Card → Ordering
compare_cards affinity_key ready_ids a b =
    then_with (compare_policy a b) (compare_ties affinity_key ready_ids a b)

unfoldable pub pick : List Card → Option Text → List Text → Option Card
pick candidates affinity_key ready_ids = min_by (compare_cards affinity_key ready_ids) candidates

pub compare_policy-IsPreorder : IsPreorder compare_policy
compare_policy-IsPreorder =
    then_with-IsPreorder (ℕ-IsPreorder (λ (c : Card). admission_rank c.admission_status))
      (ℤ-IsPreorder cost_or_zero)

compare_ready-IsPreorder :
    (affinity_key : Option Text) (ready_ids : List Text)
    → IsPreorder (compare_ready affinity_key ready_ids)
compare_ready-IsPreorder none ready_ids = equal-IsPreorder
compare_ready-IsPreorder (some session) ready_ids = Bool-IsPreorder (is_not_ready ready_ids)

compare_affinity-IsPreorder :
    (affinity_key : Option Text) → IsPreorder (compare_affinity affinity_key)
compare_affinity-IsPreorder none = equal-IsPreorder
compare_affinity-IsPreorder (some session) =
    flip-IsPreorder (ℕ-IsPreorder (λ c. affinity_score session (id c)))

pub compare_cards-IsPreorder :
    (affinity_key : Option Text) (ready_ids : List Text)
    → IsPreorder (compare_cards affinity_key ready_ids)
compare_cards-IsPreorder affinity_key ready_ids = then_with-IsPreorder compare_policy-IsPreorder (
    then_with-IsPreorder (compare_ready-IsPreorder affinity_key ready_ids) (
      then_with-IsPreorder (compare_affinity-IsPreorder affinity_key)
        (by_key-IsPreorder id text_cmp-IsPreorder)))
