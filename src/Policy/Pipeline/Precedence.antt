-- ===== src/Policy/Pipeline/Precedence.antt =====
-- crates/idoris-policy/src/pipeline/mod.rs: the order of the candidates, key by key.
use i_doris.Prelude.{
  ◌<◌, true, false, Option, none, some, List, ◌≡◌, ◌≢◌, ◌⊎◌, inl, inr, arith, Ordering,
}
use i_doris.Prelude.Equality.{Text, text_cmp}
use i_doris.Prelude.Int.{ltb_ℤ}
use i_doris.Policy.Card.{Card, id}
use i_doris.Policy.Pipeline.Pick.{
  admission_rank, cost_or_zero, affinity_score, is_not_ready, compare_ties, compare_cards,
}

-- Among cards of one admission and one cost: in a session a ready one comes first, then the higher
-- affinity to the session; and last the smaller id.
abbrev pub PrecedesTied : Option Text → List Text → Card → Card → Type 0
PrecedesTied none ready_ids a b = text_cmp (id a) (id b) ≢ Ordering.gt
PrecedesTied (some session) ready_ids a b =
    ((is_not_ready ready_ids a ≡ false) × (is_not_ready ready_ids b ≡ true))
    ⊎ ((is_not_ready ready_ids a ≡ is_not_ready ready_ids b)
        × ((affinity_score session (id b) < affinity_score session (id a))
            ⊎ ((affinity_score session (id a) ≡ affinity_score session (id b))
                × (text_cmp (id a) (id b) ≢ Ordering.gt))))

-- A card comes before another, or is level with it: the better admission first, then the smaller
-- cost, then the ties.
pub data Precedes (key : Option Text) (ready_ids : List Text) (a b : Card) : Type 0 where
  by_admission :
      admission_rank a.admission_status < admission_rank b.admission_status
      → Precedes key ready_ids a b
  by_cost :
      admission_rank a.admission_status ≡ admission_rank b.admission_status
      → ltb_ℤ (cost_or_zero a) (cost_or_zero b) ≡ true
      → Precedes key ready_ids a b
  by_ties :
      admission_rank a.admission_status ≡ admission_rank b.admission_status
      → cost_or_zero a ≡ cost_or_zero b
      → PrecedesTied key ready_ids a b
      → Precedes key ready_ids a b

compare_ties-PrecedesTied :
    (key : Option Text) (ready_ids : List Text) (a b : Card)
    → compare_ties key ready_ids a b ≢ Ordering.gt
    → PrecedesTied key ready_ids a b
compare_ties-PrecedesTied none ready_ids a b h = h
compare_ties-PrecedesTied (some session) ready_ids a b h = ground arith

abbrev Split : Option Text → List Text → Card → Card → Type 0
Split key ready_ids a b =
    (admission_rank a.admission_status < admission_rank b.admission_status)
    ⊎ ((admission_rank a.admission_status ≡ admission_rank b.admission_status)
        × ((ltb_ℤ (cost_or_zero a) (cost_or_zero b) ≡ true)
            ⊎ ((cost_or_zero a ≡ cost_or_zero b) × (compare_ties key ready_ids a b ≢ Ordering.gt))))

compare_cards-Split :
    (key : Option Text) (ready_ids : List Text) (a b : Card)
    → compare_cards key ready_ids a b ≢ Ordering.gt
    → Split key ready_ids a b
compare_cards-Split key ready_ids a b h = ground arith

pub compare_cards-Precedes :
    (key : Option Text) (ready_ids : List Text) (a b : Card)
    → compare_cards key ready_ids a b ≢ Ordering.gt
    → Precedes key ready_ids a b
compare_cards-Precedes key ready_ids a b h = elim (compare_cards-Split key ready_ids a b h) [
  | inl less ↦ Precedes.by_admission less
  | inr (same, inl less) ↦ Precedes.by_cost same less
  | inr (same, inr (cost, ties)) ↦
      Precedes.by_ties same cost (compare_ties-PrecedesTied key ready_ids a b ties)
]
