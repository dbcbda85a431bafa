-- ===== src/Policy/Pipeline/Order.antt =====
-- The pick does not depend on the order in which the candidates are listed.
use i_doris.Prelude.{Option, some, List, Memᴰ, ◌≡◌, arith, Ordering}
use i_doris.Prelude.Equality.{Text, text_cmp}
use i_doris.Prelude.Orders.{min_by-mem, min_by-least, not_gt_antisym, text_cmp→eq}
use i_doris.Policy.Card.{Card, id}
use i_doris.Policy.Pipeline.Pick.{pick, compare_cards, compare_cards-IsPreorder}

compare_cards-id :
    (key : Option Text) (ready : List Text) (a b : Card)
    → compare_cards key ready a b ≡ Ordering.eq
    → text_cmp (id a) (id b) ≡ Ordering.eq
compare_cards-id key ready a b h = ground arith

-- Two lists of the same candidates, in whatever order and with whatever repetitions, give the same
-- pick, provided that an id names one card, as the registration check ensures.
pub pick_order_independent :
    (xs ys : List Card) (key : Option Text) (ready : List Text) (a b : Card)
    → ((c : Card) → Memᴰ c xs → Memᴰ c ys)
    → ((c : Card) → Memᴰ c ys → Memᴰ c xs)
    → ((c d : Card) → Memᴰ c xs → Memᴰ d xs → id c ≡ id d → c ≡ d)
    → pick xs key ready ≡ some a
    → pick ys key ready ≡ some b
    → a ≡ b
unfolding pick
pick_order_independent xs ys key ready a b to from unique p q =
    let ma = min_by-mem (compare_cards key ready) xs p in
    let mb = min_by-mem (compare_cards key ready) ys q in
    let order = compare_cards-IsPreorder key ready in
    let e =
      not_gt_antisym order a b (min_by-least order xs p (from b mb))
        (min_by-least order ys q (to a ma)) in
    unique a b ma (from b mb) (text_cmp→eq (id a) (id b) (compare_cards-id key ready a b e))
