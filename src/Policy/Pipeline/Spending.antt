-- ===== src/Policy/Pipeline/Spending.antt =====
-- What every decision satisfies: the gates of the chosen card, and what it may spend.
use i_doris.Prelude.{
  some_eq, true, false, ◌&&◌, Option, none, some, List, [], ◌++◌, Memᴰ, Memᴰ-filter,
  Memᴰ-filter_intro, any, ◌≡◌, ◌≢◌, refl, sym, ◌∙◌, ◌⊎◌, inl, inr, arith, filter, Bool-cases,
  Ordering,
}
use i_doris.Prelude.Equality.{Text}
use i_doris.Prelude.Int.{pos, ◌≤ℤ◌}
use i_doris.Prelude.Orders.{min_by-mem, min_by-least}
use i_doris.Prelude.Results.{Result, ok}
use i_doris.Policy.Budget.{BudgetSnapshot, is_over, balance_minor}
use i_doris.Policy.Card.{Card, id}
use i_doris.Policy.Role.{Role, role_eq}
use i_doris.Policy.Pipeline.Types.{
  RequestProfile, allow_fallback, PolicyCtx, ReasonCode, Degradation, budget_fallback, Decision,
}
use i_doris.Policy.Pipeline.Pick.{pick, compare_cards, cost_or_zero, compare_cards-IsPreorder}
use i_doris.Policy.Pipeline.Stages.{
  Failure, budget_snapshot, freezes_all, would_exceed, is_free, catalog_role,
}
use i_doris.Policy.Pipeline.Decide.{
  to_list, admission_eligible, decide_with_affinity_and_ready_selected,
}
use i_doris.Policy.Pipeline.Gates.{
  IsEligible, admission_eligible-IsEligible, admission_eligible-undegraded, MatchedBy-role,
}
use i_doris.Policy.Pipeline.Precedence.{Precedes, compare_cards-Precedes}
use i_doris.Policy.Pipeline.Inversion.{Passes, Budgeted, Budgeted-mem, decided}

-- Every card that a decision chooses is a listed card, named in the decision, that has passed
-- every gate: it is local-capable if the request's effective privacy is local only, healthy in the
-- catalogue, has all the needed capabilities, matches the named role unless a fallback is declared,
-- has a known price that is not negative, and is not blocked; whatever the session and the set of
-- ready ids are.
pub chosen-IsEligible :
    (req : RequestProfile) (cards : List Card) (ctx : PolicyCtx) (key : Option Text)
    (ready : List Text) (dec : Decision) (card : Card)
    → decide_with_affinity_and_ready_selected req cards ctx key ready ≡ ok (dec, card)
    → IsEligible req cards ctx card × (dec.chosen_id ≡ id card)
unfolding pick
chosen-IsEligible req cards ctx key ready dec card h =
    let d = decided req cards ctx key ready dec card h in
    let m = min_by-mem (compare_cards key ready) d.after_budget d.picked in
    let i = Budgeted-mem req d.eligible d.after_budget key ready _ _ card d.budgeted m in
    (
      admission_eligible-IsEligible req cards ctx d.eligible d.reasons d.role_degradation card
          d.before i,
      d.named,
    )

-- The chosen card under a budget: the tenant is not frozen, and a card that costs something fits
-- into a balance that is not used up.
abbrev pub Affordable : BudgetSnapshot → Card → Type 0
Affordable s card =
    ((freezes_all s.scope && is_over s) ≡ false)
    × ((is_over s ≡ false) × (cost_or_zero card ≤ℤ balance_minor s) ⊎ (cost_or_zero card ≤ℤ pos 0))

free-costs_nothing : (card : Card) → is_free card ≡ true → cost_or_zero card ≤ℤ pos 0
free-costs_nothing card h = ground arith

Passes-Affordable :
    (req : RequestProfile) (s : BudgetSnapshot) (xs ys : List Card) (key : Option Text)
    (ready : List Text) (d : Option Degradation) (natural card : Card)
    → pick xs key ready ≡ some natural
    → Passes req s xs natural ys d
    → pick ys key ready ≡ some card
    → Affordable s card
unfolding pick
Passes-Affordable req s xs ys key ready d natural card p (f, inl (w, e, _)) q =
    let same : natural ≡ card = some_eq (sym p ∙ (rw e at q)) in (f, rw (← same) (ground arith))
Passes-Affordable req s xs ys key ready d natural card p (f, inr (w, _, e, _)) q =
    let m = min_by-mem (compare_cards key ready) (filter is_free xs) (rw e at q) in
    (f, inr (free-costs_nothing card (Memᴰ-filter is_free xs m).1))

some_snapshot :
    (req : RequestProfile) (xs ys : List Card) (key : Option Text) (ready : List Text)
    (o : Option BudgetSnapshot) (s : BudgetSnapshot) (d : Option Degradation) (card : Card)
    → o ≡ some s
    → Budgeted req xs key ready o ys d
    → pick ys key ready ≡ some card
    → Affordable s card
some_snapshot req xs ys key ready none s d card e b q = cc
some_snapshot req xs ys key ready (some t) s d card e (n, p, g) q =
    rw (← some_eq e) (Passes-Affordable req t xs ys key ready d n card p g q)

-- Where the request's tenant has a budget, a decision is made only if the tenant is not frozen (a
-- budget over everything that is used up), and the chosen card either costs nothing or costs at
-- most the balance of a budget that is not used up.
pub chosen-Affordable :
    (req : RequestProfile) (cards : List Card) (ctx : PolicyCtx) (key : Option Text)
    (ready : List Text) (dec : Decision) (card : Card) (s : BudgetSnapshot)
    → decide_with_affinity_and_ready_selected req cards ctx key ready ≡ ok (dec, card)
    → budget_snapshot req ctx ≡ some s
    → Affordable s card
chosen-Affordable req cards ctx key ready dec card s h e =
    let d = decided req cards ctx key ready dec card h in
    some_snapshot req d.eligible d.after_budget key ready (budget_snapshot req ctx) s
      d.budget_degradation card e d.budgeted d.picked

first_eq :
    {a a' : List Card} {b b' : List ReasonCode} {c c' : Option Degradation}
    → ◌≡◌ {A = Result Failure (List Card × List ReasonCode × Option Degradation)}
        (ok (a, b, c))
        (ok (a', b', c'))
    → a ≡ a'
first_eq h = cc

third_eq :
    {a a' : List Card} {b b' : List ReasonCode} {c c' : Option Degradation}
    → ◌≡◌ {A = Result Failure (List Card × List ReasonCode × Option Degradation)}
        (ok (a, b, c))
        (ok (a', b', c'))
    → c ≡ c'
third_eq h = cc

-- The budget took the decision to the free candidates: the first of all of them would exceed it, the
-- request declares a fallback, and the degradation to be recorded names the cost that was avoided.
pub record FellBack (req : RequestProfile) (xs : List Card) (key : Option Text) (ready : List Text)
    (o : Option BudgetSnapshot) (d : Option Degradation) (card : Card) : Type 0 where
  pub account : BudgetSnapshot
  pub natural : Card
  pub of_tenant : o ≡ some account
  pub natural_pick : pick xs key ready ≡ some natural
  pub too_expensive : would_exceed account (cost_or_zero natural) ≡ true
  pub declared : allow_fallback req ≡ true
  pub recorded : d ≡ some (budget_fallback (cost_or_zero natural))
  pub is_chosen_free : is_free card ≡ true

Budgeted-least :
    (req : RequestProfile) (xs ys : List Card) (key : Option Text) (ready : List Text)
    (o : Option BudgetSnapshot) (d : Option Degradation) (card b : Card)
    → Budgeted req xs key ready o ys d
    → pick ys key ready ≡ some card
    → Memᴰ b xs
    → (compare_cards key ready card b ≢ Ordering.gt)
      ⊎ ((is_free b ≡ false) × FellBack req xs key ready o d card)
unfolding pick
Budgeted-least req xs ys key ready none d card b (e, _) q m =
    inl (min_by-least (compare_cards-IsPreorder key ready) xs (rw e at q) m)
Budgeted-least req xs ys key ready (some s) d card b (n, p, (f, inl (_, e, _))) q m =
    inl (min_by-least (compare_cards-IsPreorder key ready) xs (rw e at q) m)
Budgeted-least req xs ys key ready (some s) d card b (n, p, (f, inr (w, allowed, e, g))) q m =
    elim (Bool-cases (is_free b)) [
      | inl free ↦ inl (
          min_by-least (compare_cards-IsPreorder key ready) (filter is_free xs) (rw e at q)
            (Memᴰ-filter_intro is_free xs m free))
      | inr paid ↦
          let chosen = min_by-mem (compare_cards key ready) (filter is_free xs) (rw e at q) in
          inr (
            paid,
            record {
              account = s;
              natural = n;
              of_tenant = refl;
              natural_pick = p;
              too_expensive = w;
              declared = allowed;
              recorded = g;
              is_chosen_free = (Memᴰ-filter is_free xs chosen).1;
            },
          )
    ]

-- No eligible card comes before the chosen one in the order of admission, then cost, then (in a
-- session) readiness and affinity, then id. The one exception is a paid card, where the budget made
-- the decision fall back: the tenant has a budget that the first of all eligible cards would exceed,
-- the request declares a fallback, the decision records that degradation with the cost of that card,
-- and the chosen card is free.
pub chosen-least :
    (req : RequestProfile) (cards : List Card) (ctx : PolicyCtx) (key : Option Text)
    (ready : List Text) (dec : Decision) (card b : Card) (xs : List Card) (rs : List ReasonCode)
    (d : Option Degradation)
    → decide_with_affinity_and_ready_selected req cards ctx key ready ≡ ok (dec, card)
    → admission_eligible req cards ctx ≡ ok (xs, rs, d)
    → Memᴰ b xs
    → Precedes key ready card b
      ⊎ ((is_free b ≡ false)
          × (degraded : Option Degradation) × (dec.degradations ≡ to_list d ++ to_list degraded)
          × FellBack req xs key ready (budget_snapshot req ctx) degraded card)
chosen-least req cards ctx key ready dec card b xs rs d h e m =
    let c = decided req cards ctx key ready dec card h in
    let same : xs ≡ c.eligible = first_eq (sym e ∙ c.before) in
    let same_role : d ≡ c.role_degradation = third_eq (sym e ∙ c.before) in
    elim (Budgeted-least req c.eligible c.after_budget key ready (budget_snapshot req ctx)
      c.budget_degradation card b c.budgeted c.picked (rw same at m)) [
        | inl least ↦ inl (compare_cards-Precedes key ready card b least)
        | inr (paid, fell) ↦ inr (paid, c.budget_degradation, rw same_role c.degraded, rw same fell)
      ]

Budgeted-undegraded :
    (req : RequestProfile) (xs ys : List Card) (key : Option Text) (ready : List Text)
    (o : Option BudgetSnapshot) (d : Option Degradation)
    → Budgeted req xs key ready o ys d
    → allow_fallback req ≡ false
    → d ≡ none
Budgeted-undegraded req xs ys key ready none d (_, e) f = e
Budgeted-undegraded req xs ys key ready (some s) d (n, p, (_, inl (_, _, e))) f = e
Budgeted-undegraded req xs ys key ready (some s) d (n, p, (_, inr (_, g, _, _))) f = cc

-- A request that declares no fallback is never degraded: the decision records no degradation, and
-- the chosen card serves the named role.
pub no_silent_fallback :
    (req : RequestProfile) (cards : List Card) (ctx : PolicyCtx) (key : Option Text)
    (ready : List Text) (dec : Decision) (card : Card)
    → decide_with_affinity_and_ready_selected req cards ctx key ready ≡ ok (dec, card)
    → allow_fallback req ≡ false
    → (dec.degradations ≡ [])
      × ((role : Role) → catalog_role req ≡ some role → any (role_eq role) card.roles ≡ true)
no_silent_fallback req cards ctx key ready dec card h f =
    let d = decided req cards ctx key ready dec card h in
    let r = admission_eligible-undegraded req cards ctx _ _ d.role_degradation d.before f in
    let b = Budgeted-undegraded req d.eligible d.after_budget key ready _ _ d.budgeted f in
    let i = (chosen-IsEligible req cards ctx key ready dec card h).0 in
    (d.degraded ∙ rw (r, b) refl, λ role e. MatchedBy-role req ctx _ role card i.matched f e)
