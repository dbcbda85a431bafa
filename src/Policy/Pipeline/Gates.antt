-- ===== src/Policy/Pipeline/Gates.antt =====
-- What every chosen card has passed: privacy, catalogue, capabilities, role, price, admission.
use i_doris.Prelude.{
  some_eq, Bool, true, false, Option, none, some, List, Memᴰ, Memᴰ-filter, ◌≡◌, ◌⊎◌, inl, inr,
  arith, filter, is_empty, any,
}
use i_doris.Prelude.Results.{ok, >>=-eq-ok}
use i_doris.Contracts.{is_local_only}
use i_doris.Policy.Card.{Card, is_catalog_eligible, is_eligible_for_role_lem}
use i_doris.Policy.Role.{Role, role_eq}
use i_doris.Policy.Privacy.{is_local_capable}
use i_doris.Policy.Pipeline.Types.{
  RequestProfile, effective_privacy, effective_capabilities, allow_fallback, PolicyCtx, ReasonCode,
  Degradation, role_fallback,
}
use i_doris.Policy.Pipeline.Stages.{
  has_capabilities, privacy_stage, catalog_role, is_role_candidate, is_capability_candidate,
  role_stage, role_stage_for, fallback_stage, is_priced, pricing_stage, is_admissible,
  admission_stage,
}
use i_doris.Policy.Pipeline.Decide.{admission_eligible}

-- Every card of `xs` is one of `cards` that passes the test.
abbrev pub Kept : (Card → Bool) → List Card → List Card → Type 0
Kept p xs cards = (a : Card) → Memᴰ a xs → Memᴰ a cards × (p a ≡ true)

filter-Kept : (p : Card → Bool) (cards : List Card) → Kept p (filter p cards) cards
filter-Kept p cards a m = Memᴰ-filter p cards m

Kept-same :
    {p : Card → Bool} {xs ys cards : List Card} → xs ≡ ys → Kept p ys cards → Kept p xs cards
Kept-same e k a m = k a (rw e at m)

privacy_stage-cases :
    (req : RequestProfile) (cards xs : List Card) (rs : List ReasonCode)
    → privacy_stage req cards ≡ ok (xs, rs)
    → ((is_local_only (effective_privacy req) ≡ true) × (xs ≡ filter is_local_capable cards))
      ⊎ ((is_local_only (effective_privacy req) ≡ false) × (xs ≡ cards))
unfolding privacy_stage
privacy_stage-cases req cards xs rs h = ground arith

-- How the cards that match come about: from the named role, or by capability alone.
abbrev Matches :
    RequestProfile → PolicyCtx → List Card → List Card → Option Degradation → Option Role → Type 0
Matches req ctx cards xs d (some role) =
    ((xs ≡ filter (is_role_candidate req ctx role) cards) × (d ≡ none))
    ⊎ ((xs ≡ filter (is_capability_candidate req ctx) cards)
        × (is_empty (filter (is_role_candidate req ctx role) cards) ≡ true)
        × (allow_fallback req ≡ true)
        × (d ≡ some (role_fallback role)))
Matches req ctx cards xs d none = (xs ≡ filter (is_capability_candidate req ctx) cards) × (d ≡ none)

role_stage_for-Matches :
    (req : RequestProfile) (ctx : PolicyCtx) (cards xs : List Card) (rs : List ReasonCode)
    (d : Option Degradation) (o : Option Role)
    → role_stage_for req ctx cards o ≡ ok (xs, rs, d)
    → Matches req ctx cards xs d o
unfolding fallback_stage
role_stage_for-Matches req ctx cards xs rs d none h = ground arith
role_stage_for-Matches req ctx cards xs rs d (some role) h = ground arith

-- A card passes by its role, or by its capabilities where none is named or a fallback is declared.
abbrev pub MatchedBy : RequestProfile → PolicyCtx → Option Role → Card → Type 0
MatchedBy req ctx (some role) a = (any (role_eq role) a.roles ≡ true) ⊎ (allow_fallback req ≡ true)
MatchedBy req ctx none a = Unit {0}

abbrev Capable : RequestProfile → PolicyCtx → Card → Type 0
Capable req ctx a =
    (is_catalog_eligible a ctx.min_ram_gb ≡ true)
    × (has_capabilities a (effective_capabilities req) ≡ true)

role_candidate-Capable :
    (req : RequestProfile) (ctx : PolicyCtx) (role : Role) (a : Card)
    → is_role_candidate req ctx role a ≡ true
    → Capable req ctx a × (any (role_eq role) a.roles ≡ true)
role_candidate-Capable req ctx role a h =
    ground (arith, is_eligible_for_role_lem a role ctx.min_ram_gb)

role_stage-gates :
    (req : RequestProfile) (ctx : PolicyCtx) (cards xs : List Card) (d : Option Degradation)
    (o : Option Role) (a : Card)
    → Matches req ctx cards xs d o
    → Memᴰ a xs
    → Memᴰ a cards × Capable req ctx a × MatchedBy req ctx o a
role_stage-gates req ctx cards xs d none a (e, _) m =
    let k = filter-Kept (is_capability_candidate req ctx) cards a (rw e at m) in
    (k.0, ground arith, tt)
role_stage-gates req ctx cards xs d (some role) a (inl (e, _)) m =
    let k = filter-Kept (is_role_candidate req ctx role) cards a (rw e at m) in
    let c = role_candidate-Capable req ctx role a k.1 in (k.0, c.0, inl c.1)
role_stage-gates req ctx cards xs d (some role) a (inr (e, _, f, _)) m =
    let k = filter-Kept (is_capability_candidate req ctx) cards a (rw e at m) in
    (k.0, ground arith, inr f)

-- What holds of a card that the stages before the budget leave.
pub record IsEligible (req : RequestProfile) (cards : List Card) (ctx : PolicyCtx) (a : Card)
    : Type 0 where
  pub listed : Memᴰ a cards
  pub trusted : is_local_only (effective_privacy req) ≡ true → is_local_capable a ≡ true
  pub healthy : is_catalog_eligible a ctx.min_ram_gb ≡ true
  pub capable : has_capabilities a (effective_capabilities req) ≡ true
  pub matched : MatchedBy req ctx (catalog_role req) a
  pub priced : is_priced a ≡ true
  pub admissible : is_admissible a ≡ true

privacy_stage-gates :
    (req : RequestProfile) (cards xs : List Card) (rs : List ReasonCode) (a : Card)
    → privacy_stage req cards ≡ ok (xs, rs)
    → Memᴰ a xs
    → Memᴰ a cards × (is_local_only (effective_privacy req) ≡ true → is_local_capable a ≡ true)
privacy_stage-gates req cards xs rs a h m = elim (privacy_stage-cases req cards xs rs h) [
  | inl (_, e) ↦ let k = filter-Kept is_local_capable cards a (rw e at m) in (k.0, λ _. k.1)
  | inr (f, e) ↦ (rw e at m, λ t. cc)
]

pricing_stage-gates :
    (cards xs : List Card) (rs : List ReasonCode)
    → pricing_stage cards ≡ ok (xs, rs)
    → Kept is_priced xs cards
unfolding pricing_stage
pricing_stage-gates cards xs rs h =
    let e : xs ≡ filter is_priced cards = ground arith in Kept-same e (filter-Kept is_priced cards)

admission_stage-gates :
    (cards xs : List Card) → admission_stage cards ≡ ok xs → Kept is_admissible xs cards
unfolding admission_stage
admission_stage-gates cards xs h =
    let e : xs ≡ filter is_admissible cards = ground arith in
    Kept-same e (filter-Kept is_admissible cards)

pub admission_eligible-IsEligible :
    (req : RequestProfile) (cards : List Card) (ctx : PolicyCtx) (xs : List Card)
    (rs : List ReasonCode) (d : Option Degradation) (a : Card)
    → admission_eligible req cards ctx ≡ ok (xs, rs, d)
    → Memᴰ a xs
    → IsEligible req cards ctx a
unfolding admission_eligible
admission_eligible-IsEligible req cards ctx xs rs d a h m =
    let (p, hp, h₁) = >>=-eq-ok (privacy_stage req cards) _ h in
    let (r, hr, h₂) = >>=-eq-ok (role_stage req ctx p.0) _ h₁ in
    let (q, hq, h₃) = >>=-eq-ok (pricing_stage r.0) _ h₂ in
    let (e, he, h₄) = >>=-eq-ok (admission_stage q.0) _ h₃ in
    let same : xs ≡ e = ground arith in
    let k₁ = admission_stage-gates q.0 e he a (rw same at m) in
    let k₂ = pricing_stage-gates r.0 q.0 q.1 hq a k₁.0 in
    let k₃ =
      role_stage-gates req ctx p.0 r.0 r.2 (catalog_role req) a
        (role_stage_for-Matches req ctx p.0 r.0 r.1 r.2 (catalog_role req)
          (unfold role_stage in hr))
        k₂.0 in
    let k₄ = privacy_stage-gates req cards p.0 p.1 a hp k₃.0 in
    record {
      listed = k₄.0;
      trusted = k₄.1;
      healthy = k₃.1.0;
      capable = k₃.1.1;
      matched = k₃.2;
      priced = k₂.1;
      admissible = k₁.1;
    }

Matches-undegraded :
    (req : RequestProfile) (ctx : PolicyCtx) (cards xs : List Card) (d : Option Degradation)
    (o : Option Role)
    → Matches req ctx cards xs d o
    → allow_fallback req ≡ false
    → d ≡ none
Matches-undegraded req ctx cards xs d none (_, e) f = e
Matches-undegraded req ctx cards xs d (some role) (inl (_, e)) f = e
Matches-undegraded req ctx cards xs d (some role) (inr (_, _, g, _)) f = cc

-- With no declared fallback the stages before the budget record no degradation.
pub admission_eligible-undegraded :
    (req : RequestProfile) (cards : List Card) (ctx : PolicyCtx) (xs : List Card)
    (rs : List ReasonCode) (d : Option Degradation)
    → admission_eligible req cards ctx ≡ ok (xs, rs, d)
    → allow_fallback req ≡ false
    → d ≡ none
unfolding admission_eligible
admission_eligible-undegraded req cards ctx xs rs d h f =
    let (p, hp, h₁) = >>=-eq-ok (privacy_stage req cards) _ h in
    let (r, hr, h₂) = >>=-eq-ok (role_stage req ctx p.0) _ h₁ in
    let (q, hq, h₃) = >>=-eq-ok (pricing_stage r.0) _ h₂ in
    let (e, he, h₄) = >>=-eq-ok (admission_stage q.0) _ h₃ in
    let same : r.2 ≡ d = ground arith in
    rw (← same) (
      Matches-undegraded req ctx p.0 r.0 r.2 (catalog_role req)
        (role_stage_for-Matches req ctx p.0 r.0 r.1 r.2 (catalog_role req)
          (unfold role_stage in hr))
        f)

pub MatchedBy-role :
    (req : RequestProfile) (ctx : PolicyCtx) (o : Option Role) (role : Role) (a : Card)
    → MatchedBy req ctx o a
    → allow_fallback req ≡ false
    → o ≡ some role
    → any (role_eq role) a.roles ≡ true
MatchedBy-role req ctx none role a m f e = cc
MatchedBy-role req ctx (some r) role a (inl m) f e = rw (← some_eq e) m
MatchedBy-role req ctx (some r) role a (inr g) f e = cc
