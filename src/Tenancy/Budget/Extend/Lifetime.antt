-- ===== src/Tenancy/Budget/Extend/Lifetime.antt =====
-- crates/idoris-tenancy/src/budget/ledger.rs: how `extend` ends, and how long a reservation lives.
use i_doris.Prelude.{
  ◌≡◌, refl, ◌∙◌, Bool, true, false, not, ◌||◌, Option, none, some, inl, inr, arith, ◌⊎◌, ap,
}
use i_doris.Prelude.Int.{ℤ, pos, ltb_ℤ, leb_ℤ, ◌≤ℤ◌, ◌+ℤ◌}
use i_doris.Prelude.Equality.{text_eq_refl}
use i_doris.Prelude.Results.{Result, ok, err, >>=-eq-ok, Result-cases}
use i_doris.Tenancy.Budget.Amount.{checked_add, checked_mul_four, times_four}
use i_doris.Tenancy.Budget.Amount.Sums.{checked_add_exact}
use i_doris.Tenancy.Budget.Types.{
  BudgetError, is_active, invalid_ttl, invalid_timestamp, reservation_not_active,
}
use i_doris.Tenancy.Budget.Views.{ok_or}
use i_doris.Tenancy.Budget.Admit.{check_reservation_deadline}
use i_doris.Tenancy.Budget.Store.{
  Store, Reservation, Answered, reject_if, find_reservation, update_rows, has_id,
}
use i_doris.Tenancy.Budget.Store.Rows.{
  reject_if-ok, Keeps, Keeps-if, find_reservation-map, find_reservation-Found,
}
use i_doris.Tenancy.Budget.Extend.{Extension, extending, extend, renewed}

pub ok_or-ok : {A : Type 0} (o : Option A) (e : BudgetError) {a : A} → ok_or o e ≡ ok a → o ≡ some a
ok_or-ok none e h = cc
ok_or-ok (some b) e h = cc

-- The renewal was written.
pub record Extended (ttl_ms : ℤ) (s : Store) (x : Extension) (answer : Answered (Unit {0}))
    : Type 0 where
  pub row : Reservation
  pub expires_at_ms : ℤ
  pub lifetime_ms : ℤ
  pub latest_ms : ℤ
  pub found : find_reservation s x.tenant_id x.reservation_id ≡ ok row
  pub allowed : leb_ℤ x.additional_ttl_ms (pos 0) || ltb_ℤ ttl_ms x.additional_ttl_ms ≡ false
  pub alive : not (is_active row.status) || leb_ℤ row.expires_at_ms x.now_ms ≡ false
  pub sum : checked_add x.now_ms x.additional_ttl_ms ≡ some expires_at_ms
  pub lifetime : checked_mul_four ttl_ms ≡ some lifetime_ms
  pub latest : checked_add row.created_at_ms lifetime_ms ≡ some latest_ms
  pub in_time : ltb_ℤ latest_ms expires_at_ms ≡ false
  pub is_end : answer ≡ (
    record s { reservations = update_rows x.reservation_id (renewed expires_at_ms) s.reservations },
    check_reservation_deadline x.reservation_id expires_at_ms x.after_commit_ms,
  )

extending-Extended :
    (ttl_ms : ℤ) (s : Store) (x : Extension) (answer : Answered (Unit {0}))
    → extending ttl_ms s x ≡ ok answer
    → Extended ttl_ms s x answer
extending-Extended ttl_ms s x answer h =
    let (_, a, h1) =
      >>=-eq-ok
        (reject_if (leb_ℤ x.additional_ttl_ms (pos 0) || ltb_ℤ ttl_ms x.additional_ttl_ms)
          (invalid_ttl x.additional_ttl_ms))
        _ h in
    let (row, f, h2) = >>=-eq-ok (find_reservation s x.tenant_id x.reservation_id) _ h1 in
    let (_, b, h3) =
      >>=-eq-ok
        (reject_if (not (is_active row.status) || leb_ℤ row.expires_at_ms x.now_ms)
          (reservation_not_active x.reservation_id row.status))
        _ h2 in
    let (expires, e, h4) =
      >>=-eq-ok (ok_or (checked_add x.now_ms x.additional_ttl_ms) (invalid_timestamp x.now_ms)) _
        h3 in
    let (lifetime, l, h5) =
      >>=-eq-ok (ok_or (checked_mul_four ttl_ms) (invalid_ttl x.additional_ttl_ms)) _ h4 in
    let (latest, m, h6) =
      >>=-eq-ok (ok_or (checked_add row.created_at_ms lifetime) (invalid_timestamp x.now_ms)) _
        h5 in
    let (_, c, h7) =
      >>=-eq-ok (reject_if (ltb_ℤ latest expires) (invalid_ttl x.additional_ttl_ms)) _ h6 in
    let (_, d, h8) =
      >>=-eq-ok (check_reservation_deadline x.reservation_id expires x.before_commit_ms) _ h7 in
    record {
      row = row;
      expires_at_ms = expires;
      lifetime_ms = lifetime;
      latest_ms = latest;
      found = f;
      allowed = reject_if-ok _ _ a;
      alive = reject_if-ok _ _ b;
      sum = ok_or-ok _ _ e;
      lifetime = ok_or-ok _ _ l;
      latest = ok_or-ok _ _ m;
      in_time = reject_if-ok _ _ c;
      is_end = ok_eq h8;
    }
  where
    ok_eq : {A B : Type 0} {a b : B} → ◌≡◌ {A = Result A B} (ok a) (ok b) → b ≡ a
    ok_eq q = cc

-- Either nothing was written, or the renewal.
pub extend-cases :
    (ttl_ms : ℤ) (s : Store) (x : Extension)
    → ((e : BudgetError) × (extend ttl_ms s x ≡ (s, err e)))
      ⊎ Extended ttl_ms s x (extend ttl_ms s x)
unfolding extend
extend-cases ttl_ms s x = elim (Result-cases (extending ttl_ms s x)) [
  | inl (e, q) ↦ inl (e, rw q refl)
  | inr (answer, q) ↦ inr (rw q (extending-Extended ttl_ms s x answer q))
]

pub renewed-Keeps : (t : ℤ) → Keeps (renewed t)
renewed-Keeps t = record {
  id = λ row. refl;
  scope = λ row. refl;
  period = λ row. refl;
  tenant_period = λ row. refl;
}

checked_mul_four_exact : (a : ℤ) {b : ℤ} → checked_mul_four a ≡ some b → b ≡ times_four a
unfolding checked_mul_four
checked_mul_four_exact a h = ground arith

alive_parts :
    (b : Bool) (expires now : ℤ)
    → not b || leb_ℤ expires now ≡ false
    → (b ≡ true) × (ltb_ℤ now expires ≡ true)
alive_parts true expires now h = (refl, ground arith)
alive_parts false expires now h = cc

allowed_part : (a ttl : ℤ) → leb_ℤ a (pos 0) || ltb_ℤ ttl a ≡ false → a ≤ℤ ttl
allowed_part a ttl h = ground arith

not_ltb_le : (a b : ℤ) → ltb_ℤ a b ≡ false → b ≤ℤ a
not_ltb_le a b h = ground arith

-- What holds of a reservation that has been renewed.
pub record Renewed (ttl_ms : ℤ) (s s' : Store) (x : Extension) : Type 0 where
  pub row : Reservation
  pub expires_at_ms : ℤ
  pub found : find_reservation s x.tenant_id x.reservation_id ≡ ok row
  pub active_before : is_active row.status ≡ true
  pub unexpired_before : ltb_ℤ x.now_ms row.expires_at_ms ≡ true
  pub written : find_reservation s' x.tenant_id x.reservation_id ≡ ok (renewed expires_at_ms row)
  pub from_now : expires_at_ms ≡ x.now_ms +ℤ x.additional_ttl_ms
  pub at_most_ttl : x.additional_ttl_ms ≤ℤ ttl_ms
  pub at_most_four_ttl : expires_at_ms ≤ℤ row.created_at_ms +ℤ times_four ttl_ms

Extended-Renewed :
    (ttl_ms : ℤ) (s : Store) (x : Extension) (answer : Answered (Unit {0}))
    → Extended ttl_ms s x answer
    → Renewed ttl_ms s answer.0 x
Extended-Renewed ttl_ms s x answer e =
    let own = find_reservation-Found s x.tenant_id x.reservation_id e.found in
    let live = alive_parts (is_active e.row.status) e.row.expires_at_ms x.now_ms e.alive in
    let latest =
      (checked_add_exact e.row.created_at_ms e.lifetime_ms e.latest).0
      ∙ ap (λ l. e.row.created_at_ms +ℤ l) (checked_mul_four_exact ttl_ms e.lifetime) in
    let kept = Keeps-if (has_id x.reservation_id) (renewed-Keeps e.expires_at_ms) in
    let late = not_ltb_le e.latest_ms e.expires_at_ms e.in_time in
    record {
      row = e.row;
      expires_at_ms = e.expires_at_ms;
      found = e.found;
      active_before = live.0;
      unexpired_before = live.1;
      written =
          find_reservation-map s answer.0 x.tenant_id x.reservation_id kept (rw e.is_end refl)
          ∙ rw (e.found, own.id, text_eq_refl x.reservation_id) refl;
      from_now = (checked_add_exact x.now_ms x.additional_ttl_ms e.sum).0;
      at_most_ttl = allowed_part x.additional_ttl_ms ttl_ms e.allowed;
      at_most_four_ttl = rw (← latest) late;
    }

-- A call of `extend` either changes nothing and fails, or renews a reservation that was active and
-- not yet expired: it then lives from now for the time asked for, which is at most the ledger's
-- lifetime, and at most four such lifetimes from its creation, however often it is renewed.
pub extend-Renewed :
    (ttl_ms : ℤ) (s : Store) (x : Extension)
    → ((e : BudgetError) × (extend ttl_ms s x ≡ (s, err e)))
      ⊎ Renewed ttl_ms s (extend ttl_ms s x).0 x
extend-Renewed ttl_ms s x = elim (extend-cases ttl_ms s x) [
  | inl e ↦ inl e
  | inr e ↦ inr (Extended-Renewed ttl_ms s x (extend ttl_ms s x) e)
]
