-- ===== src/Backend/Supervisor/Admission/Claims.antt =====
-- crates/idoris-backend/src/supervisor.rs: what the start of a load claims on the memory of the host.
use i_doris.Prelude.{
  ℕ, false, not, ◌&&◌, Option, none, some, List, ◌-◌, Bool, true, any, ◌≡◌, inl, inr, filter,
  if◌then◌else◌, Bool-cases,
}
use i_doris.Prelude.Equality.{Text, text_eq}
use i_doris.Prelude.Float.{F64, add, sub, f64_max}
use i_doris.Prelude.Results.{Result, ok, err, ◌>>=◌, >>=-eq-ok}
use i_doris.Backend.Error.{BackendError}
use i_doris.Backend.Eviction.{zero_gb, occupies_budget}
use i_doris.Backend.Supervisor.Slots.{ModelSlot, slot_of, sum_slots}
use i_doris.Backend.Supervisor.Accounting.{
  Env, effective_reserved_gb, claim_runtime_capacity, exact_charge, exact_reserved_charge, from_gb,
  checked_add, tracks_exactly,
}
use i_doris.Backend.Supervisor.Admission.{inherits, stays, told, charge_plan}
use i_doris.Backend.Supervisor.Requests.{Request, State}

-- The slots that still hold memory once the victims are gone, the requested model's own left out.
abbrev pub holds_on : State → Request → List Text → List (Text × ModelSlot)
holds_on s q victims =
    filter
      (λ (m : Text × ModelSlot).
        not (text_eq m.0 q.id) && not (any (text_eq m.0) victims) && occupies_budget m.1.state)
      s.models

-- What the host must hold of this supervisor once the load is done: what is reserved; the requested
-- amount, or for an inherited model what it exceeds the reservation by; and the slots that hold on.
abbrev pub planned_gb : State → Request → List Text → F64
unfolding sum_slots
planned_gb s q victims =
    let reservation = effective_reserved_gb s.env s.models in
    let charge_gb =
      if inherits (slot_of q.id s.models)
      then sub (f64_max q.memory_gb reservation) reservation
      else q.memory_gb in
    add (add reservation charge_gb) (sum_slots zero_gb (holds_on s q victims))

-- The same in the exact units of the ledger, where the claim is tracked in them.
pub data IsPlannedUnits (s : State) (q : Request) (victims : List Text) : Option ℕ → Type 0 where
  untracked : tracks_exactly s.env.runtime_capacity ≡ false → IsPlannedUnits s q victims none
  fresh :
      (target held planned : ℕ)
      → inherits (slot_of q.id s.models) ≡ false
      → from_gb q.memory_gb ≡ ok target
      → exact_charge s.env s.models (filter (stays q.id victims) s.models) ≡ ok held
      → checked_add held target ≡ ok planned
      → IsPlannedUnits s q victims (some planned)
  inherited :
      (target reserved held planned : ℕ)
      → inherits (slot_of q.id s.models) ≡ true
      → from_gb q.memory_gb ≡ ok target
      → exact_reserved_charge s.env s.models ≡ ok reserved
      → exact_charge s.env s.models (filter (stays q.id victims) s.models) ≡ ok held
      → checked_add held (target - reserved) ≡ ok planned
      → IsPlannedUnits s q victims (some planned)

-- The claim that was admitted: for these amounts, with the headroom rule that the request asks for.
pub record IsClaimed (s : State) (q : Request) (victims : List Text) (env : Env) : Type 0 where
  pub units : Option ℕ
  pub planned_units : IsPlannedUnits s q victims units
  pub admitted :
      claim_runtime_capacity s.env (planned_gb s q victims) units q.allows_headroom_breach ≡ ok env

pub charge_plan-IsPlannedUnits :
    (s : State) (q : Request) (b : Bool) (victims : List Text) (units : Option ℕ) (charge : ℕ)
    → inherits (slot_of q.id s.models) ≡ b
    → charge_plan s q b victims ≡ ok (units, charge)
    → IsPlannedUnits s q victims units
unfolding charge_plan
charge_plan-IsPlannedUnits s q b victims units charge i h =
    elim (Bool-cases (tracks_exactly s.env.runtime_capacity)) [
      | inr e ↦ let same : none ≡ units = cc (rw e at h) in rw (← same) (IsPlannedUnits.untracked e)
      | inl e ↦
          let (target, t, h₁) = >>=-eq-ok (from_gb q.memory_gb) _ (rw e at h) in
          tracked b target i t h₁
    ]
  where
    tracked :
        (b : Bool) (target : ℕ)
        → inherits (slot_of q.id s.models) ≡ b
        → from_gb q.memory_gb ≡ ok target
        → ◌≡◌ {A = Result BackendError (Option ℕ × ℕ)}
            (do
              own ←
                  (if b
                    then (exact_reserved_charge s.env s.models >>= λ reserved.
                        ok (target - reserved))
                    else ok target)
              held ← exact_charge s.env s.models (filter (stays q.id victims) s.models)
              planned ← checked_add held own
              ok (some planned, own))
            (ok (units, charge))
        → IsPlannedUnits s q victims units
    tracked false target i t h =
        let (held, g, h₁) =
          >>=-eq-ok (exact_charge s.env s.models (filter (stays q.id victims) s.models)) _ h in
        let (planned, a, h₂) = >>=-eq-ok (checked_add held target) _ h₁ in
        let same : some planned ≡ units = cc h₂ in
        rw (← same) (IsPlannedUnits.fresh target held planned i t g a)
    tracked true target i t h =
        let (own, o, h₁) =
          >>=-eq-ok (exact_reserved_charge s.env s.models >>= λ reserved. ok (target - reserved)) _
            h in
        let (reserved, f, o₁) = >>=-eq-ok (exact_reserved_charge s.env s.models) _ o in
        let (held, g, h₂) =
          >>=-eq-ok (exact_charge s.env s.models (filter (stays q.id victims) s.models)) _ h₁ in
        let (planned, a, h₃) = >>=-eq-ok (checked_add held own) _ h₂ in
        let exact : own ≡ target - reserved = cc o₁ in
        let same : some planned ≡ units = cc h₃ in
        rw (← same) (IsPlannedUnits.inherited target reserved held planned i t f g (rw exact at a))

pub told-ok {ℓ} : {A : Type ℓ} (r : Result BackendError A) {a : A} → told r ≡ ok a → r ≡ ok a
told-ok (ok b) h = cc h
told-ok (err e) h = cc h
