-- ===== src/Backend/Supervisor/LoadFlow/Errors.antt =====
-- The errors of a load that may still run.
use i_doris.Prelude.{true, false, ◌≡◌, refl, ◌⊎◌, inl, inr}
use i_doris.Backend.Error.{
  BackendError, is_oom, eviction_failed, model_unavailable, probe_timed_out, model_not_found,
  model_loading, eviction_impossible, oom, headroom_confirmation_required, adapter_timed_out,
  adapter_panicked, load_unconfirmed, load_postcondition_failed, upstream, cancelled,
  invalid_request, supervisor_unavailable, busy, invariant_violation, lock_poisoned, internal,
}
use i_doris.Backend.Supervisor.Release.{is_postcondition_failed, is_unresolved}

-- An error of a load that may still run is neither an OOM nor that of a load that has ended.
pub unresolved-cases :
    (e : BackendError)
    → (is_unresolved e ≡ false) ⊎ ((is_oom e ≡ false) × (is_postcondition_failed e ≡ false))
unresolved-cases (model_not_found m) = inl refl
unresolved-cases (model_loading m) = inl refl
unresolved-cases (model_unavailable m) = inl refl
unresolved-cases (eviction_impossible m) = inl refl
unresolved-cases (eviction_failed m) = inl refl
unresolved-cases (oom m) = inl refl
unresolved-cases (headroom_confirmation_required m) = inl refl
unresolved-cases (probe_timed_out m) = inl refl
unresolved-cases (adapter_timed_out m) = inr (refl, refl)
unresolved-cases (adapter_panicked m) = inl refl
unresolved-cases (load_unconfirmed m) = inr (refl, refl)
unresolved-cases (load_postcondition_failed m) = inl refl
unresolved-cases (busy a b) = inl refl
unresolved-cases upstream = inl refl
unresolved-cases cancelled = inl refl
unresolved-cases invalid_request = inl refl
unresolved-cases supervisor_unavailable = inl refl
unresolved-cases invariant_violation = inl refl
unresolved-cases lock_poisoned = inl refl
unresolved-cases internal = inl refl

pub oom_resolved : (e : BackendError) → is_oom e ≡ true → is_unresolved e ≡ false
oom_resolved e h = elim (unresolved-cases e) [ inl u ↦ u | inr (o, p) ↦ cc (o, h) ]
