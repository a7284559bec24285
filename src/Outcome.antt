-- ===== src/Outcome.antt =====
-- The exceptions that the repositories and coordinators raise, and results that may carry one.
use weatherflow.Prelude.{◌≡◌, refl, ◌⊎◌, inl, inr}

pub data Error : Type 0 where
  value_error lookup_error integrity_error : Error
  duplicate_run run_not_found run_version_conflict invalid_transition : Error
  run_idempotency_conflict session_not_found : Error
  duplicate_event unknown_event_cursor : Error
  duplicate_action action_not_found action_version_conflict invalid_action_transition : Error
  duplicate_approval approval_not_found approval_version_conflict : Error
  invalid_approval_transition approval_policy_error approval_state_error : Error
  approval_already_decided cancelled_error : Error
  zone_not_found assertion_error runtime_error type_error : Error
  automation_not_found automation_version_conflict : Error
  control_not_found control_rejected : Error
  duplicate_checkpoint checkpoint_not_found checkpoint_version_conflict : Error
  continuation_unavailable session_version_conflict : Error
  duplicate_workspace workspace_version_conflict : Error

pub data Result {ℓ} (A : Type ℓ) : Type ℓ where
  ok : A → Result A
  err : Error → Result A

pub Result-cases {ℓ} :
    {A : Type ℓ} (r : Result A) → ((e : Error) × (r ≡ err e)) ⊎ ((a : A) × (r ≡ ok a))
Result-cases (ok a) = inr (a, refl)
Result-cases (err e) = inl (e, refl)
