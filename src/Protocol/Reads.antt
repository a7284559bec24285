-- ===== src/Protocol/Reads.antt =====
-- The calls of the coordinators that only read keep every predicate on the database.
use weatherflow.Prelude.{String, not, Option, none, some, inl, inr, Bool-cases}
use weatherflow.Database.{Db, Tx}
use weatherflow.Database.Commits.{Commits, Commits-raise, Commits-if}
use weatherflow.Database.Keeps.{Keeps, keep_rules, Keeps-raise, Commits-Keeps}
use weatherflow.Runs.Model.{Run}
use weatherflow.Runs.Coordinator.{Request, existing_run}
use weatherflow.Trust.ApprovalStatus.{ApprovalStatus, pending, approval_status_eq}
use weatherflow.Trust.Model.{Action, Approval}
use weatherflow.Trust.Coordinator.{
  ApprovalBundle, Proposal, bundle, bundle_for_approval, require_matching_identity, existing_bundle,
  existing_action, prior_event,
}
use weatherflow.Trust.Decisions.{check_pending}

module _ {P : Db → Type 0} where
  pub existing_run-Keeps : (q : Request) (r : Run) → Keeps P (existing_run q r)
  unfolding existing_run
  existing_run-Keeps q r = search keep_rules depth 14

  pub bundle-Keeps : (a : Action) → Keeps P (bundle a)
  unfolding bundle
  bundle-Keeps a = search keep_rules depth 14

  pub bundle_for_approval-Keeps : (p : Approval) → Keeps P (bundle_for_approval p)
  unfolding bundle_for_approval
  bundle_for_approval-Keeps p = search keep_rules depth 14

  pub existing_bundle-Keeps : (q : Proposal) (a : Action) → Keeps P (existing_bundle q a)
  unfolding existing_bundle require_matching_identity
  existing_bundle-Keeps q a = search (keep_rules, bundle-Keeps) depth 14

  pub existing_action-Keeps : (q : Proposal) (a : Action) → Keeps P (existing_action q a)
  unfolding existing_action require_matching_identity
  existing_action-Keeps q a = search keep_rules depth 14

  pub prior_event-Keeps : (kind stream_id : String) → Keeps P (prior_event kind stream_id)
  unfolding prior_event
  prior_event-Keeps kind stream_id = search keep_rules depth 14

  pub check_pending-Keeps :
      (target : ApprovalStatus) (found : Option Approval) (proceed : Approval → Tx ApprovalBundle)
      → ((p : Approval) → Keeps P (proceed p))
      → Keeps P (check_pending target found proceed)
  unfolding check_pending
  check_pending-Keeps target none proceed k = Keeps-raise _
  check_pending-Keeps target (some p) proceed k =
      elim (Bool-cases (approval_status_eq p.status target)) [
        | inl same ↦ rw same (bundle_for_approval-Keeps p)
        | inr other ↦ rw other (elim (Bool-cases (approval_status_eq p.status pending)) [
          | inl open_still ↦ rw open_still (k p)
          | inr decided ↦ rw decided (Keeps-raise _)
        ])
      ]

  pub check_pending-Commits :
      (target : ApprovalStatus) (found : Option Approval) (proceed : Approval → Tx ApprovalBundle)
      → ((p : Approval) → Commits P (proceed p))
      → Commits P (check_pending target found proceed)
  unfolding check_pending
  check_pending-Commits target none proceed k = Commits-raise _
  check_pending-Commits target (some p) proceed k =
      Commits-if (approval_status_eq p.status target) _ _
        (Commits-Keeps _ (bundle_for_approval-Keeps p))
        (Commits-if (not (approval_status_eq p.status pending)) _ _ (Commits-raise _) (k p))
