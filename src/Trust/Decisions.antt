-- ===== src/Trust/Decisions.antt =====
-- `decide` and `expire` of `ApprovalCoordinator`, core/src/weatherflow/trust/coordinator.py. They
-- differ in the statuses that they set, in who decided, and in the event: a `Resolution`.
use weatherflow.Prelude.{ℕ, String, Bool, not, Option, none, some, ◌==◌, if◌then◌else◌}
use weatherflow.Json.{Json, null, Object, end, field, text}
use weatherflow.Outcome.{approval_not_found, approval_state_error, approval_already_decided}
use weatherflow.Database.{Db, Tx, pure, raise, gets, or_raise, ◌>>=◌, ◌>>◌, transaction}
use weatherflow.Events.Model.{Stamp, Actor, user, system, new_event}
use weatherflow.Events.Ledger.{append_in}
use weatherflow.Runs.Status.{RunStatus}
use weatherflow.Runs.Repository
use weatherflow.Runs.Coordinator.{move_in}
use weatherflow.Trust.ActionStatus.{ActionStatus}
use weatherflow.Trust.ApprovalStatus.{
  ApprovalStatus, pending, approval_status_eq, approval_status_value,
}
use weatherflow.Trust.Model.{Approval}
use weatherflow.Trust.Actions
use weatherflow.Trust.Approvals
use weatherflow.Trust.Coordinator.{ApprovalBundle, bundle_for_approval, prior_event}

pub record Resolution : Type 0 where
  pub approval : ApprovalStatus
  pub action : ActionStatus
  pub run : RunStatus
  pub decided_by : String
  pub rationale : Option String
  pub event_type : String
  pub actor : Actor
  pub event_fields : Object

-- The identities and times that one call draws.
pub record ResolveStamps : Type 0 where
  pub approval_updated_at : ℕ
  pub action_updated_at : ℕ
  pub event : Stamp
  pub run_updated_at : ℕ
  pub run_event : Stamp

unfoldable pub resolve_in : ResolveStamps → String → ℕ → Resolution → Approval → Tx ApprovalBundle
resolve_in stamps approval_id expected_version res current = do
  found_action ← gets (Actions.get_in current.action_id)
  found_run ← gets (Repository.get_in current.run_id)
  action ← or_raise approval_state_error found_action
  run ← or_raise approval_state_error found_run
  updated_approval ←
      Approvals.transition_in stamps.approval_updated_at approval_id res.approval expected_version
        res.decided_by res.rationale
  updated_action ←
      Actions.transition_in stamps.action_updated_at action.id res.action action.version
        Actions.no_detail
  prior ← prior_event "approval" approval_id
  append_in (
      new_event stamps.event res.event_type res.actor "approval" approval_id current.run_id prior
        (field "action_id" (text action.id) res.event_fields))
  updated_run ←
      move_in stamps.run_updated_at stamps.run_event run.id res.run run.version Repository.no_detail
  pure (record { action = updated_action; approval = updated_approval; run = updated_run })

-- The checks on the approval that was found; `proceed` goes on with one that is pending.
unfoldable pub check_pending :
    ApprovalStatus → Option Approval → (Approval → Tx ApprovalBundle) → Tx ApprovalBundle
check_pending target none proceed = raise approval_not_found
check_pending target (some current) proceed =
    if approval_status_eq current.status target
    then bundle_for_approval current
    else if not (approval_status_eq current.status pending)
    then raise approval_already_decided
    else proceed current

-- The transaction of `decide` and `expire`.
unfoldable pub resolve_pending : ResolveStamps → String → ℕ → Resolution → Tx ApprovalBundle
resolve_pending stamps approval_id expected_version res = do
  found ← gets (Approvals.get_in approval_id)
  check_pending res.approval found (resolve_in stamps approval_id expected_version res)

-- `seen` is the database at the first, unlocked look.
unfoldable pub resolve : ResolveStamps → String → ℕ → Resolution → Db → Tx ApprovalBundle
resolve stamps approval_id expected_version res seen =
    check_pending res.approval (Approvals.get_in approval_id seen)
      (λ _. transaction (resolve_pending stamps approval_id expected_version res))

abbrev rationale_json : Option String → Json
rationale_json none = null
rationale_json (some r) = text r

unfoldable pub decision : Bool → String → Option String → Resolution
decision approved decided_by rationale =
    let target = if approved then ApprovalStatus.approved else ApprovalStatus.denied in
    record {
      approval = target;
      action = if approved then ActionStatus.approved else ActionStatus.denied;
      run = RunStatus.running;
      decided_by = decided_by;
      rationale = rationale;
      event_type = "approval.decided";
      actor = if decided_by == "user" then user else system;
      event_fields =
          field "status" (text (approval_status_value target)) (
            field "decided_by" (text decided_by)
              (field "rationale" (rationale_json rationale) end));
    }

unfoldable pub decide :
    ResolveStamps → String → ℕ → Bool → String → Option String → Db → Tx ApprovalBundle
unfolding resolve decision
decide stamps approval_id expected_version approved decided_by rationale seen =
    resolve stamps approval_id expected_version (decision approved decided_by rationale) seen

unfoldable pub expiry : Resolution
expiry = record {
  approval = ApprovalStatus.expired;
  action = ActionStatus.cancelled;
  run = RunStatus.paused;
  decided_by = "system";
  rationale = some "approval timeout";
  event_type = "approval.expired";
  actor = system;
  event_fields = end;
}

unfoldable pub expire : ResolveStamps → String → ℕ → Db → Tx ApprovalBundle
unfolding resolve expiry
expire stamps approval_id expected_version seen =
    resolve stamps approval_id expected_version expiry seen
