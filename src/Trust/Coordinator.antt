-- ===== src/Trust/Coordinator.antt =====
-- `ApprovalCoordinator` of core/src/weatherflow/trust/coordinator.py
use weatherflow.Prelude.{
  ℕ, String, Bool, true, false, not, ◌&&◌, Option, none, some, ◌==◌, get_last?,
}
use weatherflow.Json.{Object, end, field, text, obj, object_eq}
use weatherflow.Outcome.{value_error, approval_policy_error, approval_state_error}
use weatherflow.Database.{Db, Tx, pure, gets, query, or_raise, raise_if, ◌>>=◌, ◌>>◌, transaction}
use weatherflow.Events.Model.{Stamp, Event, agent, system, new_event}
use weatherflow.Events.Ledger.{append_in, list_stream_in}
use weatherflow.Capabilities.{ToolSpec, effect_eq, effect_value}
use weatherflow.Workspaces.{Workspace}
use weatherflow.Runs.Status.{RunStatus}
use weatherflow.Runs.Model.{Run}
use weatherflow.Runs.Repository
use weatherflow.Runs.Coordinator.{event_id, move_in}
use weatherflow.Trust.ActionStatus.{ActionStatus}
use weatherflow.Trust.Model.{Action, Approval, lacks_text, new_action, for_action}
use weatherflow.Trust.Policy.{DecisionKind, approve, sandbox, evaluate}
use weatherflow.Trust.Actions
use weatherflow.Trust.Approvals

pub record ApprovalBundle : Type 0 where
  pub action : Action
  pub approval : Approval
  pub run : Run

-- The arguments of `propose` and `authorize_sandboxed`.
pub record Proposal : Type 0 where
  pub run_id : String
  pub tool : ToolSpec
  pub workspace : Workspace
  pub arguments : Object
  pub idempotency_key : String
  pub preview : Object

unfoldable pub matches_identity : Action → Proposal → Bool
matches_identity action q =
    (action.run_id == q.run_id)
    && ((action.tool_id == q.tool.tool_id)
        && (effect_eq action.effect q.tool.effect && object_eq action.arguments q.arguments))

unfoldable pub require_matching_identity : Action → Proposal → Tx (Unit {0})
unfolding matches_identity
require_matching_identity action q = raise_if (not (matches_identity action q)) approval_state_error

-- `_bundle` and `_bundle_in`
unfoldable pub bundle : Action → Tx ApprovalBundle
bundle action = do
  found_approval ← gets (Approvals.get_by_action_id_in action.id)
  found_run ← gets (Repository.get_in action.run_id)
  approval ← or_raise approval_state_error found_approval
  run ← or_raise approval_state_error found_run
  pure (record { action = action; approval = approval; run = run })

-- `_bundle_for_approval` and `_bundle_for_approval_in`
unfoldable pub bundle_for_approval : Approval → Tx ApprovalBundle
bundle_for_approval approval = do
  found_action ← gets (Actions.get_in approval.action_id)
  found_run ← gets (Repository.get_in approval.run_id)
  action ← or_raise approval_state_error found_action
  run ← or_raise approval_state_error found_run
  pure (record { action = action; approval = approval; run = run })

-- The last event of a stream that `list_stream_in` returns.
unfoldable pub prior_event : String → String → Tx (Option String)
prior_event kind stream_id = do
  prior ← query λ db. list_stream_in kind stream_id db.events
  pure (event_id (get_last? prior))

abbrev pub is_approve : DecisionKind → Bool
is_approve approve = true
is_approve _ = false

abbrev pub is_sandbox : DecisionKind → Bool
is_sandbox sandbox = true
is_sandbox _ = false

-- The identities and times that one call draws.
pub record ProposeStamps : Type 0 where
  pub action : Stamp
  pub approval : Stamp
  pub action_event : Stamp
  pub approval_event : Stamp
  pub run_event : Stamp
  pub updated_at : ℕ

unfoldable pub proposed_event : Stamp → Proposal → String → Option String → Event
proposed_event stamp q action_id causation_id =
    new_event stamp "action.proposed" agent "action" action_id q.run_id causation_id (
      field "tool_id" (text q.tool.tool_id) (
        field "effect" (text (effect_value q.tool.effect))
          (field "idempotency_key" (text q.idempotency_key) (field "preview" (obj q.preview) end))))

unfoldable pub requested_event : Stamp → Proposal → Approval → String → Event
requested_event stamp q approval action_event_id =
    new_event stamp "approval.requested" system "approval" approval.id q.run_id
      (some action_event_id)
      (field "action_id" (text approval.action_id) (field "tool_id" (text q.tool.tool_id) end))

unfoldable pub insert_proposal : ProposeStamps → Proposal → ℕ → Tx ApprovalBundle
unfolding prior_event
insert_proposal stamps q expected_run_version = do
  let action =
      new_action stamps.action q.run_id q.tool.tool_id q.arguments q.tool.effect q.idempotency_key
        q.preview
  let approval = for_action stamps.approval action
  prior ← prior_event "run" q.run_id
  Actions.create_in action
  Approvals.create_in approval
  append_in (proposed_event stamps.action_event q action.id prior)
  append_in (requested_event stamps.approval_event q approval stamps.action_event.id)
  run ←
      move_in stamps.updated_at stamps.run_event q.run_id RunStatus.waiting_approval
        expected_run_version Repository.no_detail
  pure (record { action = action; approval = approval; run = run })

unfoldable pub existing_bundle : Proposal → Action → Tx ApprovalBundle
existing_bundle q existing = do require_matching_identity existing q; bundle existing

abbrev pub bundle_or : Proposal → Option Action → Tx ApprovalBundle → Tx ApprovalBundle
bundle_or q none create = create
bundle_or q (some existing) create = existing_bundle q existing

-- `seen` is the database at the first, unlocked look.
unfoldable pub propose : ProposeStamps → Proposal → ℕ → Db → Tx ApprovalBundle
propose stamps q expected_run_version seen =
    bundle_or q (Actions.get_by_idempotency_key_in q.idempotency_key seen) do
      raise_if (not (is_approve (evaluate q.tool q.workspace).kind)) approval_policy_error
      raise_if (lacks_text q.run_id q.tool.tool_id q.idempotency_key) value_error
      transaction do
        found ← gets (Actions.get_by_idempotency_key_in q.idempotency_key)
        bundle_or q found (insert_proposal stamps q expected_run_version)

pub record SandboxStamps : Type 0 where
  pub action : Stamp
  pub proposed_event : Stamp
  pub authorized_event : Stamp
  pub updated_at : ℕ

unfoldable pub authorized_event : Stamp → Proposal → String → Event
authorized_event stamp q action_id =
    new_event stamp "action.sandbox_authorized" system "action" action_id q.run_id none
      (field "tool_id" (text q.tool.tool_id) (field "policy" (text "sandbox") end))

unfoldable pub insert_sandboxed : SandboxStamps → Proposal → Tx Action
insert_sandboxed stamps q = do
  let proposed =
      new_action stamps.action q.run_id q.tool.tool_id q.arguments q.tool.effect q.idempotency_key
        q.preview
  Actions.create_in proposed
  append_in (proposed_event stamps.proposed_event q proposed.id none)
  authorized ←
      Actions.transition_in stamps.updated_at proposed.id ActionStatus.approved proposed.version
        Actions.no_detail
  append_in (authorized_event stamps.authorized_event q proposed.id)
  pure authorized

unfoldable pub existing_action : Proposal → Action → Tx Action
existing_action q existing = do require_matching_identity existing q; pure existing

abbrev pub action_or : Proposal → Option Action → Tx Action → Tx Action
action_or q none create = create
action_or q (some existing) create = existing_action q existing

unfoldable pub authorize_sandboxed : SandboxStamps → Proposal → Db → Tx Action
authorize_sandboxed stamps q seen = do
  raise_if (not (is_sandbox (evaluate q.tool q.workspace).kind)) approval_policy_error
  action_or q (Actions.get_by_idempotency_key_in q.idempotency_key seen) do
    raise_if (lacks_text q.run_id q.tool.tool_id q.idempotency_key) value_error
    transaction do
      found ← gets (Actions.get_by_idempotency_key_in q.idempotency_key)
      action_or q found (insert_sandboxed stamps q)
