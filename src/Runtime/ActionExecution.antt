-- ===== src/Runtime/ActionExecution.antt =====
-- `ActionExecutionCoordinator` of core/src/weatherflow/runtime/action_execution.py. The tool's
-- executor is a parameter.
use Prim.Native.String.{◌++◌}
use weatherflow.Prelude.{
  decimal, ℕ, String, Bool, true, false, not, Option, none, some, ◌==◌, if◌then◌else◌,
}
use weatherflow.Json.{Object, end, field, text}
use weatherflow.Outcome.{ok, action_not_found, approval_policy_error, lookup_error, cancelled_error}
use weatherflow.Database.{Db, Tx, pure, raise, or_raise, raise_if, ◌>>=◌, ◌>>◌, transaction}
use weatherflow.Events.Model.{Stamp, system, new_event}
use weatherflow.Events.Ledger.{append_in}
use weatherflow.Capabilities.{ToolSpec}
use weatherflow.Runtime.Validation.{SchemaLibrary, ToolOutputValidation, validate_tool_output}
use weatherflow.Workspaces.{Workspace}
use weatherflow.Runs.Status.{RunStatus}
use weatherflow.Runs.Repository
use weatherflow.Runs.Coordinator.{move_in}
use weatherflow.Trust.ActionStatus.{ActionStatus, action_status_eq, action_status_value}
use weatherflow.Trust.Model.{Action}
use weatherflow.Trust.Policy.{DecisionKind, approve, sandbox, evaluate}
use weatherflow.Trust.Actions

-- How the awaited call of the executor ends.
pub data ToolOutcome : Type 0 where
  returned : Object → ToolOutcome
  cancelled timed_out definitive_error other_error : ToolOutcome
  public_error : String → ToolOutcome

-- The reasons for a review; `timed_out_after` has the tool's id and time limit.
pub data ReviewReason : Type 0 where
  recovered_executing execution_cancelled uncertain schema_invalid output_mismatch : ReviewReason
  no_persisted_result : ReviewReason
  timed_out_after : String → ℕ → ReviewReason

unfoldable pub reason_text : ReviewReason → String
reason_text recovered_executing = "recovered ambiguous executing action"
reason_text execution_cancelled = "execution cancelled after side effect started"
reason_text uncertain = "tool execution became uncertain"
reason_text schema_invalid = "frozen tool output schema is invalid"
reason_text output_mismatch = "tool output does not match frozen output schema"
reason_text no_persisted_result = "succeeded action has no persisted result"
reason_text (timed_out_after tool_id seconds) =
    "tool " ++ tool_id ++ " timed out after " ++ decimal seconds ++ "s"

-- `_output_validation_reason`
unfoldable pub validation_reason : ToolOutputValidation → ReviewReason
validation_reason v = if not v.schema_valid then schema_invalid else output_mismatch

pub data ExecutionStatus : Type 0 where
  succeeded failed needs_review : ExecutionStatus

pub record ExecutionOutcome : Type 0 where
  pub status : ExecutionStatus
  pub action : Action
  pub result : Option Object
  pub error : Option String

-- The identities and times that one transaction draws.
pub record FinishStamps : Type 0 where
  pub updated_at : ℕ
  pub event : Stamp
  pub run_updated_at : ℕ
  pub run_event : Stamp

unfoldable pub start_in : FinishStamps → ToolSpec → Action → Tx Action
start_in stamps tool action = do
  started ←
      Actions.transition_in stamps.updated_at action.id ActionStatus.executing action.version
        Actions.no_detail
  append_in (
      new_event stamps.event "action.execution_started" system "action" action.id action.run_id none
        (field "tool_id" (text tool.tool_id) end))
  pure started

-- The transaction of `_finish`.
unfoldable pub finish_in :
    FinishStamps → Action → ActionStatus → String → Actions.Detail → Tx Action
finish_in stamps action target event_type detail = do
  updated ← Actions.transition_in stamps.updated_at action.id target action.version detail
  append_in (
      new_event stamps.event event_type system "action" action.id action.run_id none
        (field "status" (text (action_status_value target)) end))
  pure updated

-- The transaction of `_needs_review`.
unfoldable pub review_in : FinishStamps → Action → ReviewReason → String → ℕ → Tx Action
review_in stamps action reason run_id run_version = do
  updated ←
      Actions.transition_in stamps.updated_at action.id ActionStatus.needs_review action.version
        (record {
          result = none;
          error_class = some "AmbiguousSideEffectError";
          error_message = some (reason_text reason);
        })
  append_in (
      new_event stamps.event "action.needs_review" system "action" action.id action.run_id none
        (field "reason" (text (reason_text reason)) end))
  move_in stamps.run_updated_at stamps.run_event run_id RunStatus.needs_review run_version (record {
    result_summary = none;
    error_class = some "AmbiguousSideEffectError";
    error_message = some (reason_text reason);
  })
  pure updated

-- `_needs_review`; `seen` is the database when the run is looked up.
unfoldable pub review : FinishStamps → Action → ReviewReason → Db → Tx ExecutionOutcome
review stamps action reason seen = do
  run ← or_raise lookup_error (Repository.get_in action.run_id seen)
  updated ← transaction (review_in stamps action reason run.id run.version)
  pure (record {
    status = ExecutionStatus.needs_review;
    action = updated;
    result = none;
    error = some (reason_text reason);
  })

-- `_finish` with FAILED, for a definitive error of the tool.
unfoldable pub fail : FinishStamps → Action → String → Tx ExecutionOutcome
fail stamps action message = do
  updated ← transaction (
      finish_in stamps action ActionStatus.failed "action.execution_failed" (record {
        result = none;
        error_class = some "DefinitiveToolError";
        error_message = some message;
      }))
  pure (record {
    status = ExecutionStatus.failed;
    action = updated;
    result = none;
    error = some message;
  })

-- `_finish` with SUCCEEDED.
unfoldable pub succeed : FinishStamps → Action → Object → Tx ExecutionOutcome
succeed stamps action output = do
  updated ← transaction (
      finish_in stamps action ActionStatus.succeeded "action.execution_succeeded"
        (record { result = some output; error_class = none; error_message = none }))
  pure (record {
    status = ExecutionStatus.succeeded;
    action = updated;
    result = some output;
    error = none;
  })

-- What follows the executor's call; `action` is executing.
unfoldable pub after_tool :
    SchemaLibrary → FinishStamps → ToolSpec → Action → Db → ToolOutcome → Tx ExecutionOutcome
after_tool lib stamps tool action seen (returned output) =
    let validation = validate_tool_output lib tool.output_schema output in
    if not validation.valid
    then review stamps action (validation_reason validation) seen
    else succeed stamps action output
after_tool lib stamps tool action seen cancelled = do
  review stamps action execution_cancelled seen
  raise cancelled_error
after_tool lib stamps tool action seen timed_out =
    review stamps action (timed_out_after tool.tool_id tool.timeout_seconds) seen
after_tool lib stamps tool action seen (public_error message) = fail stamps action message
after_tool lib stamps tool action seen definitive_error =
    fail stamps action "tool execution failed definitively"
after_tool lib stamps tool action seen other_error = review stamps action uncertain seen

abbrev is_executable : DecisionKind → Bool
is_executable approve = true
is_executable sandbox = true
is_executable _ = false

-- The executor's call: it returns an outcome, and meanwhile others may write to the database.
abbrev pub Executor : Type 0
Executor = Action → Db → ToolOutcome × Db

unfoldable pub call : Executor → Action → Tx ToolOutcome
call executor action db = let (outcome, db') = executor action db in (ok outcome, db')

pub record ExecuteStamps : Type 0 where
  pub start : FinishStamps
  pub finish : FinishStamps

unfoldable pub run_approved :
    SchemaLibrary → ExecuteStamps → ToolSpec → Executor → Db → Action → Tx ExecutionOutcome
run_approved lib stamps tool executor review_seen action = do
  started ← transaction (start_in stamps.start tool action)
  outcome ← call executor action
  after_tool lib stamps.finish tool started review_seen outcome

-- `seen` is the database at the first look, `review_seen` when `_needs_review` looks up the run.
unfoldable pub execute :
    SchemaLibrary
    → ExecuteStamps
    → String
    → ToolSpec
    → Workspace
    → Executor
    → Db
    → Db
    → Tx ExecutionOutcome
execute lib stamps action_id tool workspace executor seen review_seen = do
  action ← or_raise action_not_found (Actions.get_in action_id seen)
  raise_if (not (is_executable (evaluate tool workspace).kind)) approval_policy_error
  raise_if (not (action.tool_id == tool.tool_id)) approval_policy_error
  if action_status_eq action.status ActionStatus.executing
      then review stamps.finish action recovered_executing review_seen
      else do
        raise_if (not (action_status_eq action.status ActionStatus.approved)) approval_policy_error
        run_approved lib stamps tool executor review_seen action

-- The result of a succeeded action, checked again.
unfoldable pub recovered :
    SchemaLibrary → FinishStamps → ToolSpec → Db → Action → Option Object → Tx ExecutionOutcome
recovered lib stamps tool seen action none = review stamps action no_persisted_result seen
recovered lib stamps tool seen action (some output) =
    let validation = validate_tool_output lib tool.output_schema output in
    if not validation.valid
    then review stamps action (validation_reason validation) seen
    else pure (record {
      status = ExecutionStatus.succeeded;
      action = action;
      result = some output;
      error = none;
    })

unfoldable pub recover_succeeded :
    SchemaLibrary → FinishStamps → String → ToolSpec → Workspace → Db → Db → Tx ExecutionOutcome
recover_succeeded lib stamps action_id tool workspace seen review_seen = do
  action ← or_raise action_not_found (Actions.get_in action_id seen)
  raise_if (not (is_executable (evaluate tool workspace).kind)) approval_policy_error
  raise_if (not (action.tool_id == tool.tool_id)) approval_policy_error
  raise_if (not (action_status_eq action.status ActionStatus.succeeded)) approval_policy_error
  recovered lib stamps tool review_seen action action.result
