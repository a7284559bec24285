-- ===== src/Runs/Coordinator.antt =====
-- `RunCoordinator` of core/src/weatherflow/runs/coordinator.py
use weatherflow.Prelude.{
  ℕ, String, Bool, true, false, not, ◌&&◌, Option, none, some, ◌==◌, get_last?,
}
use weatherflow.Json.{Object, end, field, text, num}
use weatherflow.Outcome.{lookup_error, run_not_found, run_idempotency_conflict}
use weatherflow.Database.{
  Db, Tx, pure, raise, gets, query, or_raise, raise_if, ◌>>=◌, ◌>>◌, transaction,
}
use weatherflow.Events.Model.{Stamp, Event, system, new_event}
use weatherflow.Events.Ledger.{append_in, list_stream_in}
use weatherflow.Sessions.Repository.{require_workspace_in, touch_for_run_in}
use weatherflow.Runs.Status.{RunStatus, value, ToolMode, tool_mode_eq, tool_mode_value}
use weatherflow.Runs.Model.{RunBudget, Run, new_run}
use weatherflow.Runs.Repository.{
  Detail, get_in, get_by_client_request_id_in, create_in, transition_in,
}

-- The arguments of `create_run`.
pub record Request : Type 0 where
  pub client_request_id : String
  pub user_intent : String
  pub workspace_id : String
  pub session_id : Option String
  pub tool_mode : ToolMode
  pub budget : Option RunBudget

abbrev pub session_eq : Option String → Option String → Bool
session_eq none none = true
session_eq (some a) (some b) = a == b
session_eq _ _ = false

unfoldable pub same_scope : Run → Request → Bool
same_scope existing q =
    (existing.workspace_id == q.workspace_id)
    && (session_eq existing.session_id q.session_id && tool_mode_eq existing.tool_mode q.tool_mode)

-- `_require_idempotency_scope`, and the return of the existing run
unfoldable pub existing_run : Request → Run → Tx Run
unfolding same_scope
existing_run q existing = do
  raise_if (not (same_scope existing q)) run_idempotency_conflict
  pure existing

abbrev session_field : Option String → Object
session_field none = end
session_field (some s) = field "session_id" (text s) end

unfoldable pub created_event : Stamp → Request → Run → Event
created_event stamp q run = new_event stamp "run.created" system "run" run.id run.id none (
    field "client_request_id" (text q.client_request_id) (
      field "workspace_id" (text q.workspace_id) (
        field "tool_mode" (text (tool_mode_value q.tool_mode))
          (field "status" (text (value run.status)) (session_field q.session_id)))))

-- The coordinator may have been built without a session repository.
unfoldable pub check_session : Bool → Request → Option String → Tx (Unit {0})
check_session has_sessions q none = pure tt
check_session false q (some s) = raise lookup_error
check_session true q (some s) = do require_workspace_in s q.workspace_id; pure tt

unfoldable pub touch_session : Request → ℕ → Option String → Tx (Unit {0})
touch_session q observed_at none = pure tt
touch_session q observed_at (some s) = touch_for_run_in s q.workspace_id observed_at

unfoldable pub insert_run : Bool → Stamp → Request → Run → Tx Run
insert_run has_sessions stamp q run = do
  check_session has_sessions q q.session_id
  create_in run
  touch_session q run.updated_at q.session_id
  append_in (created_event stamp q run)
  pure run

abbrev pub existing_or : Request → Option Run → Tx Run → Tx Run
existing_or q none create = create
existing_or q (some existing) create = existing_run q existing

-- `seen` is the database at the first, unlocked look; others may write before the transaction.
unfoldable pub create_run : Bool → Stamp → Stamp → Request → Db → Tx Run
create_run has_sessions run_stamp event_stamp q seen =
    let run =
      new_run run_stamp q.client_request_id q.user_intent q.workspace_id q.session_id q.tool_mode
        q.budget in
    existing_or q (get_by_client_request_id_in q.client_request_id seen) (
      transaction do
        found ← gets (get_by_client_request_id_in q.client_request_id)
        existing_or q found (insert_run has_sessions event_stamp q run))

abbrev pub event_id : Option Event → Option String
event_id none = none
event_id (some e) = some e.id

unfoldable pub status_changed : Stamp → String → Option String → RunStatus → RunStatus → ℕ → Event
status_changed stamp run_id causation_id source target version =
    new_event stamp "run.status_changed" system "run" run_id run_id causation_id (
      field "from" (text (value source))
        (field "to" (text (value target)) (field "version" (num version) end)))

-- `transition_in`, at the times `now` of the update and `stamp.now` of the event
unfoldable pub move_in : ℕ → Stamp → String → RunStatus → ℕ → Detail → Tx Run
move_in now stamp run_id target expected_version detail = do
  found ← gets (get_in run_id)
  current ← or_raise run_not_found found
  prior ← query λ db. list_stream_in "run" run_id db.events
  updated ← transition_in now run_id target expected_version detail
  append_in (
      status_changed stamp run_id (event_id (get_last? prior)) current.status target
        updated.version)
  pure updated

-- `transition`
unfoldable pub move : ℕ → Stamp → String → RunStatus → ℕ → Detail → Tx Run
unfolding move_in
move now stamp run_id target expected_version detail =
    transaction (move_in now stamp run_id target expected_version detail)
