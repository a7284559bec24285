-- ===== src/Examples/Execution.antt =====
-- The execution of actions.
use weatherflow.Prelude.{refl, some, none, true, ◌≡◌, [], ◌∷◌, arith}
use weatherflow.Outcome.{Result, ok}
use weatherflow.Table.{lookup, rowcount, update_where}
use weatherflow.Database.{Db, ◌>>=◌, transaction, empty}
use weatherflow.Events.Ledger.{append_in, list_stream_in}
use weatherflow.Events.Model.{new_event}
use weatherflow.Runs.Status.{can_transition_to}
use weatherflow.Runs.Repository
use weatherflow.Runs.Repository.{run_key}
use weatherflow.Runs.Model.{new_run}
use weatherflow.Runs.Coordinator.{
  create_run, insert_run, check_session, touch_session, move, move_in, created_event,
  status_changed,
}
use weatherflow.Trust.Model.{lacks_text, new_action, for_action}
use weatherflow.Trust.Actions
use weatherflow.Trust.Actions.{action_key}
use weatherflow.Trust.Approvals
use weatherflow.Trust.ActionStatus.{ActionStatus, action_can_transition_to}
use weatherflow.Trust.ApprovalStatus.{approval_can_transition_to}
use weatherflow.Trust.Coordinator.{
  propose, insert_proposal, prior_event, proposed_event, requested_event,
}
use weatherflow.Trust.Decisions.{
  decide, decision, resolve, check_pending, resolve_pending, resolve_in,
}
use weatherflow.Trust.Policy.{evaluate, missing_from}
use weatherflow.Protocol.Trace.{perform}
use weatherflow.Examples.Fixtures.{
  stamp, tool, workspace, proposed, approved, denied, action, Reaches-approved, Reaches-denied,
}
use weatherflow.Json.{end}
use weatherflow.Capabilities.{external_write}
use weatherflow.Runtime.ActionExecution.{
  ExecuteStamps, FinishStamps, Executor, returned, execute, ExecutionOutcome, ExecutionStatus,
  after_tool, run_approved, start_in, call, succeed, finish_in,
}
use weatherflow.Runtime.Validation.{SchemaLibrary, validate_tool_output}
use weatherflow.Runtime.Safety.{execute-refused}
use weatherflow.Runtime.Results.{IsReported, execute-IsReported}
use weatherflow.Protocol.Guarantees.{reached-HasKeys}
use weatherflow.Examples.Rows.{denied-action}

abbrev library : SchemaLibrary
library = record { check_schema = λ schema. true; conforms = λ schema output. true }

abbrev begin : FinishStamps
begin = record {
  updated_at = 6;
  event = stamp "e11" 6;
  run_updated_at = 6;
  run_event = stamp "e12" 6;
}

abbrev finish : FinishStamps
finish = record {
  updated_at = 6;
  event = stamp "e9" 6;
  run_updated_at = 6;
  run_event = stamp "e10" 6;
}

abbrev stamps : ExecuteStamps
stamps = record { start = begin; finish = finish }

-- One executor leaves the database alone, the other empties it.
abbrev quiet : Executor
quiet a db = (returned end, db)

abbrev wiping : Executor
wiping a db = (returned end, empty)

execute-refused_example :
    execute library stamps "a"
      (tool external_write ("mail" ∷ []))
      workspace
      quiet
      proposed
      denied
      denied
    ≡ execute library stamps "a"
        (tool external_write ("mail" ∷ []))
        workspace
        wiping
        proposed
        denied
        denied
execute-refused_example =
    execute-refused library stamps "a" (tool external_write ("mail" ∷ [])) workspace quiet wiping
      proposed denied denied (reached-HasKeys denied Reaches-denied).actions
      (λ c found. λ approved. ground (arith, found, approved, denied-action))

abbrev sent : ExecutionOutcome
sent = record {
  status = ExecutionStatus.succeeded;
  action = record (action ActionStatus.succeeded 3 6) { result = some end };
  result = some end;
  error = none;
}

abbrev send : Db → Result ExecutionOutcome × Db
send db = execute library stamps "a" (tool external_write ("mail" ∷ [])) workspace quiet db db db

send-returned : (send approved).0 ≡ ok sent
unfolding perform lookup create_run insert_run check_session touch_session move move_in transaction
    ◌>>=◌ append_in list_stream_in new_event can_transition_to Repository.transition_in
    Repository.create_in Repository.get_by_client_request_id_in new_run lacks_text new_action
    for_action Actions.create_in Actions.get_in Actions.get_by_idempotency_key_in
    Actions.transition_in Approvals.create_in Approvals.get_in Approvals.transition_in
    action_can_transition_to approval_can_transition_to propose insert_proposal prior_event decide
    decision resolve check_pending resolve_pending resolve_in evaluate rowcount update_where
    created_event status_changed missing_from proposed_event requested_event execute after_tool
    run_approved start_in call validate_tool_output succeed finish_in
send-returned = refl

execute-IsReported_example : IsReported sent (send approved).1
execute-IsReported_example =
    execute-IsReported library stamps "a" (tool external_write ("mail" ∷ [])) workspace quiet
      approved approved approved sent (λ a db keys. keys)
      (reached-HasKeys approved Reaches-approved) send-returned
