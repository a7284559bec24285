-- ===== src/Examples/Rows.antt =====
-- The rows of the run and of its action after the calls.
use weatherflow.Prelude.{refl, some, true, ◌≡◌}
use weatherflow.Outcome.{ok}
use weatherflow.Table.{lookup, rowcount, update_where}
use weatherflow.Database.{◌>>=◌, transaction, empty}
use weatherflow.Events.Ledger.{append_in, list_stream_in}
use weatherflow.Events.Model.{new_event}
use weatherflow.Runs.Status.{RunStatus, can_transition_to}
use weatherflow.Runs.Repository
use weatherflow.Runs.Repository.{run_key}
use weatherflow.Runs.Model.{new_run}
use weatherflow.Runs.Coordinator.{
  create_run, insert_run, check_session, touch_session, move, move_in, created_event,
  status_changed,
}
use weatherflow.Trust.Model.{lacks_text, new_action, for_action}
use weatherflow.Trust.Actions
use weatherflow.Trust.Actions.{action_key}
use weatherflow.Trust.Approvals
use weatherflow.Trust.ActionStatus.{ActionStatus, action_can_transition_to}
use weatherflow.Trust.ApprovalStatus.{approval_can_transition_to}
use weatherflow.Trust.Coordinator.{
  propose, insert_proposal, prior_event, proposed_event, requested_event,
}
use weatherflow.Trust.Decisions.{
  decide, decision, resolve, check_pending, resolve_pending, resolve_in,
}
use weatherflow.Trust.Policy.{evaluate, missing_from}
use weatherflow.Protocol.Trace.{perform}
use weatherflow.Examples.Fixtures.{
  stamp, request, created, started, cancelled, proposed, approved, denied, run, action, approve,
}

pub started-run : lookup run_key "r" started.runs ≡ some (run RunStatus.running 2 3)
unfolding perform lookup create_run insert_run check_session touch_session move move_in transaction
    ◌>>=◌ append_in list_stream_in new_event can_transition_to Repository.transition_in
    Repository.create_in Repository.get_by_client_request_id_in new_run rowcount update_where
    created_event status_changed
started-run = refl

pub cancelled-run : lookup run_key "r" cancelled.runs ≡ some (run RunStatus.cancelled 3 4)
unfolding perform lookup create_run insert_run check_session touch_session move move_in transaction
    ◌>>=◌ append_in list_stream_in new_event can_transition_to Repository.transition_in
    Repository.create_in Repository.get_by_client_request_id_in new_run rowcount update_where
    created_event status_changed
cancelled-run = refl

pub proposed-action :
    lookup action_key "a" proposed.actions ≡ some (action ActionStatus.proposed 0 4)
unfolding perform lookup create_run insert_run check_session touch_session move move_in transaction
    ◌>>=◌ append_in list_stream_in new_event can_transition_to Repository.transition_in
    Repository.create_in Repository.get_by_client_request_id_in new_run lacks_text new_action
    for_action Actions.create_in Actions.get_in Actions.get_by_idempotency_key_in
    Actions.transition_in Approvals.create_in Approvals.get_in Approvals.transition_in
    action_can_transition_to approval_can_transition_to propose insert_proposal prior_event decide
    decision resolve check_pending resolve_pending resolve_in evaluate rowcount update_where
    created_event status_changed missing_from proposed_event requested_event
proposed-action = refl

pub approved-action :
    lookup action_key "a" approved.actions ≡ some (action ActionStatus.approved 1 5)
unfolding perform lookup create_run insert_run check_session touch_session move move_in transaction
    ◌>>=◌ append_in list_stream_in new_event can_transition_to Repository.transition_in
    Repository.create_in Repository.get_by_client_request_id_in new_run lacks_text new_action
    for_action Actions.create_in Actions.get_in Actions.get_by_idempotency_key_in
    Actions.transition_in Approvals.create_in Approvals.get_in Approvals.transition_in
    action_can_transition_to approval_can_transition_to propose insert_proposal prior_event decide
    decision resolve check_pending resolve_pending resolve_in evaluate rowcount update_where
    created_event status_changed missing_from proposed_event requested_event
approved-action = refl

pub denied-action : lookup action_key "a" denied.actions ≡ some (action ActionStatus.denied 1 5)
unfolding perform lookup create_run insert_run check_session touch_session move move_in transaction
    ◌>>=◌ append_in list_stream_in new_event can_transition_to Repository.transition_in
    Repository.create_in Repository.get_by_client_request_id_in new_run lacks_text new_action
    for_action Actions.create_in Actions.get_in Actions.get_by_idempotency_key_in
    Actions.transition_in Approvals.create_in Approvals.get_in Approvals.transition_in
    action_can_transition_to approval_can_transition_to propose insert_proposal prior_event decide
    decision resolve check_pending resolve_pending resolve_in evaluate rowcount update_where
    created_event status_changed missing_from proposed_event requested_event
denied-action = refl

pub still_denied-action :
    lookup action_key "a" (perform approve denied).actions ≡ some (action ActionStatus.denied 1 5)
unfolding perform lookup create_run insert_run check_session touch_session move move_in transaction
    ◌>>=◌ append_in list_stream_in new_event can_transition_to Repository.transition_in
    Repository.create_in Repository.get_by_client_request_id_in new_run lacks_text new_action
    for_action Actions.create_in Actions.get_in Actions.get_by_idempotency_key_in
    Actions.transition_in Approvals.create_in Approvals.get_in Approvals.transition_in
    action_can_transition_to approval_can_transition_to propose insert_proposal prior_event decide
    decision resolve check_pending resolve_pending resolve_in evaluate rowcount update_where
    created_event status_changed missing_from proposed_event requested_event
still_denied-action = refl

pub created-run :
    Repository.get_by_client_request_id_in "q" created ≡ some (run RunStatus.queued 0 1)
unfolding perform lookup create_run insert_run check_session touch_session move move_in transaction
    ◌>>=◌ append_in list_stream_in new_event can_transition_to Repository.transition_in
    Repository.create_in Repository.get_by_client_request_id_in new_run rowcount update_where
    created_event status_changed
created-run = refl

pub create-returned :
    (create_run true (stamp "r" 1) (stamp "e1" 1) request empty empty).0
    ≡ ok (run RunStatus.queued 0 1)
unfolding perform lookup create_run insert_run check_session touch_session move move_in transaction
    ◌>>=◌ append_in list_stream_in new_event can_transition_to Repository.transition_in
    Repository.create_in Repository.get_by_client_request_id_in new_run rowcount update_where
    created_event status_changed
create-returned = refl
