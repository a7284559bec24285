-- ===== src/Runtime/Controls.antt =====
-- `RunControlRepository` and `RunControlCoordinator` of core/src/weatherflow/runtime/controls.py
pub mod Marked
pub mod Steered
pub mod Applied
pub mod Queued
use weatherflow.Prelude.{
  ℕ, ◌+◌, String, Bool, true, false, not, ◌&&◌, ◌||◌, Option, none, some, List, [], ◌∷◌, ◌++◌, map,
  ◌==◌, ◌=?◌, ltb, if◌then◌else◌, is_some, text_lt,
}
use weatherflow.Json.{Json, null, num, text, Object, end, field, pop}
use weatherflow.Json as Json
use weatherflow.Outcome.{Result, ok, err, integrity_error, control_not_found, control_rejected}
use weatherflow.Table.{filter, rowcount, update_where, lookup, insert}
use weatherflow.Table.Order.{order_by}
use weatherflow.Database.{Db, Tx, pure, gets, query, or_raise, raise_if, ◌>>=◌, ◌>>◌, transaction}
use weatherflow.Events.Model.{Stamp, Event, new_event, user, system}
use weatherflow.Events.Ledger.{append_in}
use weatherflow.Runs.Status.{RunStatus}
use weatherflow.Runs.Repository
use weatherflow.Runs.Repository.{run_key}
use weatherflow.Runtime.Models.{
  MessageRole, AgentMessage, RunCheckpoint, RunControlKind, steer, follow_up, RunControlStatus,
  pending, applied, RunControl, new_control,
}
use weatherflow.Runtime.Checkpoints.{save_in}

abbrev pub control_key : RunControl → String
control_key c = c.id

-- INSERT INTO run_controls: the id is unique and the run exists.
unfoldable pub create_in : RunControl → Tx (Unit {0})
create_in control db =
    if is_some (lookup control_key control.id db.controls)
      || not (is_some (lookup run_key control.run_id db.runs))
    then (err integrity_error, db)
    else (ok tt, record db { controls = insert control db.controls })

abbrev pub is_pending : RunControlStatus → Bool
is_pending pending = true
is_pending applied = false

abbrev pub is_steer : RunControlKind → Bool
is_steer steer = true
is_steer follow_up = false

-- The kinds that a query asks for: all, or `steer`.
pub data Kinds : Type 0 where
  all_kinds only_steer : Kinds

abbrev pub in_kinds : Kinds → RunControlKind → Bool
in_kinds all_kinds kind = true
in_kinds only_steer kind = is_steer kind

-- ORDER BY created_at, id
unfoldable pub older_control : RunControl → RunControl → Bool
older_control a b =
    ltb a.created_at b.created_at || ((a.created_at =? b.created_at) && text_lt a.id b.id)

unfoldable pub awaits : String → Kinds → RunControl → Bool
awaits run_id kinds c = (c.run_id == run_id) && (is_pending c.status && in_kinds kinds c.kind)

unfoldable pub list_pending_in : String → Kinds → Db → List RunControl
list_pending_in run_id kinds db = order_by older_control (filter (awaits run_id kinds) db.controls)

unfoldable pub applied_control : ℕ → ℕ → RunControl → RunControl
applied_control applied_at step_index c = record c {
  status = applied;
  applied_at = some applied_at;
  applied_step_index = some step_index;
}

-- UPDATE run_controls SET ... WHERE id = ? AND status = 'pending', with its row count.
unfoldable pub update_control : String → (RunControl → RunControl) → Tx ℕ
update_control control_id f db =
    let selects = λ (c : RunControl). (c.id == control_id) && is_pending c.status in
    (ok (rowcount selects db.controls), record db { controls = update_where selects f db.controls })

unfoldable pub mark_applied_in : String → ℕ → ℕ → Tx (Unit {0})
unfolding update_control applied_control
mark_applied_in control_id applied_at step_index = do
  rows ← update_control control_id (applied_control applied_at step_index)
  raise_if (not (rows =? 1)) control_rejected

-- `CONTROLLABLE_STATUSES`
unfoldable pub controllable : RunStatus → Bool
controllable RunStatus.queued = true
controllable RunStatus.planning = true
controllable RunStatus.running = true
controllable RunStatus.waiting_approval = true
controllable RunStatus.waiting_user = true
controllable RunStatus.paused = true
controllable _ = false

unfoldable pub kind_value : RunControlKind → String
kind_value steer = "steer"
kind_value follow_up = "follow_up"

unfoldable pub control_queued : Stamp → RunControl → Event
unfolding kind_value new_event
control_queued stamp c =
    new_event stamp "runtime.control_queued" user "run" c.run_id c.run_id none
      (field "control_id" (text c.id) (field "kind" (text (kind_value c.kind)) end))

unfoldable pub enqueue :
    (String → String) → Stamp → Stamp → String → RunControlKind → String → Tx RunControl
enqueue strip stamp event_stamp run_id kind content = do
  control ← query λ db. new_control strip stamp run_id kind content
  transaction do
    found ← gets (Repository.get_in run_id)
    run ← or_raise control_not_found found
    raise_if (not (controllable run.status)) control_rejected
    create_in control
    append_in (control_queued event_stamp control)
    pure control

unfoldable pub control_applied : Stamp → RunCheckpoint → ℕ → RunControl → Event
unfolding kind_value new_event
control_applied stamp checkpoint step_index c =
    new_event stamp "runtime.control_applied" system "run" checkpoint.run_id checkpoint.run_id none
      (field "control_id" (text c.id)
        (field "kind" (text (kind_value c.kind)) (field "step_index" (num step_index) end)))

abbrev pub user_message : RunControl → AgentMessage
user_message c = record {
  role = MessageRole.user;
  content = c.content;
  name = none;
  tool_call_id = none;
}

-- The checkpoint that `_apply_in` saves.
unfoldable pub steered : RunCheckpoint → List RunControl → RunCheckpoint
steered checkpoint controls = record checkpoint {
  transcript = checkpoint.transcript ++ map user_message controls;
  state = pop "batch_next_index" (pop "pending_turn" checkpoint.state);
}

-- What `_apply_in` draws: the times, and a stamp for each control's event.
pub record ApplyStamps : Type 0 where
  pub saved_at : ℕ
  pub applied_at : ℕ
  pub event : RunControl → Stamp

-- The loop of `_apply_in`.
unfoldable pub apply_each : ApplyStamps → RunCheckpoint → ℕ → List RunControl → Tx (Unit {0})
unfolding mark_applied_in
apply_each stamps checkpoint step_index [] = pure tt
apply_each stamps checkpoint step_index (c ∷ controls) = do
  mark_applied_in c.id stamps.applied_at step_index
  append_in (control_applied (stamps.event c) checkpoint step_index c)
  apply_each stamps checkpoint step_index controls

-- `_apply_in`
unfoldable pub apply_in : ApplyStamps → RunCheckpoint → List RunControl → Tx RunCheckpoint
unfolding apply_each
apply_in stamps checkpoint controls = do
  saved ← save_in stamps.saved_at (steered checkpoint controls) checkpoint.version
  apply_each stamps checkpoint saved.step_index controls
  pure saved

abbrev pub is_present : Option Json → Bool
is_present none = false
is_present (some null) = false
is_present (some _) = true

abbrev pub apply_unless_none : ApplyStamps → RunCheckpoint → List RunControl → Tx RunCheckpoint
apply_unless_none stamps checkpoint [] = pure checkpoint
apply_unless_none stamps checkpoint (c ∷ controls) = apply_in stamps checkpoint (c ∷ controls)

unfoldable pub apply_before_model : ApplyStamps → RunCheckpoint → Tx RunCheckpoint
apply_before_model stamps checkpoint = do
  raise_if (is_present (Json.get "pending_turn" checkpoint.state)) control_rejected
  transaction do
    controls ← gets (list_pending_in checkpoint.run_id only_steer)
    apply_unless_none stamps checkpoint controls

abbrev pub apply_if_some : ApplyStamps → RunCheckpoint → List RunControl → Tx (Option RunCheckpoint)
apply_if_some stamps checkpoint [] = pure none
apply_if_some stamps checkpoint (c ∷ controls) = do
  saved ← apply_in stamps checkpoint (c ∷ controls)
  pure (some saved)

unfoldable pub apply_at_final_boundary_in : ApplyStamps → RunCheckpoint → Tx (Option RunCheckpoint)
apply_at_final_boundary_in stamps checkpoint = do
  controls ← gets (list_pending_in checkpoint.run_id all_kinds)
  apply_if_some stamps checkpoint controls
