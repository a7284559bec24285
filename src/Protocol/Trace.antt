-- ===== src/Protocol/Trace.antt =====
-- The databases that calls of the coordinators, and changes beside them, reach from one another, in
-- any order. Each call
-- sees, where it looks before its transaction, any database at all, and a tool's executor makes
-- any calls before it returns.
use weatherflow.Prelude.{ℕ, String, ◌≡◌, Bool, false, Option}
use weatherflow.Database.{Db, transaction}
use weatherflow.Database.Keeps.{Keeps-transaction}
use weatherflow.Events.Model.{Stamp, Event}
use weatherflow.Events.Ledger.{append_in}
use weatherflow.Capabilities.{ToolSpec}
use weatherflow.Workspaces.{Workspace}
use weatherflow.Runs.Status.{RunStatus}
use weatherflow.Runs.Repository
use weatherflow.Runs.Coordinator.{Request, create_run, move}
use weatherflow.Runs.History.{is_status_event}
use weatherflow.Trust.Model.{Action}
use weatherflow.Trust.Coordinator.{
  Proposal, ProposeStamps, SandboxStamps, propose, authorize_sandboxed,
}
use weatherflow.Trust.Decisions.{ResolveStamps, decide, expire}
use weatherflow.Runtime.ActionExecution.{
  ExecuteStamps, FinishStamps, Executor, execute, recover_succeeded,
}
use weatherflow.Runtime.Validation.{SchemaLibrary}
use weatherflow.Protocol.{Statements}
use weatherflow.Protocol.Derived.{
  create_run-Keeps, move-Keeps, propose-Keeps, authorize_sandboxed-Keeps, decide-Keeps,
  expire-Keeps,
}
use weatherflow.Database.Beside.{Agrees}
use weatherflow.Runtime.Models.{RunCheckpoint, RunControlKind}
use weatherflow.Runtime.Controls.{ApplyStamps, enqueue, apply_before_model}
use weatherflow.Protocol.Controls.{enqueue-Keeps, apply_before_model-Keeps}
use weatherflow.Protocol.Execution.{execute-Keeps, recover_succeeded-Keeps}

-- The calls that run no tool.
pub data Call : Type 0 where
  call_create_run : Bool → Stamp → Stamp → Request → Db → Call
  call_transition : ℕ → Stamp → String → RunStatus → ℕ → Repository.Detail → Call
  call_attach_capability_snapshot call_attach_rhythm_snapshot : ℕ → String → String → ℕ → Call
  call_propose : ProposeStamps → Proposal → ℕ → Db → Call
  call_authorize_sandboxed : SandboxStamps → Proposal → Db → Call
  call_decide : ResolveStamps → String → ℕ → Bool → String → Option String → Db → Call
  call_expire : ResolveStamps → String → ℕ → Db → Call
  call_recover_succeeded :
      SchemaLibrary → FinishStamps → String → ToolSpec → Workspace → Db → Db → Call
  call_enqueue : (String → String) → Stamp → Stamp → String → RunControlKind → String → Call
  call_apply_before_model : ApplyStamps → RunCheckpoint → Call
  -- Actions on other tables: those of automations, checkpoints, continuations and workspaces.
  call_beside : (m : Db → Db) → ((db : Db) → Agrees db (m db)) → Call
  -- Events of the program's other parts.
  call_append : (e : Event) → is_status_event e ≡ false → Call

-- The database after a call, whether it returned or raised.
unfoldable pub perform : Call → Db → Db
perform (call_create_run has_sessions run_stamp event_stamp q seen) db =
    (create_run has_sessions run_stamp event_stamp q seen db).1
perform (call_transition now stamp run_id target v detail) db =
    (move now stamp run_id target v detail db).1
perform (call_attach_capability_snapshot now run_id snapshot_id v) db =
    (transaction (Repository.attach_capability_snapshot_in now run_id snapshot_id v) db).1
perform (call_attach_rhythm_snapshot now run_id snapshot_id v) db =
    (transaction (Repository.attach_rhythm_snapshot_in now run_id snapshot_id v) db).1
perform (call_propose stamps q v seen) db = (propose stamps q v seen db).1
perform (call_authorize_sandboxed stamps q seen) db = (authorize_sandboxed stamps q seen db).1
perform (call_decide stamps approval_id v approved decided_by rationale seen) db =
    (decide stamps approval_id v approved decided_by rationale seen db).1
perform (call_expire stamps approval_id v seen) db = (expire stamps approval_id v seen db).1
perform (call_recover_succeeded lib stamps action_id tool workspace seen review_seen) db =
    (recover_succeeded lib stamps action_id tool workspace seen review_seen db).1
perform (call_enqueue strip stamp event_stamp run_id kind content) db =
    (enqueue strip stamp event_stamp run_id kind content db).1
perform (call_apply_before_model stamps checkpoint) db = (apply_before_model stamps checkpoint db).1
perform (call_beside m beside) db = m db
perform (call_append e other) db = (transaction (append_in e) db).1

-- `Reaches a b`: a sequence of calls leads from `a` to `b`.
pub data Reaches : Db → Db → Type 0 where
  idle : {db : Db} → Reaches db db
  then_call : {a b : Db} (c : Call) → Reaches a b → Reaches a (perform c b)
  then_execute :
      {a b : Db} (lib : SchemaLibrary) (stamps : ExecuteStamps) (action_id : String)
      (tool : ToolSpec) (workspace : Workspace) (executor : Executor) (seen review_seen : Db)
      → ((action : Action) (db : Db) → Reaches db (executor action db).1)
      → Reaches a b
      → Reaches a (execute lib stamps action_id tool workspace executor seen review_seen b).1

module _ {P : Db → Type 0} (s : Statements P) where
  perform-P : (c : Call) (db : Db) → P db → P (perform c db)
  unfolding perform
  perform-P (call_create_run has_sessions run_stamp event_stamp q seen) db =
      (create_run-Keeps s has_sessions run_stamp event_stamp q seen).at db
  perform-P (call_transition now stamp run_id target v detail) db =
      (move-Keeps s now stamp run_id target v detail).at db
  perform-P (call_attach_capability_snapshot now run_id snapshot_id v) db =
      (Keeps-transaction _ (s.attach_capability_snapshot now run_id snapshot_id v)).at db
  perform-P (call_attach_rhythm_snapshot now run_id snapshot_id v) db =
      (Keeps-transaction _ (s.attach_rhythm_snapshot now run_id snapshot_id v)).at db
  perform-P (call_propose stamps q v seen) db = (propose-Keeps s stamps q v seen).at db
  perform-P (call_authorize_sandboxed stamps q seen) db =
      (authorize_sandboxed-Keeps s stamps q seen).at db
  perform-P (call_decide stamps approval_id v approved decided_by rationale seen) db =
      (decide-Keeps s stamps approval_id v approved decided_by rationale seen).at db
  perform-P (call_expire stamps approval_id v seen) db =
      (expire-Keeps s stamps approval_id v seen).at db
  perform-P (call_recover_succeeded lib stamps action_id tool workspace seen review_seen) db =
      (recover_succeeded-Keeps s lib stamps action_id tool workspace seen review_seen).at db
  perform-P (call_enqueue strip stamp event_stamp run_id kind content) db =
      (enqueue-Keeps s strip stamp event_stamp run_id kind content).at db
  perform-P (call_apply_before_model stamps checkpoint) db =
      (apply_before_model-Keeps s stamps checkpoint).at db
  perform-P (call_beside m beside) db = s.beside db (m db) (beside db)
  perform-P (call_append e other) db = (Keeps-transaction _ (s.append e other)).at db

  -- An invariant that the statements commit holds along every sequence of calls.
  pub Reaches-P : {a b : Db} → Reaches a b → P a → P b
  Reaches-P idle h = h
  Reaches-P (then_call c before) h = perform-P c _ (Reaches-P before h)
  Reaches-P
        (then_execute lib stamps action_id tool workspace executor seen review_seen calls before)
        h =
      (execute-Keeps s lib stamps action_id tool workspace executor seen review_seen
          (λ a d k. Reaches-P (calls a d) k)).at
        _ (Reaches-P before h)
