-- ===== src/Protocol.antt =====
-- The calls of the core's coordinators as an interface for invariants: a predicate on the database
-- that each statement commits (`Statements`) is kept by every call, whoever else writes between
-- its reads and its transaction.
pub mod Reads
pub mod Derived
pub mod Controls
pub mod Execution
pub mod Trace
pub mod Guarantees
use weatherflow.Prelude.{ℕ, String, ◌≡◌, ◌≢◌, Bool, true, false, Option}
use weatherflow.Database.{Db}
use weatherflow.Database.Commits.{Commits}
use weatherflow.Database.Beside.{Agrees}
use weatherflow.Events.Model.{Stamp, Event}
use weatherflow.Events.Ledger.{append_in}
use weatherflow.Runs.Status.{RunStatus}
use weatherflow.Runs.Model.{Run}
use weatherflow.Runs.Repository
use weatherflow.Runs.Coordinator.{Request, move_in, insert_run}
use weatherflow.Runs.History.{is_status_event}
use weatherflow.Trust.ActionStatus.{ActionStatus}
use weatherflow.Trust.Model.{Action, Approval}
use weatherflow.Trust.Actions
use weatherflow.Trust.Approvals
use weatherflow.Trust.Policy.{evaluate}
use weatherflow.Trust.Coordinator.{Proposal, SandboxStamps, insert_sandboxed, is_sandbox}
use weatherflow.Trust.Decisions.{ResolveStamps, Resolution, decision, expiry, resolve_pending}

-- What an invariant has to show; the statements are those that the transactions are made of.
pub record Statements (P : Db → Type 0) : Type 0 where
  -- It speaks of events, sessions, runs, actions and approvals alone.
  pub beside : (a b : Db) → Agrees a b → P a → P b
  pub append : (e : Event) → is_status_event e ≡ false → Commits P (append_in e)
  pub insert_run :
      (has_sessions : Bool) (stamp : Stamp) (q : Request) (run : Run)
      → Commits P (insert_run has_sessions stamp q run)
  pub move :
      (now : ℕ) (stamp : Stamp) (run_id : String) (target : RunStatus) (v : ℕ)
      (detail : Repository.Detail)
      → Commits P (move_in now stamp run_id target v detail)
  pub attach_capability_snapshot :
      (now : ℕ) (run_id snapshot_id : String) (v : ℕ)
      → Commits P (Repository.attach_capability_snapshot_in now run_id snapshot_id v)
  pub attach_rhythm_snapshot :
      (now : ℕ) (run_id snapshot_id : String) (v : ℕ)
      → Commits P (Repository.attach_rhythm_snapshot_in now run_id snapshot_id v)
  pub create_action :
      (a : Action) → a.status ≡ ActionStatus.proposed → Commits P (Actions.create_in a)
  pub create_approval : (p : Approval) → Commits P (Approvals.create_in p)
  -- Approval is left to the two fields below.
  pub move_action :
      (now : ℕ) (action_id : String) (target : ActionStatus) (v : ℕ) (detail : Actions.Detail)
      → target ≢ ActionStatus.approved
      → Commits P (Actions.transition_in now action_id target v detail)
  pub sandbox :
      (stamps : SandboxStamps) (q : Proposal)
      → is_sandbox (evaluate q.tool q.workspace).kind ≡ true
      → Commits P (insert_sandboxed stamps q)
  pub decide :
      (stamps : ResolveStamps) (approval_id : String) (v : ℕ) (approved : Bool)
      (decided_by : String) (rationale : Option String)
      → Commits P (resolve_pending stamps approval_id v (decision approved decided_by rationale))
  pub expire :
      (stamps : ResolveStamps) (approval_id : String) (v : ℕ)
      → Commits P (resolve_pending stamps approval_id v expiry)
