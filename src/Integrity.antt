-- ===== src/Integrity.antt =====
-- The keys of the core's tables: the PRIMARY KEY and UNIQUE columns of storage/migrations.py hold
-- pairwise different values, and every statement of the repositories keeps it so.
pub mod Coordinators
pub mod Statements
use weatherflow.Prelude.{
  ℕ, String, ◌≡◌, refl, sym, subst, Bool, ◌&&◌, Option, none, some, arith, ◌==◌,
}
use weatherflow.Table.{Unique, lookup, insert, update_where}
use weatherflow.Table.Laws.{Unique-insert, Unique-update_where}
use weatherflow.Database.{Db, Tx, empty}
use weatherflow.Database.Commits.{Commits}
use weatherflow.Database.Beside.{Agrees}
use weatherflow.Events.Model.{Event}
use weatherflow.Events.Ledger.{append_in, event_key}
use weatherflow.Sessions.Repository.{session_key, touched, touch_for_run_in, require_workspace_in}
use weatherflow.Runs.Status.{RunStatus}
use weatherflow.Runs.Model.{Run}
use weatherflow.Runs.Repository
use weatherflow.Runs.Repository.{run_key, request_key}
use weatherflow.Runs.Swap.{checked, after_checks, transition_in-swap}
use weatherflow.Trust.ActionStatus.{ActionStatus}
use weatherflow.Trust.ApprovalStatus.{ApprovalStatus}
use weatherflow.Trust.Model.{Action, Approval}
use weatherflow.Trust.Actions
use weatherflow.Trust.Actions.{action_key, idempotency_of}
use weatherflow.Trust.Approvals
use weatherflow.Trust.Approvals.{approval_key, action_of}
use weatherflow.Trust.Swap.{
  action_transition-swap, action_outcome, approval_transition-swap, approval_outcome,
}

pub record HasKeys (db : Db) : Type 0 where
  pub events : Unique event_key db.events
  pub sessions : Unique session_key db.sessions
  pub runs : Unique run_key db.runs
  pub requests : Unique request_key db.runs
  pub actions : Unique action_key db.actions
  pub idempotency : Unique idempotency_of db.actions
  pub approvals : Unique approval_key db.approvals
  pub approved_actions : Unique action_of db.approvals

-- The keys of other tables do not matter.
pub beside-HasKeys : (a b : Db) → Agrees a b → HasKeys a → HasKeys b
beside-HasKeys a b g h = record {
  events = subst (Unique event_key) (sym g.events) h.events;
  sessions = subst (Unique session_key) (sym g.sessions) h.sessions;
  runs = subst (Unique run_key) (sym g.runs) h.runs;
  requests = subst (Unique request_key) (sym g.runs) h.requests;
  actions = subst (Unique action_key) (sym g.actions) h.actions;
  idempotency = subst (Unique idempotency_of) (sym g.actions) h.idempotency;
  approvals = subst (Unique approval_key) (sym g.approvals) h.approvals;
  approved_actions = subst (Unique action_of) (sym g.approvals) h.approved_actions;
}

pub empty-HasKeys : HasKeys empty
empty-HasKeys = omega arith

pub append_in-HasKeys : (e : Event) → Commits HasKeys (append_in e)
unfolding append_in
append_in-HasKeys e = record {
  at = λ db a h r. ground (arith, Unique-insert event_key e db.events);
}

pub touch_for_run_in-HasKeys :
    (session_id workspace_id : String) (observed_at : ℕ)
    → Commits HasKeys (touch_for_run_in session_id workspace_id observed_at)
unfolding touch_for_run_in
touch_for_run_in-HasKeys session_id workspace_id observed_at = record {
  at = λ db a h r. ground (
    arith,
    Unique-update_where session_key (λ s. (s.id == session_id) && (s.workspace_id == workspace_id))
        (touched observed_at) db.sessions (λ v. refl) h.sessions,
  );
}

pub require_workspace_in-HasKeys :
    (session_id workspace_id : String)
    → Commits HasKeys (require_workspace_in session_id workspace_id)
unfolding require_workspace_in
require_workspace_in-HasKeys session_id workspace_id = record { at = λ db a h r. h }

pub run_create_in-HasKeys : (run : Run) → Commits HasKeys (Repository.create_in run)
unfolding Repository.create_in
run_create_in-HasKeys run = record {
  at = λ db a h r.
      ground (arith, Unique-insert run_key run db.runs, Unique-insert request_key run db.runs);
}

pub action_create_in-HasKeys : (action : Action) → Commits HasKeys (Actions.create_in action)
unfolding Actions.create_in
action_create_in-HasKeys action = record {
  at = λ db a h r. ground (
    arith,
    Unique-insert action_key action db.actions,
    Unique-insert idempotency_of action db.actions,
  );
}

pub approval_create_in-HasKeys :
    (approval : Approval) → Commits HasKeys (Approvals.create_in approval)
unfolding Approvals.create_in
approval_create_in-HasKeys approval = record {
  at = λ db a h r. ground (
    arith,
    Unique-insert approval_key approval db.approvals,
    Unique-insert action_of approval db.approvals,
  );
}

pub run_transition_in-HasKeys :
    (now : ℕ) (run_id : String) (target : RunStatus) (v : ℕ) (detail : Repository.Detail)
    → Commits HasKeys (Repository.transition_in now run_id target v detail)
unfolding after_checks Repository.moved
run_transition_in-HasKeys now run_id target v detail = record {
  at = λ db a h r.
      let p = λ (r : Run). (r.id == run_id) && Repository.has_version v r in
      ground (
        arith,
        transition_in-swap now run_id target v detail db h.runs,
        Unique-update_where run_key p (Repository.moved target now detail) db.runs (λ v. refl)
            h.runs,
        Unique-update_where request_key p (Repository.moved target now detail) db.runs (λ v. refl)
            h.requests,
      );
}

pub action_transition_in-HasKeys :
    (now : ℕ) (action_id : String) (target : ActionStatus) (v : ℕ) (detail : Actions.Detail)
    → Commits HasKeys (Actions.transition_in now action_id target v detail)
unfolding action_outcome Actions.moved
action_transition_in-HasKeys now action_id target v detail = record {
  at = λ db a h r.
      let p = λ (a : Action). (a.id == action_id) && Actions.has_version v a in
      ground (
        arith,
        action_transition-swap now action_id target v detail db h.actions,
        Unique-update_where action_key p (Actions.moved target now detail) db.actions (λ v. refl)
            h.actions,
        Unique-update_where idempotency_of p (Actions.moved target now detail) db.actions
            (λ v. refl) h.idempotency,
      );
}

pub approval_transition_in-HasKeys :
    (now : ℕ) (approval_id : String) (target : ApprovalStatus) (v : ℕ) (decided_by : String)
    (rationale : Option String)
    → Commits HasKeys (Approvals.transition_in now approval_id target v decided_by rationale)
unfolding approval_outcome Approvals.moved
approval_transition_in-HasKeys now approval_id target v decided_by rationale = record {
  at = λ db a h r.
      let p = λ (a : Approval). (a.id == approval_id) && Approvals.has_version v a in
      let f = Approvals.moved target now decided_by rationale in
      ground (
        arith,
        approval_transition-swap now approval_id target v decided_by rationale db h.approvals,
        Unique-update_where approval_key p f db.approvals (λ v. refl) h.approvals,
        Unique-update_where action_of p f db.approvals (λ v. refl) h.approved_actions,
      );
}

pub ruleset key_rules = (
  append_in-HasKeys, touch_for_run_in-HasKeys, run_create_in-HasKeys, action_create_in-HasKeys,
  approval_create_in-HasKeys, run_transition_in-HasKeys, action_transition_in-HasKeys,
  approval_transition_in-HasKeys,
)
