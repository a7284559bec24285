-- ===== src/Trust/Lifecycle/Statements.antt =====
-- The statements of the coordinators move actions along the allowed changes only.
use weatherflow.Prelude.{ℕ, String, refl, Bool, Option, arith}
use weatherflow.Table.Laws.{lookup-insert}
use weatherflow.Database.{◌>>=◌}
use weatherflow.Database.Commits.{Commits, commit_rules}
use weatherflow.Database.Keeps.{Commits-Keeps}
use weatherflow.Events.Model.{Stamp, Event}
use weatherflow.Events.Ledger.{append_in}
use weatherflow.Sessions.Repository.{touch_for_run_in, require_workspace_in}
use weatherflow.Runs.Status.{RunStatus}
use weatherflow.Runs.Model.{Run}
use weatherflow.Runs.Repository
use weatherflow.Runs.Coordinator.{Request, move_in, insert_run, check_session, touch_session}
use weatherflow.Runs.Swap.{transition_in-swap, after_checks}
use weatherflow.Runs.Attach.{after-attach_capability_snapshot_in, after-attach_rhythm_snapshot_in}
use weatherflow.Trust.ActionStatus.{ActionStatus}
use weatherflow.Trust.ApprovalStatus.{ApprovalStatus}
use weatherflow.Trust.Model.{Action, Approval}
use weatherflow.Trust.Actions
use weatherflow.Trust.Actions.{action_key}
use weatherflow.Trust.Approvals
use weatherflow.Trust.Approvals.{approval_key}
use weatherflow.Trust.Coordinator.{Proposal, SandboxStamps, insert_sandboxed, prior_event}
use weatherflow.Trust.Decisions.{ResolveStamps, Resolution, resolve_in, resolve_pending}
use weatherflow.Protocol.{Statements}
use weatherflow.Protocol.Reads.{prior_event-Keeps, check_pending-Commits}
use weatherflow.Trust.Swap.{approval_transition-swap, approval_outcome}
use weatherflow.Trust.Lifecycle.{IsContinued, untouched-IsContinued, transition_in-IsContinued}
use weatherflow.Integrity.{
  beside-HasKeys, append_in-HasKeys, action_create_in-HasKeys, approval_create_in-HasKeys,
  approval_transition_in-HasKeys,
}
use weatherflow.Integrity.Statements.{HasKeys-Statements}

module _ {start : Action} where
  append_in-IsContinued : (e : Event) → Commits (IsContinued start) (append_in e)
  unfolding append_in
  append_in-IsContinued e =
      untouched-IsContinued start _ (append_in-HasKeys e) (λ db r k x. ground arith)

  approval_create_in-IsContinued :
      (p : Approval) → Commits (IsContinued start) (Approvals.create_in p)
  unfolding Approvals.create_in
  approval_create_in-IsContinued p =
      untouched-IsContinued start _ (approval_create_in-HasKeys p) (λ db r k e. ground arith)

  action_transition_in-IsContinued :
      (now : ℕ) (action_id : String) (target : ActionStatus) (v : ℕ) (detail : Actions.Detail)
      → Commits (IsContinued start) (Actions.transition_in now action_id target v detail)
  action_transition_in-IsContinued now action_id target v detail = record {
    at = λ db r p e. transition_in-IsContinued start now action_id target v detail db r p e;
  }

  -- A new action takes no row away.
  action_create_in-IsContinued : (a : Action) → Commits (IsContinued start) (Actions.create_in a)
  unfolding Actions.create_in
  action_create_in-IsContinued a = record {
    at = λ db r p e. record {
      keys = (action_create_in-HasKeys a).at db r p.keys e;
      action = p.action;
      found = ground (arith, e, p.found, lookup-insert action_key start.id a db.actions);
      call = p.call;
      path = p.path;
      version = p.version;
    };
  }

  move-IsContinued :
      (now : ℕ) (stamp : Stamp) (run_id : String) (target : RunStatus) (v : ℕ)
      (detail : Repository.Detail)
      → Commits (IsContinued start) (move_in now stamp run_id target v detail)
  unfolding move_in ◌>>=◌ append_in after_checks
  move-IsContinued now stamp run_id target v detail =
      untouched-IsContinued start _ (HasKeys-Statements.move now stamp run_id target v detail)
        (λ db r k x. ground (arith, transition_in-swap now run_id target v detail db k.runs))

  insert_run-IsContinued :
      (has_sessions : Bool) (stamp : Stamp) (q : Request) (run : Run)
      → Commits (IsContinued start) (insert_run has_sessions stamp q run)
  unfolding ◌>>=◌ insert_run check_session touch_session Repository.create_in touch_for_run_in
      append_in require_workspace_in
  insert_run-IsContinued has_sessions stamp q run =
      untouched-IsContinued start _ (HasKeys-Statements.insert_run has_sessions stamp q run)
        (λ db r k e. ground (arith, e))

  attach_capability_snapshot_in-IsContinued :
      (now : ℕ) (run_id snapshot_id : String) (v : ℕ)
      → Commits
          (IsContinued start)
          (Repository.attach_capability_snapshot_in now run_id snapshot_id v)
  attach_capability_snapshot_in-IsContinued now run_id snapshot_id v =
      untouched-IsContinued start _
        (HasKeys-Statements.attach_capability_snapshot now run_id snapshot_id v)
        (λ db r k e. rw (after-attach_capability_snapshot_in now run_id snapshot_id v db r e) refl)

  attach_rhythm_snapshot_in-IsContinued :
      (now : ℕ) (run_id snapshot_id : String) (v : ℕ)
      → Commits (IsContinued start) (Repository.attach_rhythm_snapshot_in now run_id snapshot_id v)
  attach_rhythm_snapshot_in-IsContinued now run_id snapshot_id v =
      untouched-IsContinued start _
        (HasKeys-Statements.attach_rhythm_snapshot now run_id snapshot_id v)
        (λ db r k e. rw (after-attach_rhythm_snapshot_in now run_id snapshot_id v db r e) refl)

  approval_transition_in-IsContinued :
      (now : ℕ) (approval_id : String) (target : ApprovalStatus) (v : ℕ) (decided_by : String)
      (rationale : Option String)
      → Commits
          (IsContinued start)
          (Approvals.transition_in now approval_id target v decided_by rationale)
  unfolding approval_outcome
  approval_transition_in-IsContinued now approval_id target v decided_by rationale =
      untouched-IsContinued start _
        (approval_transition_in-HasKeys now approval_id target v decided_by rationale)
        (λ db r k e. ground (
          arith,
          approval_transition-swap now approval_id target v decided_by rationale db k.approvals,
        ))

  prior_event-IsContinued :
      (kind stream_id : String) → Commits (IsContinued start) (prior_event kind stream_id)
  prior_event-IsContinued kind stream_id = Commits-Keeps _ (prior_event-Keeps kind stream_id)

ruleset continued_rules = (
  append_in-IsContinued, action_create_in-IsContinued, approval_create_in-IsContinued,
  action_transition_in-IsContinued, approval_transition_in-IsContinued, move-IsContinued,
  prior_event-IsContinued,
)

module _ {start : Action} where
  insert_sandboxed-IsContinued :
      (stamps : SandboxStamps) (q : Proposal)
      → Commits (IsContinued start) (insert_sandboxed stamps q)
  unfolding insert_sandboxed
  insert_sandboxed-IsContinued stamps q = search (commit_rules, continued_rules) depth 14

  resolve_in-IsContinued :
      (stamps : ResolveStamps) (approval_id : String) (v : ℕ) (res : Resolution) (p : Approval)
      → Commits (IsContinued start) (resolve_in stamps approval_id v res p)
  unfolding resolve_in
  resolve_in-IsContinued stamps approval_id v res p =
      search (commit_rules, continued_rules) depth 20

  resolve_pending-IsContinued :
      (stamps : ResolveStamps) (approval_id : String) (v : ℕ) (res : Resolution)
      → Commits (IsContinued start) (resolve_pending stamps approval_id v res)
  unfolding resolve_pending
  resolve_pending-IsContinued stamps approval_id v res =
      search (commit_rules, check_pending-Commits, resolve_in-IsContinued) depth 14

pub IsContinued-Statements : (start : Action) → Statements (IsContinued start)
IsContinued-Statements start = record {
  beside = λ a b g h. record {
    keys = beside-HasKeys a b g h.keys;
    action = h.action;
    found = cc (g.actions, h.found);
    call = h.call;
    path = h.path;
    version = h.version;
  };
  append = λ e _. append_in-IsContinued e;
  insert_run = insert_run-IsContinued;
  move = move-IsContinued;
  attach_capability_snapshot = attach_capability_snapshot_in-IsContinued;
  attach_rhythm_snapshot = attach_rhythm_snapshot_in-IsContinued;
  create_action = λ a _. action_create_in-IsContinued a;
  create_approval = approval_create_in-IsContinued;
  move_action = λ now action_id target v detail _.
      action_transition_in-IsContinued now action_id target v detail;
  sandbox = λ stamps q _. insert_sandboxed-IsContinued stamps q;
  decide = λ stamps approval_id v approved decided_by rationale.
      resolve_pending-IsContinued stamps approval_id v _;
  expire = λ stamps approval_id v. resolve_pending-IsContinued stamps approval_id v _;
}
