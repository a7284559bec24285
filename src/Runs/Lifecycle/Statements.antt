-- ===== src/Runs/Lifecycle/Statements.antt =====
-- The statements of the coordinators move runs along the allowed changes only.
use weatherflow.Prelude.{ℕ, String, ◌≡◌, refl, ap, Bool, Option, some, arith}
use weatherflow.Outcome.{ok}
use weatherflow.Table.{lookup}
use weatherflow.Table.Laws.{lookup-insert}
use weatherflow.Database.{Db, ◌>>=◌}
use weatherflow.Database.Commits.{Commits, commit_rules}
use weatherflow.Database.Keeps.{Commits-Keeps}
use weatherflow.Events.Model.{Stamp, Event}
use weatherflow.Events.Ledger.{append_in}
use weatherflow.Sessions.Repository.{touch_for_run_in, require_workspace_in}
use weatherflow.Runs.Status.{RunStatus}
use weatherflow.Runs.Model.{Run}
use weatherflow.Runs.Repository.{
  Detail, run_key, create_in, attach_capability_snapshot_in, attach_rhythm_snapshot_in,
}
use weatherflow.Runs.Coordinator.{Request, move_in, insert_run, check_session, touch_session}
use weatherflow.Runs.Attach.{
  with_capability_snapshot, with_rhythm_snapshot, after-attach_capability_snapshot_in,
  after-attach_rhythm_snapshot_in,
}
use weatherflow.Runs.Lifecycle.{IsAfter, untouched-IsAfter, update-IsAfter, move_in-IsAfter}
use weatherflow.Trust.ActionStatus.{ActionStatus}
use weatherflow.Trust.ApprovalStatus.{ApprovalStatus}
use weatherflow.Trust.Model.{Action, Approval}
use weatherflow.Trust.Actions
use weatherflow.Trust.Approvals
use weatherflow.Trust.Swap.{
  action_transition-swap, action_outcome, approval_transition-swap, approval_outcome,
}
use weatherflow.Trust.Coordinator.{Proposal, SandboxStamps, insert_sandboxed, prior_event}
use weatherflow.Trust.Decisions.{ResolveStamps, Resolution, resolve_in, resolve_pending}
use weatherflow.Integrity.{
  beside-HasKeys, append_in-HasKeys, action_create_in-HasKeys, approval_create_in-HasKeys,
  action_transition_in-HasKeys, approval_transition_in-HasKeys,
}
use weatherflow.Integrity.Coordinators.{insert_run-HasKeys}
use weatherflow.Integrity.Statements.{HasKeys-Statements}
use weatherflow.Protocol.{Statements}
use weatherflow.Protocol.Reads.{prior_event-Keeps, check_pending-Commits}

-- A new run takes no row away.
insert_run-found :
    (run_id : String) (has_sessions : Bool) (stamp : Stamp) (q : Request) (new run : Run) (db : Db)
    (r : Run)
    → lookup run_key run_id db.runs ≡ some run
    → (insert_run has_sessions stamp q new db).0 ≡ ok r
    → lookup run_key run_id (insert_run has_sessions stamp q new db).1.runs ≡ some run
unfolding ◌>>=◌ insert_run check_session touch_session create_in touch_for_run_in append_in
    require_workspace_in
insert_run-found run_id has_sessions stamp q new run db r found e =
    ground (arith, e, found, lookup-insert run_key run_id new db.runs)

module _ {run_id : String} {s : RunStatus} {w : ℕ} where
  append_in-IsAfter : (e : Event) → Commits (IsAfter run_id s w) (append_in e)
  unfolding append_in
  append_in-IsAfter e =
      untouched-IsAfter run_id s w _ (append_in-HasKeys e) (λ db r k x. ground arith)

  action_create_in-IsAfter : (a : Action) → Commits (IsAfter run_id s w) (Actions.create_in a)
  unfolding Actions.create_in
  action_create_in-IsAfter a =
      untouched-IsAfter run_id s w _ (action_create_in-HasKeys a) (λ db r k e. ground arith)

  approval_create_in-IsAfter : (p : Approval) → Commits (IsAfter run_id s w) (Approvals.create_in p)
  unfolding Approvals.create_in
  approval_create_in-IsAfter p =
      untouched-IsAfter run_id s w _ (approval_create_in-HasKeys p) (λ db r k e. ground arith)

  action_transition_in-IsAfter :
      (now : ℕ) (action_id : String) (target : ActionStatus) (v : ℕ) (detail : Actions.Detail)
      → Commits (IsAfter run_id s w) (Actions.transition_in now action_id target v detail)
  unfolding action_outcome
  action_transition_in-IsAfter now action_id target v detail =
      untouched-IsAfter run_id s w _ (action_transition_in-HasKeys now action_id target v detail)
        (λ db r k e.
          ground (arith, action_transition-swap now action_id target v detail db k.actions))

  approval_transition_in-IsAfter :
      (now : ℕ) (approval_id : String) (target : ApprovalStatus) (v : ℕ) (decided_by : String)
      (rationale : Option String)
      → Commits
          (IsAfter run_id s w)
          (Approvals.transition_in now approval_id target v decided_by rationale)
  unfolding approval_outcome
  approval_transition_in-IsAfter now approval_id target v decided_by rationale =
      untouched-IsAfter run_id s w _
        (approval_transition_in-HasKeys now approval_id target v decided_by rationale)
        (λ db r k e. ground (
          arith,
          approval_transition-swap now approval_id target v decided_by rationale db k.approvals,
        ))

  move-IsAfter :
      (now : ℕ) (stamp : Stamp) (moved_id : String) (target : RunStatus) (v : ℕ) (detail : Detail)
      → Commits (IsAfter run_id s w) (move_in now stamp moved_id target v detail)
  move-IsAfter now stamp moved_id target v detail = record {
    at = λ db a p e. move_in-IsAfter run_id s w now stamp moved_id target v detail db a p e;
  }

  prior_event-IsAfter :
      (kind stream_id : String) → Commits (IsAfter run_id s w) (prior_event kind stream_id)
  prior_event-IsAfter kind stream_id = Commits-Keeps _ (prior_event-Keeps kind stream_id)

  insert_run-IsAfter :
      (has_sessions : Bool) (stamp : Stamp) (q : Request) (run : Run)
      → Commits (IsAfter run_id s w) (insert_run has_sessions stamp q run)
  insert_run-IsAfter has_sessions stamp q run = record {
    at = λ db r p e. record {
      keys = (insert_run-HasKeys has_sessions stamp q run).at db r p.keys e;
      run = p.run;
      found = insert_run-found run_id has_sessions stamp q run p.run db r p.found e;
      path = p.path;
      version = p.version;
    };
  }

  attach_capability_snapshot_in-IsAfter :
      (now : ℕ) (attached_id snapshot_id : String) (v : ℕ)
      → Commits (IsAfter run_id s w) (attach_capability_snapshot_in now attached_id snapshot_id v)
  attach_capability_snapshot_in-IsAfter now attached_id snapshot_id v = record {
    at = λ db r h e.
        update-IsAfter run_id s w db _ _ (with_capability_snapshot now snapshot_id) (λ r. refl)
          (λ r. refl) (λ r. omega arith)
          ((HasKeys-Statements.attach_capability_snapshot now attached_id snapshot_id v).at db r
            h.keys e)
          (ap (λ (d : Db). d.runs)
            (after-attach_capability_snapshot_in now attached_id snapshot_id v db r e))
          h;
  }

  attach_rhythm_snapshot_in-IsAfter :
      (now : ℕ) (attached_id snapshot_id : String) (v : ℕ)
      → Commits (IsAfter run_id s w) (attach_rhythm_snapshot_in now attached_id snapshot_id v)
  attach_rhythm_snapshot_in-IsAfter now attached_id snapshot_id v = record {
    at = λ db r h e.
        update-IsAfter run_id s w db _ _ (with_rhythm_snapshot now snapshot_id) (λ r. refl)
          (λ r. refl) (λ r. omega arith)
          ((HasKeys-Statements.attach_rhythm_snapshot now attached_id snapshot_id v).at db r h.keys
            e)
          (ap (λ (d : Db). d.runs)
            (after-attach_rhythm_snapshot_in now attached_id snapshot_id v db r e))
          h;
  }

ruleset after_rules = (
  append_in-IsAfter, action_create_in-IsAfter, approval_create_in-IsAfter,
  action_transition_in-IsAfter, approval_transition_in-IsAfter, move-IsAfter, prior_event-IsAfter,
)

module _ {run_id : String} {s : RunStatus} {w : ℕ} where
  insert_sandboxed-IsAfter :
      (stamps : SandboxStamps) (q : Proposal)
      → Commits (IsAfter run_id s w) (insert_sandboxed stamps q)
  unfolding insert_sandboxed
  insert_sandboxed-IsAfter stamps q = search (commit_rules, after_rules) depth 14

  resolve_in-IsAfter :
      (stamps : ResolveStamps) (approval_id : String) (v : ℕ) (res : Resolution) (p : Approval)
      → Commits (IsAfter run_id s w) (resolve_in stamps approval_id v res p)
  unfolding resolve_in
  resolve_in-IsAfter stamps approval_id v res p = search (commit_rules, after_rules) depth 20

  resolve_pending-IsAfter :
      (stamps : ResolveStamps) (approval_id : String) (v : ℕ) (res : Resolution)
      → Commits (IsAfter run_id s w) (resolve_pending stamps approval_id v res)
  unfolding resolve_pending
  resolve_pending-IsAfter stamps approval_id v res =
      search (commit_rules, check_pending-Commits, resolve_in-IsAfter) depth 14

pub IsAfter-Statements : (run_id : String) (s : RunStatus) (w : ℕ) → Statements (IsAfter run_id s w)
IsAfter-Statements run_id s w = record {
  beside = λ a b g h. record {
    keys = beside-HasKeys a b g h.keys;
    run = h.run;
    found = cc (g.runs, h.found);
    path = h.path;
    version = h.version;
  };
  append = λ e _. append_in-IsAfter e;
  insert_run = insert_run-IsAfter;
  move = move-IsAfter;
  attach_capability_snapshot = attach_capability_snapshot_in-IsAfter;
  attach_rhythm_snapshot = attach_rhythm_snapshot_in-IsAfter;
  create_action = λ a _. action_create_in-IsAfter a;
  create_approval = approval_create_in-IsAfter;
  move_action =
      λ now action_id target v detail _. action_transition_in-IsAfter now action_id target v detail;
  sandbox = λ stamps q _. insert_sandboxed-IsAfter stamps q;
  decide = λ stamps approval_id v approved decided_by rationale.
      resolve_pending-IsAfter stamps approval_id v _;
  expire = λ stamps approval_id v. resolve_pending-IsAfter stamps approval_id v _;
}
