-- ===== src/Integrity/Statements.antt =====
-- The keys are unique after every statement of the coordinators.
use weatherflow.Prelude.{ℕ, String, refl, ◌&&◌, arith, ◌==◌, ◌=?◌}
use weatherflow.Table.Laws.{Unique-update_where}
use weatherflow.Database.Commits.{Commits, commit_rules}
use weatherflow.Database.Keeps.{Commits-Keeps}
use weatherflow.Runs.Model.{Run}
use weatherflow.Runs.Repository.{
  run_key, request_key, unattached, attach_capability_snapshot_in, attach_rhythm_snapshot_in,
}
use weatherflow.Runs.Attach.{
  with_capability_snapshot, with_rhythm_snapshot, after-attach_capability_snapshot_in,
  after-attach_rhythm_snapshot_in,
}
use weatherflow.Trust.Model.{Approval}
use weatherflow.Trust.Coordinator.{Proposal, SandboxStamps, insert_sandboxed, prior_event}
use weatherflow.Trust.Decisions.{ResolveStamps, Resolution, resolve_in, resolve_pending}
use weatherflow.Integrity.{
  HasKeys, beside-HasKeys, key_rules, append_in-HasKeys, action_create_in-HasKeys,
  approval_create_in-HasKeys, action_transition_in-HasKeys,
}
use weatherflow.Integrity.Coordinators.{move_in-HasKeys, insert_run-HasKeys}
use weatherflow.Protocol.{Statements}
use weatherflow.Protocol.Reads.{prior_event-Keeps, check_pending-Commits}

attach_capability_snapshot_in-HasKeys :
    (now : ℕ) (run_id snapshot_id : String) (v : ℕ)
    → Commits HasKeys (attach_capability_snapshot_in now run_id snapshot_id v)
attach_capability_snapshot_in-HasKeys now run_id snapshot_id v = record {
  at = λ db r h e.
      let p = λ (r : Run).
        (r.id == run_id) && ((r.version =? v) && unattached r.capability_snapshot_id) in
      let f = with_capability_snapshot now snapshot_id in
      ground (
        arith,
        after-attach_capability_snapshot_in now run_id snapshot_id v db r e,
        Unique-update_where run_key p f db.runs (λ v. refl) h.runs,
        Unique-update_where request_key p f db.runs (λ v. refl) h.requests,
      );
}

attach_rhythm_snapshot_in-HasKeys :
    (now : ℕ) (run_id snapshot_id : String) (v : ℕ)
    → Commits HasKeys (attach_rhythm_snapshot_in now run_id snapshot_id v)
attach_rhythm_snapshot_in-HasKeys now run_id snapshot_id v = record {
  at = λ db r h e.
      let p =
        λ (r : Run). (r.id == run_id) && ((r.version =? v) && unattached r.rhythm_snapshot_id) in
      let f = with_rhythm_snapshot now snapshot_id in
      ground (
        arith,
        after-attach_rhythm_snapshot_in now run_id snapshot_id v db r e,
        Unique-update_where run_key p f db.runs (λ v. refl) h.runs,
        Unique-update_where request_key p f db.runs (λ v. refl) h.requests,
      );
}

prior_event-HasKeys : (kind stream_id : String) → Commits HasKeys (prior_event kind stream_id)
prior_event-HasKeys kind stream_id = Commits-Keeps _ (prior_event-Keeps kind stream_id)

insert_sandboxed-HasKeys :
    (stamps : SandboxStamps) (q : Proposal) → Commits HasKeys (insert_sandboxed stamps q)
unfolding insert_sandboxed
insert_sandboxed-HasKeys stamps q = search (commit_rules, key_rules) depth 14

resolve_in-HasKeys :
    (stamps : ResolveStamps) (approval_id : String) (v : ℕ) (res : Resolution) (p : Approval)
    → Commits HasKeys (resolve_in stamps approval_id v res p)
unfolding resolve_in
resolve_in-HasKeys stamps approval_id v res p =
    search (commit_rules, key_rules, move_in-HasKeys, prior_event-HasKeys) depth 20

resolve_pending-HasKeys :
    (stamps : ResolveStamps) (approval_id : String) (v : ℕ) (res : Resolution)
    → Commits HasKeys (resolve_pending stamps approval_id v res)
unfolding resolve_pending
resolve_pending-HasKeys stamps approval_id v res =
    search (commit_rules, check_pending-Commits, resolve_in-HasKeys) depth 14

pub HasKeys-Statements : Statements HasKeys
HasKeys-Statements = record {
  beside = beside-HasKeys;
  append = λ e _. append_in-HasKeys e;
  insert_run = insert_run-HasKeys;
  move = move_in-HasKeys;
  attach_capability_snapshot = attach_capability_snapshot_in-HasKeys;
  attach_rhythm_snapshot = attach_rhythm_snapshot_in-HasKeys;
  create_action = λ a _. action_create_in-HasKeys a;
  create_approval = approval_create_in-HasKeys;
  move_action =
      λ now action_id target v detail _. action_transition_in-HasKeys now action_id target v detail;
  sandbox = λ stamps q _. insert_sandboxed-HasKeys stamps q;
  decide = λ stamps approval_id v approved decided_by rationale.
      resolve_pending-HasKeys stamps approval_id v _;
  expire = λ stamps approval_id v. resolve_pending-HasKeys stamps approval_id v _;
}
