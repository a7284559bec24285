-- ===== src/Runs/History/Statements.antt =====
-- The statements of the coordinators keep the ledger a history of the runs.
use weatherflow.Prelude.{
  ℕ, String, ◌≡◌, refl, Bool, false, ◌||◌, Option, arith, ◌==◌, inl, inr, Option-cases,
}
use weatherflow.Table.{lookup, update_where}
use weatherflow.Table.Laws.{lookup-update_any}
use weatherflow.Database.{Db}
use weatherflow.Database.Commits.{
  Commits, Commits-bind, Commits-pure, Commits-gets, Commits-or_raise,
}
use weatherflow.Database.Keeps.{Commits-Keeps}
use weatherflow.Events.Model.{new_event}
use weatherflow.Runs.Model.{Run}
use weatherflow.Runs.Repository.{run_key, attach_capability_snapshot_in, attach_rhythm_snapshot_in}
use weatherflow.Runs.Attach.{
  with_capability_snapshot, with_rhythm_snapshot, after-attach_capability_snapshot_in,
  after-attach_rhythm_snapshot_in,
}
use weatherflow.Runs.History.{
  is_status_event, IsLogged, IsHistory, append_in-IsHistory, untouched-IsHistory,
}
use weatherflow.Runs.History.Calls.{move_in-IsHistory, insert_run-IsHistory}
use weatherflow.Trust.ActionStatus.{ActionStatus}
use weatherflow.Trust.ApprovalStatus.{ApprovalStatus}
use weatherflow.Trust.Model.{Action, Approval}
use weatherflow.Trust.Actions
use weatherflow.Trust.Approvals
use weatherflow.Trust.Swap.{
  action_transition-swap, action_outcome, approval_transition-swap, approval_outcome,
}
use weatherflow.Trust.Coordinator.{
  Proposal, SandboxStamps, insert_sandboxed, proposed_event, authorized_event,
}
use weatherflow.Trust.Decisions.{
  ResolveStamps, Resolution, decision, expiry, resolve_in, resolve_pending,
}
use weatherflow.Integrity.{
  beside-HasKeys, action_create_in-HasKeys, approval_create_in-HasKeys,
  action_transition_in-HasKeys, approval_transition_in-HasKeys,
}
use weatherflow.Integrity.Statements.{HasKeys-Statements}
use weatherflow.Protocol.{Statements}
use weatherflow.Protocol.Reads.{prior_event-Keeps, check_pending-Commits}

-- An update that leaves every run's id and status alone.
IsLogged-update :
    (db : Db) (p : Run → Bool) (f : Run → Run)
    → ((r : Run) → (f r).id ≡ r.id)
    → ((r : Run) → (f r).status ≡ r.status)
    → IsLogged db
    → IsLogged (record db { runs = update_where p f db.runs })
IsLogged-update db p f same_id same_status h = record {
  at = λ j. elim (Option-cases (lookup run_key j db.runs)) [
    | inl absent ↦ ground (arith, absent, h.at j, lookup-update_any run_key j p f db.runs same_id)
    | inr (r, found) ↦
        ground
          (arith, found, h.at j, same_status r, lookup-update_any run_key j p f db.runs same_id)
  ];
}

attach_capability_snapshot_in-IsHistory :
    (now : ℕ) (run_id snapshot_id : String) (v : ℕ)
    → Commits IsHistory (attach_capability_snapshot_in now run_id snapshot_id v)
attach_capability_snapshot_in-IsHistory now run_id snapshot_id v = record {
  at = λ db r h e. record {
    keys =
        (HasKeys-Statements.attach_capability_snapshot now run_id snapshot_id v).at db r h.keys e;
    logged = rw (after-attach_capability_snapshot_in now run_id snapshot_id v db r e) (
        IsLogged-update db _ (with_capability_snapshot now snapshot_id) (λ r. refl) (λ r. refl)
          h.logged);
  };
}

attach_rhythm_snapshot_in-IsHistory :
    (now : ℕ) (run_id snapshot_id : String) (v : ℕ)
    → Commits IsHistory (attach_rhythm_snapshot_in now run_id snapshot_id v)
attach_rhythm_snapshot_in-IsHistory now run_id snapshot_id v = record {
  at = λ db r h e. record {
    keys = (HasKeys-Statements.attach_rhythm_snapshot now run_id snapshot_id v).at db r h.keys e;
    logged = rw (after-attach_rhythm_snapshot_in now run_id snapshot_id v db r e) (
        IsLogged-update db _ (with_rhythm_snapshot now snapshot_id) (λ r. refl) (λ r. refl)
          h.logged);
  };
}

action_create_in-IsHistory : (a : Action) → Commits IsHistory (Actions.create_in a)
unfolding Actions.create_in
action_create_in-IsHistory a =
    untouched-IsHistory _ (action_create_in-HasKeys a) (λ db r k e. ground arith)

approval_create_in-IsHistory : (p : Approval) → Commits IsHistory (Approvals.create_in p)
unfolding Approvals.create_in
approval_create_in-IsHistory p =
    untouched-IsHistory _ (approval_create_in-HasKeys p) (λ db r k e. ground arith)

action_transition_in-IsHistory :
    (now : ℕ) (action_id : String) (target : ActionStatus) (v : ℕ) (detail : Actions.Detail)
    → Commits IsHistory (Actions.transition_in now action_id target v detail)
unfolding action_outcome
action_transition_in-IsHistory now action_id target v detail =
    untouched-IsHistory _ (action_transition_in-HasKeys now action_id target v detail) (λ db r k e.
      ground (arith, action_transition-swap now action_id target v detail db k.actions))

approval_transition_in-IsHistory :
    (now : ℕ) (approval_id : String) (target : ApprovalStatus) (v : ℕ) (decided_by : String)
    (rationale : Option String)
    → Commits IsHistory (Approvals.transition_in now approval_id target v decided_by rationale)
unfolding approval_outcome
approval_transition_in-IsHistory now approval_id target v decided_by rationale =
    untouched-IsHistory _
      (approval_transition_in-HasKeys now approval_id target v decided_by rationale)
      (λ db r k e. ground (
        arith,
        approval_transition-swap now approval_id target v decided_by rationale db k.approvals,
      ))

insert_sandboxed-IsHistory :
    (stamps : SandboxStamps) (q : Proposal) → Commits IsHistory (insert_sandboxed stamps q)
unfolding insert_sandboxed proposed_event authorized_event new_event is_status_event
insert_sandboxed-IsHistory stamps q = Commits-bind _ _ (action_create_in-IsHistory _) λ _.
    Commits-bind _ _ (append_in-IsHistory _ refl) λ _.
      Commits-bind _ _ (action_transition_in-IsHistory _ _ _ _ _)
        λ a. Commits-bind _ _ (append_in-IsHistory _ refl) λ _. Commits-pure a

module _ (stamps : ResolveStamps) (approval_id : String) (v : ℕ) (res : Resolution)
    (other : ((res.event_type == "run.created") || (res.event_type == "run.status_changed"))
      ≡ false) where
  resolve_in-IsHistory : (p : Approval) → Commits IsHistory (resolve_in stamps approval_id v res p)
  unfolding resolve_in new_event is_status_event
  resolve_in-IsHistory p = Commits-bind _ _ (Commits-gets _) λ found_action.
      Commits-bind _ _ (Commits-gets _) λ found_run.
        Commits-bind _ _ (Commits-or_raise _ _) λ action.
          Commits-bind _ _ (Commits-or_raise _ _) λ run.
            Commits-bind _ _ (approval_transition_in-IsHistory _ _ _ _ _ _) λ approval'.
              Commits-bind _ _ (action_transition_in-IsHistory _ _ _ _ _) λ action'.
                Commits-bind _ _ (Commits-Keeps _ (prior_event-Keeps _ _)) λ prior.
                  Commits-bind _ _ (append_in-IsHistory _ other)
                    λ _. Commits-bind _ _ (move_in-IsHistory _ _ _ _ _ _) λ run'. Commits-pure _

  resolve_pending-IsHistory : Commits IsHistory (resolve_pending stamps approval_id v res)
  unfolding resolve_pending
  resolve_pending-IsHistory =
      Commits-bind _ _ (Commits-gets _)
        λ found. check_pending-Commits res.approval found _ resolve_in-IsHistory

decide-IsHistory :
    (stamps : ResolveStamps) (approval_id : String) (v : ℕ) (approved : Bool) (decided_by : String)
    (rationale : Option String)
    → Commits IsHistory
        (resolve_pending stamps approval_id v (decision approved decided_by rationale))
unfolding decision
decide-IsHistory stamps approval_id v approved decided_by rationale =
    resolve_pending-IsHistory stamps approval_id v _ refl

expire-IsHistory :
    (stamps : ResolveStamps) (approval_id : String) (v : ℕ)
    → Commits IsHistory (resolve_pending stamps approval_id v expiry)
unfolding expiry
expire-IsHistory stamps approval_id v = resolve_pending-IsHistory stamps approval_id v _ refl

pub IsHistory-Statements : Statements IsHistory
IsHistory-Statements = record {
  beside = λ a b g h. record {
    keys = beside-HasKeys a b g h.keys;
    logged = record { at = λ run_id. cc (g.events, g.runs, h.logged.at run_id) };
  };
  append = append_in-IsHistory;
  insert_run = insert_run-IsHistory;
  move = move_in-IsHistory;
  attach_capability_snapshot = attach_capability_snapshot_in-IsHistory;
  attach_rhythm_snapshot = attach_rhythm_snapshot_in-IsHistory;
  create_action = λ a _. action_create_in-IsHistory a;
  create_approval = approval_create_in-IsHistory;
  move_action = λ now action_id target v detail _.
      action_transition_in-IsHistory now action_id target v detail;
  sandbox = λ stamps q _. insert_sandboxed-IsHistory stamps q;
  decide = decide-IsHistory;
  expire = expire-IsHistory;
}
