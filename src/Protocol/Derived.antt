-- ===== src/Protocol/Derived.antt =====
-- Every call of the coordinators keeps an invariant that its statements commit.
use weatherflow.Prelude.{
  ℕ, String, ◌≡◌, refl, Bool, false, not, Option, none, some, arith, inl, inr, Option-cases,
}
use weatherflow.Database.{Db, Tx}
use weatherflow.Database.Commits.{Commits, Commits-bind, Commits-gets, Commits-pure}
use weatherflow.Database.Keeps.{
  Keeps, Keeps-transaction, Keeps-bind, Keeps-raise_if, Keeps-guard, Commits-Keeps,
}
use weatherflow.Events.Model.{Stamp, new_event}
use weatherflow.Runs.Status.{RunStatus}
use weatherflow.Runs.Model.{Run}
use weatherflow.Runs.Repository
use weatherflow.Runs.Coordinator.{Request, existing_or, move, create_run}
use weatherflow.Runs.History.{is_status_event}
use weatherflow.Trust.ActionStatus.{ActionStatus}
use weatherflow.Trust.Model.{Action, Approval, new_action}
use weatherflow.Trust.Policy.{evaluate}
use weatherflow.Trust.Coordinator.{
  ApprovalBundle, Proposal, ProposeStamps, SandboxStamps, bundle_or, action_or, insert_proposal,
  propose, authorize_sandboxed, proposed_event, requested_event, is_sandbox,
}
use weatherflow.Trust.Decisions.{ResolveStamps, resolve, decide, expire}
use weatherflow.Protocol.{Statements}
use weatherflow.Protocol.Reads.{
  existing_run-Keeps, existing_bundle-Keeps, existing_action-Keeps, prior_event-Keeps,
  check_pending-Keeps,
}

proposed_event-other :
    (stamp : Stamp) (q : Proposal) (action_id : String) (causation_id : Option String)
    → is_status_event (proposed_event stamp q action_id causation_id) ≡ false
unfolding is_status_event proposed_event new_event
proposed_event-other stamp q action_id causation_id = refl

requested_event-other :
    (stamp : Stamp) (q : Proposal) (p : Approval) (event_id : String)
    → is_status_event (requested_event stamp q p event_id) ≡ false
unfolding is_status_event requested_event new_event
requested_event-other stamp q p event_id = refl

new_action-proposed :
    (stamp : Stamp) (q : Proposal)
    → (new_action stamp q.run_id q.tool.tool_id q.arguments q.tool.effect q.idempotency_key
        q.preview).status
      ≡ ActionStatus.proposed
unfolding new_action
new_action-proposed stamp q = refl

module _ {P : Db → Type 0} (s : Statements P) where
  insert_proposal-Commits :
      (stamps : ProposeStamps) (q : Proposal) (v : ℕ) → Commits P (insert_proposal stamps q v)
  unfolding insert_proposal
  insert_proposal-Commits stamps q v =
      Commits-bind _ _ (Commits-Keeps _ (prior_event-Keeps "run" q.run_id)) λ prior.
        Commits-bind _ _ (s.create_action _ (new_action-proposed stamps.action q)) λ _.
          Commits-bind _ _ (s.create_approval _) λ _.
            Commits-bind _ _ (s.append _ (proposed_event-other stamps.action_event q _ prior)) λ _.
              Commits-bind _ _ (s.append _ (requested_event-other stamps.approval_event q _ _))
                λ _. Commits-bind _ _ (s.move _ _ _ _ _ _) λ _. Commits-pure _

  existing_or-Commits :
      (q : Request) (found : Option Run) (create : Tx Run)
      → Commits P create
      → Commits P (existing_or q found create)
  existing_or-Commits q none create k = k
  existing_or-Commits q (some r) create k = Commits-Keeps _ (existing_run-Keeps q r)

  pub create_run-Keeps :
      (has_sessions : Bool) (run_stamp event_stamp : Stamp) (q : Request) (seen : Db)
      → Keeps P (create_run has_sessions run_stamp event_stamp q seen)
  unfolding create_run
  create_run-Keeps has_sessions run_stamp event_stamp q seen =
      elim (Option-cases (Repository.get_by_client_request_id_in q.client_request_id seen)) [
        | inl fresh ↦ rw fresh (
            Keeps-transaction _ (
              Commits-bind _ _ (Commits-gets _)
                (λ found. existing_or-Commits q found _ (s.insert_run _ _ _ _))))
        | inr (r, known) ↦ rw known (existing_run-Keeps q r)
      ]

  pub move-Keeps :
      (now : ℕ) (stamp : Stamp) (run_id : String) (target : RunStatus) (v : ℕ)
      (detail : Repository.Detail)
      → Keeps P (move now stamp run_id target v detail)
  unfolding move
  move-Keeps now stamp run_id target v detail = Keeps-transaction _ (s.move _ _ _ _ _ _)

  bundle_or-Keeps :
      (q : Proposal) (found : Option Action) (create : Tx ApprovalBundle)
      → Keeps P create
      → Keeps P (bundle_or q found create)
  bundle_or-Keeps q none create k = k
  bundle_or-Keeps q (some a) create k = existing_bundle-Keeps q a

  bundle_or-Commits :
      (q : Proposal) (found : Option Action) (create : Tx ApprovalBundle)
      → Commits P create
      → Commits P (bundle_or q found create)
  bundle_or-Commits q none create k = k
  bundle_or-Commits q (some a) create k = Commits-Keeps _ (existing_bundle-Keeps q a)

  pub propose-Keeps :
      (stamps : ProposeStamps) (q : Proposal) (v : ℕ) (seen : Db)
      → Keeps P (propose stamps q v seen)
  unfolding propose
  propose-Keeps stamps q v seen = bundle_or-Keeps q _ _ (
      Keeps-bind _ _ (Keeps-raise_if _ _) λ _. Keeps-bind _ _ (Keeps-raise_if _ _) λ _.
        Keeps-transaction _ (
          Commits-bind _ _ (Commits-gets _)
            (λ found. bundle_or-Commits q found _ (insert_proposal-Commits stamps q v))))

  action_or-Keeps :
      (q : Proposal) (found : Option Action) (create : Tx Action)
      → Keeps P create
      → Keeps P (action_or q found create)
  action_or-Keeps q none create k = k
  action_or-Keeps q (some a) create k = existing_action-Keeps q a

  action_or-Commits :
      (q : Proposal) (found : Option Action) (create : Tx Action)
      → Commits P create
      → Commits P (action_or q found create)
  action_or-Commits q none create k = k
  action_or-Commits q (some a) create k = Commits-Keeps _ (existing_action-Keeps q a)

  pub authorize_sandboxed-Keeps :
      (stamps : SandboxStamps) (q : Proposal) (seen : Db)
      → Keeps P (authorize_sandboxed stamps q seen)
  unfolding authorize_sandboxed
  authorize_sandboxed-Keeps stamps q seen =
      Keeps-guard (not (is_sandbox (evaluate q.tool q.workspace).kind)) _ _ λ sandboxed.
        action_or-Keeps q _ _ (
          Keeps-bind _ _ (Keeps-raise_if _ _) λ _. Keeps-transaction _ (
            Commits-bind _ _ (Commits-gets _)
              (λ found. action_or-Commits q found _ (s.sandbox stamps q (ground arith)))))

  pub decide-Keeps :
      (stamps : ResolveStamps) (approval_id : String) (v : ℕ) (approved : Bool)
      (decided_by : String) (rationale : Option String) (seen : Db)
      → Keeps P (decide stamps approval_id v approved decided_by rationale seen)
  unfolding decide resolve
  decide-Keeps stamps approval_id v approved decided_by rationale seen =
      check_pending-Keeps _ _ _ (λ _. Keeps-transaction _ (s.decide _ _ _ _ _ _))

  pub expire-Keeps :
      (stamps : ResolveStamps) (approval_id : String) (v : ℕ) (seen : Db)
      → Keeps P (expire stamps approval_id v seen)
  unfolding expire resolve
  expire-Keeps stamps approval_id v seen =
      check_pending-Keeps _ _ _ (λ _. Keeps-transaction _ (s.expire _ _ _))
