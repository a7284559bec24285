-- ===== src/Trust/Authorization/Decisions.antt =====
-- The transaction of `decide` and `expire` starts no action without an approval.
use weatherflow.Prelude.{ℕ, String, ◌≡◌, sym, subst, ◌∙◌, inr, not, Option, none, some, arith}
use weatherflow.Json.{field, text}
use weatherflow.Outcome.{approval_state_error}
use weatherflow.Table.{lookup}
use weatherflow.Table.Laws.{lookup-key}
use weatherflow.Database.{Db, ◌>>=◌, ◌>>◌, or_raise, pure}
use weatherflow.Database.Commits.{
  Commits, Triple, Triple-bind, Triple-gets, Triple-read, Triple-known, Triple-raise, Triple-if,
  Commits-Triple, Commits-bind, Commits-pure,
}
use weatherflow.Database.Keeps.{Commits-Keeps}
use weatherflow.Events.Model.{new_event}
use weatherflow.Events.Ledger.{append_in}
use weatherflow.Runs.Model.{Run}
use weatherflow.Runs.Repository
use weatherflow.Runs.Coordinator.{move_in}
use weatherflow.Trust.ActionStatus.{ActionStatus}
use weatherflow.Trust.ApprovalStatus.{ApprovalStatus, pending, approval_status_eq}
use weatherflow.Trust.Model.{Action, Approval}
use weatherflow.Trust.Actions
use weatherflow.Trust.Actions.{action_key}
use weatherflow.Trust.Approvals
use weatherflow.Trust.Approvals.{approval_key}
use weatherflow.Trust.Coordinator.{ApprovalBundle, prior_event}
use weatherflow.Trust.Decisions.{
  ResolveStamps, Resolution, check_pending, resolve_in, resolve_pending,
}
use weatherflow.Trust.Authorization.{IsApproved, IsAuthorized}
use weatherflow.Trust.Authorization.Moves.{action_transition_in-authority}
use weatherflow.Trust.Authorization.ApprovalMoves.{
  approval_transition_in-authority, approval_transition_in-IsApproved,
}
use weatherflow.Protocol.Reads.{prior_event-Keeps, bundle_for_approval-Keeps}
use weatherflow.Trust.Authorization.Untouched.{append_in-IsAuthorized, move_in-IsAuthorized}

-- A decision that approves an action approves its approval.
module _ (stamps : ResolveStamps) (approval_id : String) (v : ℕ) (res : Resolution)
    (coherent : res.action ≡ ActionStatus.approved → res.approval ≡ ApprovalStatus.approved) where
  -- The database in which the pending approval was found.
  abbrev Found : Approval → Db → Type 0
  Found current db = IsAuthorized db × (lookup approval_key approval_id db.approvals ≡ some current)

  -- The database after the approval's change.
  abbrev Decided : Approval → Db → Type 0
  Decided current db =
      IsAuthorized db × (res.action ≡ ActionStatus.approved → IsApproved db current.action_id)

  decide_approval :
      (current : Approval)
      → Triple
          (Found current)
          (Approvals.transition_in stamps.approval_updated_at approval_id res.approval v
            res.decided_by res.rationale)
          (λ _. Decided current)
  decide_approval current = record {
    at = λ db r p e. (
      approval_transition_in-authority _ _ _ _ _ _ db p.0 r e,
      λ approval.
          approval_transition_in-IsApproved _ _ _ _ _ _ db p.0 r e current p.1 (coherent approval),
    );
  }

  decide_action :
      (current : Approval) (action : Action)
      → action.id ≡ current.action_id
      → Triple
          (Decided current)
          (Actions.transition_in stamps.action_updated_at action.id res.action action.version
            Actions.no_detail)
          (λ _. IsAuthorized)
  decide_action current action same = record {
    at = λ db r p e. action_transition_in-authority _ _ _ _ _ db p.0 r e (λ c found approval. inr (
        subst (IsApproved db) (sym (lookup-key action_key action.id db.actions c found ∙ same))
          (p.1 approval)));
  }

  -- The action that the resolution moves is the approval's.
  approval_action :
      (current : Approval) (found : Option Action)
      → Triple
          (λ db. Found current db × (Actions.get_in current.action_id db ≡ found))
          (or_raise approval_state_error found)
          (λ a db. Found current db × (a.id ≡ current.action_id))
  unfolding Actions.get_in ◌>>=◌
  approval_action current none = record { at = λ db a h e. cc }
  approval_action current (some b) = record {
    at = λ db a h e.
        (h.0, ground (arith, e, lookup-key action_key current.action_id db.actions b h.1));
  }

  resolve_rows :
      (current : Approval) (action : Action) (run : Run)
      → Triple
          (λ db. Found current db × (action.id ≡ current.action_id))
          (do
            updated_approval ←
                Approvals.transition_in stamps.approval_updated_at approval_id res.approval v
                  res.decided_by res.rationale
            updated_action ←
                Actions.transition_in stamps.action_updated_at action.id res.action action.version
                  Actions.no_detail
            prior ← prior_event "approval" approval_id
            append_in (
                new_event stamps.event res.event_type res.actor "approval" approval_id
                  current.run_id prior
                  (field "action_id" (text action.id) res.event_fields))
            updated_run ←
                move_in stamps.run_updated_at stamps.run_event run.id res.run run.version
                  Repository.no_detail
            pure (record {
              action = updated_action;
              approval = updated_approval;
              run = updated_run;
            }))
          (λ (_ : ApprovalBundle) db. IsAuthorized db)
  resolve_rows current action run =
      Triple-bind {Q = λ _ db. Decided current db × (action.id ≡ current.action_id)}
        {R = λ _. IsAuthorized} _ _
        (record { at = λ db a h e. ((decide_approval current).at db a h.0 e, h.1) })
        λ approval'.
          Triple-bind {Q = λ _. IsAuthorized} {R = λ _. IsAuthorized} _ _
            (record { at = λ db a h e. (decide_action current action h.1).at db a h.0 e })
            λ action'.
              Commits-Triple _
                (Commits-bind _ _ (Commits-Keeps _ (prior_event-Keeps _ _)) λ prior.
                  Commits-bind _ _ (append_in-IsAuthorized _)
                    λ _. Commits-bind _ _ (move_in-IsAuthorized _ _ _ _ _ _) λ run'. Commits-pure _)
                (λ db h. h)

  resolve_in-IsAuthorized :
      (current : Approval)
      → Triple (Found current) (resolve_in stamps approval_id v res current) (λ _. IsAuthorized)
  unfolding resolve_in
  resolve_in-IsAuthorized current =
      Triple-bind {P = Found current} {R = λ _. IsAuthorized} _ _
        (Triple-gets (Actions.get_in current.action_id))
        λ found. Triple-bind {R = λ _. IsAuthorized} _ _ (Triple-read _) λ found_run.
          Triple-bind {R = λ _. IsAuthorized} _ _ (approval_action current found) λ action.
            Triple-bind {Q = λ _ db. Found current db × (action.id ≡ current.action_id)}
              {R = λ _. IsAuthorized} _ _ (Triple-known _ found_run)
              λ run. resolve_rows current action run

  check_pending-IsAuthorized :
      (found : Option Approval)
      → Triple
          (λ db. IsAuthorized db × (Approvals.get_in approval_id db ≡ found))
          (check_pending res.approval found (resolve_in stamps approval_id v res))
          (λ (_ : ApprovalBundle). IsAuthorized)
  unfolding check_pending Approvals.get_in
  check_pending-IsAuthorized none = Triple-raise _
  check_pending-IsAuthorized (some p) =
      Triple-if (approval_status_eq p.status res.approval) _ _
        (Commits-Triple _ (Commits-Keeps _ (bundle_for_approval-Keeps p)) (λ db h. h.0))
        (Triple-if (not (approval_status_eq p.status pending)) _ _ (Triple-raise _)
          (resolve_in-IsAuthorized p))

  pub resolve_pending-IsAuthorized : Commits IsAuthorized (resolve_pending stamps approval_id v res)
  unfolding resolve_pending
  resolve_pending-IsAuthorized = record {
    at =
        (Triple-bind {P = IsAuthorized} {R = λ _. IsAuthorized} _ _
          (Triple-gets (Approvals.get_in approval_id)) check_pending-IsAuthorized).at;
  }
