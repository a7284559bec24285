-- ===== src/Trust/Authorization/ApprovalMoves.antt =====
-- Authority through the status changes of approvals.
use weatherflow.Prelude.{
  ℕ, String, ◌≡◌, refl, subst, inl, inr, true, ◌&&◌, Option, some, arith, ◌==◌, eq_iff,
  Option-cases,
}
use weatherflow.Outcome.{ok}
use weatherflow.Table.{lookup}
use weatherflow.Table.Laws.{lookup-update_any, lookup-other_key, lookup-key}
use weatherflow.Database.{Db}
use weatherflow.Trust.ApprovalStatus.{ApprovalStatus, approval_can_transition_to}
use weatherflow.Trust.Model.{Action, Approval}
use weatherflow.Trust.Actions.{action_key}
use weatherflow.Trust.Approvals
use weatherflow.Trust.Approvals.{approval_key, action_of}
use weatherflow.Trust.Swap.{approval_transition-swap, approval_outcome, approval_swapped}
use weatherflow.Trust.Authorization.{is_started, IsApproved, HasAuthority, IsAuthorized}
use weatherflow.Integrity.{approval_transition_in-HasKeys}

module _ (now : ℕ) (approval_id : String) (target : ApprovalStatus) (v : ℕ) (decided_by : String)
    (rationale : Option String) (db : Db) (p : IsAuthorized db) (c : Approval)
    (found : lookup approval_key approval_id db.approvals ≡ some c)
    (version : Approvals.has_version v c ≡ true)
    (allowed : approval_can_transition_to c.status target ≡ true) where
  -- An approval that has been given is not the row that may change.
  given-unchanged :
      (action_id : String) (q : Approval)
      → lookup action_of action_id db.approvals ≡ some q
      → q.status ≡ ApprovalStatus.approved
      → lookup action_of action_id
          (approval_swapped now approval_id target v decided_by rationale db).approvals
        ≡ some q
  unfolding approval_can_transition_to Approvals.moved
  given-unchanged action_id q of_action given = ground (
    arith,
    found,
    of_action,
    given,
    allowed,
    eq_iff q.id approval_id,
    lookup-other_key action_of approval_key action_id db.approvals q p.keys.approvals of_action,
    lookup-update_any action_of action_id (λ a. (a.id == approval_id) && Approvals.has_version v a)
        (Approvals.moved target now decided_by rationale) db.approvals (λ a. refl),
  )

  -- The changed approval, found by its action.
  pub changed-approval :
      lookup action_of c.action_id
        (approval_swapped now approval_id target v decided_by rationale db).approvals
      ≡ some (Approvals.moved target now decided_by rationale c)
  unfolding Approvals.moved
  changed-approval = ground (
    arith,
    found,
    version,
    eq_iff c.id approval_id,
    lookup-key approval_key approval_id db.approvals c found,
    lookup-other_key approval_key action_of approval_id db.approvals c p.keys.approved_actions
        found,
    lookup-update_any action_of c.action_id
        (λ a. (a.id == approval_id) && Approvals.has_version v a)
        (Approvals.moved target now decided_by rationale) db.approvals (λ a. refl),
  )

  swapped-approvals :
      (j : String) (a : Action)
      → lookup action_key j db.actions ≡ some a
      → is_started a.status ≡ true
      → HasAuthority (approval_swapped now approval_id target v decided_by rationale db) a
  swapped-approvals j a found' started = elim (p.at j a found' started) [
    | inl sandboxed ↦ inl sandboxed
    | inr (q, of_action, given) ↦ inr (q, given-unchanged a.id q of_action given, given)
  ]

module _ (now : ℕ) (approval_id : String) (target : ApprovalStatus) (v : ℕ) (decided_by : String)
    (rationale : Option String) (db : Db) (p : IsAuthorized db) (r : Approval)
    (e : (Approvals.transition_in now approval_id target v decided_by rationale db).0 ≡ ok r) where
  -- What a returning transition found and left.
  pub found-approval :
      (c : Approval) × (lookup approval_key approval_id db.approvals ≡ some c)
      × (Approvals.has_version v c ≡ true)
      × (approval_can_transition_to c.status target ≡ true)
      × ((Approvals.transition_in now approval_id target v decided_by rationale db).1
          ≡ approval_swapped now approval_id target v decided_by rationale db)
  unfolding approval_outcome
  found-approval =
      let same =
        approval_transition-swap now approval_id target v decided_by rationale db
          p.keys.approvals in
      elim (Option-cases (lookup approval_key approval_id db.approvals)) [
        | inl absent ↦ absurd (ground (arith, absent, e, same))
        | inr (c, found) ↦ (
          c,
          found,
          ground (arith, found, e, same),
          ground (arith, found, e, same),
          ground (arith, found, e, same),
        )
      ]

  pub approval_transition_in-authority :
      IsAuthorized (Approvals.transition_in now approval_id target v decided_by rationale db).1
  approval_transition_in-authority =
      let (c, found, version, allowed, after) = found-approval in
      record {
        keys =
            (approval_transition_in-HasKeys now approval_id target v decided_by rationale).at db r
              p.keys e;
        at = rw after (
            swapped-approvals now approval_id target v decided_by rationale db p c found version
              allowed);
      }

  -- The action of the approval that was found is approved, if that was the target.
  pub approval_transition_in-IsApproved :
      (c : Approval)
      → lookup approval_key approval_id db.approvals ≡ some c
      → target ≡ ApprovalStatus.approved
      → IsApproved
          (Approvals.transition_in now approval_id target v decided_by rationale db).1
          c.action_id
  unfolding Approvals.moved
  approval_transition_in-IsApproved c found approval =
      let (c', found', version, allowed, after) = found-approval in
      let same : c' ≡ c = ground (arith, found, found') in
      subst
        (λ (d : Approval).
          IsApproved (Approvals.transition_in now approval_id target v decided_by rationale db).1
            d.action_id)
        same
        (rw after (
          Approvals.moved target now decided_by rationale c',
          changed-approval now approval_id target v decided_by rationale db p c' found' version
              allowed,
          approval,
        ))
