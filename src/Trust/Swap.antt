-- ===== src/Trust/Swap.antt =====
-- `transition_in` of the action and the approval repository is a compare-and-swap of one row.
use weatherflow.Prelude.{
  ℕ, ◌+◌, eq_iff, String, ◌≡◌, refl, not, ◌&&◌, Option, none, some, arith, ◌==◌, eq_refl, ◌=?◌,
  if◌then◌else◌, inl, inr, Option-cases,
}
use weatherflow.Outcome.{
  Result, ok, err, action_not_found, action_version_conflict, invalid_action_transition,
  approval_not_found, approval_version_conflict, invalid_approval_transition,
}
use weatherflow.Table.{lookup, update_where, Unique}
use weatherflow.Table.Laws.{lookup-update_where, rowcount-Unique}
use weatherflow.Database.{◌>>=◌, Db}
use weatherflow.Database.Effect.{row_after, left_by}
use weatherflow.Trust.ActionStatus.{ActionStatus, action_can_transition_to}
use weatherflow.Trust.ApprovalStatus.{ApprovalStatus, approval_can_transition_to}
use weatherflow.Trust.Model.{Action, Approval}
use weatherflow.Trust.Actions
use weatherflow.Trust.Actions.{action_key}
use weatherflow.Trust.Approvals
use weatherflow.Trust.Approvals.{approval_key}

module _ (now : ℕ) (action_id : String) (target : ActionStatus) (expected_version : ℕ)
    (detail : Actions.Detail) (db : Db) where
  abbrev pub action_swapped : Db
  action_swapped = record db {
    actions =
        update_where (λ a. (a.id == action_id) && Actions.has_version expected_version a)
          (Actions.moved target now detail) db.actions;
  }

  unfoldable pub action_outcome : Option Action → Result Action × Db
  action_outcome none = (err action_not_found, db)
  action_outcome (some a) =
      if not (a.version =? expected_version)
      then (err action_version_conflict, db)
      else if not (action_can_transition_to a.status target)
      then (err invalid_action_transition, db)
      else (ok (Actions.moved target now detail a), action_swapped)

  -- `ActionRepository.transition_in` as its checks and one update.
  pub action_transition-swap :
      Unique action_key db.actions
      → Actions.transition_in now action_id target expected_version detail db
        ≡ action_outcome (lookup action_key action_id db.actions)
  unfolding ◌>>=◌ Actions.transition_in action_outcome
  action_transition-swap u = elim (Option-cases (lookup action_key action_id db.actions)) [
    | inl e ↦ rw e refl
    | inr (a, e) ↦ ground (
      arith,
      e,
      eq_refl action_id,
      rowcount-Unique action_key action_id (Actions.has_version expected_version) db.actions a u e,
      lookup-update_where action_key action_id action_id (Actions.has_version expected_version)
          (Actions.moved target now detail) db.actions (λ v. refl),
    )
  ]

  -- The checks in order, and an action with the new status, the next version, the time and details.
  abbrev pub action_transitioned : Option Action → Result Action
  action_transitioned none = err action_not_found
  action_transitioned (some a) =
      if not (a.version =? expected_version)
      then err action_version_conflict
      else if not (action_can_transition_to a.status target)
      then err invalid_action_transition
      else ok (record a {
        status = target;
        updated_at = now;
        version = a.version + 1;
        result = detail.result;
        error_class = detail.error_class;
        error_message = detail.error_message;
      })

  -- In a database with unique action ids, `ActionRepository.transition_in` raises the error of the
  -- first check that fails, of the action's existence, its version and its status, and changes
  -- nothing. Otherwise it returns the action with the new status, the next version, the time and
  -- the details; that is the action's row then, the row of every other id is as it was, and no
  -- other table has changed.
  pub action_transition-eq :
      (j : String)
      → Unique action_key db.actions
      → let t = Actions.transition_in now action_id target expected_version detail db in
        let expected = action_transitioned (lookup action_key action_id db.actions) in
        (t.0 ≡ expected)
        × (lookup action_key j t.1.actions
            ≡ row_after expected action_id j (lookup action_key j db.actions))
        × (t.1 ≡ left_by expected db (record db { actions = t.1.actions }))
  unfolding action_outcome Actions.moved
  action_transition-eq j u = elim (Option-cases (lookup action_key action_id db.actions)) [
    | inl e ↦ rw (action_transition-swap u, e) (refl, refl, refl)
    | inr (a, e) ↦ ground (
      arith,
      e,
      eq_iff action_id j,
      action_transition-swap u,
      lookup-update_where action_key action_id j (Actions.has_version expected_version)
          (Actions.moved target now detail) db.actions (λ v. refl),
    )
  ]

module _ (now : ℕ) (approval_id : String) (target : ApprovalStatus) (expected_version : ℕ)
    (decided_by : String) (rationale : Option String) (db : Db) where
  abbrev pub approval_swapped : Db
  approval_swapped = record db {
    approvals =
        update_where (λ p. (p.id == approval_id) && Approvals.has_version expected_version p)
          (Approvals.moved target now decided_by rationale) db.approvals;
  }

  unfoldable pub approval_outcome : Option Approval → Result Approval × Db
  approval_outcome none = (err approval_not_found, db)
  approval_outcome (some p) =
      if not (p.version =? expected_version)
      then (err approval_version_conflict, db)
      else if not (approval_can_transition_to p.status target)
      then (err invalid_approval_transition, db)
      else (ok (Approvals.moved target now decided_by rationale p), approval_swapped)

  -- `ApprovalRepository.transition_in` as its checks and one update.
  pub approval_transition-swap :
      Unique approval_key db.approvals
      → Approvals.transition_in now approval_id target expected_version decided_by rationale db
        ≡ approval_outcome (lookup approval_key approval_id db.approvals)
  unfolding ◌>>=◌ Approvals.transition_in approval_outcome
  approval_transition-swap u = elim (Option-cases (lookup approval_key approval_id db.approvals)) [
    | inl e ↦ rw e refl
    | inr (p, e) ↦ ground (
      arith,
      e,
      eq_refl approval_id,
      rowcount-Unique approval_key approval_id (Approvals.has_version expected_version) db.approvals
          p u e,
      lookup-update_where approval_key approval_id approval_id
          (Approvals.has_version expected_version) (Approvals.moved target now decided_by rationale)
          db.approvals (λ v. refl),
    )
  ]

  -- The checks in order, and an approval with the decision and the next version.
  abbrev pub approval_transitioned : Option Approval → Result Approval
  approval_transitioned none = err approval_not_found
  approval_transitioned (some p) =
      if not (p.version =? expected_version)
      then err approval_version_conflict
      else if not (approval_can_transition_to p.status target)
      then err invalid_approval_transition
      else ok (record p {
        status = target;
        decided_at = some now;
        decided_by = some decided_by;
        rationale = rationale;
        version = p.version + 1;
      })

  -- In a database with unique approval ids, `ApprovalRepository.transition_in` raises the error of
  -- the first check that fails, of the approval's existence, its version and its status, and
  -- changes nothing. Otherwise it returns the approval with the new status, who decided it, when
  -- and why, and the next version; that is the approval's row then, the row of every other id is as
  -- it was, and no other table has changed.
  pub approval_transition-eq :
      (j : String)
      → Unique approval_key db.approvals
      → let t =
          Approvals.transition_in now approval_id target expected_version decided_by rationale db in
        let expected = approval_transitioned (lookup approval_key approval_id db.approvals) in
        (t.0 ≡ expected)
        × (lookup approval_key j t.1.approvals
            ≡ row_after expected approval_id j (lookup approval_key j db.approvals))
        × (t.1 ≡ left_by expected db (record db { approvals = t.1.approvals }))
  unfolding approval_outcome Approvals.moved
  approval_transition-eq j u = elim (Option-cases (lookup approval_key approval_id db.approvals)) [
    | inl e ↦ rw (approval_transition-swap u, e) (refl, refl, refl)
    | inr (p, e) ↦ ground (
      arith,
      e,
      eq_iff approval_id j,
      approval_transition-swap u,
      lookup-update_where approval_key approval_id j (Approvals.has_version expected_version)
          (Approvals.moved target now decided_by rationale) db.approvals (λ v. refl),
    )
  ]
