-- ===== src/Trust/Approvals.antt =====
-- `ApprovalRepository` of core/src/weatherflow/trust/approval_repository.py
use weatherflow.Prelude.{
  ℕ, ◌+◌, String, Bool, not, ◌&&◌, ◌||◌, Option, some, ◌==◌, ◌=?◌, if◌then◌else◌, is_some,
}
use weatherflow.Outcome.{
  ok, err, integrity_error, duplicate_approval, approval_not_found, approval_version_conflict,
  invalid_approval_transition,
}
use weatherflow.Table.{rowcount, update_where, lookup, insert}
use weatherflow.Database.{Db, Tx, gets, or_raise, raise_if, ◌>>=◌, ◌>>◌}
use weatherflow.Runs.Repository.{run_key}
use weatherflow.Trust.ApprovalStatus.{ApprovalStatus, approval_can_transition_to}
use weatherflow.Trust.Model.{Approval}
use weatherflow.Trust.Actions.{action_key}

abbrev pub approval_key : Approval → String
approval_key p = p.id

abbrev pub action_of : Approval → String
action_of p = p.action_id

-- INSERT INTO approvals: the id and the action are unique, and the action and the run must exist.
unfoldable pub create_in : Approval → Tx (Unit {0})
create_in approval db =
    if is_some (lookup approval_key approval.id db.approvals)
      || is_some (lookup action_of approval.action_id db.approvals)
    then (err duplicate_approval, db)
    else if is_some (lookup action_key approval.action_id db.actions)
        && is_some (lookup run_key approval.run_id db.runs)
    then (ok tt, record db { approvals = insert approval db.approvals })
    else (err integrity_error, db)

unfoldable pub get_in : String → Db → Option Approval
get_in approval_id db = lookup approval_key approval_id db.approvals

unfoldable pub get_by_action_id_in : String → Db → Option Approval
get_by_action_id_in action_id db = lookup action_of action_id db.approvals

unfoldable pub moved : ApprovalStatus → ℕ → String → Option String → Approval → Approval
moved target decided_at decided_by rationale p = record p {
  status = target;
  decided_at = some decided_at;
  decided_by = some decided_by;
  rationale = rationale;
  version = p.version + 1;
}

abbrev pub has_version : ℕ → Approval → Bool
has_version expected p = p.version =? expected

-- UPDATE approvals SET f WHERE id = ? AND p, with its row count.
update_approval : String → (Approval → Bool) → (Approval → Approval) → Tx ℕ
update_approval approval_id p f db =
    let selects = λ (a : Approval). (a.id == approval_id) && p a in
    (
      ok (rowcount selects db.approvals),
      record db { approvals = update_where selects f db.approvals },
    )

unfoldable pub transition_in :
    ℕ → String → ApprovalStatus → ℕ → String → Option String → Tx Approval
unfolding get_in moved update_approval
transition_in now approval_id target expected_version decided_by rationale = do
  found ← gets (get_in approval_id)
  current ← or_raise approval_not_found found
  raise_if (not (current.version =? expected_version)) approval_version_conflict
  raise_if (not (approval_can_transition_to current.status target)) invalid_approval_transition
  rows ←
      update_approval approval_id (has_version expected_version)
        (moved target now decided_by rationale)
  raise_if (not (rows =? 1)) approval_version_conflict
  updated ← gets (get_in approval_id)
  or_raise approval_not_found updated
