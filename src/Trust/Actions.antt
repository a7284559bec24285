-- ===== src/Trust/Actions.antt =====
-- `ActionRepository` of core/src/weatherflow/trust/action_repository.py
use weatherflow.Prelude.{
  ℕ, ◌+◌, String, Bool, not, ◌&&◌, ◌||◌, Option, none, ◌==◌, ◌=?◌, if◌then◌else◌, is_some,
}
use weatherflow.Json.{Object}
use weatherflow.Outcome.{
  ok, err, integrity_error, duplicate_action, action_not_found, action_version_conflict,
  invalid_action_transition,
}
use weatherflow.Table.{rowcount, update_where, lookup, insert}
use weatherflow.Database.{Db, Tx, gets, or_raise, raise_if, ◌>>=◌, ◌>>◌}
use weatherflow.Runs.Repository.{run_key}
use weatherflow.Trust.ActionStatus.{ActionStatus, action_can_transition_to}
use weatherflow.Trust.Model.{Action}

abbrev pub action_key : Action → String
action_key a = a.id

abbrev pub idempotency_of : Action → String
idempotency_of a = a.idempotency_key

-- INSERT INTO actions: the id and the idempotency key are unique, and the run must exist.
unfoldable pub create_in : Action → Tx (Unit {0})
create_in action db =
    if is_some (lookup action_key action.id db.actions)
      || is_some (lookup idempotency_of action.idempotency_key db.actions)
    then (err duplicate_action, db)
    else if is_some (lookup run_key action.run_id db.runs)
    then (ok tt, record db { actions = insert action db.actions })
    else (err integrity_error, db)

unfoldable pub get_in : String → Db → Option Action
get_in action_id db = lookup action_key action_id db.actions

unfoldable pub get_by_idempotency_key_in : String → Db → Option Action
get_by_idempotency_key_in value db = lookup idempotency_of value db.actions

-- The optional fields that a transition writes.
pub record Detail : Type 0 where
  pub result : Option Object
  pub error_class : Option String
  pub error_message : Option String

abbrev pub no_detail : Detail
no_detail = record { result = none; error_class = none; error_message = none }

unfoldable pub moved : ActionStatus → ℕ → Detail → Action → Action
moved target updated_at detail a = record a {
  status = target;
  updated_at = updated_at;
  version = a.version + 1;
  result = detail.result;
  error_class = detail.error_class;
  error_message = detail.error_message;
}

abbrev pub has_version : ℕ → Action → Bool
has_version expected a = a.version =? expected

-- UPDATE actions SET f WHERE id = ? AND p, with its row count.
update_action : String → (Action → Bool) → (Action → Action) → Tx ℕ
update_action action_id p f db =
    let selects = λ (a : Action). (a.id == action_id) && p a in
    (ok (rowcount selects db.actions), record db { actions = update_where selects f db.actions })

unfoldable pub transition_in : ℕ → String → ActionStatus → ℕ → Detail → Tx Action
unfolding get_in moved update_action
transition_in now action_id target expected_version detail = do
  found ← gets (get_in action_id)
  current ← or_raise action_not_found found
  raise_if (not (current.version =? expected_version)) action_version_conflict
  raise_if (not (action_can_transition_to current.status target)) invalid_action_transition
  rows ← update_action action_id (has_version expected_version) (moved target now detail)
  raise_if (not (rows =? 1)) action_version_conflict
  updated ← gets (get_in action_id)
  or_raise action_not_found updated
