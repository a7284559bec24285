-- ===== src/Runs/Repository.antt =====
-- `RunRepository` of core/src/weatherflow/runs/repository.py
use weatherflow.Prelude.{
  ℕ, ◌+◌, String, Bool, not, ◌&&◌, ◌||◌, Option, none, some, ◌==◌, ◌=?◌, if◌then◌else◌, is_some,
}
use weatherflow.Outcome.{
  ok, err, duplicate_run, run_not_found, run_version_conflict, invalid_transition,
}
use weatherflow.Table.{rowcount, update_where, lookup, insert}
use weatherflow.Database.{Db, Tx, gets, or_raise, raise_if, ◌>>=◌, ◌>>◌}
use weatherflow.Sessions.Repository.{session_key}
use weatherflow.Runs.Status.{RunStatus, can_transition_to}
use weatherflow.Runs.Model.{Run}

abbrev pub run_key : Run → String
run_key r = r.id

abbrev pub request_key : Run → String
request_key r = r.client_request_id

-- The session column references `conversation_sessions`.
session_missing : Option String → Db → Bool
session_missing none db = Bool.false
session_missing (some s) db = not (is_some (lookup session_key s db.sessions))

-- INSERT INTO runs: the id and the client's request id are unique.
unfoldable pub create_in : Run → Tx (Unit {0})
unfolding session_missing
create_in run db =
    if is_some (lookup run_key run.id db.runs)
      || (is_some (lookup request_key run.client_request_id db.runs)
          || session_missing run.session_id db)
    then (err duplicate_run, db)
    else (ok tt, record db { runs = insert run db.runs })

unfoldable pub get_in : String → Db → Option Run
get_in run_id db = lookup run_key run_id db.runs

unfoldable pub get_by_client_request_id_in : String → Db → Option Run
get_by_client_request_id_in value db = lookup request_key value db.runs

-- The optional fields that a transition writes.
pub record Detail : Type 0 where
  pub result_summary : Option String
  pub error_class : Option String
  pub error_message : Option String

abbrev pub no_detail : Detail
no_detail = record { result_summary = none; error_class = none; error_message = none }

unfoldable pub moved : RunStatus → ℕ → Detail → Run → Run
moved target updated_at detail r = record r {
  status = target;
  version = r.version + 1;
  updated_at = updated_at;
  result_summary = detail.result_summary;
  error_class = detail.error_class;
  error_message = detail.error_message;
}

-- UPDATE runs SET f WHERE id = ? AND p, with its row count.
update_run : String → (Run → Bool) → (Run → Run) → Tx ℕ
update_run run_id p f db =
    let selects = λ (r : Run). (r.id == run_id) && p r in
    (ok (rowcount selects db.runs), record db { runs = update_where selects f db.runs })

abbrev pub has_version : ℕ → Run → Bool
has_version expected r = r.version =? expected

unfoldable pub transition_in : ℕ → String → RunStatus → ℕ → Detail → Tx Run
unfolding get_in moved update_run
transition_in now run_id target expected_version detail = do
  found ← gets (get_in run_id)
  current ← or_raise run_not_found found
  raise_if (not (current.version =? expected_version)) run_version_conflict
  raise_if (not (can_transition_to current.status target)) invalid_transition
  rows ← update_run run_id (has_version expected_version) (moved target now detail)
  raise_if (not (rows =? 1)) run_version_conflict
  updated ← gets (get_in run_id)
  or_raise run_not_found updated

abbrev pub unattached : Option String → Bool
unattached none = Bool.true
unattached (some s) = Bool.false

unfoldable pub attach_capability_snapshot_in : ℕ → String → String → ℕ → Tx Run
unfolding get_in update_run
attach_capability_snapshot_in now run_id snapshot_id expected_version = do
  found ← gets (get_in run_id)
  current ← or_raise run_not_found found
  raise_if
      (not (current.version =? expected_version) || not (unattached current.capability_snapshot_id))
      run_version_conflict
  rows ←
      update_run run_id
        (λ r. (r.version =? expected_version) && unattached r.capability_snapshot_id)
        (λ r. record r {
          capability_snapshot_id = some snapshot_id;
          version = r.version + 1;
          updated_at = now;
        })
  raise_if (not (rows =? 1)) run_version_conflict
  updated ← gets (get_in run_id)
  or_raise run_not_found updated

unfoldable pub attach_rhythm_snapshot_in : ℕ → String → String → ℕ → Tx Run
unfolding get_in update_run
attach_rhythm_snapshot_in now run_id snapshot_id expected_version = do
  found ← gets (get_in run_id)
  current ← or_raise run_not_found found
  raise_if
      (not (current.version =? expected_version) || not (unattached current.rhythm_snapshot_id))
      run_version_conflict
  rows ←
      update_run run_id (λ r. (r.version =? expected_version) && unattached r.rhythm_snapshot_id)
        (λ r. record r {
          rhythm_snapshot_id = some snapshot_id;
          version = r.version + 1;
          updated_at = now;
        })
  raise_if (not (rows =? 1)) run_version_conflict
  updated ← gets (get_in run_id)
  or_raise run_not_found updated
