-- ===== src/Runtime/Checkpoints.antt =====
-- `RunCheckpointRepository` of core/src/weatherflow/runtime/repository.py. The rows are checkpoints;
-- the text of a row and its digest are parameters.
pub mod Swap
use weatherflow.Prelude.{
  ℕ, ◌+◌, String, Bool, true, false, not, ◌&&◌, Option, none, some, List, ◌==◌, ◌=?◌, if◌then◌else◌,
  is_some,
}
use weatherflow.Outcome.{
  Result, ok, err, lookup_error, integrity_error, duplicate_checkpoint, checkpoint_not_found,
  checkpoint_version_conflict,
}
use weatherflow.Table.{filter, rowcount, update_where, lookup, insert}
use weatherflow.Database.{Db, Tx, pure, gets, or_raise, raise_if, ◌>>=◌, ◌>>◌, transaction}
use weatherflow.Runs.Repository.{run_key}
use weatherflow.Runtime.Models.{RunCheckpoint, QuarantinedCheckpoint}

abbrev pub checkpoint_key : RunCheckpoint → String
checkpoint_key c = c.run_id

abbrev pub quarantine_key : QuarantinedCheckpoint → String
quarantine_key q = q.run_id

unfoldable pub create_in : RunCheckpoint → Tx (Unit {0})
create_in checkpoint db =
    if is_some (lookup checkpoint_key checkpoint.run_id db.checkpoints)
    then (err duplicate_checkpoint, db)
    else if is_some (lookup run_key checkpoint.run_id db.runs)
    then (ok tt, record db { checkpoints = insert checkpoint db.checkpoints })
    else (err integrity_error, db)

unfoldable pub get_in : String → Db → Option RunCheckpoint
get_in run_id db = lookup checkpoint_key run_id db.checkpoints

-- What `save_in` writes.
unfoldable pub saved : RunCheckpoint → ℕ → RunCheckpoint → RunCheckpoint
saved checkpoint now row = record row {
  version = row.version + 1;
  step_index = checkpoint.step_index;
  transcript = checkpoint.transcript;
  state = checkpoint.state;
  pending_action_id = checkpoint.pending_action_id;
  updated_at = now;
}

-- UPDATE checkpoints SET f WHERE run_id = ? AND version = ?, with its row count.
unfoldable pub update_checkpoint : String → ℕ → (RunCheckpoint → RunCheckpoint) → Tx ℕ
update_checkpoint run_id expected_version f db =
    let selects = λ (c : RunCheckpoint). (c.run_id == run_id) && (c.version =? expected_version) in
    (
      ok (rowcount selects db.checkpoints),
      record db { checkpoints = update_where selects f db.checkpoints },
    )

unfoldable pub save_in : ℕ → RunCheckpoint → ℕ → Tx RunCheckpoint
unfolding get_in saved update_checkpoint
save_in now checkpoint expected_version = do
  found ← gets (get_in checkpoint.run_id)
  current ← or_raise checkpoint_not_found found
  raise_if (not (current.version =? expected_version)) checkpoint_version_conflict
  rows ← update_checkpoint checkpoint.run_id expected_version (saved checkpoint now)
  raise_if (not (rows =? 1)) checkpoint_version_conflict
  updated ← gets (get_in checkpoint.run_id)
  or_raise checkpoint_not_found updated

-- INSERT INTO checkpoint_quarantine ... ON CONFLICT(run_id) DO NOTHING
unfoldable pub insert_quarantine : QuarantinedCheckpoint → Tx (Unit {0})
insert_quarantine q db =
    if is_some (lookup quarantine_key q.run_id db.quarantine)
    then (ok tt, db)
    else if is_some (lookup run_key q.run_id db.runs)
    then (ok tt, record db { quarantine = insert q db.quarantine })
    else (err integrity_error, db)

unfoldable pub delete_checkpoint : String → Tx (Unit {0})
delete_checkpoint run_id db =
    (ok tt, record db { checkpoints = filter (λ c. not (c.run_id == run_id)) db.checkpoints })

unfoldable pub quarantine :
    (RunCheckpoint → String) → (String → String) → ℕ → String → String → Tx String
unfolding get_in insert_quarantine delete_checkpoint
quarantine dump sha256 now run_id reason = transaction do
  found ← gets (get_in run_id)
  row ← or_raise lookup_error found
  insert_quarantine (record {
    run_id = run_id;
    reason = reason;
    raw_payload = dump row;
    payload_sha256 = sha256 (dump row);
    quarantined_at = now;
  })
  delete_checkpoint run_id
  pure (sha256 (dump row))
