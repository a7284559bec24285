-- ===== src/Runtime/Checkpoints/Swap.antt =====
-- What the operations of `RunCheckpointRepository` do to the checkpoints.
use weatherflow.Prelude.{
  ℕ, ◌+◌, eq_iff, String, not, ◌&&◌, Option, none, some, ◌≡◌, refl, inl, inr, arith, ◌==◌, ◌=?◌,
  eq_refl, if◌then◌else◌, is_some, List, [], ◌∷◌, Option-cases,
}
use weatherflow.Outcome.{Result, ok, err, checkpoint_not_found, checkpoint_version_conflict}
use weatherflow.Table.{filter, insert, lookup, update_where, Unique}
use weatherflow.Table.Laws.{
  rowcount-Unique, lookup-update_where, Unique-update_where, lookup-key, lookup-insert,
}
use weatherflow.Database.{Db, transaction, ◌>>=◌}
use weatherflow.Database.Effect.{row_after, left_by}
use weatherflow.Runtime.Models.{RunCheckpoint, QuarantinedCheckpoint}
use weatherflow.Runtime.Checkpoints.{
  checkpoint_key, quarantine_key, get_in, saved, update_checkpoint, save_in, insert_quarantine,
  delete_checkpoint, quarantine,
}

abbrev pub with_saved : ℕ → RunCheckpoint → ℕ → Db → Db
with_saved now checkpoint v db = record db {
  checkpoints =
      update_where (λ c. (c.run_id == checkpoint.run_id) && (c.version =? v)) (saved checkpoint now)
        db.checkpoints;
}

-- What `save_in` comes to: a compare-and-swap on the version.
unfoldable pub save_outcome :
    ℕ → RunCheckpoint → ℕ → Option RunCheckpoint → Db → Result RunCheckpoint × Db
unfolding saved
save_outcome now checkpoint v none db = (err checkpoint_not_found, db)
save_outcome now checkpoint v (some current) db =
    if current.version =? v
    then (ok (saved checkpoint now current), with_saved now checkpoint v db)
    else (err checkpoint_version_conflict, db)

-- `save_in` as its checks and one update.
pub save_in-swap :
    (now : ℕ) (checkpoint : RunCheckpoint) (v : ℕ) (db : Db)
    → Unique checkpoint_key db.checkpoints
    → save_in now checkpoint v db ≡ save_outcome now checkpoint v (get_in checkpoint.run_id db) db
unfolding ◌>>=◌ save_in save_outcome get_in update_checkpoint saved
save_in-swap now checkpoint v db unique =
    elim (Option-cases (lookup checkpoint_key checkpoint.run_id db.checkpoints)) [
      | inl absent ↦ ground (arith, absent)
      | inr (current, found) ↦
          let one =
            rowcount-Unique checkpoint_key checkpoint.run_id (λ c. c.version =? v) db.checkpoints
              current unique found in
          let moved =
            lookup-update_where checkpoint_key checkpoint.run_id checkpoint.run_id
              (λ c. c.version =? v) (saved checkpoint now) db.checkpoints (λ c. refl) in
          ground (arith, found, one, moved, eq_refl checkpoint.run_id)
    ]

-- The checks in order, and a row with the checkpoint's contents, the next version and the time.
abbrev pub save_result : ℕ → RunCheckpoint → ℕ → Option RunCheckpoint → Result RunCheckpoint
save_result now checkpoint v none = err checkpoint_not_found
save_result now checkpoint v (some current) =
    if current.version =? v
    then ok (record current {
      version = v + 1;
      step_index = checkpoint.step_index;
      transcript = checkpoint.transcript;
      state = checkpoint.state;
      pending_action_id = checkpoint.pending_action_id;
      updated_at = now;
    })
    else err checkpoint_version_conflict

-- In a database with at most one checkpoint of a run, `save_in` raises checkpoint_not_found or, on
-- another version, a conflict, and changes nothing. Otherwise it returns the run's row with the
-- contents of the checkpoint, the next version and the time; that is the run's row then, the row of
-- every other run is as it was, and no other table has changed.
pub save_in-eq :
    (now : ℕ) (checkpoint : RunCheckpoint) (v : ℕ) (db : Db) (j : String)
    → Unique checkpoint_key db.checkpoints
    → let t = save_in now checkpoint v db in
      let expected =
        save_result now checkpoint v (lookup checkpoint_key checkpoint.run_id db.checkpoints) in
      (t.0 ≡ expected)
      × (lookup checkpoint_key j t.1.checkpoints
          ≡ row_after expected checkpoint.run_id j (lookup checkpoint_key j db.checkpoints))
      × (t.1 ≡ left_by expected db (record db { checkpoints = t.1.checkpoints }))
unfolding save_outcome get_in saved
save_in-eq now checkpoint v db j u =
    elim (Option-cases (lookup checkpoint_key checkpoint.run_id db.checkpoints)) [
      | inl e ↦ rw (save_in-swap now checkpoint v db u, e) (refl, refl, refl)
      | inr (c, e) ↦ ground (
        arith,
        e,
        eq_iff checkpoint.run_id j,
        save_in-swap now checkpoint v db u,
        lookup-update_where checkpoint_key checkpoint.run_id j (λ c. c.version =? v)
            (saved checkpoint now) db.checkpoints (λ c. refl),
      )
    ]

-- A save that returned.
pub record IsSaved (now : ℕ) (checkpoint : RunCheckpoint) (v : ℕ) (db : Db) : Type 0 where
  pub current : RunCheckpoint
  pub same_run : current.run_id ≡ checkpoint.run_id
  pub version : current.version ≡ v
  pub whole :
      save_in now checkpoint v db
      ≡ (ok (saved checkpoint now current), with_saved now checkpoint v db)
  pub row :
      get_in checkpoint.run_id (with_saved now checkpoint v db)
      ≡ some (saved checkpoint now current)
  pub unique : Unique checkpoint_key (with_saved now checkpoint v db).checkpoints

pub save_in-IsSaved :
    (now : ℕ) (checkpoint done : RunCheckpoint) (v : ℕ) (db : Db)
    → Unique checkpoint_key db.checkpoints
    → (save_in now checkpoint v db).0 ≡ ok done
    → IsSaved now checkpoint v db
unfolding save_outcome get_in saved
save_in-IsSaved now checkpoint done v db unique returned =
    let swap = save_in-swap now checkpoint v db unique in
    elim (Option-cases (get_in checkpoint.run_id db)) [
      | inl absent ↦ absurd (ground (arith, swap, absent, returned))
      | inr (current, found) ↦
          let moved =
            lookup-update_where checkpoint_key checkpoint.run_id checkpoint.run_id
              (λ c. c.version =? v) (saved checkpoint now) db.checkpoints (λ c. refl) in
          record {
            current = current;
            same_run = lookup-key checkpoint_key checkpoint.run_id db.checkpoints current found;
            version = ground (arith, swap, found, returned);
            whole = ground (arith, swap, found, returned);
            row = ground (arith, swap, found, returned, moved, eq_refl checkpoint.run_id);
            unique =
                Unique-update_where checkpoint_key
                  (λ c. (c.run_id == checkpoint.run_id) && (c.version =? v)) (saved checkpoint now)
                  db.checkpoints (λ c. refl) unique;
          }
    ]

-- After a checkpoint has been saved from a version, the row is the one that was returned, with the
-- next version, and any save from the same version is refused and changes nothing.
pub save_in-once :
    (now later : ℕ) (checkpoint other done : RunCheckpoint) (v : ℕ) (db : Db)
    → Unique checkpoint_key db.checkpoints
    → other.run_id ≡ checkpoint.run_id
    → (save_in now checkpoint v db).0 ≡ ok done
    → (get_in checkpoint.run_id (save_in now checkpoint v db).1 ≡ some done)
      × (done.version ≡ v + 1)
      × (save_in later other v (save_in now checkpoint v db).1
          ≡ (err checkpoint_version_conflict, (save_in now checkpoint v db).1))
unfolding save_outcome saved
save_in-once now later checkpoint other done v db unique same returned =
    let first = save_in-IsSaved now checkpoint done v db unique returned in
    let second = save_in-swap later other v (with_saved now checkpoint v db) first.unique in
    ground (arith, first.whole, first.row, first.version, second, returned, same)

lookup-deleted :
    (run_id : String) (rows : List RunCheckpoint)
    → lookup checkpoint_key run_id (filter (λ c. not (c.run_id == run_id)) rows) ≡ none
unfolding lookup filter
lookup-deleted run_id [] = refl
lookup-deleted run_id (c ∷ rows) = ground (arith, lookup-deleted run_id rows)

-- What `quarantine` comes to.
abbrev pub set_aside :
    (RunCheckpoint → String)
    → (String → String)
    → ℕ
    → String
    → String
    → RunCheckpoint
    → QuarantinedCheckpoint
set_aside dump sha256 now run_id reason row = record {
  run_id = run_id;
  reason = reason;
  raw_payload = dump row;
  payload_sha256 = sha256 (dump row);
  quarantined_at = now;
}

abbrev pub quarantined :
    (RunCheckpoint → String) → (String → String) → ℕ → String → String → RunCheckpoint → Db → Db
quarantined dump sha256 now run_id reason row db = record db {
  quarantine =
      if is_some (lookup quarantine_key run_id db.quarantine)
      then db.quarantine
      else insert (set_aside dump sha256 now run_id reason row) db.quarantine;
  checkpoints = filter (λ c. not (c.run_id == run_id)) db.checkpoints;
}

quarantine-returned :
    (dump : RunCheckpoint → String) (sha256 : String → String) (now : ℕ) (run_id reason : String)
    (digest : String) (db : Db) (row : RunCheckpoint)
    → get_in run_id db ≡ some row
    → (quarantine dump sha256 now run_id reason db).0 ≡ ok digest
    → quarantine dump sha256 now run_id reason db
      ≡ (ok (sha256 (dump row)), quarantined dump sha256 now run_id reason row db)
unfolding ◌>>=◌ quarantine transaction insert_quarantine delete_checkpoint
quarantine-returned dump sha256 now run_id reason digest db row found =
    rw found (λ returned. ground (arith, returned))

-- A quarantine that returns takes the run's checkpoint away and keeps a row of the run aside: its
-- payload, or, if the run has been quarantined before, what was set aside then.
pub quarantine-first :
    (dump : RunCheckpoint → String) (sha256 : String → String) (now : ℕ) (run_id reason : String)
    (digest : String) (db : Db) (row : RunCheckpoint)
    → get_in run_id db ≡ some row
    → (quarantine dump sha256 now run_id reason db).0 ≡ ok digest
    → (digest ≡ sha256 (dump row))
      × (get_in run_id (quarantine dump sha256 now run_id reason db).1 ≡ none)
      × (lookup quarantine_key run_id (quarantine dump sha256 now run_id reason db).1.quarantine ≡ (
          if is_some (lookup quarantine_key run_id db.quarantine)
          then lookup quarantine_key run_id db.quarantine
          else some (set_aside dump sha256 now run_id reason row)))
unfolding get_in
quarantine-first dump sha256 now run_id reason digest db row found returned =
    let whole = quarantine-returned dump sha256 now run_id reason digest db row found returned in
    ground (
      arith,
      whole,
      returned,
      lookup-deleted run_id db.checkpoints,
      lookup-insert quarantine_key run_id (set_aside dump sha256 now run_id reason row)
          db.quarantine,
      eq_refl run_id,
    )
