-- ===== src/Runs/Attach.antt =====
-- What the two `attach_…_snapshot_in` methods of `RunRepository` leave behind.
use weatherflow.Prelude.{ℕ, ◌+◌, String, ◌≡◌, ◌&&◌, some, arith, ◌==◌, ◌=?◌}
use weatherflow.Outcome.{ok}
use weatherflow.Table.{update_where}
use weatherflow.Database.{Db, ◌>>=◌}
use weatherflow.Runs.Model.{Run}
use weatherflow.Runs.Repository.{
  unattached, attach_capability_snapshot_in, attach_rhythm_snapshot_in,
}

abbrev pub with_capability_snapshot : ℕ → String → Run → Run
with_capability_snapshot now snapshot_id r = record r {
  capability_snapshot_id = some snapshot_id;
  version = r.version + 1;
  updated_at = now;
}

abbrev pub with_rhythm_snapshot : ℕ → String → Run → Run
with_rhythm_snapshot now snapshot_id r = record r {
  rhythm_snapshot_id = some snapshot_id;
  version = r.version + 1;
  updated_at = now;
}

module _ (now : ℕ) (run_id snapshot_id : String) (v : ℕ) (db : Db) (r : Run) where
  pub after-attach_capability_snapshot_in :
      (attach_capability_snapshot_in now run_id snapshot_id v db).0 ≡ ok r
      → (attach_capability_snapshot_in now run_id snapshot_id v db).1 ≡ record db {
        runs =
            update_where
              (λ r. (r.id == run_id) && ((r.version =? v) && unattached r.capability_snapshot_id))
              (with_capability_snapshot now snapshot_id)
              db.runs;
      }
  unfolding attach_capability_snapshot_in ◌>>=◌
  after-attach_capability_snapshot_in e = ground arith

  pub after-attach_rhythm_snapshot_in :
      (attach_rhythm_snapshot_in now run_id snapshot_id v db).0 ≡ ok r
      → (attach_rhythm_snapshot_in now run_id snapshot_id v db).1 ≡ record db {
        runs =
            update_where
              (λ r. (r.id == run_id) && ((r.version =? v) && unattached r.rhythm_snapshot_id))
              (with_rhythm_snapshot now snapshot_id)
              db.runs;
      }
  unfolding attach_rhythm_snapshot_in ◌>>=◌
  after-attach_rhythm_snapshot_in e = ground arith
