-- ===== src/Runs/Swap.antt =====
-- `RunRepository.transition_in` is a compare-and-swap of one row.
use weatherflow.Prelude.{
  ℕ, ◌+◌, String, ◌≡◌, refl, not, ◌&&◌, Option, none, some, arith, ◌==◌, eq_iff, eq_refl, ◌=?◌,
  if◌then◌else◌, inl, inr, Option-cases,
}
use weatherflow.Outcome.{Result, ok, err, run_not_found, run_version_conflict, invalid_transition}
use weatherflow.Table.{lookup, update_where, Unique}
use weatherflow.Table.Laws.{lookup-update_where, rowcount-Unique}
use weatherflow.Database.{◌>>=◌, Db}
use weatherflow.Database.Effect.{row_after, left_by}
use weatherflow.Runs.Status.{RunStatus, can_transition_to}
use weatherflow.Runs.Model.{Run}
use weatherflow.Runs.Repository.{Detail, run_key, get_in, moved, has_version, transition_in}

-- The checks of a transition on the row that it found, in order, and the row that it leaves.
unfoldable pub checked : ℕ → RunStatus → ℕ → Detail → Option Run → Result Run
checked now target expected_version detail none = err run_not_found
checked now target expected_version detail (some r) =
    if not (r.version =? expected_version)
    then err run_version_conflict
    else if not (can_transition_to r.status target)
    then err invalid_transition
    else ok (moved target now detail r)

module _ (now : ℕ) (run_id : String) (target : RunStatus) (expected_version : ℕ)
    (detail : Detail) where
  abbrev pub swapped : Db → Db
  swapped db = record db {
    runs =
        update_where (λ r. (r.id == run_id) && has_version expected_version r)
          (moved target now detail) db.runs;
  }

  -- What a transition returns and leaves.
  unfoldable pub after_checks : Db → Result Run → Result Run × Db
  after_checks db (ok r) = (ok r, swapped db)
  after_checks db (err e) = (err e, db)

  -- `transition_in` as its checks and one update.
  pub transition_in-swap :
      (db : Db)
      → Unique run_key db.runs
      → transition_in now run_id target expected_version detail db
        ≡ after_checks db (checked now target expected_version detail (get_in run_id db))
  unfolding ◌>>=◌ transition_in after_checks checked
  transition_in-swap db u = elim (Option-cases (lookup run_key run_id db.runs)) [
    | inl e ↦ rw e refl
    | inr (r, e) ↦ ground (
      arith,
      e,
      eq_refl run_id,
      rowcount-Unique run_key run_id (has_version expected_version) db.runs r u e,
      lookup-update_where run_key run_id run_id (has_version expected_version)
          (moved target now detail) db.runs (λ v. refl),
    )
  ]

  -- The rows after a transition that passed its checks.
  pub lookup-swapped :
      (db : Db) (r r' : Run) (j : String)
      → lookup run_key run_id db.runs ≡ some r
      → checked now target expected_version detail (some r) ≡ ok r'
      → lookup run_key j (swapped db).runs
        ≡ (if run_id == j then some r' else lookup run_key j db.runs)
  unfolding checked moved
  lookup-swapped db r r' j found passed = ground (
    arith,
    found,
    passed,
    eq_iff run_id j,
    lookup-update_where run_key run_id j (has_version expected_version) (moved target now detail)
        db.runs (λ v. refl),
  )

  -- The checks in order, and a run with the new status, the next version, the time and the details.
  abbrev pub transitioned : Option Run → Result Run
  transitioned none = err run_not_found
  transitioned (some r) =
      if not (r.version =? expected_version)
      then err run_version_conflict
      else if not (can_transition_to r.status target)
      then err invalid_transition
      else ok (record r {
        status = target;
        version = r.version + 1;
        updated_at = now;
        result_summary = detail.result_summary;
        error_class = detail.error_class;
        error_message = detail.error_message;
      })

  -- In a database with unique run ids, `RunRepository.transition_in` raises the error of the first
  -- check that fails, of the run's existence, its version and its status, and changes nothing.
  -- Otherwise it returns the run with the new status, the next version, the time and the details;
  -- that is the run's row then, the row of every other id is as it was, and no other table has
  -- changed.
  pub transition_in-eq :
      (db : Db) (j : String)
      → Unique run_key db.runs
      → let t = transition_in now run_id target expected_version detail db in
        let expected = transitioned (lookup run_key run_id db.runs) in
        (t.0 ≡ expected)
        × (lookup run_key j t.1.runs ≡ row_after expected run_id j (lookup run_key j db.runs))
        × (t.1 ≡ left_by expected db (record db { runs = t.1.runs }))
  unfolding get_in checked after_checks moved
  transition_in-eq db j u = elim (Option-cases (lookup run_key run_id db.runs)) [
    | inl e ↦ rw (transition_in-swap db u, e) (refl, refl, refl)
    | inr (r, e) ↦ ground (
      arith,
      e,
      eq_iff run_id j,
      transition_in-swap db u,
      lookup-update_where run_key run_id j (has_version expected_version) (moved target now detail)
          db.runs (λ v. refl),
    )
  ]
