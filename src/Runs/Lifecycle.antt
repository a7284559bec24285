-- ===== src/Runs/Lifecycle.antt =====
-- A run's status moves along TRANSITIONS of core/src/weatherflow/runs/models.py, whatever the
-- coordinators do.
pub mod Statements
use weatherflow.Prelude.{
  ℕ, ◌+◌, ◌≤◌, String, ◌≡◌, refl, sym, subst, Bool, true, false, Option, none, some, arith, ◌==◌,
  eq_iff, ◌=?◌, if◌then◌else◌, inl, inr, Bool-cases, Option-cases,
}
use weatherflow.Outcome.{ok, err, run_not_found, Result-cases}
use weatherflow.Table.{lookup, update_where}
use weatherflow.Table.Laws.{lookup-update_any}
use weatherflow.Database.{Db, Tx}
use weatherflow.Database.Commits.{Commits}
use weatherflow.Events.Model.{Stamp}
use weatherflow.Runs.Status.{RunStatus, queued, running, succeeded, can_transition_to, transitions}
use weatherflow.Runs.Model.{Run}
use weatherflow.Runs.Repository.{Detail, run_key, get_in, moved}
use weatherflow.Runs.Coordinator.{move_in}
use weatherflow.Runs.Swap.{checked, swapped, lookup-swapped}
use weatherflow.Runs.Moves.{appended, move_in-err, move_in-ok}
use weatherflow.Integrity.{HasKeys}
use weatherflow.Integrity.Coordinators.{move_in-HasKeys}

-- A sequence of allowed changes.
pub data RunPath (s : RunStatus) : RunStatus → Type 0 where
  here : RunPath s s
  step : {t u : RunStatus} → RunPath s t → can_transition_to t u ≡ true → RunPath s u

-- The run is still there, at a status that allowed changes reach from `s`, and its version has
-- not gone back.
pub record IsAfter (run_id : String) (s : RunStatus) (v : ℕ) (db : Db) : Type 0 where
  pub keys : HasKeys db
  pub run : Run
  pub found : lookup run_key run_id db.runs ≡ some run
  pub path : RunPath s run.status
  pub version : v ≤ run.version

module _ (run_id : String) (s : RunStatus) (v : ℕ) where
  -- Actions that leave the rows of the runs as they are.
  pub untouched-IsAfter :
      {A : Type 0} (m : Tx A)
      → Commits HasKeys m
      → ((db : Db) (a : A) → HasKeys db → (m db).0 ≡ ok a → (m db).1.runs ≡ db.runs)
      → Commits (IsAfter run_id s v) m
  untouched-IsAfter m k frame = record {
    at = λ db a p e. record {
      keys = k.at db a p.keys e;
      run = p.run;
      found = cc (frame db a p.keys e, p.found);
      path = p.path;
      version = p.version;
    };
  }

  -- Updates that keep the run's id and status and do not lower its version.
  pub update-IsAfter :
      (db after : Db) (p : Run → Bool) (f : Run → Run)
      → ((r : Run) → (f r).id ≡ r.id)
      → ((r : Run) → (f r).status ≡ r.status)
      → ((r : Run) → r.version ≤ (f r).version)
      → HasKeys after
      → after.runs ≡ update_where p f db.runs
      → IsAfter run_id s v db
      → IsAfter run_id s v after
  update-IsAfter db after p f same_id same_status newer keys same h = record {
    keys = keys;
    run = if p h.run then f h.run else h.run;
    found = ground (arith, same, h.found, lookup-update_any run_key run_id p f db.runs same_id);
    path = elim (Bool-cases (p h.run)) [
      | inl selected ↦ rw (selected, same_status h.run) h.path
      | inr other ↦ rw other h.path
    ];
    version = ground (arith, newer h.run, h.version);
  }

  module _ (now : ℕ) (stamp : Stamp) (moved_id : String) (target : RunStatus) (expected : ℕ)
      (detail : Detail) (db : Db) (a : Run) (p : IsAfter run_id s v db)
      (e : (move_in now stamp moved_id target expected detail db).0 ≡ ok a) where
    moved_row :
        (r r' : Run)
        → lookup run_key moved_id db.runs ≡ some r
        → checked now target expected detail (some r) ≡ ok r'
        → IsAfter run_id s v (move_in now stamp moved_id target expected detail db).1
    unfolding appended get_in checked moved
    moved_row r r' found passed =
        let at_id =
          lookup-swapped now moved_id target expected detail db r r' run_id found passed in
        let same =
          move_in-ok now stamp moved_id target expected detail db p.keys.runs r r' found passed in
        let keys = (move_in-HasKeys now stamp moved_id target expected detail).at db a p.keys e in
        elim (Bool-cases (moved_id == run_id)) [
          | inl this ↦
              let same_run : r ≡ p.run =
                ground (arith, this, eq_iff moved_id run_id, found, p.found) in
              let allowed : can_transition_to r.status target ≡ true = ground (arith, passed) in
              let status : target ≡ r'.status = ground (arith, passed) in
              record {
                keys = keys;
                run = r';
                found = ground (arith, this, e, same, at_id);
                path =
                    subst (RunPath s) status (
                      step (subst (λ (x : Run). RunPath s x.status) (sym same_run) p.path) allowed);
                version = ground (arith, passed, same_run, p.version);
              }
          | inr other ↦ record {
            keys = keys;
            run = p.run;
            found = ground (arith, other, e, same, at_id, p.found);
            path = p.path;
            version = p.version;
          }
        ]

    pub move_in-IsAfter :
        IsAfter run_id s v (move_in now stamp moved_id target expected detail db).1
    unfolding get_in checked
    move_in-IsAfter = elim (Option-cases (lookup run_key moved_id db.runs)) [
      | inl absent ↦ absurd (
          ground (
            arith,
            absent,
            e,
            move_in-err now stamp moved_id target expected detail db p.keys.runs run_not_found,
          ))
      | inr (r, found) ↦ elim (Result-cases (checked now target expected detail (some r))) [
        | inl (x, refused) ↦ absurd (
            ground (
              arith,
              found,
              refused,
              e,
              move_in-err now stamp moved_id target expected detail db p.keys.runs x,
            ))
        | inr (r', passed) ↦ moved_row r r' found passed
      ]
    ]
