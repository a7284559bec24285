-- ===== src/Runs/History/Calls.antt =====
-- Every change of a run is in the ledger: the replay follows `create_run` and `transition`.
use weatherflow.Prelude.{
  ℕ, String, ◌≡◌, Bool, Option, none, some, arith, eq_iff, inl, inr, Option-cases,
}
use weatherflow.Json.{get}
use weatherflow.Outcome.{ok, run_not_found, Result-cases}
use weatherflow.Table.{lookup, insert}
use weatherflow.Database.{Db, ◌>>=◌}
use weatherflow.Database.Commits.{Commits}
use weatherflow.Events.Model.{Stamp, new_event}
use weatherflow.Events.Ledger.{append_in}
use weatherflow.Table.Laws.{lookup-insert}
use weatherflow.Sessions.Repository.{touch_for_run_in, require_workspace_in}
use weatherflow.Runs.Status.{RunStatus}
use weatherflow.Runs.Model.{Run}
use weatherflow.Runs.Repository.{Detail, run_key, get_in, moved, create_in}
use weatherflow.Runs.Coordinator.{
  Request, status_changed, created_event, move_in, insert_run, check_session, touch_session,
}
use weatherflow.Runs.Swap.{checked, swapped, lookup-swapped}
use weatherflow.Runs.Moves.{cause, appended, move_in-err, move_in-ok}
use weatherflow.Runs.History.{
  replay, replay_event, replay_from-insert, status_text, IsLogged, IsHistory,
}
use weatherflow.Integrity.Coordinators.{move_in-HasKeys, insert_run-HasKeys}

module _ (now : ℕ) (stamp : Stamp) (run_id : String) (target : RunStatus) (expected_version : ℕ)
    (detail : Detail) (db : Db) (p : IsHistory db) (r r' : Run)
    (found : lookup run_key run_id db.runs ≡ some r)
    (passed : checked now target expected_version detail (some r) ≡ ok r') where
  -- The replay after the event that a status change appends.
  replay-status_changed :
      (cause_id : Option String) (j : String)
      → replay j
          (insert (status_changed stamp run_id cause_id r.status target r'.version) db.events)
        ≡ status_text (lookup run_key j (swapped now run_id target expected_version detail db).runs)
  unfolding replay_event status_changed new_event get checked moved
  replay-status_changed cause_id j = ground (
    arith,
    passed,
    eq_iff run_id j,
    p.logged.at j,
    replay_from-insert j none (status_changed stamp run_id cause_id r.status target r'.version)
        db.events,
    lookup-swapped now run_id target expected_version detail db r r' j found passed,
  )

module _ (now : ℕ) (stamp : Stamp) (run_id : String) (target : RunStatus) (v : ℕ)
    (detail : Detail) where
  move_in-IsLogged :
      (db : Db) (a : Run) (p : IsHistory db) (r r' : Run)
      → lookup run_key run_id db.runs ≡ some r
      → checked now target v detail (some r) ≡ ok r'
      → (move_in now stamp run_id target v detail db).0 ≡ ok a
      → IsLogged (move_in now stamp run_id target v detail db).1
  unfolding appended get_in
  move_in-IsLogged db a p r r' found passed e = record {
    at = λ j. ground (
      arith,
      e,
      move_in-ok now stamp run_id target v detail db p.keys.runs r r' found passed,
      replay-status_changed now stamp run_id target v detail db p r r' found passed
          (cause run_id db.events) j,
    );
  }

  pub move_in-IsHistory : Commits IsHistory (move_in now stamp run_id target v detail)
  unfolding get_in checked
  move_in-IsHistory = record {
    at = λ db a p e. record {
      keys = (move_in-HasKeys now stamp run_id target v detail).at db a p.keys e;
      logged = elim (Option-cases (lookup run_key run_id db.runs)) [
        | inl absent ↦ ground (
          arith,
          absent,
          e,
          move_in-err now stamp run_id target v detail db p.keys.runs run_not_found,
        )
        | inr (r, found) ↦ elim (Result-cases (checked now target v detail (some r))) [
          | inl (x, refused) ↦ ground (
            arith,
            found,
            refused,
            e,
            move_in-err now stamp run_id target v detail db p.keys.runs x,
          )
          | inr (r', passed) ↦ move_in-IsLogged db a p r r' found passed e
        ]
      ];
    };
  }

-- The new run is in the ledger.
replay-created_event :
    (db : Db) (stamp : Stamp) (q : Request) (run : Run) (j : String)
    → IsLogged db
    → lookup run_key run.id db.runs ≡ none
    → replay j (insert (created_event stamp q run) db.events)
      ≡ status_text (lookup run_key j (insert run db.runs))
unfolding replay_event created_event new_event get
replay-created_event db stamp q run j p absent = ground (
  arith,
  absent,
  p.at j,
  eq_iff run.id j,
  replay_from-insert j none (created_event stamp q run) db.events,
  lookup-insert run_key j run db.runs,
)

pub insert_run-IsHistory :
    (has_sessions : Bool) (stamp : Stamp) (q : Request) (run : Run)
    → Commits IsHistory (insert_run has_sessions stamp q run)
unfolding ◌>>=◌ insert_run check_session touch_session create_in touch_for_run_in append_in
    require_workspace_in
insert_run-IsHistory has_sessions stamp q run = record {
  at = λ db a p e. record {
    keys = (insert_run-HasKeys has_sessions stamp q run).at db a p.keys e;
    logged = record { at = λ j. ground (arith, e, replay-created_event db stamp q run j p.logged) };
  };
}
