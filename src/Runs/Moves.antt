-- ===== src/Runs/Moves.antt =====
-- What `RunCoordinator.transition_in` and `transition` do to the whole database.
use weatherflow.Prelude.{
  ℕ, ◌+◌, refl, eq_iff, String, ◌≡◌, not, ◌=?◌, Option, none, some, List, arith, if◌then◌else◌,
  is_some, get_last?, take, inl, inr, Option-cases,
}
use weatherflow.Outcome.{
  Error, Result, ok, err, duplicate_event, run_not_found, run_version_conflict, invalid_transition,
  Result-cases,
}
use weatherflow.Table.Laws.{lookup-update_where}
use weatherflow.Table.{lookup, filter, insert, Unique}
use weatherflow.Json.{text, num, field, end}
use weatherflow.Database.{◌>>=◌, Db, transaction}
use weatherflow.Database.Effect.{row_after, left_by}
use weatherflow.Events.Model.{Stamp, Event, new_event, system, normal, audit}
use weatherflow.Events.Ledger.{append_in, event_key, in_stream, ordered, list_stream_in-eq}
use weatherflow.Runs.Status.{RunStatus, value, can_transition_to}
use weatherflow.Runs.Model.{Run}
use weatherflow.Runs.Repository.{Detail, run_key, get_in, moved, has_version}
use weatherflow.Runs.Coordinator.{event_id, status_changed, move_in, move}
use weatherflow.Runs.Swap.{checked, swapped, after_checks, transitioned, transition_in-swap}

-- The event that a status change names as its cause: the last of the first hundred of the stream.
abbrev pub cause : String → List Event → Option String
cause run_id events =
    event_id (get_last? (take 100 (ordered (filter (in_stream "run" run_id) events))))

-- `append_in`, then the return of a value.
unfoldable pub appended : {A : Type 0} → Event → A → Db → Result A × Db
appended event a db =
    if is_some (lookup event_key event.id db.events)
    then (err duplicate_event, db)
    else (ok a, record db { events = insert event db.events })

module _ (now : ℕ) (stamp : Stamp) (run_id : String) (target : RunStatus) (expected_version : ℕ)
    (detail : Detail) (db : Db) (u : Unique run_key db.runs) where
  pub move_in-err :
      (e : Error)
      → checked now target expected_version detail (get_in run_id db) ≡ err e
      → move_in now stamp run_id target expected_version detail db ≡ (err e, db)
  unfolding ◌>>=◌ move_in after_checks checked
  move_in-err e h = elim (Option-cases (get_in run_id db)) [
    | inl absent ↦ ground (
      arith,
      absent,
      h,
      transition_in-swap now run_id target expected_version detail db u,
      list_stream_in-eq "run" run_id db.events,
    )
    | inr (r, found) ↦ ground (
      arith,
      found,
      h,
      transition_in-swap now run_id target expected_version detail db u,
      list_stream_in-eq "run" run_id db.events,
    )
  ]

  pub move_in-ok :
      (r r' : Run)
      → get_in run_id db ≡ some r
      → checked now target expected_version detail (some r) ≡ ok r'
      → move_in now stamp run_id target expected_version detail db
        ≡ appended
            (status_changed stamp run_id (cause run_id db.events) r.status target r'.version)
            r'
            (swapped now run_id target expected_version detail db)
  unfolding ◌>>=◌ move_in after_checks append_in appended
  move_in-ok r r' e h = ground (
    arith,
    e,
    h,
    transition_in-swap now run_id target expected_version detail db u,
    list_stream_in-eq "run" run_id db.events,
  )

-- What `transition` returns and leaves, check by check.
module _ (now : ℕ) (stamp : Stamp) (run_id : String) (target : RunStatus) (expected_version : ℕ)
    (detail : Detail) (db : Db) where
  recorded : Run → Run → Result Run × Db
  recorded r r' =
      if is_some (lookup event_key stamp.id db.events) then (err duplicate_event, db) else (
        ok r',
        record (swapped now run_id target expected_version detail db) {
          events =
              insert
                (status_changed stamp run_id (cause run_id db.events) r.status target r'.version)
                db.events;
        },
      )

  unfoldable pub move_outcome : Option Run → Result Run × Db
  unfolding recorded
  move_outcome none = (err run_not_found, db)
  move_outcome (some r) =
      if not (r.version =? expected_version)
      then (err run_version_conflict, db)
      else if not (can_transition_to r.status target)
      then (err invalid_transition, db)
      else recorded r (moved target now detail r)

  -- `transition` as its checks, one update and one insertion.
  pub move-swap :
      Unique run_key db.runs
      → move now stamp run_id target expected_version detail db ≡ move_outcome (get_in run_id db)
  unfolding move transaction move_outcome appended checked status_changed new_event
  move-swap u = elim (Option-cases (get_in run_id db)) [
    | inl absent ↦ ground (
      arith,
      absent,
      move_in-err now stamp run_id target expected_version detail db u run_not_found,
    )
    | inr (r, found) ↦ elim (Result-cases (checked now target expected_version detail (some r))) [
      | inl (e, refused) ↦ ground (
        arith,
        found,
        refused,
        move_in-err now stamp run_id target expected_version detail db u e,
      )
      | inr (r', passed) ↦ ground (
        arith,
        found,
        passed,
        move_in-ok now stamp run_id target expected_version detail db u r r',
      )
    ]
  ]

  -- The checks in order: those of the transition, then that the event's id is new.
  abbrev pub move_result : Option Run → Result Run
  move_result found = elim (transitioned now run_id target expected_version detail found) [
    | err e ↦ err e
    | ok r ↦ if is_some (lookup event_key stamp.id db.events) then err duplicate_event else ok r
  ]

  -- The events of a ledger and that of the change of a run.
  abbrev pub with_change : Option Run → List Event → List Event
  with_change none events = events
  with_change (some r) events =
      insert
        (record {
          id = stamp.id;
          type = "run.status_changed";
          recorded_at = stamp.now;
          actor = system;
          stream_kind = "run";
          stream_id = run_id;
          correlation_id = run_id;
          causation_id = cause run_id events;
          payload =
              field "from" (text (value r.status))
                (field "to" (text (value target)) (field "version" (num (r.version + 1)) end));
          sensitivity = normal;
          retention_class = audit;
        })
        events

  -- In a database with unique run ids, `transition` checks that the run exists, that its version
  -- is the expected one, that its status may change to the target and that the event's id is new;
  -- it raises the first check's error that fails and changes nothing. Otherwise it returns the run
  -- with the new status, the next version, the time and the details; that is the run's row then, the
  -- row of every other id is as it was, the ledger has one event more, of the run's status before
  -- and after and its new version, and no other table has changed.
  pub move-eq :
      (j : String)
      → Unique run_key db.runs
      → let t = move now stamp run_id target expected_version detail db in
        let found = lookup run_key run_id db.runs in
        let expected = move_result found in
        (t.0 ≡ expected)
        × (lookup run_key j t.1.runs ≡ row_after expected run_id j (lookup run_key j db.runs))
        × (t.1
            ≡ left_by expected db
                (record db { runs = t.1.runs; events = with_change found db.events }))
  unfolding move_outcome recorded moved get_in status_changed new_event
  move-eq j u = elim (Option-cases (lookup run_key run_id db.runs)) [
    | inl e ↦ rw (move-swap u, e) (refl, refl, refl)
    | inr (r, e) ↦ ground (
      arith,
      e,
      eq_iff run_id j,
      move-swap u,
      lookup-update_where run_key run_id j (has_version expected_version) (moved target now detail)
          db.runs (λ v. refl),
    )
  ]
