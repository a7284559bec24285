-- ===== src/Runs/Idempotency.antt =====
-- `RunCoordinator.create_run` with a client request id that has been used.
use weatherflow.Prelude.{
  eq_iff, Bool-cases, String, ◌≡◌, refl, ◌∙◌, subst, ◌⊎◌, inl, inr, Bool, true, Option, none, some,
  arith, eq_refl, if◌then◌else◌, Option-cases,
}
use weatherflow.Outcome.{Result, ok, err, run_idempotency_conflict}
use weatherflow.Table.{lookup}
use weatherflow.Table.Laws.{lookup-insert}
use weatherflow.Database.{Db, settle, transaction, ◌>>=◌}
use weatherflow.Events.Model.{Stamp}
use weatherflow.Events.Ledger.{append_in}
use weatherflow.Sessions.Repository.{touch_for_run_in, require_workspace_in}
use weatherflow.Runs.Status.{ToolMode, ask, bypass, tool_mode_eq}
use weatherflow.Runs.Model.{Run, new_run}
use weatherflow.Runs.Repository.{request_key, create_in, get_by_client_request_id_in}
use weatherflow.Runs.Coordinator.{
  Request, session_eq, same_scope, existing_run, check_session, touch_session, insert_run,
  create_run,
}

-- The request's run, if it was for the same workspace, session and mode.
unfoldable pub replayed : Request → Run → Db → Result Run × Db
replayed q r db = (if same_scope r q then ok r else err run_idempotency_conflict, db)

existing_run-eq : (q : Request) (r : Run) (db : Db) → existing_run q r db ≡ replayed q r db
unfolding ◌>>=◌ existing_run replayed
existing_run-eq q r db = ground arith

settle-replayed : (q : Request) (r : Run) (db : Db) → settle db (replayed q r db) ≡ replayed q r db
unfolding replayed
settle-replayed q r db = ground arith

-- `create_run` with a request id that the database has a run for.
pub create_run-existing :
    (has_sessions : Bool) (run_stamp event_stamp : Stamp) (q : Request) (seen db : Db) (r : Run)
    → get_by_client_request_id_in q.client_request_id db ≡ some r
    → (get_by_client_request_id_in q.client_request_id seen ≡ none)
      ⊎ (get_by_client_request_id_in q.client_request_id seen ≡ some r)
    → create_run has_sessions run_stamp event_stamp q seen db ≡ replayed q r db
unfolding ◌>>=◌ create_run transaction
create_run-existing has_sessions run_stamp event_stamp q seen db r known (inl fresh) =
    rw (fresh, known, existing_run-eq q r db) (settle-replayed q r db)
create_run-existing has_sessions run_stamp event_stamp q seen db r known (inr seen_it) =
    rw seen_it (existing_run-eq q r db)

session_eq_refl : (s : Option String) → session_eq s s ≡ true
session_eq_refl none = refl
session_eq_refl (some s) = eq_refl s

tool_mode_eq_refl : (m : ToolMode) → tool_mode_eq m m ≡ true
tool_mode_eq_refl ask = refl
tool_mode_eq_refl bypass = refl

new_run-same_scope :
    (stamp : Stamp) (q : Request)
    → same_scope
        (new_run stamp q.client_request_id q.user_intent q.workspace_id q.session_id q.tool_mode
          q.budget)
        q
      ≡ true
unfolding same_scope new_run
new_run-same_scope stamp q =
    ground
      (arith, eq_refl q.workspace_id, session_eq_refl q.session_id, tool_mode_eq_refl q.tool_mode)

-- What `insert_run` returns is found by its request id.
insert_run-request :
    (has_sessions : Bool) (stamp : Stamp) (q : Request) (run r : Run) (db : Db)
    → (insert_run has_sessions stamp q run db).0 ≡ ok r
    → (r ≡ run)
      × (lookup request_key run.client_request_id (insert_run has_sessions stamp q run db).1.runs
          ≡ some run)
unfolding ◌>>=◌ insert_run check_session touch_session create_in touch_for_run_in append_in
    require_workspace_in
insert_run-request has_sessions stamp q run r db e = ground (
  arith,
  e,
  eq_refl run.client_request_id,
  lookup-insert request_key run.client_request_id run db.runs,
)

-- `seen` is what the database had, or was before the request's run was inserted.
abbrev pub IsEarlier : Request → Db → Db → Type 0
IsEarlier q seen db =
    (get_by_client_request_id_in q.client_request_id seen ≡ none)
    ⊎ (get_by_client_request_id_in q.client_request_id seen
        ≡ get_by_client_request_id_in q.client_request_id db)

-- A transaction that returns has committed.
settle-ok :
    {A : Type 0} (db : Db) (result : Result A × Db) (a : A)
    → (settle db result).0 ≡ ok a
    → (result.0 ≡ ok a) × ((settle db result).1 ≡ result.1)
settle-ok db (ok b, after) a e = (e, refl)
settle-ok db (err x, after) a e = cc

abbrev request_run : Stamp → Request → Run
request_run stamp q =
    new_run stamp q.client_request_id q.user_intent q.workspace_id q.session_id q.tool_mode q.budget

module _ (has_sessions : Bool) (run_stamp event_stamp : Stamp) (q : Request) (seen db : Db) where
  -- Both looks found no run.
  create_run-fresh :
      get_by_client_request_id_in q.client_request_id db ≡ none
      → get_by_client_request_id_in q.client_request_id seen ≡ none
      → create_run has_sessions run_stamp event_stamp q seen db
        ≡ settle db (insert_run has_sessions event_stamp q (request_run run_stamp q) db)
  unfolding ◌>>=◌ create_run transaction
  create_run-fresh absent fresh = rw (fresh, absent) refl

  -- The run that `create_run` returns is the request's, in the database that it leaves.
  Known : Run → Type 0
  Known r =
      (get_by_client_request_id_in q.client_request_id
          (create_run has_sessions run_stamp event_stamp q seen db).1
        ≡ some r)
      × (same_scope r q ≡ true)

  create_run-Known :
      (r : Run)
      → IsEarlier q seen db
      → (create_run has_sessions run_stamp event_stamp q seen db).0 ≡ ok r
      → Known r
  unfolding Known get_by_client_request_id_in replayed new_run
  create_run-Known r earlier e =
      elim (Option-cases (get_by_client_request_id_in q.client_request_id db)) [
        | inl absent ↦
            let same =
              create_run-fresh absent (elim earlier [ inl fresh ↦ fresh | inr s ↦ s ∙ absent ]) in
            let (inserted, left) =
              settle-ok db (insert_run has_sessions event_stamp q (request_run run_stamp q) db) r
                (subst (λ (x : Result Run × Db). x.0 ≡ ok r) same e) in
            let (is_new, found) =
              insert_run-request has_sessions event_stamp q (request_run run_stamp q) r db
                inserted in
            (
              ground (arith, same, left, is_new, found),
              ground (arith, is_new, new_run-same_scope run_stamp q),
            )
        | inr (r', known) ↦
            let same =
              create_run-existing has_sessions run_stamp event_stamp q seen db r' known
                (elim earlier [ inl fresh ↦ inl fresh | inr s ↦ inr (s ∙ known) ]) in
            (ground (arith, same, known, e), ground (arith, same, e))
      ]

-- After `create_run`, whose first look found what the database had or no run, returned a run, a
-- retry of the same request on the database that it left, with any ids and times and with such a
-- first look, returns the same run and changes nothing.
pub create_run-again :
    (has_sessions : Bool) (run_stamp event_stamp run_stamp' event_stamp' : Stamp) (q : Request)
    (seen seen' db : Db) (r : Run)
    → IsEarlier q seen db
    → (create_run has_sessions run_stamp event_stamp q seen db).0 ≡ ok r
    → IsEarlier q seen' (create_run has_sessions run_stamp event_stamp q seen db).1
    → create_run has_sessions run_stamp' event_stamp' q seen'
        (create_run has_sessions run_stamp event_stamp q seen db).1
      ≡ (ok r, (create_run has_sessions run_stamp event_stamp q seen db).1)
unfolding Known replayed
create_run-again has_sessions run_stamp event_stamp run_stamp' event_stamp' q seen seen' db r
      earlier e earlier' =
    let (known, same) = create_run-Known has_sessions run_stamp event_stamp q seen db r earlier e in
    create_run-existing has_sessions run_stamp' event_stamp' q seen' _ r known
      (elim earlier' [ inl fresh ↦ inl fresh | inr s ↦ inr (s ∙ known) ])
    ∙ rw same refl

session_eq-eq : (s t : Option String) → session_eq s t ≡ true → s ≡ t
session_eq-eq none none h = refl
session_eq-eq none (some t) h = cc
session_eq-eq (some s) none h = cc
session_eq-eq (some s) (some t) h = ground (arith, eq_iff s t, h)

tool_mode_eq-eq : (m n : ToolMode) → tool_mode_eq m n ≡ true → m ≡ n
tool_mode_eq-eq ask ask h = refl
tool_mode_eq-eq ask bypass h = cc
tool_mode_eq-eq bypass ask h = cc
tool_mode_eq-eq bypass bypass h = refl

-- The run is one for the workspace, the session and the mode of the request.
pub record IsFor (q : Request) (r : Run) : Type 0 where
  pub workspace : r.workspace_id ≡ q.workspace_id
  pub session : r.session_id ≡ q.session_id
  pub mode : r.tool_mode ≡ q.tool_mode

same_scope-IsFor : (q : Request) (r : Run) → same_scope r q ≡ true → IsFor q r
unfolding same_scope
same_scope-IsFor q r h = record {
  workspace = ground (arith, h, eq_iff r.workspace_id q.workspace_id);
  session = session_eq-eq r.session_id q.session_id (ground (arith, h));
  mode = tool_mode_eq-eq r.tool_mode q.tool_mode (ground (arith, h));
}

IsFor-same_scope : (q : Request) (r : Run) → IsFor q r → same_scope r q ≡ true
unfolding same_scope
IsFor-same_scope q r h =
    rw (h.workspace, h.session, h.mode)
      (ground (
        arith,
        eq_refl q.workspace_id,
        session_eq_refl q.session_id,
        tool_mode_eq_refl q.tool_mode,
      ))

-- With a request id that the database has a run for, seen before the transaction or not,
-- `create_run` changes nothing; it returns that run if the run has the request's workspace, session
-- and tool mode, and raises a conflict if one of the three is another.
pub create_run-replayed :
    (has_sessions : Bool) (run_stamp event_stamp : Stamp) (q : Request) (seen db : Db) (r : Run)
    → get_by_client_request_id_in q.client_request_id db ≡ some r
    → (get_by_client_request_id_in q.client_request_id seen ≡ none)
      ⊎ (get_by_client_request_id_in q.client_request_id seen ≡ some r)
    → (IsFor q r × (create_run has_sessions run_stamp event_stamp q seen db ≡ (ok r, db)))
      ⊎ (¬ (IsFor q r)
          × (create_run has_sessions run_stamp event_stamp q seen db
              ≡ (err run_idempotency_conflict, db)))
unfolding replayed
create_run-replayed has_sessions run_stamp event_stamp q seen db r known earlier =
    let same = create_run-existing has_sessions run_stamp event_stamp q seen db r known earlier in
    elim (Bool-cases (same_scope r q)) [
      | inl own ↦ inl (same_scope-IsFor q r own, same ∙ rw own refl)
      | inr other ↦ inr (λ h. let own = IsFor-same_scope q r h in cc, same ∙ rw other refl)
    ]
