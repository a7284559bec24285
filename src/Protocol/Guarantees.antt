-- ===== src/Protocol/Guarantees.antt =====
-- What holds in every database that the coordinators' calls reach.
use weatherflow.Prelude.{String, ◌≡◌, refl, sym, Bool, true, false, some, arith}
use weatherflow.Table.{lookup}
use weatherflow.Database.{Db, empty}
use weatherflow.Runs.Status.{RunStatus, transitions, can_transition_to}
use weatherflow.Runs.Model.{Run}
use weatherflow.Runs.Repository.{run_key}
use weatherflow.Runs.History.{replay, replay_from, status_text, IsHistory}
use weatherflow.Runs.History.Statements.{IsHistory-Statements}
use weatherflow.Runs.Lifecycle.{RunPath, here, step, IsAfter}
use weatherflow.Runs.Lifecycle.Statements.{IsAfter-Statements}
use weatherflow.Trust.ActionStatus.{ActionStatus, action_can_transition_to}
use weatherflow.Trust.Model.{Action}
use weatherflow.Trust.Actions.{action_key}
use weatherflow.Trust.Authorization.{is_started, HasAuthority, IsAuthorized}
use weatherflow.Trust.Authorization.Statements.{IsAuthorized-Statements}
use weatherflow.Trust.Lifecycle.{ActionPath, IsContinued}
use weatherflow.Trust.Lifecycle.Statements.{IsContinued-Statements}
use weatherflow.Integrity.{HasKeys, empty-HasKeys}
use weatherflow.Integrity.Statements.{HasKeys-Statements}
use weatherflow.Protocol.Trace.{Reaches, Reaches-P}

empty-IsHistory : IsHistory empty
unfolding replay_from lookup
empty-IsHistory = record { keys = empty-HasKeys; logged = record { at = λ run_id. refl } }

empty-IsAuthorized : IsAuthorized empty
unfolding lookup
empty-IsAuthorized = record { keys = empty-HasKeys; at = λ action_id a found started. cc }

-- In every database that calls reach from the empty one, each primary key and unique column of the
-- events, sessions, runs, actions and approvals holds pairwise different values.
pub reached-HasKeys : (db : Db) → Reaches empty db → HasKeys db
reached-HasKeys db r = Reaches-P HasKeys-Statements r empty-HasKeys

-- In every database that calls reach from the empty one, replaying the event ledger gives each
-- run's status, and none for an id that no run has.
pub reached-replay :
    (db : Db) (run_id : String)
    → Reaches empty db
    → replay run_id db.events ≡ status_text (lookup run_key run_id db.runs)
reached-replay db run_id r = (Reaches-P IsHistory-Statements r empty-IsHistory).logged.at run_id

-- In every database that calls reach from the empty one, an action that is approved, executing,
-- succeeded, failed or needs a review either has an effect that the policy sandboxes, or there is
-- an approval of it whose status is approved.
pub reached-HasAuthority :
    (db : Db) (action_id : String) (a : Action)
    → Reaches empty db
    → lookup action_key action_id db.actions ≡ some a
    → is_started a.status ≡ true
    → HasAuthority db a
reached-HasAuthority db action_id a r found started =
    (Reaches-P IsAuthorized-Statements r empty-IsAuthorized).at action_id a found started

-- Whatever calls follow, a run that a database with unique keys has is still there: allowed changes
-- lead from its status to the later one, and its version has not gone back.
pub Reaches-IsAfter :
    (a b : Db) (run_id : String) (r : Run)
    → HasKeys a
    → lookup run_key run_id a.runs ≡ some r
    → Reaches a b
    → IsAfter run_id r.status r.version b
Reaches-IsAfter a b run_id r keys found calls =
    Reaches-P (IsAfter-Statements run_id r.status r.version) calls
      (record { keys = keys; run = r; found = found; path = here; version = omega arith })

-- The statuses of a run that is over.
unfoldable pub is_over : RunStatus → Bool
is_over RunStatus.succeeded = true
is_over RunStatus.failed = true
is_over RunStatus.cancelled = true
is_over _ = false

RunPath-is_over : {s t : RunStatus} → is_over s ≡ true → RunPath s t → s ≡ t
unfolding is_over can_transition_to transitions
RunPath-is_over over here = refl
RunPath-is_over {s} over (step {t} {u} before allowed) =
    let same : s ≡ t = RunPath-is_over over before in absurd (ground (arith, same, over, allowed))

-- A run of a database with unique keys that has succeeded, failed or been cancelled is still there,
-- in the same status, whatever calls follow.
pub Reaches-final :
    (a b : Db) (run_id : String) (r : Run)
    → HasKeys a
    → lookup run_key run_id a.runs ≡ some r
    → is_over r.status ≡ true
    → Reaches a b
    → (later : Run) × (lookup run_key run_id b.runs ≡ some later) × (later.status ≡ r.status)
Reaches-final a b run_id r keys found over calls =
    let after = Reaches-IsAfter a b run_id r keys found calls in
    (after.run, after.found, sym (RunPath-is_over over after.path))

-- Whatever calls follow, an action that a database with unique keys has is still there, for the
-- same run, tool, arguments, effect and idempotency key, at a status that allowed changes reach,
-- and its version has not gone back.
pub Reaches-IsContinued :
    (a b : Db) (start : Action)
    → HasKeys a
    → lookup action_key start.id a.actions ≡ some start
    → Reaches a b
    → IsContinued start b
Reaches-IsContinued a b start keys found calls =
    Reaches-P (IsContinued-Statements start) calls (record {
      keys = keys;
      action = start;
      found = found;
      call = record {
        run_id = refl;
        tool_id = refl;
        arguments = refl;
        effect = refl;
        idempotency_key = refl;
      };
      path = ActionPath.here;
      version = omega arith;
    })

-- The statuses of an action whose tool has been called, or that has been refused.
unfoldable pub is_closed : ActionStatus → Bool
is_closed ActionStatus.proposed = false
is_closed ActionStatus.approved = false
is_closed _ = true

ActionPath-is_closed :
    {s t : ActionStatus} → is_closed s ≡ true → ActionPath s t → is_closed t ≡ true
unfolding is_closed action_can_transition_to
ActionPath-is_closed closed ActionPath.here = closed
ActionPath-is_closed closed (ActionPath.step before allowed) =
    let earlier = ActionPath-is_closed closed before in ground (arith, earlier, allowed)

-- An action of a database with unique keys that has left proposed and approved is in neither again,
-- whatever calls follow.
pub Reaches-is_closed :
    (a b : Db) (start later : Action)
    → HasKeys a
    → lookup action_key start.id a.actions ≡ some start
    → is_closed start.status ≡ true
    → Reaches a b
    → lookup action_key start.id b.actions ≡ some later
    → is_closed later.status ≡ true
Reaches-is_closed a b start later keys found closed calls found_later =
    let after = Reaches-IsContinued a b start keys found calls in
    ground (arith, found_later, after.found, ActionPath-is_closed closed after.path)
