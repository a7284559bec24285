-- ===== src/Runtime/Safety.antt =====
-- When `ActionExecutionCoordinator.execute` calls a tool.
use weatherflow.Prelude.{
  String, ◌≡◌, ◌≢◌, refl, Bool, true, false, Option, none, some, arith, if◌then◌else◌, inl, inr,
  Option-cases,
}
use weatherflow.Outcome.{Error, ok, Result-cases}
use weatherflow.Table.{lookup, Unique}
use weatherflow.Table.Laws.{lookup-key}
use weatherflow.Database.{Db, Tx, or_raise, raise_if, transaction, ◌>>=◌, ◌>>◌}
use weatherflow.Capabilities.{ToolSpec}
use weatherflow.Workspaces.{Workspace}
use weatherflow.Trust.ActionStatus.{approved, executing, action_can_transition_to, action_status_eq}
use weatherflow.Trust.Model.{Action}
use weatherflow.Trust.Actions
use weatherflow.Trust.Actions.{action_key}
use weatherflow.Trust.Swap.{action_transition-swap, action_outcome}
use weatherflow.Runtime.ActionExecution.{
  ExecuteStamps, FinishStamps, Executor, start_in, run_approved, execute, review,
  recovered_executing,
}
use weatherflow.Runtime.Validation.{SchemaLibrary}

-- A transition to executing fails unless the action is approved.
executing_refused :
    (stamps : FinishStamps) (action r : Action) (db : Db)
    → Unique action_key db.actions
    → ((c : Action) → lookup action_key action.id db.actions ≡ some c → c.status ≢ approved)
    → (Actions.transition_in stamps.updated_at action.id executing action.version Actions.no_detail
        db).0
      ≢ ok r
unfolding action_outcome action_can_transition_to
executing_refused stamps action r db u refused e =
    let same =
      action_transition-swap stamps.updated_at action.id executing action.version Actions.no_detail
        db u in
    elim (Option-cases (lookup action_key action.id db.actions)) [
      | inl absent ↦ ground (arith, absent, same, e)
      | inr (c, found) ↦ refused c found (ground (arith, found, same, e))
    ]

run_approved-refused :
    (lib : SchemaLibrary) (stamps : ExecuteStamps) (tool : ToolSpec) (executor executor' : Executor)
    (seen db : Db) (action : Action)
    → Unique action_key db.actions
    → ((c : Action) → lookup action_key action.id db.actions ≡ some c → c.status ≢ approved)
    → run_approved lib stamps tool executor seen action db
      ≡ run_approved lib stamps tool executor' seen action db
unfolding ◌>>=◌ transaction start_in run_approved
run_approved-refused lib stamps tool executor executor' seen db action u refused =
    elim (Result-cases
      (Actions.transition_in stamps.start.updated_at action.id executing action.version
        Actions.no_detail db).0) [
          | inl (e, failed) ↦ rw failed refl
          | inr (r, moved) ↦ absurd (executing_refused stamps.start action r db u refused moved)
        ]

-- Two actions on the database return and leave the same there.
record AreSame {A : Type 0} (f g : Tx A) (db : Db) : Type 0 where
  at : f db ≡ g db

module _ {A : Type 0} where
  -- Behind a guard only what follows it matters.
  guard-AreSame :
      (b : Bool) (e : Error) (f g : Tx A) (db : Db)
      → AreSame f g db
      → AreSame (raise_if b e >> f) (raise_if b e >> g) db
  unfolding ◌>>=◌
  guard-AreSame true e f g db h = record { at = refl }
  guard-AreSame false e f g db h = h

  if-AreSame :
      (b : Bool) (m f g : Tx A) (db : Db)
      → AreSame f g db
      → AreSame (if b then m else f) (if b then m else g) db
  if-AreSame true m f g db h = record { at = refl }
  if-AreSame false m f g db h = h

  found-AreSame :
      {B : Type 0} (e : Error) (o : Option B) (f g : B → Tx A) (db : Db)
      → ((b : B) → o ≡ some b → AreSame (f b) (g b) db)
      → AreSame (or_raise e o >>= f) (or_raise e o >>= g) db
  unfolding ◌>>=◌
  found-AreSame e none f g db h = record { at = refl }
  found-AreSame e (some b) f g db h = h b refl

-- In a database with unique action ids, `execute` of an action that is not approved there returns
-- and leaves the same whatever the executor does, whatever was seen before.
pub execute-refused :
    (lib : SchemaLibrary) (stamps : ExecuteStamps) (action_id : String) (tool : ToolSpec)
    (workspace : Workspace) (executor executor' : Executor) (seen review_seen db : Db)
    → Unique action_key db.actions
    → ((c : Action) → lookup action_key action_id db.actions ≡ some c → c.status ≢ approved)
    → execute lib stamps action_id tool workspace executor seen review_seen db
      ≡ execute lib stamps action_id tool workspace executor' seen review_seen db
unfolding execute Actions.get_in
execute-refused lib stamps action_id tool workspace executor executor' seen review_seen db u
      refused =
    (found-AreSame _ _ _ _ db λ a found.
      let same = lookup-key action_key action_id seen.actions a found in
      let refused_a : (c : Action)
          → lookup action_key a.id db.actions ≡ some c
          → c.status ≢ approved =
        λ c h. refused c (ground (arith, same, h)) in
      guard-AreSame _ _ _ _ db (
        guard-AreSame _ _ _ _ db (
          if-AreSame (action_status_eq a.status executing)
            (review stamps.finish a recovered_executing review_seen) _ _ db
            (guard-AreSame _ _ _ _ db (record {
              at =
                  run_approved-refused lib stamps tool executor executor' review_seen db a u
                    refused_a;
            }))))).at
