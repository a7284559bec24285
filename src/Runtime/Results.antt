-- ===== src/Runtime/Results.antt =====
-- The outcomes of `ActionExecutionCoordinator.execute` are those that the database has.
use weatherflow.Prelude.{String, ◌≡◌, refl, subst, ◌∙◌, Bool, some, arith, inl, inr, Bool-cases}
use weatherflow.Json.{Object}
use weatherflow.Outcome.{Error, ok}
use weatherflow.Table.{lookup}
use weatherflow.Database.{Db, ◌>>=◌, pure, raise_if}
use weatherflow.Database.Commits.{
  Commits, Commits-raise_if, commit_rules, Triple, Triple-bind, Triple-known, Triple-raise,
  Triple-if,
}
use weatherflow.Capabilities.{ToolSpec}
use weatherflow.Workspaces.{Workspace}
use weatherflow.Trust.ActionStatus.{ActionStatus, action_status_eq}
use weatherflow.Trust.Model.{Action}
use weatherflow.Trust.Actions.{Detail, action_key}
use weatherflow.Integrity.{HasKeys, key_rules}
use weatherflow.Runtime.ActionExecution.{
  ToolOutcome, returned, cancelled, timed_out, public_error, definitive_error, other_error,
  ReviewReason, ExecutionStatus, ExecutionOutcome, FinishStamps, ExecuteStamps, Executor, start_in,
  review, fail, succeed, after_tool, call, run_approved, execute,
}
use weatherflow.Runtime.Validation.{SchemaLibrary, validate_tool_output}
use weatherflow.Runtime.Outcomes.{
  IsStored, Triple-transaction, finish_in-IsStored, review_detail, review_in-IsStored,
}

-- The action's status of an outcome.
unfoldable pub stored_status : ExecutionStatus → ActionStatus
stored_status ExecutionStatus.succeeded = ActionStatus.succeeded
stored_status ExecutionStatus.failed = ActionStatus.failed
stored_status ExecutionStatus.needs_review = ActionStatus.needs_review

-- The outcome's action is the database's row, with the outcome's status, result and error.
pub record IsReported (o : ExecutionOutcome) (db : Db) : Type 0 where
  pub found : lookup action_key o.action.id db.actions ≡ some o.action
  pub status : o.action.status ≡ stored_status o.status
  pub result : o.action.result ≡ o.result
  pub error : o.action.error_message ≡ o.error

report :
    (target : ActionStatus) (detail : Detail) (o : ExecutionOutcome)
    → target ≡ stored_status o.status
    → detail.result ≡ o.result
    → detail.error_message ≡ o.error
    → Triple (IsStored target detail o.action) (pure o) IsReported
unfolding ◌>>=◌
report target detail o status result error = record {
  at = λ db o' p e.
      let same : o ≡ o' = ground (arith, e) in
      subst (λ (x : ExecutionOutcome). IsReported x db) same
        (record {
          found = p.found;
          status = p.status ∙ status;
          result = p.result ∙ result;
          error = p.message ∙ error;
        });
}

review-IsReported :
    (stamps : FinishStamps) (a : Action) (reason : ReviewReason) (seen : Db)
    → Triple HasKeys (review stamps a reason seen) IsReported
unfolding review review_detail stored_status
review-IsReported stamps a reason seen =
    Triple-bind {Q = λ _. HasKeys} {R = IsReported} _ _ (Triple-known _ _) λ run.
      Triple-bind {Q = IsStored ActionStatus.needs_review (review_detail reason)} {R = IsReported} _
        _ (Triple-transaction _ (review_in-IsStored _ _ _ _ _))
        λ updated. report ActionStatus.needs_review (review_detail reason) _ refl refl refl

fail-IsReported :
    (stamps : FinishStamps) (a : Action) (message : String)
    → Triple HasKeys (fail stamps a message) IsReported
unfolding fail stored_status
fail-IsReported stamps a message =
    Triple-bind {R = IsReported} _ _ (Triple-transaction _ (finish_in-IsStored _ _ _ _ _))
      λ updated. report _ _ _ refl refl refl

succeed-IsReported :
    (stamps : FinishStamps) (a : Action) (output : Object)
    → Triple HasKeys (succeed stamps a output) IsReported
unfolding succeed stored_status
succeed-IsReported stamps a output =
    Triple-bind {R = IsReported} _ _ (Triple-transaction _ (finish_in-IsStored _ _ _ _ _))
      λ updated. report _ _ _ refl refl refl

after_tool-IsReported :
    (lib : SchemaLibrary) (stamps : FinishStamps) (tool : ToolSpec) (a : Action) (seen : Db)
    (outcome : ToolOutcome)
    → Triple HasKeys (after_tool lib stamps tool a seen outcome) IsReported
unfolding after_tool
after_tool-IsReported lib stamps tool a seen (returned output) =
    elim (Bool-cases (validate_tool_output lib tool.output_schema output).valid) [
      | inl valid ↦ rw valid (succeed-IsReported _ _ _)
      | inr invalid ↦ rw invalid (review-IsReported _ _ _ _)
    ]
after_tool-IsReported lib stamps tool a seen cancelled =
    Triple-bind {Q = IsReported} {R = IsReported} _ _ (review-IsReported _ _ _ _)
      λ _. Triple-raise _
after_tool-IsReported lib stamps tool a seen timed_out = review-IsReported _ _ _ _
after_tool-IsReported lib stamps tool a seen (public_error message) = fail-IsReported _ _ _
after_tool-IsReported lib stamps tool a seen definitive_error = fail-IsReported _ _ _
after_tool-IsReported lib stamps tool a seen other_error = review-IsReported _ _ _ _

start_in-HasKeys :
    (stamps : FinishStamps) (tool : ToolSpec) (a : Action)
    → Commits HasKeys (start_in stamps tool a)
unfolding start_in
start_in-HasKeys stamps tool a = search (commit_rules, key_rules) depth 14

guarded : (b : Bool) (e : Error) → Triple HasKeys (raise_if b e) (λ _. HasKeys)
guarded b e = record { at = (Commits-raise_if b e).at }

module _ (executor : Executor)
    (keeps : (a : Action) (db : Db) → HasKeys db → HasKeys (executor a db).1) where
  call-HasKeys : (a : Action) → Triple HasKeys (call executor a) (λ _. HasKeys)
  unfolding call
  call-HasKeys a = record { at = λ db o k e. keeps a db k }

  run_approved-IsReported :
      (lib : SchemaLibrary) (stamps : ExecuteStamps) (tool : ToolSpec) (seen : Db) (a : Action)
      → Triple HasKeys (run_approved lib stamps tool executor seen a) IsReported
  unfolding run_approved
  run_approved-IsReported lib stamps tool seen a =
      Triple-bind {Q = λ _. HasKeys} {R = IsReported} _ _
        (Triple-transaction {Q = λ _. HasKeys} _ (record { at = (start_in-HasKeys _ _ _).at }))
        λ started.
          Triple-bind {Q = λ _. HasKeys} {R = IsReported} _ _ (call-HasKeys a)
            λ outcome. after_tool-IsReported _ _ _ _ _ outcome

  execute-Triple :
      (lib : SchemaLibrary) (stamps : ExecuteStamps) (action_id : String) (tool : ToolSpec)
      (workspace : Workspace) (seen review_seen : Db)
      → Triple HasKeys
          (execute lib stamps action_id tool workspace executor seen review_seen)
          IsReported
  unfolding execute
  execute-Triple lib stamps action_id tool workspace seen review_seen =
      Triple-bind {Q = λ _. HasKeys} {R = IsReported} _ _ (Triple-known _ _) λ a.
        Triple-bind {Q = λ _. HasKeys} {R = IsReported} _ _ (guarded _ _) λ _.
          Triple-bind {Q = λ _. HasKeys} {R = IsReported} _ _ (guarded _ _) λ _.
            Triple-if (action_status_eq a.status ActionStatus.executing) _ _
              (review-IsReported _ _ _ _)
              (Triple-bind {Q = λ _. HasKeys} {R = IsReported} _ _ (guarded _ _)
                λ _. run_approved-IsReported _ _ _ _ _)

-- If the executor keeps the keys unique and `execute` returns an outcome, then the outcome's action
-- is the one that the database has, and its status, result and error message are the outcome's.
pub execute-IsReported :
    (lib : SchemaLibrary) (stamps : ExecuteStamps) (action_id : String) (tool : ToolSpec)
    (workspace : Workspace) (executor : Executor) (seen review_seen db : Db) (o : ExecutionOutcome)
    → ((a : Action) (d : Db) → HasKeys d → HasKeys (executor a d).1)
    → HasKeys db
    → (execute lib stamps action_id tool workspace executor seen review_seen db).0 ≡ ok o
    → IsReported o (execute lib stamps action_id tool workspace executor seen review_seen db).1
execute-IsReported lib stamps action_id tool workspace executor seen review_seen db o keeps keys e =
    (execute-Triple executor keeps lib stamps action_id tool workspace seen review_seen).at db o
      keys e
