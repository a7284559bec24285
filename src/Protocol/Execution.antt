-- ===== src/Protocol/Execution.antt =====
-- The execution of an action keeps an invariant that the statements commit, if what others write
-- while the tool runs keeps it.
use weatherflow.Prelude.{ℕ, String, refl, Option, none, some, inl, inr, Bool-cases}
use weatherflow.Json.{Object}
use weatherflow.Database.{Db}
use weatherflow.Database.Commits.{Commits, Commits-bind, Commits-pure}
use weatherflow.Database.Keeps.{
  Keeps, Keeps-pure, Keeps-raise, Keeps-raise_if, Keeps-if, Keeps-or_raise, Keeps-transaction,
  Keeps-bind,
}
use weatherflow.Events.Model.{new_event}
use weatherflow.Capabilities.{ToolSpec}
use weatherflow.Workspaces.{Workspace}
use weatherflow.Runs.History.{is_status_event}
use weatherflow.Trust.ActionStatus.{ActionStatus, action_status_eq}
use weatherflow.Trust.Model.{Action}
use weatherflow.Runtime.ActionExecution.{
  ToolOutcome, returned, cancelled, timed_out, public_error, definitive_error, other_error,
  ReviewReason, FinishStamps, ExecuteStamps, Executor, start_in, finish_in, review_in, review, fail,
  succeed, after_tool, call, run_approved, execute, recovered, recover_succeeded,
}
use weatherflow.Runtime.Validation.{SchemaLibrary, validate_tool_output}
use weatherflow.Protocol.{Statements}

module _ {P : Db → Type 0} (s : Statements P) where
  start_in-Commits :
      (stamps : FinishStamps) (tool : ToolSpec) (a : Action) → Commits P (start_in stamps tool a)
  unfolding start_in is_status_event new_event
  start_in-Commits stamps tool a =
      Commits-bind _ _ (s.move_action _ _ _ _ _ (λ e. cc))
        λ started. Commits-bind _ _ (s.append _ refl) λ _. Commits-pure _

  review_in-Commits :
      (stamps : FinishStamps) (a : Action) (reason : ReviewReason) (run_id : String) (v : ℕ)
      → Commits P (review_in stamps a reason run_id v)
  unfolding review_in is_status_event new_event
  review_in-Commits stamps a reason run_id v =
      Commits-bind _ _ (s.move_action _ _ _ _ _ (λ e. cc)) λ updated.
        Commits-bind _ _ (s.append _ refl)
          λ _. Commits-bind _ _ (s.move _ _ _ _ _ _) λ _. Commits-pure _

  review-Keeps :
      (stamps : FinishStamps) (a : Action) (reason : ReviewReason) (seen : Db)
      → Keeps P (review stamps a reason seen)
  unfolding review
  review-Keeps stamps a reason seen =
      Keeps-bind _ _ (Keeps-or_raise _ _)
        λ run. Keeps-bind _ _ (Keeps-transaction _ (review_in-Commits _ _ _ _ _)) λ _. Keeps-pure _

  fail-Keeps :
      (stamps : FinishStamps) (a : Action) (message : String) → Keeps P (fail stamps a message)
  unfolding fail finish_in is_status_event new_event
  fail-Keeps stamps a message =
      Keeps-bind _ _
        (Keeps-transaction _ (
          Commits-bind _ _ (s.move_action _ _ _ _ _ (λ e. cc))
            λ updated. Commits-bind _ _ (s.append _ refl) λ _. Commits-pure _))
        λ _. Keeps-pure _

  succeed-Keeps :
      (stamps : FinishStamps) (a : Action) (output : Object) → Keeps P (succeed stamps a output)
  unfolding succeed finish_in is_status_event new_event
  succeed-Keeps stamps a output =
      Keeps-bind _ _
        (Keeps-transaction _ (
          Commits-bind _ _ (s.move_action _ _ _ _ _ (λ e. cc))
            λ updated. Commits-bind _ _ (s.append _ refl) λ _. Commits-pure _))
        λ _. Keeps-pure _

  after_tool-Keeps :
      (lib : SchemaLibrary) (stamps : FinishStamps) (tool : ToolSpec) (a : Action) (seen : Db)
      (outcome : ToolOutcome)
      → Keeps P (after_tool lib stamps tool a seen outcome)
  unfolding after_tool
  after_tool-Keeps lib stamps tool a seen (returned output) =
      elim (Bool-cases (validate_tool_output lib tool.output_schema output).valid) [
        | inl valid ↦ rw valid (succeed-Keeps _ _ _)
        | inr invalid ↦ rw invalid (review-Keeps _ _ _ _)
      ]
  after_tool-Keeps lib stamps tool a seen cancelled =
      Keeps-bind _ _ (review-Keeps _ _ _ _) λ _. Keeps-raise _
  after_tool-Keeps lib stamps tool a seen timed_out = review-Keeps _ _ _ _
  after_tool-Keeps lib stamps tool a seen (public_error message) = fail-Keeps _ _ _
  after_tool-Keeps lib stamps tool a seen definitive_error = fail-Keeps _ _ _
  after_tool-Keeps lib stamps tool a seen other_error = review-Keeps _ _ _ _

  call-Keeps :
      (executor : Executor) (a : Action)
      → ((db : Db) → P db → P (executor a db).1)
      → Keeps P (call executor a)
  unfolding call
  call-Keeps executor a k = record { at = k }

  pub execute-Keeps :
      (lib : SchemaLibrary) (stamps : ExecuteStamps) (action_id : String) (tool : ToolSpec)
      (workspace : Workspace) (executor : Executor) (seen review_seen : Db)
      → ((a : Action) (db : Db) → P db → P (executor a db).1)
      → Keeps P (execute lib stamps action_id tool workspace executor seen review_seen)
  unfolding execute run_approved
  execute-Keeps lib stamps action_id tool workspace executor seen review_seen k =
      Keeps-bind _ _ (Keeps-or_raise _ _) λ a. Keeps-bind _ _ (Keeps-raise_if _ _) λ _.
        Keeps-bind _ _ (Keeps-raise_if _ _) λ _.
          Keeps-if (action_status_eq a.status ActionStatus.executing) _ _ (review-Keeps _ _ _ _) (
            Keeps-bind _ _ (Keeps-raise_if _ _) λ _.
              Keeps-bind _ _ (Keeps-transaction _ (start_in-Commits _ _ _)) λ started.
                Keeps-bind _ _ (call-Keeps executor a (k a))
                  λ outcome. after_tool-Keeps _ _ _ _ _ outcome)

  recovered-Keeps :
      (lib : SchemaLibrary) (stamps : FinishStamps) (tool : ToolSpec) (seen : Db) (a : Action)
      (output : Option Object)
      → Keeps P (recovered lib stamps tool seen a output)
  unfolding recovered
  recovered-Keeps lib stamps tool seen a none = review-Keeps _ _ _ _
  recovered-Keeps lib stamps tool seen a (some output) =
      elim (Bool-cases (validate_tool_output lib tool.output_schema output).valid) [
        | inl valid ↦ rw valid (Keeps-pure _)
        | inr invalid ↦ rw invalid (review-Keeps _ _ _ _)
      ]

  pub recover_succeeded-Keeps :
      (lib : SchemaLibrary) (stamps : FinishStamps) (action_id : String) (tool : ToolSpec)
      (workspace : Workspace) (seen review_seen : Db)
      → Keeps P (recover_succeeded lib stamps action_id tool workspace seen review_seen)
  unfolding recover_succeeded
  recover_succeeded-Keeps lib stamps action_id tool workspace seen review_seen =
      Keeps-bind _ _ (Keeps-or_raise _ _) λ a. Keeps-bind _ _ (Keeps-raise_if _ _) λ _.
        Keeps-bind _ _ (Keeps-raise_if _ _)
          λ _. Keeps-bind _ _ (Keeps-raise_if _ _) λ _. recovered-Keeps _ _ _ _ _ _
