-- ===== src/Runs/Model.antt =====
-- `RunBudget` and `Run` of core/src/weatherflow/runs/models.py; costs are micro-dollars.
use weatherflow.Prelude.{ℕ, String, Option, none, some}
use weatherflow.Events.Model.{Stamp}
use weatherflow.Runs.Status.{RunStatus, queued, ToolMode}

pub record RunBudget : Type 0 where
  pub max_steps : ℕ
  pub max_cost_usd : Option ℕ
  pub timeout_seconds : ℕ

abbrev pub default_budget : RunBudget
default_budget = record { max_steps = 20; max_cost_usd = none; timeout_seconds = 1800 }

pub record Run : Type 0 where
  pub id : String
  pub client_request_id : String
  pub user_intent : String
  pub workspace_id : String
  pub session_id : Option String
  pub tool_mode : ToolMode
  pub status : RunStatus
  pub version : ℕ
  pub created_at : ℕ
  pub updated_at : ℕ
  pub rhythm_snapshot_id : Option String
  pub capability_snapshot_id : Option String
  pub policy_profile : String
  pub budget : RunBudget
  pub checkpoint_ref : Option String
  pub result_summary : Option String
  pub error_class : Option String
  pub error_message : Option String

abbrev budget_or_default : Option RunBudget → RunBudget
budget_or_default none = default_budget
budget_or_default (some b) = b

-- `Run.new`
unfoldable pub new_run :
    Stamp → String → String → String → Option String → ToolMode → Option RunBudget → Run
new_run stamp client_request_id user_intent workspace_id session_id tool_mode budget = record {
  id = stamp.id;
  client_request_id = client_request_id;
  user_intent = user_intent;
  workspace_id = workspace_id;
  session_id = session_id;
  tool_mode = tool_mode;
  status = queued;
  version = 0;
  created_at = stamp.now;
  updated_at = stamp.now;
  rhythm_snapshot_id = none;
  capability_snapshot_id = none;
  policy_profile = "supervised";
  budget = budget_or_default budget;
  checkpoint_ref = none;
  result_summary = none;
  error_class = none;
  error_message = none;
}
