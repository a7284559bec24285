-- ===== src/Trust/Model.antt =====
-- `Action` and `Approval` of core/src/weatherflow/trust/models.py
use weatherflow.Prelude.{ℕ, String, Bool, ◌||◌, ◌==◌, Option, none}
use weatherflow.Json.{Object}
use weatherflow.Events.Model.{Stamp}
use weatherflow.Capabilities.{ToolEffect}
use weatherflow.Trust.ActionStatus.{ActionStatus, proposed}
use weatherflow.Trust.ApprovalStatus.{ApprovalStatus, pending}

pub record Action : Type 0 where
  pub id : String
  pub run_id : String
  pub tool_id : String
  pub arguments : Object
  pub effect : ToolEffect
  pub status : ActionStatus
  pub idempotency_key : String
  pub preview : Object
  pub created_at : ℕ
  pub updated_at : ℕ
  pub version : ℕ
  pub result : Option Object
  pub error_class : Option String
  pub error_message : Option String

-- The run's id, the tool's id and the idempotency key have `min_length=1`: without one, `Action.new`
-- raises a ValidationError, which is a ValueError.
unfoldable pub lacks_text : String → String → String → Bool
lacks_text run_id tool_id idempotency_key =
    (run_id == "") || ((tool_id == "") || (idempotency_key == ""))

-- `Action.new`, where no text is lacking
unfoldable pub new_action : Stamp → String → String → Object → ToolEffect → String → Object → Action
new_action stamp run_id tool_id arguments effect idempotency_key preview = record {
  id = stamp.id;
  run_id = run_id;
  tool_id = tool_id;
  arguments = arguments;
  effect = effect;
  status = proposed;
  idempotency_key = idempotency_key;
  preview = preview;
  created_at = stamp.now;
  updated_at = stamp.now;
  version = 0;
  result = none;
  error_class = none;
  error_message = none;
}

pub record Approval : Type 0 where
  pub id : String
  pub action_id : String
  pub run_id : String
  pub status : ApprovalStatus
  pub requested_at : ℕ
  pub decided_at : Option ℕ
  pub decided_by : Option String
  pub rationale : Option String
  pub version : ℕ

-- `Approval.for_action`
unfoldable pub for_action : Stamp → Action → Approval
for_action stamp action = record {
  id = stamp.id;
  action_id = action.id;
  run_id = action.run_id;
  status = pending;
  requested_at = stamp.now;
  decided_at = none;
  decided_by = none;
  rationale = none;
  version = 0;
}
