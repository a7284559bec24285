-- ===== src/Runtime/Models.antt =====
-- The records of core/src/weatherflow/runtime/models.py, checkpoints.py and controls.py that are
-- stored.
use weatherflow.Prelude.{ℕ, String, ◌&&◌, Option, none, List, leb, if◌then◌else◌, text_length}
use weatherflow.Json.{Object}
use weatherflow.Outcome.{Result, ok, err, value_error}
use weatherflow.Events.Model.{Stamp}

pub data MessageRole : Type 0 where
  system user assistant tool : MessageRole

pub record AgentMessage : Type 0 where
  pub role : MessageRole
  pub content : String
  pub name : Option String
  pub tool_call_id : Option String

pub record RunCheckpoint : Type 0 where
  pub run_id : String
  pub version : ℕ
  pub step_index : ℕ
  pub transcript : List AgentMessage
  pub state : Object
  pub pending_action_id : Option String
  pub updated_at : ℕ

-- `RunCheckpoint.new`
unfoldable pub new_checkpoint : String → ℕ → List AgentMessage → Object → RunCheckpoint
new_checkpoint run_id now transcript state = record {
  run_id = run_id;
  version = 0;
  step_index = 0;
  transcript = transcript;
  state = state;
  pending_action_id = none;
  updated_at = now;
}

-- A row of `checkpoint_quarantine`.
pub record QuarantinedCheckpoint : Type 0 where
  pub run_id : String
  pub reason : String
  pub raw_payload : String
  pub payload_sha256 : String
  pub quarantined_at : ℕ

pub data RunControlKind : Type 0 where
  steer follow_up : RunControlKind

pub data RunControlStatus : Type 0 where
  pending applied : RunControlStatus

pub record RunControl : Type 0 where
  pub id : String
  pub run_id : String
  pub kind : RunControlKind
  pub content : String
  pub status : RunControlStatus
  pub created_at : ℕ
  pub applied_at : Option ℕ
  pub applied_step_index : Option ℕ

-- `RunControl.new`; `strip` is `str.strip`, which the model's configuration asks for. It is applied
-- to the ids too, which here have no space around them.
unfoldable pub new_control :
    (String → String) → Stamp → String → RunControlKind → String → Result RunControl
new_control strip stamp run_id kind content =
    if leb 1 (text_length (strip content)) && leb (text_length (strip content)) 20_000
    then ok (record {
      id = stamp.id;
      run_id = run_id;
      kind = kind;
      content = strip content;
      status = pending;
      created_at = stamp.now;
      applied_at = none;
      applied_step_index = none;
    })
    else err value_error
