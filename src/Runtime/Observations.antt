-- ===== src/Runtime/Observations.antt =====
-- `BoundedObservation` of core/src/weatherflow/runtime/outcomes.py, and `record_observation` of
-- core/src/weatherflow/runtime/turn_committer.py. `dumps` is the canonical JSON text of a dict.
pub mod Recorded
use weatherflow.Prelude.{
  ℕ, String, Bool, true, false, Option, none, some, List, [], ◌∷◌, ◌++◌, leb, if◌then◌else◌,
  text_length, text_take,
}
use weatherflow.Json.{Json, boolean, num, text, Object, end, field, pop, put}
use weatherflow.Database.{Db, Tx, pure, ◌>>=◌, ◌>>◌, transaction}
use weatherflow.Events.Model.{Stamp, Event, new_event, system}
use weatherflow.Events.Ledger.{append_in}
use weatherflow.Runtime.Models.{MessageRole, AgentMessage, RunCheckpoint}
use weatherflow.Runtime.Checkpoints.{save_in}

pub record BoundedObservation : Type 0 where
  pub output : Object
  pub truncated : Bool
  pub original_chars : ℕ

-- `from_output`
unfoldable pub from_output : (Object → String) → ℕ → Object → BoundedObservation
from_output dumps max_chars output =
    if leb (text_length (dumps output)) max_chars
    then record { output = output; truncated = false; original_chars = text_length (dumps output) }
    else record {
      output = field "preview" (text (text_take max_chars (dumps output))) end;
      truncated = true;
      original_chars = text_length (dumps output);
    }

-- The bound that `from_output` has by default.
abbrev pub max_chars : ℕ
max_chars = 8000

-- The turns that are observed: a tool's call, and a delegation to an agent.
pub data ObservedTurn : Type 0 where
  tool_call : Option String → String → ObservedTurn
  delegation : String → ObservedTurn

abbrev pub target : ObservedTurn → String
target (tool_call call_id tool_id) = tool_id
target (delegation agent_id) = agent_id

abbrev call_of : ObservedTurn → Option String
call_of (tool_call call_id tool_id) = call_id
call_of (delegation agent_id) = none

abbrev event_type : ObservedTurn → String
event_type (tool_call call_id tool_id) = "tool.executed"
event_type (delegation agent_id) = "worker.result_observed"

-- The checkpoint's state after an observation.
unfoldable pub observed_state : Bool → ℕ → Bool → Object → Object
observed_state clear_pending batch_next_index tool_free_next_turn state =
    let cleared =
      if clear_pending
      then pop "batch_next_index" (pop "pending_turn" state)
      else put "batch_next_index" (num batch_next_index) state in
    if tool_free_next_turn then put "tool_free_next_turn" (boolean true) cleared else cleared

unfoldable pub observation_message :
    (Object → String) → ObservedTurn → BoundedObservation → AgentMessage
observation_message dumps turn observation = record {
  role = MessageRole.tool;
  content = dumps observation.output;
  name = some (target turn);
  tool_call_id = call_of turn;
}

-- The checkpoint that `record_observation` saves.
unfoldable pub observed :
    (Object → String) → RunCheckpoint → ObservedTurn → Object → Bool → ℕ → Bool → RunCheckpoint
unfolding observed_state observation_message from_output
observed dumps checkpoint turn output clear_pending batch_next_index tool_free_next_turn =
    record checkpoint {
      transcript =
          checkpoint.transcript
          ++ observation_message dumps turn (from_output dumps max_chars output) ∷ [];
      state = observed_state clear_pending batch_next_index tool_free_next_turn checkpoint.state;
      pending_action_id = none;
    }

unfoldable pub observation_event : Stamp → RunCheckpoint → ObservedTurn → Bool → Event
unfolding new_event
observation_event stamp checkpoint turn truncated =
    new_event stamp (event_type turn) system "run" checkpoint.run_id checkpoint.run_id none
      (field "target" (text (target turn)) (field "truncated" (boolean truncated) end))

unfoldable pub record_observation :
    (Object → String)
    → ℕ
    → Stamp
    → RunCheckpoint
    → ObservedTurn
    → Object
    → Bool
    → ℕ
    → Bool
    → Tx RunCheckpoint
unfolding observed observation_event
record_observation dumps now stamp checkpoint turn output clear_pending batch_next_index
      tool_free_next_turn =
    transaction do
      saved ←
          save_in now
            (observed dumps checkpoint turn output clear_pending batch_next_index
              tool_free_next_turn)
            checkpoint.version
      append_in
          (observation_event stamp checkpoint turn (from_output dumps max_chars output).truncated)
      pure saved
