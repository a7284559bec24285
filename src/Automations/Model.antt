-- ===== src/Automations/Model.antt =====
-- `Automation` and `AutomationRunLink` of core/src/weatherflow/automations/models.py. The text of
-- an instant, `isoformat`, is a parameter.
use Prim.Native.String.{◌++◌}
use weatherflow.Prelude.{
  ℕ, ◌-◌, String, Bool, not, ◌&&◌, Option, none, leb, if◌then◌else◌, text_length,
}
use weatherflow.Outcome.{Result, ok, err, value_error}
use weatherflow.Events.Model.{Stamp}
use weatherflow.Automations.Schedule.{Zones, ScheduleSpec, next_after}

pub data AutomationStatus : Type 0 where
  enabled paused : AutomationStatus

pub data TriggerKind : Type 0 where
  scheduled manual : TriggerKind

pub data RunLinkStatus : Type 0 where
  pending submitted failed : RunLinkStatus

pub record Automation : Type 0 where
  pub id : String
  pub workspace_id : String
  pub name : String
  pub prompt : String
  pub schedule : ScheduleSpec
  pub status : AutomationStatus
  pub next_run_at : Option ℕ
  pub last_run_at : Option ℕ
  pub version : ℕ
  pub created_at : ℕ
  pub updated_at : ℕ

-- The bounds of an automation's name and prompt.
unfoldable pub has_texts : String → String → Bool
has_texts name prompt =
    leb 1 (text_length name)
    && (leb (text_length name) 160
        && (leb 1 (text_length prompt) && leb (text_length prompt) 20_000))

-- `Automation.new`
unfoldable pub new_automation :
    Zones → Stamp → String → String → String → ScheduleSpec → Result Automation
unfolding has_texts
new_automation zones stamp workspace_id name prompt schedule =
    elim (next_after zones schedule (stamp.now - 1)) [
      | err e ↦ err e
      | ok next ↦
          if not (has_texts name prompt)
          then err value_error
          else ok (record {
            id = stamp.id;
            workspace_id = workspace_id;
            name = name;
            prompt = prompt;
            schedule = schedule;
            status = enabled;
            next_run_at = next;
            last_run_at = none;
            version = 0;
            created_at = stamp.now;
            updated_at = stamp.now;
          })
    ]

pub record AutomationRunLink : Type 0 where
  pub id : String
  pub automation_id : String
  pub workspace_id : String
  pub trigger : TriggerKind
  pub scheduled_for : ℕ
  pub client_request_id : String
  pub status : RunLinkStatus
  pub run_id : Option String
  pub error_code : Option String
  pub created_at : ℕ
  pub updated_at : ℕ

-- `AutomationRunLink.scheduled`
unfoldable pub scheduled_link : (ℕ → String) → Stamp → Automation → ℕ → AutomationRunLink
scheduled_link isoformat stamp automation scheduled_for = record {
  id = stamp.id;
  automation_id = automation.id;
  workspace_id = automation.workspace_id;
  trigger = scheduled;
  scheduled_for = scheduled_for;
  client_request_id = "automation:" ++ automation.id ++ ":scheduled:" ++ isoformat scheduled_for;
  status = pending;
  run_id = none;
  error_code = none;
  created_at = stamp.now;
  updated_at = stamp.now;
}

-- `AutomationRunLink.manual`
unfoldable pub manual_link : Stamp → Automation → AutomationRunLink
manual_link stamp automation = record {
  id = stamp.id;
  automation_id = automation.id;
  workspace_id = automation.workspace_id;
  trigger = manual;
  scheduled_for = stamp.now;
  client_request_id = "automation:" ++ automation.id ++ ":manual:" ++ stamp.id;
  status = pending;
  run_id = none;
  error_code = none;
  created_at = stamp.now;
  updated_at = stamp.now;
}
