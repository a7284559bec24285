-- ===== src/Examples/Fixtures.antt =====
-- A run that asks for an approval, as a sequence of calls.
use weatherflow.Prelude.{ℕ, String, true, false, none, List, [], ◌∷◌}
use weatherflow.Json.{end, field, text}
use weatherflow.Database.{Db, empty}
use weatherflow.Events.Model.{Stamp}
use weatherflow.Capabilities.{ToolEffect, external_write, no_idempotency, available, ToolSpec}
use weatherflow.Workspaces.{offline, Workspace}
use weatherflow.Runs.Status.{RunStatus, planning, running, ask}
use weatherflow.Runs.Model.{default_budget, Run}
use weatherflow.Trust.ActionStatus.{ActionStatus}
use weatherflow.Trust.Model.{Action}
use weatherflow.Runs.Repository.{no_detail}
use weatherflow.Runs.Coordinator.{Request}
use weatherflow.Trust.Coordinator.{Proposal, ProposeStamps}
use weatherflow.Trust.Decisions.{ResolveStamps}
use weatherflow.Protocol.Trace.{
  Call, call_create_run, call_transition, call_propose, call_decide, perform, Reaches, idle,
  then_call,
}

abbrev pub stamp : String → ℕ → Stamp
stamp id now = record { id = id; now = now }

abbrev pub tool : ToolEffect → List String → ToolSpec
tool effect scopes = record {
  tool_id = "mail.send";
  description = "send a mail";
  input_schema = end;
  output_schema = end;
  effect = effect;
  required_scopes = scopes;
  idempotency = no_idempotency;
  timeout_seconds = 60;
  source = "mail";
  source_version = "1";
  health = available;
}

abbrev pub workspace : Workspace
workspace = record {
  id = "w";
  name = "work";
  action_roots = ("home" ∷ "work" ∷ []) ∷ [];
  internal_root = "home" ∷ "work" ∷ ".weatherflow" ∷ [];
  artifact_root = "home" ∷ "artifacts" ∷ [];
  granted_scopes = "mail" ∷ [];
  network_policy = offline;
  installed_packs = [];
  installed_skills = [];
  agent_definitions = [];
  extension_refs = [];
  default_budget = default_budget;
  policy_profile = "supervised";
  version = 0;
  created_at = 0;
  updated_at = 0;
}

abbrev pub request : Request
request = record {
  client_request_id = "q";
  user_intent = "send the report";
  workspace_id = "w";
  session_id = none;
  tool_mode = ask;
  budget = none;
}

abbrev pub proposal : Proposal
proposal = record {
  run_id = "r";
  tool = tool external_write ("mail" ∷ []);
  workspace = workspace;
  arguments = field "to" (text "team") end;
  idempotency_key = "r:1";
  preview = end;
}

abbrev pub propose_stamps : ProposeStamps
propose_stamps = record {
  action = stamp "a" 4;
  approval = stamp "p" 4;
  action_event = stamp "e4" 4;
  approval_event = stamp "e5" 4;
  run_event = stamp "e6" 4;
  updated_at = 4;
}

abbrev pub resolve_stamps : ResolveStamps
resolve_stamps = record {
  approval_updated_at = 5;
  action_updated_at = 5;
  event = stamp "e7" 5;
  run_updated_at = 5;
  run_event = stamp "e8" 5;
}

abbrev pub create : Call
create = call_create_run true (stamp "r" 1) (stamp "e1" 1) request empty

abbrev pub plan : Call
plan = call_transition 2 (stamp "e2" 2) "r" planning 0 no_detail

abbrev pub start : Call
start = call_transition 3 (stamp "e3" 3) "r" running 1 no_detail

abbrev pub created : Db
created = perform create empty

abbrev pub planned : Db
planned = perform plan created

abbrev pub started : Db
started = perform start planned

abbrev pub proposed : Db
proposed = perform (call_propose propose_stamps proposal 2 started) started

abbrev pub approve : Call
approve = call_decide resolve_stamps "p" 0 true "user" none proposed

abbrev pub approved : Db
approved = perform approve proposed

-- The other decision, and the first one after it.
abbrev pub deny : Call
deny = call_decide resolve_stamps "p" 0 false "user" none proposed

abbrev pub denied : Db
denied = perform deny proposed

abbrev pub cancel : Call
cancel = call_transition 4 (stamp "e4" 4) "r" RunStatus.cancelled 2 no_detail

abbrev pub cancelled : Db
cancelled = perform cancel started

abbrev pub restart : Call
restart = call_transition 5 (stamp "e5" 5) "r" running 3 no_detail

abbrev pub run : RunStatus → ℕ → ℕ → Run
run status version updated_at = record {
  id = "r";
  client_request_id = "q";
  user_intent = "send the report";
  workspace_id = "w";
  session_id = none;
  tool_mode = ask;
  status = status;
  version = version;
  created_at = 1;
  updated_at = updated_at;
  rhythm_snapshot_id = none;
  capability_snapshot_id = none;
  policy_profile = "supervised";
  budget = default_budget;
  checkpoint_ref = none;
  result_summary = none;
  error_class = none;
  error_message = none;
}

abbrev pub action : ActionStatus → ℕ → ℕ → Action
action status version updated_at = record {
  id = "a";
  run_id = "r";
  tool_id = "mail.send";
  arguments = field "to" (text "team") end;
  effect = external_write;
  status = status;
  idempotency_key = "r:1";
  preview = end;
  created_at = 4;
  updated_at = updated_at;
  version = version;
  result = none;
  error_class = none;
  error_message = none;
}

pub Reaches-started : Reaches empty started
Reaches-started = then_call start (then_call plan (then_call create idle))

pub Reaches-proposed : Reaches empty proposed
Reaches-proposed = then_call (call_propose propose_stamps proposal 2 started) Reaches-started

pub Reaches-approved : Reaches empty approved
Reaches-approved = then_call approve Reaches-proposed

pub Reaches-denied : Reaches empty denied
Reaches-denied = then_call deny Reaches-proposed

pub Reaches-cancelled : Reaches empty cancelled
Reaches-cancelled = then_call cancel Reaches-started
