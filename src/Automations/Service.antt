-- ===== src/Automations/Service.antt =====
-- `AutomationService` of core/src/weatherflow/automations/service.py. The submission of a run is a
-- parameter: it returns the run's id or raises. `seen` is the database at an
-- unlocked look. A call's readings of the clock are one `now`.
pub mod Settles
pub mod Recovery
use weatherflow.Prelude.{
  ℕ, ◌+◌, ◌-◌, String, Bool, true, false, not, Option, none, some, List, [], ◌∷◌, ◌++◌, ◌=?◌,
  if◌then◌else◌,
}
use weatherflow.Outcome.{
  Error, Result, ok, err, automation_not_found, automation_version_conflict, cancelled_error,
  value_error,
}
use weatherflow.Database.{Db, Tx, pure, raise, query, or_raise, raise_if, ◌>>=◌, ◌>>◌, attempt}
use weatherflow.Events.Model.{Stamp}
use weatherflow.Automations.Schedule.{Zones, ScheduleSpec, next_after}
use weatherflow.Automations.Model.{
  AutomationStatus, enabled, paused, Automation, AutomationRunLink, has_texts, new_automation,
}
use weatherflow.Automations.Repository
use weatherflow.Automations.Claims.{
  claim_scheduled, claim_manual, mark_submitted, mark_failed, list_pending,
}

-- `submit_run`, of the intent, the request id and the workspace.
abbrev pub Submitter : Type 0
Submitter = String → String → String → Tx String

unfoldable pub create : Zones → Stamp → String → String → String → ScheduleSpec → Tx Automation
create zones stamp workspace_id name prompt schedule = do
  automation ← query λ db. new_automation zones stamp workspace_id name prompt schedule
  Repository.create automation
  pure automation

-- `_required`
unfoldable pub required : String → Db → Tx Automation
required automation_id seen = or_raise automation_not_found (Repository.get automation_id seen)

abbrev pub or_keep {ℓ} : {A : Type ℓ} → Option A → A → A
or_keep none a = a
or_keep (some b) a = b

abbrev next_of : Zones → ℕ → Option ScheduleSpec → Option ℕ → Result (Option ℕ)
next_of zones now none next = ok next
next_of zones now (some schedule) next = next_after zones schedule (now - 1)

unfoldable pub update :
    Zones
    → ℕ
    → String
    → ℕ
    → Option String
    → Option String
    → Option ScheduleSpec
    → Db
    → Tx Automation
update zones now automation_id expected_version name prompt schedule seen = do
  current ← required automation_id seen
  raise_if (not (current.version =? expected_version)) automation_version_conflict
  next ← query λ db. next_of zones now schedule current.next_run_at
  let updated = record current {
    name = or_keep name current.name;
    prompt = or_keep prompt current.prompt;
    schedule = or_keep schedule current.schedule;
    next_run_at = next;
    version = current.version + 1;
    updated_at = now;
  }
  raise_if (not (has_texts updated.name updated.prompt)) value_error
  Repository.update updated expected_version
  pure updated

-- `_set_status`, which is `pause` and `resume`
unfoldable pub set_status : ℕ → String → ℕ → AutomationStatus → Db → Tx Automation
set_status now automation_id expected_version status seen = do
  current ← required automation_id seen
  raise_if (not (current.version =? expected_version)) automation_version_conflict
  let updated = record current { status = status; version = current.version + 1; updated_at = now }
  Repository.update updated expected_version
  pure updated

unfoldable pub pause : ℕ → String → ℕ → Db → Tx Automation
unfolding set_status
pause now automation_id expected_version seen =
    set_status now automation_id expected_version paused seen

unfoldable pub resume : ℕ → String → ℕ → Db → Tx Automation
unfolding set_status
resume now automation_id expected_version seen =
    set_status now automation_id expected_version enabled seen

unfoldable pub delete : String → ℕ → Db → Tx (Unit {0})
delete automation_id expected_version seen = do
  current ← required automation_id seen
  raise_if (not (current.version =? expected_version)) automation_version_conflict
  Repository.delete automation_id expected_version

-- What follows the submission; a cancellation passes through.
unfoldable pub settle_link : AutomationRunLink → ℕ → Result String → Tx AutomationRunLink
settle_link link now (ok run_id) = mark_submitted link.id run_id now
settle_link link now (err cancelled_error) = raise cancelled_error
settle_link link now (err e) = mark_failed link.id "submission_failed" now

-- `_submit`
unfoldable pub submit : Submitter → ℕ → AutomationRunLink → Db → Tx AutomationRunLink
submit submit_run now link seen = do
  automation ← required link.automation_id seen
  result ← attempt (submit_run automation.prompt link.client_request_id automation.workspace_id)
  settle_link link now result

-- The database as `_submit` sees it.
unfoldable pub submit_now : Submitter → ℕ → AutomationRunLink → Tx AutomationRunLink
submit_now submit_run now link db = submit submit_run now link db db

unfoldable pub run_now : Submitter → Stamp → ℕ → String → Tx AutomationRunLink
run_now submit_run stamp now automation_id = do
  link ← claim_manual stamp automation_id
  submit_now submit_run now link

unfoldable pub submit_all : Submitter → ℕ → List AutomationRunLink → Tx (List AutomationRunLink)
unfolding submit_now
submit_all submit_run now [] = pure []
submit_all submit_run now (link ∷ links) = do
  first ← submit_now submit_run now link
  rest ← submit_all submit_run now links
  pure (first ∷ rest)

unfoldable pub recover_pending : Submitter → ℕ → Tx (List AutomationRunLink)
unfolding submit_all
recover_pending submit_run now = do
  links ← query (list_pending 100)
  submit_all submit_run now links

abbrev pub submit_claim : Submitter → ℕ → Option AutomationRunLink → Tx (List AutomationRunLink)
submit_claim submit_run now none = pure []
submit_claim submit_run now (some link) = do
  submitted ← submit_now submit_run now link
  pure (submitted ∷ [])

-- The loop of `tick` over the automations that are due; `draw` gives each claim its link's id.
unfoldable pub claim_all :
    Zones
    → (ℕ → String)
    → Submitter
    → (Automation → String)
    → ℕ
    → List Automation
    → Tx (List AutomationRunLink)
claim_all zones isoformat submit_run draw now [] = pure []
claim_all zones isoformat submit_run draw now (automation ∷ due) = do
  claim ← claim_scheduled zones isoformat (record { id = draw automation; now = now }) automation.id
  first ← submit_claim submit_run now claim
  rest ← claim_all zones isoformat submit_run draw now due
  pure (first ++ rest)

unfoldable pub tick :
    Zones → (ℕ → String) → Submitter → (Automation → String) → ℕ → Tx (List AutomationRunLink)
unfolding claim_all recover_pending
tick zones isoformat submit_run draw now = do
  recovered ← recover_pending submit_run now
  due ← query (Repository.list_due now 100)
  started ← claim_all zones isoformat submit_run draw now due
  pure (recovered ++ started)
