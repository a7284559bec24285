-- ===== src/Automations/Repository.antt =====
-- `AutomationRepository` of core/src/weatherflow/automations/repository.py. An automation's columns
-- repeat fields of its `config`; the rows here are the automations.
use weatherflow.Prelude.{
  ℕ, String, Bool, true, false, not, ◌&&◌, ◌||◌, Option, none, some, List, ◌==◌, ◌=?◌, ltb, leb,
  if◌then◌else◌, is_some, take, text_lt, limit_out_of_range,
}
use weatherflow.Outcome.{Result, ok, err, value_error, integrity_error, automation_version_conflict}
use weatherflow.Table.{filter, rowcount, update_where, lookup, insert}
use weatherflow.Table.Order.{order_by}
use weatherflow.Database.{Db, Tx, raise_if, ◌>>=◌, transaction}
use weatherflow.Workspaces.{workspace_key}
use weatherflow.Automations.Model.{
  AutomationStatus, enabled, paused, RunLinkStatus, pending, Automation, AutomationRunLink,
}

abbrev pub automation_key : Automation → String
automation_key a = a.id

abbrev pub link_key : AutomationRunLink → String
link_key l = l.id

abbrev pub request_of : AutomationRunLink → String
request_of l = l.client_request_id

abbrev pub is_enabled : AutomationStatus → Bool
is_enabled enabled = true
is_enabled paused = false

abbrev pub is_pending : RunLinkStatus → Bool
is_pending pending = true
is_pending _ = false

-- `create`: the id is unique and the workspace exists, else ValueError.
unfoldable pub create : Automation → Tx (Unit {0})
create automation db =
    if is_some (lookup automation_key automation.id db.automations)
      || not (is_some (lookup workspace_key automation.workspace_id db.workspaces))
    then (err value_error, db)
    else (ok tt, record db { automations = insert automation db.automations })

unfoldable pub get : String → Db → Option Automation
get automation_id db = lookup automation_key automation_id db.automations

-- ORDER BY updated_at DESC, id DESC
newer : Automation → Automation → Bool
newer a b = ltb b.updated_at a.updated_at || ((a.updated_at =? b.updated_at) && text_lt b.id a.id)

abbrev pub has_status : Option AutomationStatus → AutomationStatus → Bool
has_status none status = true
has_status (some wanted) status =
    if is_enabled wanted then is_enabled status else not (is_enabled status)

-- `list`
unfoldable pub list_automations : String → Option AutomationStatus → Db → List Automation
unfolding newer
list_automations workspace_id status db =
    order_by newer
      (filter (λ a. (a.workspace_id == workspace_id) && has_status status a.status) db.automations)

abbrev pub is_due_at : ℕ → Option ℕ → Bool
is_due_at now none = false
is_due_at now (some t) = leb t now

unfoldable pub is_due : ℕ → Automation → Bool
is_due now a = is_enabled a.status && is_due_at now a.next_run_at

-- ORDER BY next_run_at, id
abbrev earlier_time : Option ℕ → Option ℕ → Bool
earlier_time (some s) (some t) = ltb s t
earlier_time none (some t) = true
earlier_time _ none = false

abbrev pub same_time : Option ℕ → Option ℕ → Bool
same_time (some s) (some t) = s =? t
same_time none none = true
same_time _ _ = false

unfoldable pub due_before : Automation → Automation → Bool
due_before a b =
    earlier_time a.next_run_at b.next_run_at
    || (same_time a.next_run_at b.next_run_at && text_lt a.id b.id)

unfoldable pub list_due : ℕ → ℕ → Db → Result (List Automation)
list_due now limit db =
    if limit_out_of_range limit
    then err value_error
    else ok (take limit (order_by due_before (filter (is_due now) db.automations)))

-- UPDATE automations SET f WHERE id = ? AND p, with its row count.
unfoldable pub update_automation : String → (Automation → Bool) → (Automation → Automation) → Tx ℕ
update_automation automation_id p f db =
    let selects = λ (a : Automation). (a.id == automation_id) && p a in
    (
      ok (rowcount selects db.automations),
      record db { automations = update_where selects f db.automations },
    )

abbrev pub has_version : ℕ → Automation → Bool
has_version expected a = a.version =? expected

-- What `update` writes: the whole `config`.
abbrev pub overwrite : Automation → Automation → Automation
overwrite automation row = automation

unfoldable pub update : Automation → ℕ → Tx (Unit {0})
unfolding update_automation
update automation expected_version = transaction do
  rows ← update_automation automation.id (has_version expected_version) (overwrite automation)
  raise_if (not (rows =? 1)) automation_version_conflict

-- ON DELETE CASCADE takes the automation's links with it.
unfoldable pub delete_automation : String → ℕ → Tx ℕ
delete_automation automation_id expected_version db =
    let selects = λ (a : Automation). (a.id == automation_id) && has_version expected_version a in
    let rows = rowcount selects db.automations in
    (
      ok rows,
      if rows =? 0 then db else record db {
        automations = filter (λ a. not (selects a)) db.automations;
        links = filter (λ l. not (l.automation_id == automation_id)) db.links;
      },
    )

unfoldable pub delete : String → ℕ → Tx (Unit {0})
unfolding delete_automation
delete automation_id expected_version = transaction do
  rows ← delete_automation automation_id expected_version
  raise_if (not (rows =? 1)) automation_version_conflict

-- `_insert_link`: the id and the request id are unique, the automation and the workspace exist.
unfoldable pub insert_link : AutomationRunLink → Tx (Unit {0})
insert_link link db =
    if is_some (lookup link_key link.id db.links)
      || (is_some (lookup request_of link.client_request_id db.links)
          || (not (is_some (lookup automation_key link.automation_id db.automations))
              || not (is_some (lookup workspace_key link.workspace_id db.workspaces))))
    then (err integrity_error, db)
    else (ok tt, record db { links = insert link db.links })
