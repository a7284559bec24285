-- ===== src/Automations/Claims.antt =====
-- The claims and run links of `AutomationRepository`,
-- core/src/weatherflow/automations/repository.py.
pub mod Once
pub mod Effect
pub mod Finish
use weatherflow.Prelude.{
  ℕ, ◌+◌, String, Bool, true, false, not, ◌&&◌, ◌||◌, Option, none, some, List, ◌==◌, ◌=?◌, ltb,
  if◌then◌else◌, take, text_lt, limit_out_of_range,
}
use weatherflow.Outcome.{
  Result, ok, err, value_error, lookup_error, runtime_error, integrity_error, automation_not_found,
  automation_version_conflict,
}
use weatherflow.Table.{filter, rowcount, update_where, lookup}
use weatherflow.Table.Order.{order_by}
use weatherflow.Database.{
  Db, Tx, pure, raise, gets, query, or_raise, raise_if, ◌>>=◌, ◌>>◌, transaction,
}
use weatherflow.Events.Model.{Stamp}
use weatherflow.Runs.Repository.{run_key}
use weatherflow.Automations.Schedule.{Zones, next_after}
use weatherflow.Automations.Model.{
  RunLinkStatus, pending, submitted, failed, Automation, AutomationRunLink, scheduled_link,
  manual_link,
}
use weatherflow.Automations.Repository.{
  link_key, get, is_enabled, is_pending, is_due, has_version, same_time, update_automation,
  insert_link,
}

-- The changes of a claim.
unfoldable pub claimed : Option ℕ → ℕ → Automation → Automation
claimed next now a = record a {
  next_run_at = next;
  last_run_at = some now;
  version = a.version + 1;
  updated_at = now;
}

unfoldable pub claimed_manually : ℕ → Automation → Automation
claimed_manually now a = record a {
  last_run_at = some now;
  version = a.version + 1;
  updated_at = now;
}

-- The rest of `claim_scheduled`, for an automation that is due.
unfoldable pub claim_due :
    Zones → (ℕ → String) → Stamp → Automation → ℕ → Tx (Option AutomationRunLink)
claim_due zones isoformat stamp automation scheduled_for = do
  let link = scheduled_link isoformat stamp automation scheduled_for
  next ← query λ db. next_after zones automation.schedule stamp.now
  rows ←
      update_automation automation.id
        (λ a.
          has_version automation.version a
          && (same_time a.next_run_at (some scheduled_for) && is_enabled a.status))
        (claimed next stamp.now)
  if not (rows =? 1) then pure none else do insert_link link; pure (some link)

abbrev pub when_due :
    ℕ → Automation → Option ℕ → (ℕ → Tx (Option AutomationRunLink)) → Tx (Option AutomationRunLink)
when_due now automation none claim = pure none
when_due now automation (some scheduled_for) claim =
    if is_due now automation then claim scheduled_for else pure none

abbrev pub claim_found :
    Zones → (ℕ → String) → Stamp → Option Automation → Tx (Option AutomationRunLink)
claim_found zones isoformat stamp none = pure none
claim_found zones isoformat stamp (some automation) =
    when_due stamp.now automation automation.next_run_at
      (claim_due zones isoformat stamp automation)

-- `stamp` has the id of the link and the time `now`.
unfoldable pub claim_scheduled_in :
    Zones → (ℕ → String) → Stamp → String → Tx (Option AutomationRunLink)
claim_scheduled_in zones isoformat stamp automation_id = do
  found ← gets (get automation_id)
  claim_found zones isoformat stamp found

unfoldable pub claim_scheduled :
    Zones → (ℕ → String) → Stamp → String → Tx (Option AutomationRunLink)
claim_scheduled zones isoformat stamp automation_id =
    transaction (claim_scheduled_in zones isoformat stamp automation_id)

unfoldable pub claim_manual : Stamp → String → Tx AutomationRunLink
claim_manual stamp automation_id = transaction do
  found ← gets (get automation_id)
  automation ← or_raise automation_not_found found
  let link = manual_link stamp automation
  rows ←
      update_automation automation.id (has_version automation.version) (claimed_manually stamp.now)
  raise_if (not (rows =? 1)) automation_version_conflict
  insert_link link
  pure link

-- The changes of `_finish_link`.
unfoldable pub finished :
    RunLinkStatus → Option String → Option String → ℕ → AutomationRunLink → AutomationRunLink
finished status run_id error_code now l = record l {
  status = status;
  run_id = run_id;
  error_code = error_code;
  updated_at = now;
}

-- The run of a link must exist.
abbrev pub missing_run : Option String → Db → Bool
missing_run none db = false
missing_run (some r) db = elim (lookup run_key r db.runs) [ none ↦ true | some _ ↦ false ]

-- UPDATE automation_run_links SET f WHERE id = ? AND status = 'pending', with its row count.
unfoldable pub update_link : String → Option String → (AutomationRunLink → AutomationRunLink) → Tx ℕ
update_link link_id run_id f db =
    let selects = λ (l : AutomationRunLink). (l.id == link_id) && is_pending l.status in
    let rows = rowcount selects db.links in
    if not (rows =? 0) && missing_run run_id db
    then (err integrity_error, db)
    else (ok rows, record db { links = update_where selects f db.links })

unfoldable pub finish_link :
    String → RunLinkStatus → Option String → Option String → ℕ → Tx AutomationRunLink
finish_link link_id status run_id error_code now = transaction do
  found ← gets λ db. lookup link_key link_id db.links
  current ← or_raise lookup_error found
  if not (is_pending current.status) then pure current else do
    rows ← update_link link_id run_id (finished status run_id error_code now)
    raise_if (not (rows =? 1)) runtime_error
    pure (finished status run_id error_code now current)

unfoldable pub mark_submitted : String → String → ℕ → Tx AutomationRunLink
unfolding finish_link
mark_submitted link_id run_id now = finish_link link_id submitted (some run_id) none now

unfoldable pub mark_failed : String → String → ℕ → Tx AutomationRunLink
unfolding finish_link
mark_failed link_id error_code now = finish_link link_id failed none (some error_code) now

-- ORDER BY created_at, id
unfoldable pub older_link : AutomationRunLink → AutomationRunLink → Bool
older_link a b =
    ltb a.created_at b.created_at || ((a.created_at =? b.created_at) && text_lt a.id b.id)

unfoldable pub list_pending : ℕ → Db → Result (List AutomationRunLink)
list_pending limit db =
    if limit_out_of_range limit
    then err value_error
    else ok (take limit (order_by older_link (filter (λ l. is_pending l.status) db.links)))

unfoldable pub list_history : String → ℕ → Db → Result (List AutomationRunLink)
list_history automation_id limit db =
    if limit_out_of_range limit
    then err value_error
    else ok (
        take limit (
          order_by (λ a b. older_link b a)
            (filter (λ l. l.automation_id == automation_id) db.links)))
