-- ===== src/Examples/Automations.antt =====
-- An hourly automation in UTC.
use mathlib.Core.List.{Memᴰ}
use weatherflow.Prelude.{
  ℕ, ◌<◌, ◌≤◌, ◌⊎◌, All, length, String, ◌≡◌, refl, sym, ◌∙◌, true, none, some, [], ◌∷◌, arith,
}
use weatherflow.Outcome.{ok, err, lookup_error}
use weatherflow.Table.{lookup}
use weatherflow.Database.{pure, ◌>>=◌, Db, empty}
use weatherflow.Automations.Schedule.{Zone, Zones, ScheduleKind, ScheduleSpec, next_after}
use weatherflow.Automations.Schedule.First.{IsNext, IsDated, KeepsDates, next_after-IsNext}
use weatherflow.Automations.Model.{
  Automation, AutomationRunLink, enabled, scheduled_link, failed, submitted,
}
use weatherflow.Automations.Repository.{automation_key, get, is_due, link_key, due_before, list_due}
use weatherflow.Automations.Claims.{claim_scheduled, finish_link, finished}
use weatherflow.Automations.Claims.Once.{claim_scheduled-once}
use weatherflow.Automations.Claims.Effect.{
  claim_of, link_of, after_claim, claim_left, claim_scheduled-eq,
}
use weatherflow.Automations.Claims.Finish.{finish_link-once}
use weatherflow.Automations.Queue.{IsDue, IsNotLater, list_due-earliest}
use weatherflow.Automations.Service.{Submitter, recover_pending, tick}
use weatherflow.Automations.Service.Settles.{IsQuiet}
use weatherflow.Automations.Service.Recovery.{SettlesAll, recover_pending-SettlesAll}
use weatherflow.Runs.Status.{ask}
use weatherflow.Runs.Repository.{run_key}
use weatherflow.Runs.Coordinator.{create_run}
use weatherflow.Examples.Fixtures.{stamp, workspace}

abbrev utc : Zone
utc = record { local = λ t. t; utc = λ t. t }

abbrev zones : Zones
zones name = some utc

abbrev hourly : ScheduleSpec
hourly = record {
  kind = ScheduleKind.hourly;
  timezone = "UTC";
  once_at = none;
  minute = some 30;
  at_time = none;
  weekday = none;
}

abbrev automation : Automation
automation = record {
  id = "au";
  workspace_id = "w";
  name = "report";
  prompt = "send the report";
  schedule = hourly;
  status = enabled;
  next_run_at = some 1_800_000_000;
  last_run_at = none;
  version = 0;
  created_at = 0;
  updated_at = 0;
}

abbrev isoformat : ℕ → String
isoformat t = "0001-01-01T00:30:00+00:00"

abbrev due : Db
due = record empty { workspaces = workspace ∷ []; automations = automation ∷ [] }

abbrev link : AutomationRunLink
link = scheduled_link isoformat (stamp "l" 2_000_000_000) automation 1_800_000_000

claim_scheduled-eq_example :
    let t = claim_scheduled zones isoformat (stamp "l" 2_000_000_000) "au" due in
    let claim =
      claim_of zones isoformat
        (stamp "l" 2_000_000_000)
        due
        automation
        enabled
        (some 1_800_000_000) in
    (t.0 ≡ link_of claim)
    × (lookup automation_key "au" t.1.automations
        ≡ after_claim 2_000_000_000 automation claim "au"
            (lookup automation_key "au" due.automations))
    × (t.1 ≡ claim_left claim due t.1.automations)
unfolding lookup
claim_scheduled-eq_example =
    claim_scheduled-eq zones isoformat (stamp "l" 2_000_000_000) due automation "au" (refl, tt) refl

claims : (claim_scheduled zones isoformat (stamp "l" 2_000_000_000) "au" due).0 ≡ ok (some link)
unfolding claim_scheduled weatherflow.Database.transaction
    weatherflow.Automations.Claims.claim_scheduled_in weatherflow.Database.◌>>=◌ get lookup is_due
    weatherflow.Automations.Claims.claim_due next_after
    weatherflow.Automations.Repository.update_automation weatherflow.Table.rowcount
    weatherflow.Automations.Repository.insert_link weatherflow.Table.update_where
    weatherflow.Automations.Claims.claimed scheduled_link
claims = refl

following : next_after zones hourly 2_000_000_000 ≡ ok (some 5_400_000_000)
unfolding next_after
following = refl

earlier : (n : ℕ) → next_after zones hourly 2_000_000_000 ≡ ok (some n) → 5_000_000_000 < n
earlier n e = let same = sym following ∙ e in ground (arith, same)

claim_scheduled-once_example :
    (is_due 2_000_000_000 automation ≡ true)
    × (lookup link_key "l"
          (claim_scheduled zones isoformat (stamp "l" 2_000_000_000) "au" due).1.links
        ≡ some link)
    × (claim_scheduled zones isoformat
          (stamp "l2" 5_000_000_000)
          "au"
          (claim_scheduled zones isoformat (stamp "l" 2_000_000_000) "au" due).1
        ≡ (ok none, (claim_scheduled zones isoformat (stamp "l" 2_000_000_000) "au" due).1))
unfolding lookup get scheduled_link
claim_scheduled-once_example =
    claim_scheduled-once zones isoformat (stamp "l" 2_000_000_000) (stamp "l2" 5_000_000_000) due
      automation link (refl, tt) refl claims earlier

abbrev awaiting : Db
awaiting = record due { links = link ∷ [] }

abbrev done : AutomationRunLink
done = finished failed none (some "submission_failed") 7 link

finish_link-once_example :
    (done ≡ finished failed none (some "submission_failed") 7 link)
    × (finish_link "l" submitted
          (some "r")
          none
          8
          (finish_link "l" failed none (some "submission_failed") 7 awaiting).1
        ≡ (ok done, (finish_link "l" failed none (some "submission_failed") 7 awaiting).1))
unfolding lookup scheduled_link finish_link weatherflow.Database.transaction
    weatherflow.Database.◌>>=◌ weatherflow.Automations.Claims.update_link weatherflow.Table.rowcount
finish_link-once_example =
    finish_link-once "l" awaiting link failed submitted none (some "submission_failed") (some "r")
      none 7 8 done (refl, tt) refl refl refl refl

list_due-earliest_example :
    (1 ≤ 100)
    × (100 ≤ 1000)
    × (length (automation ∷ []) ≤ 100)
    × All (IsDue 2_000_000_000) (automation ∷ [])
    × (Memᴰ automation (automation ∷ [])
        ⊎ ((length (automation ∷ []) ≡ 100) × All (λ b. IsNotLater b automation) (automation ∷ [])))
unfolding list_due weatherflow.Table.Order.order_by weatherflow.Table.filter is_due
list_due-earliest_example =
    list_due-earliest 2_000_000_000 100 due (automation ∷ []) automation refl (Memᴰ.head refl)
      (record { status = refl; time = 1_800_000_000; next_run_at = refl; has_come = omega arith })

-- A submission that is refused.
abbrev refuse : Submitter
refuse intent request_id workspace_id db = (err lookup_error, db)

refuse-IsQuiet : IsQuiet refuse
refuse-IsQuiet = record {
  links = λ i q w db. refl;
  automations = λ i q w db. refl;
  stored = λ i q w db run_id e. cc;
  uncancelled = λ i q w db e. ground (arith, e);
}

recover_pending-SettlesAll_example :
    SettlesAll (link ∷ []) awaiting (recover_pending refuse 9 awaiting)
unfolding lookup scheduled_link get weatherflow.Automations.Claims.list_pending
    weatherflow.Table.Order.order_by weatherflow.Table.filter
recover_pending-SettlesAll_example =
    recover_pending-SettlesAll refuse refuse-IsQuiet 9 awaiting (link ∷ []) (refl, tt)
      ((refl, refl), tt) refl

abbrev weekly : ScheduleSpec
weekly = record {
  kind = ScheduleKind.weekly;
  timezone = "UTC";
  once_at = none;
  minute = none;
  at_time = some 32_400_000_000;
  weekday = some 4;
}

weekly-IsDated : IsDated weekly 32_400_000_000
weekly-IsDated = record {
  at = refl;
  not_once = λ e. ground (arith, e);
  not_hourly = λ e. ground (arith, e);
}

utc-KeepsDates : KeepsDates utc
utc-KeepsDates = record {
  before = λ t date at_time h k. omega (arith, h, k);
  after = λ t date at_time h k. omega (arith, h, k);
  in_order = λ date later at_time h. omega (arith, h);
}

next_after-IsNext_example :
    IsNext weekly utc 32_400_000_000 50_000_000_000 (next_after zones weekly 50_000_000_000)
unfolding weatherflow.Automations.Schedule.is_valid
next_after-IsNext_example =
    next_after-IsNext weekly zones utc 32_400_000_000 50_000_000_000 refl refl weekly-IsDated
      utc-KeepsDates

-- A submission that creates a run of the request's id.
abbrev create : Submitter
create intent request_id workspace_id =
    create_run true (stamp "r1" 9) (stamp "e1" 9)
      (record {
        client_request_id = request_id;
        user_intent = intent;
        workspace_id = workspace_id;
        session_id = none;
        tool_mode = ask;
        budget = none;
      })
      empty
    >>= λ r. pure r.id

-- The database with the automation alone is reached beside the core.
abbrev add_automation : Db → Db
add_automation db = record db { workspaces = workspace ∷ []; automations = automation ∷ [] }

-- The tick creates the run, and its link names it.
ticks :
    (tick zones isoformat create (λ a. "l") 2_000_000_000 (add_automation empty)).0
    ≡ ok (finished submitted (some "r1") none 2_000_000_000 link ∷ [])
unfolding tick ◌>>=◌ weatherflow.Automations.Claims.list_pending weatherflow.Table.Order.order_by
    weatherflow.Table.filter list_due is_due claim_scheduled weatherflow.Database.transaction
    weatherflow.Automations.Claims.claim_scheduled_in get lookup
    weatherflow.Automations.Claims.claim_due next_after
    weatherflow.Automations.Repository.update_automation weatherflow.Table.rowcount
    weatherflow.Automations.Repository.insert_link weatherflow.Automations.Claims.claimed
    finish_link finished weatherflow.Automations.Claims.mark_submitted
    weatherflow.Automations.Claims.update_link scheduled_link
    weatherflow.Automations.Service.claim_all recover_pending
    weatherflow.Automations.Service.required weatherflow.Automations.Service.settle_link
    weatherflow.Automations.Service.submit weatherflow.Automations.Service.submit_now create_run
    weatherflow.Runs.Coordinator.insert_run weatherflow.Runs.Repository.get_by_client_request_id_in
    weatherflow.Runs.Coordinator.check_session weatherflow.Runs.Coordinator.touch_session
    weatherflow.Runs.Repository.create_in weatherflow.Runs.Model.new_run
    weatherflow.Events.Ledger.append_in weatherflow.Runs.Coordinator.created_event
    weatherflow.Events.Model.new_event weatherflow.Table.update_where
ticks = refl
