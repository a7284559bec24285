-- ===== src/Integrity/Coordinators.antt =====
-- The transactions of the coordinators keep the keys of the tables unique.
use weatherflow.Prelude.{ℕ, String, Bool, true, false, Option, none, some}
use weatherflow.Database.{Db, Tx}
use weatherflow.Database.Commits.{Commits, commit_rules, Commits-bind, Commits-gets}
use weatherflow.Database.Keeps.{Keeps, keep_rules, Keeps-transaction, Commits-Keeps}
use weatherflow.Events.Model.{Stamp}
use weatherflow.Runs.Status.{RunStatus}
use weatherflow.Runs.Model.{Run}
use weatherflow.Runs.Repository.{Detail}
use weatherflow.Runs.Coordinator.{
  Request, move_in, create_run, existing_run, existing_or, check_session, touch_session, insert_run,
}
use weatherflow.Integrity.{HasKeys, key_rules, require_workspace_in-HasKeys}

pub move_in-HasKeys :
    (now : ℕ) (stamp : Stamp) (run_id : String) (target : RunStatus) (v : ℕ) (detail : Detail)
    → Commits HasKeys (move_in now stamp run_id target v detail)
unfolding move_in
move_in-HasKeys now stamp run_id target v detail = search (commit_rules, key_rules) depth 14

-- Invariants that hold of no more than what a call may read are kept by the calls that only read.
module _ {P : Db → Type 0} where
  existing_run-Keeps : (q : Request) (r : Run) → Keeps P (existing_run q r)
  unfolding existing_run
  existing_run-Keeps q r = search keep_rules depth 14

  pub existing_or-Keeps :
      (q : Request) (found : Option Run) (create : Tx Run)
      → Keeps P create
      → Keeps P (existing_or q found create)
  existing_or-Keeps q none create k = k
  existing_or-Keeps q (some r) create k = existing_run-Keeps q r

  pub existing_or-Commits :
      (q : Request) (found : Option Run) (create : Tx Run)
      → Commits P create
      → Commits P (existing_or q found create)
  existing_or-Commits q none create k = k
  existing_or-Commits q (some r) create k =
      Commits-Keeps (existing_run q r) (existing_run-Keeps q r)

  -- `create_run` keeps what its insertion of a new run commits.
  pub create_run-Keeps :
      (has_sessions : Bool) (run_stamp event_stamp : Stamp) (q : Request) (seen : Db)
      → ((run : Run) → Commits P (insert_run has_sessions event_stamp q run))
      → Keeps P (create_run has_sessions run_stamp event_stamp q seen)
  unfolding create_run
  create_run-Keeps has_sessions run_stamp event_stamp q seen k = existing_or-Keeps q _ _ (
      Keeps-transaction _
        (Commits-bind _ _ (Commits-gets _) (λ found. existing_or-Commits q found _ (k _))))

check_session-HasKeys :
    (has_sessions : Bool) (q : Request) (session_id : Option String)
    → Commits HasKeys (check_session has_sessions q session_id)
unfolding check_session
check_session-HasKeys has_sessions q none = search commit_rules
check_session-HasKeys false q (some s) = search commit_rules
check_session-HasKeys true q (some s) = search (commit_rules, require_workspace_in-HasKeys) depth 8

touch_session-HasKeys :
    (q : Request) (observed_at : ℕ) (session_id : Option String)
    → Commits HasKeys (touch_session q observed_at session_id)
unfolding touch_session
touch_session-HasKeys q observed_at none = search commit_rules
touch_session-HasKeys q observed_at (some s) = search key_rules

pub insert_run-HasKeys :
    (has_sessions : Bool) (stamp : Stamp) (q : Request) (run : Run)
    → Commits HasKeys (insert_run has_sessions stamp q run)
unfolding insert_run
insert_run-HasKeys has_sessions stamp q run =
    search (commit_rules, key_rules, check_session-HasKeys, touch_session-HasKeys) depth 14
