-- ===== src/Trust/Authorization/Untouched.antt =====
-- Statements that leave actions and approvals alone take no authority away.
use weatherflow.Prelude.{ℕ, String, refl, Bool, arith}
use weatherflow.Database.{◌>>=◌}
use weatherflow.Database.Commits.{Commits}
use weatherflow.Events.Model.{Stamp, Event}
use weatherflow.Events.Ledger.{append_in}
use weatherflow.Sessions.Repository.{touch_for_run_in, require_workspace_in}
use weatherflow.Runs.Status.{RunStatus}
use weatherflow.Runs.Model.{Run}
use weatherflow.Runs.Repository
use weatherflow.Runs.Coordinator.{Request, move_in, insert_run, check_session, touch_session}
use weatherflow.Runs.Swap.{transition_in-swap, after_checks}
use weatherflow.Runs.Attach.{after-attach_capability_snapshot_in, after-attach_rhythm_snapshot_in}
use weatherflow.Trust.Authorization.{IsAuthorized, untouched-IsAuthorized}
use weatherflow.Integrity.{append_in-HasKeys}
use weatherflow.Integrity.Statements.{HasKeys-Statements}

pub append_in-IsAuthorized : (e : Event) → Commits IsAuthorized (append_in e)
unfolding append_in
append_in-IsAuthorized e = untouched-IsAuthorized _ (append_in-HasKeys e) (λ db r k x. ground arith)

pub move_in-IsAuthorized :
    (now : ℕ) (stamp : Stamp) (run_id : String) (target : RunStatus) (v : ℕ)
    (detail : Repository.Detail)
    → Commits IsAuthorized (move_in now stamp run_id target v detail)
unfolding move_in ◌>>=◌ append_in after_checks
move_in-IsAuthorized now stamp run_id target v detail =
    untouched-IsAuthorized _ (HasKeys-Statements.move now stamp run_id target v detail)
      (λ db r k x. ground (arith, transition_in-swap now run_id target v detail db k.runs))

pub insert_run-IsAuthorized :
    (has_sessions : Bool) (stamp : Stamp) (q : Request) (run : Run)
    → Commits IsAuthorized (insert_run has_sessions stamp q run)
unfolding ◌>>=◌ insert_run check_session touch_session Repository.create_in touch_for_run_in
    append_in require_workspace_in
insert_run-IsAuthorized has_sessions stamp q run =
    untouched-IsAuthorized _ (HasKeys-Statements.insert_run has_sessions stamp q run)
      (λ db r k e. ground (arith, e))

pub attach_capability_snapshot_in-IsAuthorized :
    (now : ℕ) (run_id snapshot_id : String) (v : ℕ)
    → Commits IsAuthorized (Repository.attach_capability_snapshot_in now run_id snapshot_id v)
attach_capability_snapshot_in-IsAuthorized now run_id snapshot_id v =
    untouched-IsAuthorized _
      (HasKeys-Statements.attach_capability_snapshot now run_id snapshot_id v)
      (λ db r k e.
        rw (after-attach_capability_snapshot_in now run_id snapshot_id v db r e) (refl, refl))

pub attach_rhythm_snapshot_in-IsAuthorized :
    (now : ℕ) (run_id snapshot_id : String) (v : ℕ)
    → Commits IsAuthorized (Repository.attach_rhythm_snapshot_in now run_id snapshot_id v)
attach_rhythm_snapshot_in-IsAuthorized now run_id snapshot_id v =
    untouched-IsAuthorized _ (HasKeys-Statements.attach_rhythm_snapshot now run_id snapshot_id v)
      (λ db r k e.
        rw (after-attach_rhythm_snapshot_in now run_id snapshot_id v db r e) (refl, refl))
