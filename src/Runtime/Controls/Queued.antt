-- ===== src/Runtime/Controls/Queued.antt =====
-- `RunControlCoordinator.enqueue` of core/src/weatherflow/runtime/controls.py
use weatherflow.Prelude.{String, true, some, ◌≡◌}
use weatherflow.Outcome.{ok}
use weatherflow.Table.{insert}
use weatherflow.Database.{Db}
use weatherflow.Events.Model.{Stamp}
use weatherflow.Runs.Model.{Run}
use weatherflow.Runs.Repository
use weatherflow.Runtime.Models.{RunControlKind, RunControl, new_control}
use weatherflow.Runtime.Controls.{controllable}

record IsQueued (strip : String → String) (stamp : Stamp) (run_id : String) (kind : RunControlKind)
    (content : String) (c : RunControl) (db after : Db) : Type 0 where
  made : new_control strip stamp run_id kind content ≡ ok c
  run : Run
  found : Repository.get_in run_id db ≡ some run
  accepting : controllable run.status ≡ true
  rows : after.controls ≡ insert c db.controls
