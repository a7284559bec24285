-- ===== src/Examples/Protocol.antt =====
-- The guarantees at a run that asks for an approval.
use weatherflow.Prelude.{refl, some, true, ◌≡◌}
use weatherflow.Table.{lookup}
use weatherflow.Runs.Status.{RunStatus}
use weatherflow.Runs.Model.{Run}
use weatherflow.Runs.Repository.{run_key}
use weatherflow.Trust.ActionStatus.{ActionStatus}
use weatherflow.Protocol.Trace.{perform, then_call, idle}
use weatherflow.Examples.Fixtures.{
  started, cancelled, proposed, approved, denied, run, action, approve, cancel, restart,
  Reaches-started, Reaches-cancelled, Reaches-proposed, Reaches-approved, Reaches-denied,
}
use weatherflow.Runs.History.{replay, status_text}
use weatherflow.Runs.Lifecycle.{IsAfter}
use weatherflow.Trust.Lifecycle.{IsContinued}
use weatherflow.Trust.Authorization.{HasAuthority, is_started}
use weatherflow.Integrity.{HasKeys}
use weatherflow.Protocol.Guarantees.{
  is_closed, reached-HasKeys, reached-replay, reached-HasAuthority, Reaches-IsAfter, is_over,
  Reaches-final, Reaches-IsContinued, Reaches-is_closed,
}
use weatherflow.Examples.Rows.{
  started-run, cancelled-run, proposed-action, approved-action, denied-action, still_denied-action,
}

reached-HasKeys_example : HasKeys approved
reached-HasKeys_example = reached-HasKeys approved Reaches-approved

reached-replay_example : replay "r" approved.events ≡ status_text (lookup run_key "r" approved.runs)
reached-replay_example = reached-replay approved "r" Reaches-approved

reached-HasAuthority_example : HasAuthority approved (action ActionStatus.approved 1 5)
unfolding is_started
reached-HasAuthority_example =
    reached-HasAuthority approved "a" (action ActionStatus.approved 1 5) Reaches-approved
      approved-action refl

Reaches-IsAfter_example : IsAfter "r" RunStatus.running 2 cancelled
Reaches-IsAfter_example =
    Reaches-IsAfter started cancelled "r" (run RunStatus.running 2 3)
      (reached-HasKeys started Reaches-started) started-run (then_call cancel idle)

Reaches-final_example :
    (later : Run) × (lookup run_key "r" (perform restart cancelled).runs ≡ some later)
    × (later.status ≡ RunStatus.cancelled)
unfolding is_over
Reaches-final_example =
    Reaches-final cancelled (perform restart cancelled) "r" (run RunStatus.cancelled 3 4)
      (reached-HasKeys cancelled Reaches-cancelled) cancelled-run refl (then_call restart idle)

Reaches-IsContinued_example : IsContinued (action ActionStatus.proposed 0 4) approved
Reaches-IsContinued_example =
    Reaches-IsContinued proposed approved (action ActionStatus.proposed 0 4)
      (reached-HasKeys proposed Reaches-proposed) proposed-action (then_call approve idle)

Reaches-is_closed_example : is_closed ActionStatus.denied ≡ true
unfolding is_closed
Reaches-is_closed_example =
    Reaches-is_closed denied (perform approve denied) (action ActionStatus.denied 1 5)
      (action ActionStatus.denied 1 5) (reached-HasKeys denied Reaches-denied) denied-action refl
      (then_call approve idle) still_denied-action
