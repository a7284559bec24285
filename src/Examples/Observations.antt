-- ===== src/Examples/Observations.antt =====
-- An observation of a tool, and single updates of a session and of a workspace.
use weatherflow.Prelude.{
  ◌⊎◌, text_length, String, ◌≡◌, refl, true, false, none, some, [], ◌∷◌, ◌++◌,
}
use weatherflow.Outcome.{err, checkpoint_version_conflict, workspace_version_conflict}
use weatherflow.Json.{Object, end, field, num}
use weatherflow.Table.{insert, lookup}
use weatherflow.Database.Effect.{row_after, left_by}
use weatherflow.Sessions.Repository.{session_key}
use weatherflow.Database.{Db, empty}
use weatherflow.Runtime.Models.{RunCheckpoint}
use weatherflow.Runtime.Checkpoints
use weatherflow.Runtime.Checkpoints.{saved}
use weatherflow.Runtime.Observations.{
  ObservedTurn, tool_call, from_output, max_chars, observed, observation_message, observation_event,
  record_observation,
}
use weatherflow.Runtime.Observations.Recorded.{
  IsWhole, IsCut, from_output-bounded, record_observation-once,
}
use weatherflow.Sessions.Model.{ConversationSession}
use weatherflow.Sessions.Conversations.{update}
use weatherflow.Sessions.Conversations.Updates.{updated, shown, update-eq}
use weatherflow.Workspaces.{Workspace}
use weatherflow.Workspaces.Repository
use weatherflow.Workspaces.Repository.{update_in}
use weatherflow.Workspaces.Swap.{update_in-once}
use weatherflow.Examples.Fixtures.{stamp, workspace}
use weatherflow.Examples.Controls.{checkpoint, accepting}

abbrev dumps : Object → String
dumps d = "{\"rows\":3}"

abbrev rows : Object
rows = field "rows" (num 3) end

from_output-bounded_example :
    ((from_output dumps 4 rows).original_chars ≡ text_length (dumps rows))
    × (IsWhole 4 dumps rows (from_output dumps 4 rows)
        ⊎ IsCut 4 dumps rows (from_output dumps 4 rows))
from_output-bounded_example = from_output-bounded dumps 4 rows

abbrev query_turn : ObservedTurn
query_turn = tool_call (some "call") "activity.query"

abbrev done : RunCheckpoint
done = saved (observed dumps checkpoint query_turn rows true 1 false) 9 checkpoint

abbrev after : Db
after =
    (record_observation dumps 9 (stamp "e9" 9) checkpoint query_turn rows true 1 false accepting).1

record_observation-once_example :
    (done.transcript
      ≡ [] ++ observation_message dumps query_turn (from_output dumps max_chars rows) ∷ [])
    × (done.pending_action_id ≡ none)
    × (Checkpoints.get_in "r" after ≡ some done)
    × (after.events
        ≡ insert
            (observation_event
              (stamp "e9" 9)
              checkpoint
              query_turn
              (from_output dumps max_chars rows).truncated)
            [])
    × (record_observation dumps 10 (stamp "e10" 10) checkpoint query_turn rows true 1 false after
        ≡ (err checkpoint_version_conflict, after))
unfolding weatherflow.Table.lookup record_observation weatherflow.Database.transaction
    weatherflow.Database.◌>>=◌ Checkpoints.save_in weatherflow.Table.rowcount
    weatherflow.Table.update_where weatherflow.Events.Ledger.append_in
record_observation-once_example =
    record_observation-once dumps checkpoint accepting (refl, tt) 9 10 (stamp "e9" 9)
      (stamp "e10" 10) done query_turn query_turn rows rows true 1 false refl

abbrev session : ConversationSession
session = record {
  id = "s";
  workspace_id = "w";
  title = "plans";
  pinned = false;
  version = 2;
  created_at = 1;
  updated_at = 1;
}

abbrev talking : Db
talking = record empty { workspaces = workspace ∷ []; sessions = session ∷ [] }

update-eq_example :
    let t = update (λ s. s) 5 "s" "w" 2 (some "notes") none talking talking in
    let expected =
      updated (λ s. s) 5 "w" 2 (some "notes") none (lookup session_key "s" talking.sessions) in
    (t.0 ≡ shown talking expected)
    × (lookup session_key "s" t.1.sessions
        ≡ row_after expected "s" "s" (lookup session_key "s" talking.sessions))
    × (t.1 ≡ left_by expected talking (record talking { sessions = t.1.sessions }))
unfolding lookup
update-eq_example = update-eq (λ s. s) 5 "s" "w" 2 (some "notes") none talking "s" (refl, tt) refl

abbrev renamed : Workspace
renamed = record workspace { name = "home"; version = 1 }

update_in-once_example :
    (workspace.version ≡ 0)
    × (renamed.version ≡ 1)
    × (Repository.get_in "w" (update_in renamed 0 talking).1 ≡ some renamed)
    × ((update_in renamed 0 (update_in renamed 0 talking).1).0 ≡ err workspace_version_conflict)
unfolding weatherflow.Table.lookup Repository.get_in update_in weatherflow.Database.◌>>=◌
    weatherflow.Table.rowcount
update_in-once_example =
    update_in-once renamed renamed 0 talking workspace (refl, tt) refl refl refl
