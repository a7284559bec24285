-- ===== src/Sessions/Repository.antt =====
-- The methods of `ConversationSessionRepository` that run creation uses, of
-- core/src/weatherflow/sessions/repository.py
use weatherflow.Prelude.{ℕ, ◌+◌, String, ◌&&◌, Option, none, some, ◌==◌, ◌=?◌, if◌then◌else◌}
use weatherflow.Outcome.{Result, ok, err, session_not_found}
use weatherflow.Table.{rowcount, update_where, lookup}
use weatherflow.Database.{Tx}
use weatherflow.Sessions.Model.{ConversationSession}

abbrev pub session_key : ConversationSession → String
session_key s = s.id

in_workspace : String → Option ConversationSession → Result ConversationSession
in_workspace workspace_id none = err session_not_found
in_workspace workspace_id (some session) =
    if session.workspace_id == workspace_id then ok session else err session_not_found

unfoldable pub require_workspace_in : String → String → Tx ConversationSession
unfolding in_workspace
require_workspace_in session_id workspace_id db =
    (in_workspace workspace_id (lookup session_key session_id db.sessions), db)

unfoldable pub touched : ℕ → ConversationSession → ConversationSession
touched observed_at s = record s { version = s.version + 1; updated_at = observed_at }

unfoldable pub touch_for_run_in : String → String → ℕ → Tx (Unit {0})
unfolding touched
touch_for_run_in session_id workspace_id observed_at db =
    let selects =
      λ (s : ConversationSession). (s.id == session_id) && (s.workspace_id == workspace_id) in
    let after = record db { sessions = update_where selects (touched observed_at) db.sessions } in
    if rowcount selects db.sessions =? 1 then (ok tt, after) else (err session_not_found, after)
