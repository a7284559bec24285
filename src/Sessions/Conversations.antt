-- ===== src/Sessions/Conversations.antt =====
-- The other methods of `ConversationSessionRepository` of core/src/weatherflow/sessions/repository.py,
-- but for `delete`. `latest_run_id` is computed by the query, so a session is read as a view.
pub mod Updates
use weatherflow.Prelude.{
  ℕ, ◌+◌, String, Bool, true, false, not, ◌&&◌, ◌||◌, Option, none, some, List, [], ◌∷◌, map, ◌==◌,
  ◌=?◌, ltb, leb, if◌then◌else◌, is_some, take, text_lt, text_length, limit_out_of_range,
}
use weatherflow.Outcome.{
  Error, Result, ok, err, value_error, integrity_error, session_not_found, session_version_conflict,
}
use weatherflow.Table.{filter, rowcount, update_where, lookup, insert}
use weatherflow.Table.Order.{order_by}
use weatherflow.Database.{
  Db, Tx, pure, raise, gets, query, or_raise, raise_if, ◌>>=◌, ◌>>◌, transaction, attempt,
}
use weatherflow.Events.Model.{Stamp}
use weatherflow.Workspaces.{workspace_key}
use weatherflow.Sessions.Model.{ConversationSession}
use weatherflow.Sessions.Repository.{session_key}
use weatherflow.Runs.Model.{Run}

pub record SessionView : Type 0 where
  pub session : ConversationSession
  pub latest_run_id : Option String

abbrev in_session : String → Option String → Bool
in_session session_id none = false
in_session session_id (some s) = s == session_id

-- ORDER BY created_at, id
unfoldable pub older_run : Run → Run → Bool
older_run a b =
    ltb a.created_at b.created_at || ((a.created_at =? b.created_at) && text_lt a.id b.id)

abbrev first_id : List Run → Option String
first_id [] = none
first_id (r ∷ runs) = some r.id

-- The subquery of `_select`.
unfoldable pub latest_run : String → Db → Option String
unfolding older_run
latest_run session_id db =
    first_id
      (order_by (λ a b. older_run b a) (filter (λ r. in_session session_id r.session_id) db.runs))

-- `_select` and `_from_row`
unfoldable pub view : Db → ConversationSession → SessionView
unfolding latest_run
view db s = record { session = s; latest_run_id = latest_run s.id db }

-- The fields of a session's model: the title is stripped, and has 1 to 160 characters.
unfoldable pub titled : (String → String) → String → Result String
titled strip title =
    if leb 1 (text_length (strip title)) && leb (text_length (strip title)) 160
    then ok (strip title)
    else err value_error

-- `ConversationSession.new`
unfoldable pub new_session :
    (String → String) → Stamp → String → String → Result ConversationSession
unfolding titled
new_session strip stamp workspace_id title = elim (titled strip title) [
  | err e ↦ err e
  | ok normalized ↦ ok (record {
    id = stamp.id;
    workspace_id = workspace_id;
    title = normalized;
    pinned = false;
    version = 0;
    created_at = stamp.now;
    updated_at = stamp.now;
  })
]

-- `create_in`: the id is unique and the workspace exists.
unfoldable pub create_in : ConversationSession → Tx (Unit {0})
create_in session db =
    if is_some (lookup session_key session.id db.sessions)
      || not (is_some (lookup workspace_key session.workspace_id db.workspaces))
    then (err integrity_error, db)
    else (ok tt, record db { sessions = insert session db.sessions })

abbrev pub as_value_error : Result (Unit {0}) → Tx (Unit {0})
as_value_error (ok u) = pure u
as_value_error (err integrity_error) = raise value_error
as_value_error (err e) = raise e

-- `create`
unfoldable pub create : ConversationSession → Tx (Unit {0})
unfolding create_in
create session = do created ← attempt (transaction (create_in session)); as_value_error created

abbrev of_workspace : String → Option ConversationSession → Option ConversationSession
of_workspace workspace_id none = none
of_workspace workspace_id (some s) = if s.workspace_id == workspace_id then some s else none

-- `get_in`, which is `get`, and `get_for_workspace_in`, which is `get_for_workspace`
unfoldable pub get_in : String → Db → Option ConversationSession
get_in session_id db = lookup session_key session_id db.sessions

unfoldable pub get_for_workspace_in : String → String → Db → Option ConversationSession
unfolding get_in
get_for_workspace_in session_id workspace_id db = of_workspace workspace_id (get_in session_id db)

-- ORDER BY pinned DESC, updated_at DESC, id DESC
unfoldable pub listed_before : ConversationSession → ConversationSession → Bool
listed_before a b =
    (a.pinned && not b.pinned)
    || (not (b.pinned && not a.pinned)
        && (ltb b.updated_at a.updated_at || ((a.updated_at =? b.updated_at) && text_lt b.id a.id)))

-- `list`, without the views of its rows
unfoldable pub list_sessions : String → ℕ → Db → Result (List ConversationSession)
unfolding listed_before
list_sessions workspace_id limit db =
    if limit_out_of_range limit
    then err value_error
    else ok (
        take limit
          (order_by listed_before (filter (λ s. s.workspace_id == workspace_id) db.sessions)))

unfoldable pub list_run_ids : String → String → Db → Result (List String)
unfolding get_for_workspace_in older_run
list_run_ids session_id workspace_id db =
    if is_some (get_for_workspace_in session_id workspace_id db)
    then ok (
        map (λ r. r.id)
          (order_by older_run (
            filter (λ r. in_session session_id r.session_id && (r.workspace_id == workspace_id))
              db.runs)))
    else err session_not_found

abbrev pub or_keep {ℓ} : {A : Type ℓ} → Option A → A → A
or_keep none a = a
or_keep (some b) a = b

-- What `update` writes to a row.
unfoldable pub rewritten : String → Bool → ℕ → ℕ → ConversationSession → ConversationSession
rewritten title pinned version now s = record s {
  title = title;
  pinned = pinned;
  version = version;
  updated_at = now;
}

-- UPDATE conversation_sessions SET f WHERE id = ? AND workspace_id = ? AND version = ?
unfoldable pub update_session :
    String → String → ℕ → (ConversationSession → ConversationSession) → Tx ℕ
update_session session_id workspace_id expected_version f db =
    let selects = λ (s : ConversationSession).
      (s.id == session_id)
      && ((s.workspace_id == workspace_id) && (s.version =? expected_version)) in
    (ok (rowcount selects db.sessions), record db { sessions = update_where selects f db.sessions })

-- The refusal of an update that selected no row.
abbrev pub refusal : Option ConversationSession → Error
refusal none = session_not_found
refusal (some s) = session_version_conflict

-- `update`; the database before its transaction is `seen`.
unfoldable pub update :
    (String → String) → ℕ → String → String → ℕ → Option String → Option Bool → Db → Tx SessionView
unfolding rewritten update_session get_for_workspace_in titled view
update strip now session_id workspace_id expected_version title pinned seen = do
  raise_if (not (is_some title) && not (is_some pinned)) value_error
  current ← or_raise session_not_found (get_for_workspace_in session_id workspace_id seen)
  normalized ← query λ db. titled strip (or_keep title current.title)
  transaction do
    rows ←
        update_session session_id workspace_id expected_version
          (rewritten normalized (or_keep pinned current.pinned) (current.version + 1) now)
    found ← gets (get_for_workspace_in session_id workspace_id)
    raise_if (not (rows =? 1)) (refusal found)
    updated ← or_raise session_not_found found
    gets λ db. view db updated
