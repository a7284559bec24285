-- ===== src/Sessions/Conversations/Updates.antt =====
-- What `ConversationSessionRepository.update` of core/src/weatherflow/sessions/repository.py does where
-- no one writes between its look and its transaction.
use weatherflow.Prelude.{
  ℕ, ◌+◌, ltb, text_length, eq_iff, String, Bool, false, not, ◌&&◌, Option, none, some, ◌≡◌, refl,
  inl, inr, arith, ◌==◌, ◌=?◌, eq_refl, if◌then◌else◌, is_some, Option-cases, Bool-cases,
}
use weatherflow.Outcome.{
  Result, ok, err, value_error, session_not_found, session_version_conflict, Result-cases,
}
use weatherflow.Table.{lookup, update_where, Unique}
use weatherflow.Table.Laws.{rowcount-Unique, lookup-update_where}
use weatherflow.Database.{Db, transaction, ◌>>=◌}
use weatherflow.Database.Effect.{row_after, left_by}
use weatherflow.Sessions.Model.{ConversationSession}
use weatherflow.Sessions.Repository.{session_key}
use weatherflow.Sessions.Conversations.{
  SessionView, latest_run, view, titled, get_for_workspace_in, get_in, or_keep, rewritten,
  update_session, update,
}

abbrev with_update : String → String → ℕ → (ConversationSession → ConversationSession) → Db → Db
with_update session_id workspace_id v f db = record db {
  sessions =
      update_where
        (λ s. (s.id == session_id) && ((s.workspace_id == workspace_id) && (s.version =? v))) f
        db.sessions;
}

-- The outcome for a session that the workspace has.
unfoldable pub update_found :
    (String → String)
    → ℕ
    → String
    → String
    → ℕ
    → Option String
    → Option Bool
    → ConversationSession
    → Db
    → Result SessionView × Db
unfolding rewritten
update_found strip now session_id workspace_id v title pinned s db =
    elim (titled strip (or_keep title s.title)) [
      | err e ↦ (err e, db)
      | ok normalized ↦
          if s.version =? v
          then (let f = rewritten normalized (or_keep pinned s.pinned) (s.version + 1) now in
              let after = with_update session_id workspace_id v f db in
              (ok (view after (f s)), after))
          else (err session_version_conflict, db)
    ]

unfoldable pub update_outcome :
    (String → String)
    → ℕ
    → String
    → String
    → ℕ
    → Option String
    → Option Bool
    → Option ConversationSession
    → Db
    → Result SessionView × Db
unfolding update_found
update_outcome strip now session_id workspace_id v title pinned none db =
    (err session_not_found, db)
update_outcome strip now session_id workspace_id v title pinned (some s) db =
    update_found strip now session_id workspace_id v title pinned s db

-- `update` as its checks and one update.
update-swap :
    (strip : String → String) (now : ℕ) (session_id workspace_id : String) (v : ℕ)
    (title : Option String) (pinned : Option Bool) (db : Db)
    → Unique session_key db.sessions
    → (not (is_some title) && not (is_some pinned)) ≡ false
    → update strip now session_id workspace_id v title pinned db db
      ≡ update_outcome strip now session_id workspace_id v title pinned
          (get_for_workspace_in session_id workspace_id db)
          db
unfolding ◌>>=◌ update transaction update_session update_outcome get_for_workspace_in get_in
    rewritten
update-swap strip now session_id workspace_id v title pinned db unique asked =
    elim (Option-cases (lookup session_key session_id db.sessions)) [
      | inl absent ↦ ground (arith, absent, asked)
      | inr (s, found) ↦ elim (Bool-cases (s.workspace_id == workspace_id)) [
        | inr other ↦ ground (arith, found, other, asked)
        | inl own ↦ elim (Result-cases (titled strip (or_keep title s.title))) [
          | inl (e, r) ↦ ground (arith, found, own, r, asked)
          | inr (normalized, r) ↦
              let f = rewritten normalized (or_keep pinned s.pinned) (s.version + 1) now in
              let p =
                λ (w : ConversationSession). (w.workspace_id == workspace_id) && (w.version =? v) in
              let one = rowcount-Unique session_key session_id p db.sessions s unique found in
              let moved =
                lookup-update_where session_key session_id session_id p f db.sessions (λ w. refl) in
              ground (arith, found, own, r, asked, one, moved, eq_refl session_id)
        ]
      ]
    ]

abbrev given_or : {A : Type 0} → Option A → A → A
given_or (some a) b = a
given_or none b = b

-- The checks in order, and the session with the title and the pin that were given, or its own, the
-- next version and the time.
abbrev pub updated :
    (String → String)
    → ℕ
    → String
    → ℕ
    → Option String
    → Option Bool
    → Option ConversationSession
    → Result ConversationSession
updated strip now workspace_id v title pinned none = err session_not_found
updated strip now workspace_id v title pinned (some s) =
    let new_title = strip (given_or title s.title) in
    if not (s.workspace_id == workspace_id)
    then err session_not_found
    else if ltb (text_length new_title) 1
    then err value_error
    else if ltb 160 (text_length new_title)
    then err value_error
    else if not (s.version =? v)
    then err session_version_conflict
    else ok (record s {
      title = new_title;
      pinned = given_or pinned s.pinned;
      version = s.version + 1;
      updated_at = now;
    })

-- The session that was returned, with its latest run.
abbrev pub shown : Db → Result ConversationSession → Result SessionView
shown db (err e) = err e
shown db (ok s) = ok (record { session = s; latest_run_id = latest_run s.id db })

-- With unique ids, at least one field to change and no other write between the first look and the
-- transaction, `update` raises that the workspace has no such session, that the stripped title has
-- not from 1 to 160 characters, or that the version is another, in this order, and changes nothing.
-- Otherwise it returns the session with the title and the pin that were given, or its own, the next
-- version and the time; that is the session's row then, the row of every other id is as it was, and
-- no other table has changed.
pub update-eq :
    (strip : String → String) (now : ℕ) (session_id workspace_id : String) (v : ℕ)
    (title : Option String) (pinned : Option Bool) (db : Db) (j : String)
    → Unique session_key db.sessions
    → (not (is_some title) && not (is_some pinned)) ≡ false
    → let t = update strip now session_id workspace_id v title pinned db db in
      let expected =
        updated strip now workspace_id v title pinned (lookup session_key session_id db.sessions) in
      (t.0 ≡ shown db expected)
      × (lookup session_key j t.1.sessions
          ≡ row_after expected session_id j (lookup session_key j db.sessions))
      × (t.1 ≡ left_by expected db (record db { sessions = t.1.sessions }))
unfolding update_outcome update_found get_for_workspace_in get_in titled view rewritten
update-eq strip now session_id workspace_id v title pinned db j unique asked =
    let swap = update-swap strip now session_id workspace_id v title pinned db unique asked in
    elim (Option-cases (lookup session_key session_id db.sessions)) [
      | inl absent ↦ ground (arith, swap, absent)
      | inr (s, found) ↦
          let f =
            rewritten (strip (or_keep title s.title)) (or_keep pinned s.pinned) (s.version + 1)
              now in
          let p =
            λ (w : ConversationSession). (w.workspace_id == workspace_id) && (w.version =? v) in
          let row = lookup-update_where session_key session_id j p f db.sessions (λ w. refl) in
          ground (arith, swap, found, eq_iff session_id j, row)
    ]
