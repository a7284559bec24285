-- ===== src/Sessions/Model.antt =====
-- core/src/weatherflow/sessions/models.py; `latest_run_id` is a column of the query, not a field.
use weatherflow.Prelude.{ℕ, String, Bool}

pub record ConversationSession : Type 0 where
  pub id : String
  pub workspace_id : String
  pub title : String
  pub pinned : Bool
  pub version : ℕ
  pub created_at : ℕ
  pub updated_at : ℕ
