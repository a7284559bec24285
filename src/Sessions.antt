-- ===== src/Sessions.antt =====
-- core/src/weatherflow/sessions: conversation sessions.
pub mod Model
pub mod Repository
pub mod Conversations
