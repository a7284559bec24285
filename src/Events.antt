-- ===== src/Events.antt =====
-- core/src/weatherflow/events: the append-only event ledger, and how it is sent.
pub mod Model
pub mod Ledger
pub mod Stream
