-- ===== src/Runs.antt =====
-- core/src/weatherflow/runs: durable runs and their status machine.
pub mod Status
pub mod Model
pub mod Repository
pub mod Swap
pub mod Coordinator
pub mod Attach
pub mod Moves
pub mod History
pub mod Idempotency
pub mod Lifecycle
