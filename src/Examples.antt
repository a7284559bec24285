-- ===== src/Examples.antt =====
-- Concrete inputs at which the theorems apply.
mod Fixtures
mod Rows
mod Protocol
mod Operations
mod Execution
mod Categories
mod Events
mod Automations
mod Controls
mod Continuations
mod Observations
