-- ===== src/Runtime.antt =====
-- core/src/weatherflow/runtime: the execution of approved actions, checkpoints, controls and
-- observations.
pub mod Validation
pub mod ActionExecution
pub mod Safety
pub mod Outcomes
pub mod Results
pub mod Models
pub mod Checkpoints
pub mod Controls
pub mod Observations
