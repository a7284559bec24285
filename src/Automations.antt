-- ===== src/Automations.antt =====
-- core/src/weatherflow/automations: schedules, and the runs that they submit.
pub mod Schedule
pub mod Model
pub mod Repository
pub mod Claims
pub mod Service
pub mod Queue
