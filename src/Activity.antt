-- ===== src/Activity.antt =====
-- core/src/weatherflow/activity: the categories of observed activity.
pub mod Categories
pub mod Deepest
