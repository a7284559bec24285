-- ===== src/Trust.antt =====
-- core/src/weatherflow/trust: actions, approvals, the supervised policy and their coordinator.
pub mod ActionStatus
pub mod ApprovalStatus
pub mod Model
pub mod Policy
pub mod Visibility
pub mod Actions
pub mod Approvals
pub mod Coordinator
pub mod Decisions
pub mod Swap
pub mod Authorization
pub mod Lifecycle
