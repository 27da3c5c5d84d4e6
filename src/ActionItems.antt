-- ===== src/ActionItems.antt =====
-- src/action-items: an action is submitted, approved or rejected, and its execution is recorded.
pub mod Execution
pub mod Approval
pub mod Idempotency
pub mod Tests
