-- ===== src/Automations/Engine.antt =====
-- The engine of src/ops-automation/automations.service.ts: the state that a worker reads and
-- writes, the calls that may throw, and the execution and retry of steps.
pub mod World
pub mod Run
pub mod Retry
pub mod Approval
pub mod Decisions
pub mod Statements
pub mod Safety
