-- ===== src/Scheduler.antt =====
-- src/ops-automation/automation-scheduler.service.ts: the tick that starts the due automations.
pub mod Pool
pub mod Completion
pub mod Claims
pub mod Instances
pub mod Occurrences
pub mod Tests
