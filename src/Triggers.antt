-- ===== src/Triggers.antt =====
-- The triggers of automations in src/ops-automation/automations.service.ts.
pub mod Trigger
pub mod Coherence
pub mod Tests
