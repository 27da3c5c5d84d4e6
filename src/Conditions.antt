-- ===== src/Conditions.antt =====
-- src/ops-automation/condition-engine.ts: the condition trees of an automation.
pub mod Tree
pub mod Validate
pub mod Evaluate
pub mod Meaning
pub mod Validity
pub mod Comparisons
pub mod Soundness
pub mod Tests
