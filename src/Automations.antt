-- ===== src/Automations.antt =====
-- src/ops-automation: the engine that runs the steps of an automation.
pub mod Policy
pub mod Rows
pub mod Claims
pub mod Actions
pub mod Inputs
pub mod Engine
pub mod Start
pub mod Interleavings
pub mod Workers
pub mod Races
pub mod Tests
