-- ===== src/Automations/Inputs.antt =====
-- The inputs of steps: src/ops-automation/automation.types.ts, automation-templating.ts and
-- `canonicalizeInput` of actions/ops-actions-registry.service.ts.
pub mod Json
pub mod Canonical
pub mod Stable
pub mod Emails
pub mod Idempotence
pub mod Templating
pub mod Placeholders
pub mod Planning
pub mod Definition
pub mod Tests
