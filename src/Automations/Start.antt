-- ===== src/Automations/Start.antt =====
-- `startRun` and `persistRun` of src/ops-automation/automations.service.ts.
pub mod Index
pub mod Create
pub mod Ingest
pub mod Guards
pub mod Replays
pub mod Races
pub mod Memory
pub mod Tests
