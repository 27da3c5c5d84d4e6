-- ===== src/Odc.antt =====
-- src/odc: the applications to a program, from the draft to the decision.
pub mod Completeness
pub mod Screening
pub mod Application
pub mod Lifecycle
pub mod Dossier
pub mod Scoring
pub mod History
pub mod Path
pub mod Submission
pub mod Outreach
pub mod Tests
