-- ===== src/Opportunities.antt =====
-- src/opportunities and src/intelligence: the opportunities that an audit yields.
pub mod Rows
pub mod Generation
pub mod Sync
pub mod Again
pub mod Listing
pub mod Tests
