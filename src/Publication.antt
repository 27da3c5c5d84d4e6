-- ===== src/Publication.antt =====
-- src/content-studio/publication-policy.ts: whether a piece of content may be published.
pub mod Policy
pub mod Permission
pub mod Tests
