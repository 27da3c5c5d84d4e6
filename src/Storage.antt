-- ===== src/Storage.antt =====
-- The files of applications: src/odc/storage/odc-storage-key.ts and src/odc/odc-documents.service.ts.
-- A text is the list of its UTF-16 code units here, since the code looks into it.
pub mod Texts
pub mod Keys
pub mod Segments
pub mod Patterns
pub mod Canonical
pub mod Belongs
pub mod Built
pub mod Files
pub mod Memory
pub mod Filenames
pub mod SafeNames
pub mod Upload
pub mod Slots
pub mod Downloads
pub mod Orphans
pub mod Tests
