-- ===== src/Tests.antt =====
-- Concrete stores and rows that the theorems of the other modules are applied to.
pub mod DataFiles
pub mod Snapshots
pub mod Stores
pub mod Objects
pub mod Caches
pub mod Pages
pub mod Joins
pub mod Encodings
pub mod Keys
pub mod SchemaVersions
pub mod Changes
pub mod Watermarks
