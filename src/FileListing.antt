-- ===== src/FileListing.antt =====
-- crates/ducklake-catalog/src/file_listing.rs: the changes that commits leave in the catalog.
pub mod ChangeKind
use aux_ducklake.Ids.{TableId, DataFileId, CatalogOrderId}

pub data DataFileChangeKind : Type 0 where
  added removed : DataFileChangeKind

pub record DataFileChange : Type 0 where
  pub table_id : TableId
  pub order : CatalogOrderId
  pub kind : DataFileChangeKind
  pub data_file_id : DataFileId
