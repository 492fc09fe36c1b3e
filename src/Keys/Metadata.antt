-- ===== src/Keys/Metadata.antt =====
-- crates/ducklake-catalog/src/keys.rs: keys of counters, versions and snapshot rows.
use aux_ducklake.Base.{ℕ, [], ◌∷◌}
use aux_ducklake.Bytes.{Bytes}
use aux_ducklake.Ids.{CatalogId, RawSnapshotSequence, TableId, SchemaId, CatalogOrderId}
use aux_ducklake.Keys.{concat, push, u64, codes, family_prefix}
use aux_ducklake.Keys.Family.{KeyFamily}

unfoldable pub inline_next_row_id_key : CatalogId → TableId → SchemaId → Bytes
inline_next_row_id_key catalog table_id schema_id = concat (
    family_prefix catalog KeyFamily.metadata_version
    ∷ codes "inline-next-row-id/"
    ∷ u64 table_id
    ∷ push b'/'
    ∷ u64 schema_id
    ∷ [])

unfoldable pub table_next_row_id_key : CatalogId → TableId → Bytes
table_next_row_id_key catalog table_id = concat (
    family_prefix catalog KeyFamily.metadata_version
    ∷ codes "table-next-row-id/"
    ∷ u64 table_id
    ∷ [])

unfoldable pub table_file_stats_version_key : CatalogId → TableId → Bytes
table_file_stats_version_key catalog table_id = concat (
    family_prefix catalog KeyFamily.metadata_version
    ∷ codes "table-file-stats/"
    ∷ u64 table_id
    ∷ [])

unfoldable pub catalog_file_stats_version_key : CatalogId → Bytes
catalog_file_stats_version_key catalog =
    concat (family_prefix catalog KeyFamily.metadata_version ∷ codes "catalog-file-stats" ∷ [])

unfoldable pub conflict_watermarks_initialized_key : CatalogId → Bytes
conflict_watermarks_initialized_key catalog = concat (
    family_prefix catalog KeyFamily.metadata_version ∷ codes "conflict-watermarks-initialized" ∷ [])

unfoldable pub conflict_max_catalog_id_key : CatalogId → Bytes
conflict_max_catalog_id_key catalog =
    concat (family_prefix catalog KeyFamily.metadata_version ∷ codes "conflict-max-catalog-id" ∷ [])

unfoldable pub conflict_max_file_id_key : CatalogId → Bytes
conflict_max_file_id_key catalog =
    concat (family_prefix catalog KeyFamily.metadata_version ∷ codes "conflict-max-file-id" ∷ [])

unfoldable pub current_schema_version_key : CatalogId → Bytes
current_schema_version_key catalog =
    concat (family_prefix catalog KeyFamily.metadata_version ∷ codes "current-schema-version" ∷ [])

unfoldable pub schema_version_history_prefix : CatalogId → Bytes
schema_version_history_prefix catalog =
    concat (family_prefix catalog KeyFamily.metadata_version ∷ codes "schema-version-history/" ∷ [])

unfoldable pub schema_version_history_key : CatalogId → CatalogOrderId → Bytes
schema_version_history_key catalog order =
    concat (schema_version_history_prefix catalog ∷ order.bytes ∷ [])

unfoldable pub schema_version_history_scan_end : CatalogId → CatalogOrderId → Bytes
schema_version_history_scan_end catalog order =
    concat (schema_version_history_key catalog order ∷ push 0xff ∷ [])

unfoldable pub schema_version_begin_snapshot_key : CatalogId → ℕ → Bytes
schema_version_begin_snapshot_key catalog schema_version = concat (
    family_prefix catalog KeyFamily.metadata_version
    ∷ codes "schema-version-begin-snapshot/"
    ∷ u64 schema_version
    ∷ [])

unfoldable pub catalog_snapshot_version_key : CatalogId → Bytes
catalog_snapshot_version_key catalog =
    concat
      (family_prefix catalog KeyFamily.metadata_version ∷ codes "catalog-snapshot-version" ∷ [])

unfoldable pub latest_snapshot_row_key : CatalogId → Bytes
latest_snapshot_row_key catalog =
    concat (family_prefix catalog KeyFamily.metadata_version ∷ codes "latest-snapshot-row" ∷ [])

unfoldable pub raw_snapshot_row_key : CatalogId → RawSnapshotSequence → Bytes
raw_snapshot_row_key catalog raw_sequence = concat (
    family_prefix catalog KeyFamily.metadata_version
    ∷ codes "raw-snapshot-row/"
    ∷ u64 raw_sequence
    ∷ [])
