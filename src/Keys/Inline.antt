-- ===== src/Keys/Inline.antt =====
-- crates/ducklake-catalog/src/keys.rs: keys of inline rows and inline file deletions.
use aux_ducklake.Base.{ℕ, [], ◌∷◌}
use aux_ducklake.Bytes.{Bytes}
use aux_ducklake.Ids.{CatalogId, TableId, SchemaId, DataFileId, CatalogOrderId}
use aux_ducklake.Keys.{concat, push, u64, family_prefix}
use aux_ducklake.Keys.Family.{KeyFamily}

unfoldable pub inline_live_row_key : CatalogId → TableId → SchemaId → ℕ → Bytes
inline_live_row_key catalog table_id schema_id row_id = concat (
    family_prefix catalog KeyFamily.inline_live_row
    ∷ u64 table_id
    ∷ push b'/'
    ∷ u64 schema_id
    ∷ push b'/'
    ∷ u64 row_id
    ∷ [])

unfoldable pub inline_current_row_prefix : CatalogId → TableId → SchemaId → Bytes
inline_current_row_prefix catalog table_id schema_id = concat (
    family_prefix catalog KeyFamily.inline_current_row
    ∷ u64 table_id
    ∷ push b'/'
    ∷ u64 schema_id
    ∷ push b'/'
    ∷ [])

unfoldable pub inline_current_row_key : CatalogId → TableId → SchemaId → ℕ → Bytes
inline_current_row_key catalog table_id schema_id row_id =
    concat (inline_current_row_prefix catalog table_id schema_id ∷ u64 row_id ∷ [])

unfoldable pub inline_table_end_key :
    CatalogId → TableId → CatalogOrderId → SchemaId → CatalogOrderId → Bytes
inline_table_end_key catalog table_id end_order schema_id begin_order = concat (
    family_prefix catalog KeyFamily.end_order
    ∷ u64 table_id
    ∷ push b'/'
    ∷ end_order.bytes
    ∷ push b'/'
    ∷ push b'i'
    ∷ push b'/'
    ∷ u64 schema_id
    ∷ push b'/'
    ∷ begin_order.bytes
    ∷ [])

unfoldable pub inline_file_deletion_table_prefix : CatalogId → TableId → Bytes
inline_file_deletion_table_prefix catalog table_id =
    concat (family_prefix catalog KeyFamily.inline_file_deletion ∷ u64 table_id ∷ push b'/' ∷ [])

unfoldable pub inline_file_deletion_file_prefix : CatalogId → TableId → DataFileId → Bytes
inline_file_deletion_file_prefix catalog table_id data_file_id =
    concat (inline_file_deletion_table_prefix catalog table_id ∷ u64 data_file_id ∷ push b'/' ∷ [])

unfoldable pub inline_file_deletion_key :
    CatalogId → TableId → DataFileId → CatalogOrderId → ℕ → Bytes
inline_file_deletion_key catalog table_id data_file_id begin_order row_id = concat (
    inline_file_deletion_file_prefix catalog table_id data_file_id
    ∷ begin_order.bytes
    ∷ push b'/'
    ∷ u64 row_id
    ∷ [])
