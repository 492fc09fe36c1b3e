-- ===== src/Keys/Change.antt =====
-- crates/ducklake-catalog/src/change_keys.rs: keys of the change feeds.
use aux_ducklake.Base.{ℕ, [], ◌∷◌}
use aux_ducklake.Bytes.{Bytes}
use aux_ducklake.Ids.{CatalogId, TableId, SchemaId, DataFileId, DeleteFileId, CatalogOrderId}
use aux_ducklake.FileListing.{DataFileChangeKind}
use aux_ducklake.FileListing.ChangeKind.{code, InlineRowChangeKind, inline_code}
use aux_ducklake.Keys.{concat, push, u64, family_prefix}
use aux_ducklake.Keys.Family.{KeyFamily}

unfoldable pub table_data_file_change_prefix : CatalogId → TableId → Bytes
table_data_file_change_prefix catalog table_id =
    concat (family_prefix catalog KeyFamily.table_changes ∷ u64 table_id ∷ push b'/' ∷ [])

unfoldable pub table_data_file_change_key :
    CatalogId → TableId → CatalogOrderId → DataFileChangeKind → DataFileId → Bytes
table_data_file_change_key catalog table_id order kind data_file_id = concat (
    table_data_file_change_prefix catalog table_id
    ∷ order.bytes
    ∷ push b'/'
    ∷ push (code kind)
    ∷ push b'/'
    ∷ u64 data_file_id
    ∷ [])

unfoldable pub snapshot_data_file_change_prefix : CatalogId → Bytes
snapshot_data_file_change_prefix catalog = family_prefix catalog KeyFamily.snapshot_changes

unfoldable pub snapshot_data_file_change_key :
    CatalogId → TableId → CatalogOrderId → DataFileChangeKind → DataFileId → Bytes
snapshot_data_file_change_key catalog table_id order kind data_file_id = concat (
    snapshot_data_file_change_prefix catalog
    ∷ order.bytes
    ∷ push b'/'
    ∷ u64 table_id
    ∷ push b'/'
    ∷ push (code kind)
    ∷ push b'/'
    ∷ u64 data_file_id
    ∷ [])

unfoldable pub table_data_file_change_scan_start : CatalogId → TableId → CatalogOrderId → Bytes
table_data_file_change_scan_start catalog table_id start_order =
    concat (table_data_file_change_prefix catalog table_id ∷ start_order.bytes ∷ [])

unfoldable pub table_data_file_change_scan_end : CatalogId → TableId → CatalogOrderId → Bytes
table_data_file_change_scan_end catalog table_id end_order =
    concat (table_data_file_change_prefix catalog table_id ∷ end_order.bytes ∷ push 0xff ∷ [])

unfoldable pub table_delete_file_change_prefix : CatalogId → TableId → Bytes
table_delete_file_change_prefix catalog table_id =
    concat (family_prefix catalog KeyFamily.delete_file_change ∷ u64 table_id ∷ push b'/' ∷ [])

unfoldable pub table_delete_file_change_key :
    CatalogId → TableId → CatalogOrderId → DeleteFileId → Bytes
table_delete_file_change_key catalog table_id order delete_file_id = concat (
    table_delete_file_change_prefix catalog table_id
    ∷ order.bytes
    ∷ push b'/'
    ∷ u64 delete_file_id
    ∷ [])

unfoldable pub table_delete_file_change_scan_start : CatalogId → TableId → CatalogOrderId → Bytes
table_delete_file_change_scan_start catalog table_id start_order =
    concat (table_delete_file_change_prefix catalog table_id ∷ start_order.bytes ∷ [])

unfoldable pub table_delete_file_change_scan_end : CatalogId → TableId → CatalogOrderId → Bytes
table_delete_file_change_scan_end catalog table_id end_order =
    concat (table_delete_file_change_prefix catalog table_id ∷ end_order.bytes ∷ push 0xff ∷ [])

unfoldable pub order_delete_file_change_prefix : CatalogId → Bytes
order_delete_file_change_prefix catalog =
    family_prefix catalog KeyFamily.delete_file_change_by_order

unfoldable pub order_delete_file_change_key :
    CatalogId → CatalogOrderId → TableId → DeleteFileId → Bytes
order_delete_file_change_key catalog order table_id delete_file_id = concat (
    order_delete_file_change_prefix catalog
    ∷ order.bytes
    ∷ push b'/'
    ∷ u64 table_id
    ∷ push b'/'
    ∷ u64 delete_file_id
    ∷ [])

unfoldable pub order_delete_file_change_scan_start : CatalogId → CatalogOrderId → Bytes
order_delete_file_change_scan_start catalog start_order =
    concat (order_delete_file_change_prefix catalog ∷ start_order.bytes ∷ [])

unfoldable pub order_delete_file_change_scan_end : CatalogId → CatalogOrderId → Bytes
order_delete_file_change_scan_end catalog end_order =
    concat (order_delete_file_change_prefix catalog ∷ end_order.bytes ∷ push 0xff ∷ [])

unfoldable pub table_inline_row_change_prefix : CatalogId → TableId → Bytes
table_inline_row_change_prefix catalog table_id =
    concat (family_prefix catalog KeyFamily.inline_row_change ∷ u64 table_id ∷ push b'/' ∷ [])

unfoldable pub table_inline_row_change_key :
    CatalogId → TableId → CatalogOrderId → InlineRowChangeKind → SchemaId → ℕ → Bytes
table_inline_row_change_key catalog table_id order kind schema_id row_id = concat (
    table_inline_row_change_prefix catalog table_id
    ∷ order.bytes
    ∷ push b'/'
    ∷ push (inline_code kind)
    ∷ push b'/'
    ∷ u64 schema_id
    ∷ push b'/'
    ∷ u64 row_id
    ∷ [])

unfoldable pub inline_table_change_prefix : CatalogId → Bytes
inline_table_change_prefix catalog = family_prefix catalog KeyFamily.inline_table_change

unfoldable pub inline_table_change_key :
    CatalogId → CatalogOrderId → InlineRowChangeKind → TableId → Bytes
inline_table_change_key catalog order kind table_id = concat (
    inline_table_change_prefix catalog
    ∷ order.bytes
    ∷ push b'/'
    ∷ push (inline_code kind)
    ∷ push b'/'
    ∷ u64 table_id
    ∷ [])

unfoldable pub table_schema_kind_inline_row_change_prefix :
    CatalogId → TableId → SchemaId → InlineRowChangeKind → Bytes
table_schema_kind_inline_row_change_prefix catalog table_id schema_id kind = concat (
    family_prefix catalog KeyFamily.inline_row_change_by_schema_kind
    ∷ u64 table_id
    ∷ push b'/'
    ∷ u64 schema_id
    ∷ push b'/'
    ∷ push (inline_code kind)
    ∷ push b'/'
    ∷ [])

unfoldable pub table_schema_kind_inline_row_change_key :
    CatalogId → TableId → SchemaId → InlineRowChangeKind → CatalogOrderId → ℕ → Bytes
table_schema_kind_inline_row_change_key catalog table_id schema_id kind order row_id = concat (
    table_schema_kind_inline_row_change_prefix catalog table_id schema_id kind
    ∷ order.bytes
    ∷ push b'/'
    ∷ u64 row_id
    ∷ [])

unfoldable pub table_schema_kind_inline_row_change_scan_start :
    CatalogId → TableId → SchemaId → InlineRowChangeKind → CatalogOrderId → Bytes
table_schema_kind_inline_row_change_scan_start catalog table_id schema_id kind start_order =
    concat (
      table_schema_kind_inline_row_change_prefix catalog table_id schema_id kind
      ∷ start_order.bytes
      ∷ [])

unfoldable pub table_schema_kind_inline_row_change_scan_end :
    CatalogId → TableId → SchemaId → InlineRowChangeKind → CatalogOrderId → Bytes
table_schema_kind_inline_row_change_scan_end catalog table_id schema_id kind end_order = concat (
    table_schema_kind_inline_row_change_prefix catalog table_id schema_id kind
    ∷ end_order.bytes
    ∷ push 0xff
    ∷ [])

unfoldable pub table_inline_row_change_scan_start : CatalogId → TableId → CatalogOrderId → Bytes
table_inline_row_change_scan_start catalog table_id start_order =
    concat (table_inline_row_change_prefix catalog table_id ∷ start_order.bytes ∷ [])

unfoldable pub table_inline_row_change_scan_end : CatalogId → TableId → CatalogOrderId → Bytes
table_inline_row_change_scan_end catalog table_id end_order =
    concat (table_inline_row_change_prefix catalog table_id ∷ end_order.bytes ∷ push 0xff ∷ [])
