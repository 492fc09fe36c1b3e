-- ===== src/Keys/DataFile.antt =====
-- crates/ducklake-catalog/src/keys.rs: keys of data files and delete files.
use aux_ducklake.Base.{[], ◌∷◌}
use aux_ducklake.Bytes.{Bytes}
use aux_ducklake.Ids.{CatalogId, TableId, DataFileId, DeleteFileId, CatalogOrderId}
use aux_ducklake.Keys.{concat, push, u64, family_prefix}
use aux_ducklake.Keys.Family.{KeyFamily}

unfoldable pub data_file_key : CatalogId → DataFileId → Bytes
data_file_key catalog data_file_id =
    concat (family_prefix catalog KeyFamily.data_file ∷ u64 data_file_id ∷ [])

unfoldable pub current_data_file_prefix : CatalogId → TableId → Bytes
current_data_file_prefix catalog table_id =
    concat (family_prefix catalog KeyFamily.current_data_file ∷ u64 table_id ∷ push b'/' ∷ [])

unfoldable pub current_data_file_key : CatalogId → TableId → DataFileId → Bytes
current_data_file_key catalog table_id data_file_id =
    concat (current_data_file_prefix catalog table_id ∷ u64 data_file_id ∷ [])

unfoldable pub data_file_begin_key : CatalogId → TableId → CatalogOrderId → DataFileId → Bytes
data_file_begin_key catalog table_id begin_order data_file_id = concat (
    family_prefix catalog KeyFamily.data_file_begin
    ∷ u64 table_id
    ∷ push b'/'
    ∷ begin_order.bytes
    ∷ push b'/'
    ∷ u64 data_file_id
    ∷ [])

unfoldable pub data_file_begin_prefix : CatalogId → TableId → Bytes
data_file_begin_prefix catalog table_id =
    concat (family_prefix catalog KeyFamily.data_file_begin ∷ u64 table_id ∷ push b'/' ∷ [])

unfoldable pub data_file_begin_scan_end : CatalogId → TableId → CatalogOrderId → Bytes
data_file_begin_scan_end catalog table_id snapshot_order =
    concat (data_file_begin_prefix catalog table_id ∷ snapshot_order.bytes ∷ push 0xff ∷ [])

unfoldable pub data_file_end_key : CatalogId → TableId → CatalogOrderId → DataFileId → Bytes
data_file_end_key catalog table_id end_order data_file_id = concat (
    family_prefix catalog KeyFamily.end_order
    ∷ u64 table_id
    ∷ push b'/'
    ∷ end_order.bytes
    ∷ push b'/'
    ∷ u64 data_file_id
    ∷ [])

unfoldable pub delete_file_end_key : CatalogId → TableId → CatalogOrderId → DeleteFileId → Bytes
delete_file_end_key catalog table_id end_order delete_file_id = concat (
    family_prefix catalog KeyFamily.end_order
    ∷ u64 table_id
    ∷ push b'/'
    ∷ end_order.bytes
    ∷ push b'/'
    ∷ push b'x'
    ∷ push b'/'
    ∷ u64 delete_file_id
    ∷ [])

unfoldable pub delete_file_key : CatalogId → DeleteFileId → Bytes
delete_file_key catalog delete_file_id =
    concat (family_prefix catalog KeyFamily.delete_file ∷ u64 delete_file_id ∷ [])

unfoldable pub current_delete_file_key : CatalogId → DataFileId → Bytes
current_delete_file_key catalog data_file_id =
    concat (family_prefix catalog KeyFamily.current_delete_file ∷ u64 data_file_id ∷ [])

unfoldable pub delete_file_timeline_prefix : CatalogId → DataFileId → Bytes
delete_file_timeline_prefix catalog data_file_id =
    concat
      (family_prefix catalog KeyFamily.delete_file_timeline ∷ u64 data_file_id ∷ push b'/' ∷ [])

unfoldable pub delete_file_timeline_key :
    CatalogId → DataFileId → CatalogOrderId → DeleteFileId → Bytes
delete_file_timeline_key catalog data_file_id begin_order delete_file_id = concat (
    delete_file_timeline_prefix catalog data_file_id
    ∷ begin_order.bytes
    ∷ push b'/'
    ∷ u64 delete_file_id
    ∷ [])

unfoldable pub delete_file_timeline_scan_end : CatalogId → DataFileId → CatalogOrderId → Bytes
delete_file_timeline_scan_end catalog data_file_id snapshot_order =
    concat
      (delete_file_timeline_prefix catalog data_file_id ∷ snapshot_order.bytes ∷ push 0xff ∷ [])
