-- ===== src/Keys/Object.antt =====
-- crates/ducklake-catalog/src/object_keys.rs: keys of tables, schemas, views and macros.
use aux_ducklake.Base.{[], ◌∷◌}
use aux_ducklake.Bytes.{Bytes}
use aux_ducklake.Ids.{CatalogId, TableId, MacroId, SchemaId, CatalogOrderId}
use aux_ducklake.Keys.{concat, push, u64, family_prefix, to_ascii_lowercase}
use aux_ducklake.Keys.Family.{KeyFamily}

unfoldable pub conflict_fence_key : CatalogId → Bytes → Bytes
conflict_fence_key catalog scope =
    concat (family_prefix catalog KeyFamily.conflict_fence ∷ scope ∷ [])

unfoldable pub table_object_scan_prefix : CatalogId → Bytes
table_object_scan_prefix catalog =
    concat (family_prefix catalog KeyFamily.object ∷ push b't' ∷ push b'/' ∷ [])

unfoldable pub table_object_prefix : CatalogId → TableId → Bytes
table_object_prefix catalog table_id =
    concat (table_object_scan_prefix catalog ∷ u64 table_id ∷ push b'/' ∷ [])

unfoldable pub table_object_key : CatalogId → TableId → CatalogOrderId → Bytes
table_object_key catalog table_id order =
    concat (table_object_prefix catalog table_id ∷ order.bytes ∷ [])

unfoldable pub current_table_row_prefix : CatalogId → Bytes
current_table_row_prefix catalog =
    concat (family_prefix catalog KeyFamily.object ∷ push b'T' ∷ push b'/' ∷ [])

unfoldable pub current_table_row_key : CatalogId → TableId → Bytes
current_table_row_key catalog table_id =
    concat (current_table_row_prefix catalog ∷ u64 table_id ∷ [])

unfoldable pub current_table_name_key : CatalogId → SchemaId → Bytes → Bytes
current_table_name_key catalog schema_id name = concat (
    family_prefix catalog KeyFamily.object
    ∷ push b'n'
    ∷ push b'/'
    ∷ u64 schema_id
    ∷ push b'/'
    ∷ to_ascii_lowercase name
    ∷ [])

unfoldable pub table_visibility_prefix : CatalogId → Bytes
table_visibility_prefix catalog =
    concat (family_prefix catalog KeyFamily.object ∷ push b'V' ∷ push b'/' ∷ [])

unfoldable pub table_visibility_key : CatalogId → CatalogOrderId → TableId → Bytes
table_visibility_key catalog begin_order table_id =
    concat (table_visibility_prefix catalog ∷ begin_order.bytes ∷ push b'/' ∷ u64 table_id ∷ [])

unfoldable pub table_visibility_scan_end : CatalogId → CatalogOrderId → Bytes
table_visibility_scan_end catalog snapshot_order =
    concat (table_visibility_prefix catalog ∷ snapshot_order.bytes ∷ push 0xff ∷ [])

unfoldable pub schema_object_scan_prefix : CatalogId → Bytes
schema_object_scan_prefix catalog =
    concat (family_prefix catalog KeyFamily.object ∷ push b's' ∷ push b'/' ∷ [])

unfoldable pub schema_object_prefix : CatalogId → SchemaId → Bytes
schema_object_prefix catalog schema_id =
    concat (schema_object_scan_prefix catalog ∷ u64 schema_id ∷ push b'/' ∷ [])

unfoldable pub schema_object_key : CatalogId → SchemaId → CatalogOrderId → Bytes
schema_object_key catalog schema_id order =
    concat (schema_object_prefix catalog schema_id ∷ order.bytes ∷ [])

unfoldable pub view_object_scan_prefix : CatalogId → Bytes
view_object_scan_prefix catalog =
    concat (family_prefix catalog KeyFamily.object ∷ push b'v' ∷ push b'/' ∷ [])

unfoldable pub view_object_prefix : CatalogId → TableId → Bytes
view_object_prefix catalog view_id =
    concat (view_object_scan_prefix catalog ∷ u64 view_id ∷ push b'/' ∷ [])

unfoldable pub view_object_key : CatalogId → TableId → CatalogOrderId → Bytes
view_object_key catalog view_id order =
    concat (view_object_prefix catalog view_id ∷ order.bytes ∷ [])

unfoldable pub macro_object_scan_prefix : CatalogId → Bytes
macro_object_scan_prefix catalog =
    concat (family_prefix catalog KeyFamily.object ∷ push b'm' ∷ push b'/' ∷ [])

unfoldable pub macro_object_prefix : CatalogId → MacroId → Bytes
macro_object_prefix catalog macro_id =
    concat (macro_object_scan_prefix catalog ∷ u64 macro_id ∷ push b'/' ∷ [])

unfoldable pub macro_object_key : CatalogId → MacroId → CatalogOrderId → Bytes
macro_object_key catalog macro_id order =
    concat (macro_object_prefix catalog macro_id ∷ order.bytes ∷ [])
