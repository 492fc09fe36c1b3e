-- ===== src/Conflict/Table.antt =====
-- crates/ducklake-catalog/src/data_file_changes.rs, and the conflicts of one table of conflict.rs.
use aux_ducklake.Base.{
  filter, ℕ, ◌+◌, Bool, true, false, not, ◌&&◌, List, if◌then◌else◌, ◌==◌, length,
}
use aux_ducklake.Bytes.{Bytes, strip_prefix}
use aux_ducklake.Bytes.Slices.{slice, byte_at}
use aux_ducklake.Error.{
  CatalogResult, ok, invalid_key, invalid_mutation, ok_or, ensure, collect_map, ◌>>=◌, ◌>>◌,
}
use aux_ducklake.Ids.{
  CatalogId, TableId, CatalogOrderKind, CatalogOrderId, order_len, lt_order, eq_kind,
}
use aux_ducklake.Ids.CatalogOrder.{from_bytes}
use aux_ducklake.FileListing.{DataFileChangeKind, added, removed, DataFileChange}
use aux_ducklake.FileListing.ChangeKind.{from_code}
use aux_ducklake.Keys.Change.{
  table_data_file_change_prefix, table_data_file_change_scan_start, table_data_file_change_scan_end,
}
use aux_ducklake.Kv.{OrderedCatalogKv, RangeItem, RangeDirection, usize_max}
use aux_ducklake.Rows.{read_uint}

unfoldable pub decode_data_file_change_key :
    TableId → Bytes → Bytes → CatalogOrderKind → CatalogResult DataFileChange
decode_data_file_change_key table_id prefix key order_kind = do
  tail ← ok_or (strip_prefix prefix key) (invalid_key "table data-file change key has wrong prefix")
  let minimum_len : ℕ = order_len + 1 + 1 + 1 + 8
  ensure (length tail == minimum_len)
      (invalid_key "table data-file change key tail has wrong length")
  let order_end : ℕ = order_len
  first ← byte_at tail order_end
  second ← byte_at tail (order_end + 2)
  ensure (first == b'/' && second == b'/')
      (invalid_key "table data-file change key separators are invalid")
  order ← slice tail 0 order_end
  code ← byte_at tail (order_end + 1)
  kind ← from_code code
  let data_file_id_start : ℕ = order_end + 3
  data_file_id ← read_uint tail data_file_id_start (length tail)
  ok (record {
    table_id = table_id;
    order = from_bytes order_kind order;
    kind = kind;
    data_file_id = data_file_id;
  })

unfoldable pub list_data_file_changes :
    OrderedCatalogKv
    → CatalogId
    → TableId
    → CatalogOrderId
    → CatalogOrderId
    → CatalogResult (List DataFileChange)
list_data_file_changes kv catalog table_id start_order end_order = do
  ensure (not (lt_order end_order start_order))
      (invalid_mutation "change-feed end order cannot precede start order")
  let prefix = table_data_file_change_prefix catalog table_id
  let order_kind =
      if eq_kind start_order.kind end_order.kind then end_order.kind else CatalogOrderKind.uuid_v7
  items ←
      kv.scan_range (table_data_file_change_scan_start catalog table_id start_order)
        (table_data_file_change_scan_end catalog table_id end_order) RangeDirection.forward
        usize_max
  collect_map
      (λ (item : RangeItem). decode_data_file_change_key table_id prefix item.key order_kind) items

pub data DataCommitIntent : Type 0 where
  append_files rewrite_or_delete_files : DataCommitIntent

unfoldable pub conflicts_with : DataCommitIntent → DataFileChangeKind → Bool
conflicts_with append_files added = false
conflicts_with append_files removed = true
conflicts_with rewrite_or_delete_files kind = true

unfoldable pub list_data_conflicts_since_base :
    OrderedCatalogKv
    → CatalogId
    → TableId
    → CatalogOrderId
    → CatalogOrderId
    → DataCommitIntent
    → CatalogResult (List DataFileChange)
list_data_conflicts_since_base kv catalog table_id base_order through_order intent = do
  changes ← list_data_file_changes kv catalog table_id base_order through_order
  ok (
      filter
        (λ (change : DataFileChange).
          lt_order base_order change.order && conflicts_with intent change.kind)
        changes)
