-- ===== src/Conflict.antt =====
-- crates/ducklake-catalog/src/conflict.rs: the changes that other commits made since the base of a
-- commit. Commit attempts are in Conflict/Attempt.antt, and the change feed of one table, of
-- data_file_changes.rs, in Conflict/Table.antt.
pub mod Attempt
pub mod Idempotency
pub mod Table
pub mod Watermarks
pub mod Window
pub mod Listing
pub mod Monotone
pub mod Total
use aux_ducklake.Base.{
  ℕ, ◌+◌, Bool, true, false, ◌||◌, not, ◌&&◌, Option, none, some, List, [], ◌∷◌, if◌then◌else◌,
  ◌==◌, length, take,
}
use aux_ducklake.Bytes.{Bytes, strip_prefix, from_be_bytes}
use aux_ducklake.Bytes.Slices.{slice, byte_at}
use aux_ducklake.Error.{
  CatalogResult, ok, err, invalid_key, invalid_mutation, ok_or, ensure, collect_map, ◌>>=◌, ◌>>◌,
}
use aux_ducklake.Ids.{
  CatalogId, TableId, DataFileId, CatalogOrderKind, CatalogOrderId, order_len, lt_order, eq_kind,
}
use aux_ducklake.Ids.CatalogOrder.{from_bytes}
use aux_ducklake.FileListing.{DataFileChangeKind, added, removed, DataFileChange}
use aux_ducklake.FileListing.ChangeKind.{from_code}
use aux_ducklake.Keys.{push, concat}
use aux_ducklake.Keys.Change.{
  snapshot_data_file_change_prefix, snapshot_data_file_change_key, table_data_file_change_key,
}
use aux_ducklake.Kv.{OrderedCatalogKv, RangeItem, RangeDirection, usize_max}
use aux_ducklake.Kv.Batch.{KvBatch, put}
use aux_ducklake.Rows.{read_uint}

unfoldable pub write_data_file_change :
    KvBatch → CatalogId → TableId → CatalogOrderId → DataFileChangeKind → DataFileId → KvBatch
write_data_file_change batch catalog table_id order kind data_file_id =
    let b1 = put batch (table_data_file_change_key catalog table_id order kind data_file_id) [] in
    put b1 (snapshot_data_file_change_key catalog table_id order kind data_file_id) []

unfoldable pub snapshot_change_scan_start_after : CatalogId → CatalogOrderId → Bytes
snapshot_change_scan_start_after catalog base_order =
    concat (snapshot_data_file_change_prefix catalog ∷ base_order.bytes ∷ push 0xff ∷ [])

unfoldable pub snapshot_change_scan_end : CatalogId → CatalogOrderId → Bytes
snapshot_change_scan_end catalog through_order =
    concat (snapshot_data_file_change_prefix catalog ∷ through_order.bytes ∷ push 0xff ∷ [])

unfoldable pub scan_order_kind : CatalogOrderId → CatalogOrderId → CatalogOrderKind
scan_order_kind start_order end_order =
    if eq_kind start_order.kind end_order.kind then end_order.kind else CatalogOrderKind.uuid_v7

unfoldable pub decode_snapshot_data_file_change_key :
    Bytes → Bytes → CatalogOrderKind → CatalogResult DataFileChange
decode_snapshot_data_file_change_key prefix key order_kind = do
  tail ←
      ok_or (strip_prefix prefix key) (invalid_key "snapshot data-file change key has wrong prefix")
  let minimum_len : ℕ = order_len + 1 + 8 + 1 + 1 + 1 + 8
  ensure (length tail == minimum_len)
      (invalid_key "snapshot data-file change key tail has wrong length")
  let order_end : ℕ = order_len
  let table_start : ℕ = order_end + 1
  let table_end : ℕ = table_start + 8
  let kind_index : ℕ = table_end + 1
  let data_file_start : ℕ = kind_index + 2
  first ← byte_at tail order_end
  second ← byte_at tail table_end
  third ← byte_at tail (kind_index + 1)
  ensure (first == b'/' && second == b'/' && third == b'/')
      (invalid_key "snapshot data-file change key separators are invalid")
  order ← slice tail 0 order_end
  table_id ← read_uint tail table_start table_end
  code ← byte_at tail kind_index
  kind ← from_code code
  data_file_id ← read_uint tail data_file_start (length tail)
  ok (record {
    table_id = table_id;
    order = from_bytes order_kind order;
    kind = kind;
    data_file_id = data_file_id;
  })

unfoldable pub list_data_file_changes_since_base :
    OrderedCatalogKv
    → CatalogId
    → CatalogOrderId
    → CatalogOrderId
    → CatalogResult (List DataFileChange)
list_data_file_changes_since_base kv catalog base_order through_order = do
  ensure (not (lt_order through_order base_order))
      (invalid_mutation "logical conflict end order cannot precede base order")
  let prefix = snapshot_data_file_change_prefix catalog
  let order_kind = scan_order_kind base_order through_order
  items ←
      kv.scan_range (snapshot_change_scan_start_after catalog base_order)
        (snapshot_change_scan_end catalog through_order) RangeDirection.forward usize_max
  collect_map
      (λ (item : RangeItem). decode_snapshot_data_file_change_key prefix item.key order_kind) items
