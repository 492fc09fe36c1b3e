-- ===== src/Conflict/Window.antt =====
-- The window of the changes since a base, and the keys of the changes in it.
use aux_ducklake.Base.{◌≡◌, refl, sym, ◌∙◌, ◌&&◌, List, [], ◌∷◌, ◌++◌, length, arith}
use aux_ducklake.Bytes.{leb_bytes, Bytes, IsU64, ltb_bytes}
use aux_ducklake.Bytes.BigEndian.{length-to_be_bytes, from_be_bytes-to_be_bytes}
use aux_ducklake.Bytes.Fields.{slice_field, byte_field, length-concat}
use aux_ducklake.Bytes.Slices.{slice, byte_at}
use aux_ducklake.Bytes.Prefix.{strip_prefix-append}
use aux_ducklake.Bytes.Ranges.{below_scan_end}
use aux_ducklake.Error.{ok}
use aux_ducklake.FileListing.{DataFileChangeKind, DataFileChange}
use aux_ducklake.FileListing.ChangeKind.{code, from_code-code}
use aux_ducklake.Ids.{
  CatalogId, TableId, DataFileId, CatalogOrderKind, CatalogOrderId, IsOrder, lt_order, le_order,
}
use aux_ducklake.Ids.CatalogOrder.{from_bytes}
use aux_ducklake.Keys.{in_range, push, concat, u64}
use aux_ducklake.Keys.Change.{snapshot_data_file_change_prefix, snapshot_data_file_change_key}
use aux_ducklake.Keys.Scans.{separator_low}
use aux_ducklake.Conflict.{
  snapshot_change_scan_start_after, snapshot_change_scan_end, decode_snapshot_data_file_change_key,
}

-- The scan for the changes since a base takes in the key of a change exactly where its order is
-- above the base and at most the end: the changes of the base itself are left out.
pub changes_since_base_scan :
    (catalog : CatalogId) (base through o : CatalogOrderId) (table_id : TableId)
    (kind : DataFileChangeKind) (data_file_id : DataFileId)
    → IsOrder base
    → IsOrder through
    → IsOrder o
    → in_range
        (snapshot_change_scan_start_after catalog base)
        (snapshot_change_scan_end catalog through)
        (snapshot_data_file_change_key catalog table_id o kind data_file_id)
      ≡ (lt_order base o && le_order o through)
unfolding snapshot_change_scan_start_after snapshot_change_scan_end snapshot_data_file_change_key
    lt_order le_order
changes_since_base_scan catalog base through o table_id kind data_file_id hb ht ho =
    let p = snapshot_data_file_change_prefix catalog in
    let rest : Bytes = u64 table_id ++ (b'/' ∷ code kind ∷ b'/' ∷ u64 data_file_id) in
    let above : ltb_bytes (p ++ (o.bytes ++ (b'/' ∷ rest))) (p ++ (base.bytes ++ (0xff ∷ [])))
        ≡ leb_bytes o.bytes base.bytes =
      below_scan_end p o.bytes base.bytes (b'/' ∷ rest) (ho.sized ∙ sym hb.sized)
        (separator_low rest) in
    let upto : ltb_bytes (p ++ (o.bytes ++ (b'/' ∷ rest))) (p ++ (through.bytes ++ (0xff ∷ [])))
        ≡ leb_bytes o.bytes through.bytes =
      below_scan_end p o.bytes through.bytes (b'/' ∷ rest) (ho.sized ∙ sym ht.sized)
        (separator_low rest) in
    rw (above, upto) (ground arith)

abbrev change : TableId → CatalogOrderId → DataFileChangeKind → DataFileId → DataFileChange
change table_id order kind data_file_id = record {
  table_id = table_id;
  order = order;
  kind = kind;
  data_file_id = data_file_id;
}

abbrev fields : TableId → CatalogOrderId → DataFileChangeKind → DataFileId → List Bytes
fields table_id order kind data_file_id =
    order.bytes
    ∷ push b'/'
    ∷ u64 table_id
    ∷ push b'/'
    ∷ push (code kind)
    ∷ push b'/'
    ∷ u64 data_file_id
    ∷ []

-- The key of a change is read back as the change, its order with the kind that the scan asks for.
pub decode_snapshot_data_file_change_key-snapshot_data_file_change_key :
    (catalog : CatalogId) (o : CatalogOrderId) (table_id : TableId) (kind : DataFileChangeKind)
    (data_file_id : DataFileId) (order_kind : CatalogOrderKind)
    → IsOrder o
    → IsU64 table_id
    → IsU64 data_file_id
    → decode_snapshot_data_file_change_key
        (snapshot_data_file_change_prefix catalog)
        (snapshot_data_file_change_key catalog table_id o kind data_file_id)
        order_kind
      ≡ ok (change table_id (from_bytes order_kind o.bytes) kind data_file_id)
unfolding decode_snapshot_data_file_change_key snapshot_data_file_change_key
decode_snapshot_data_file_change_key-snapshot_data_file_change_key catalog o table_id kind
      data_file_id order_kind ho ht hd =
    let parts = fields table_id o kind data_file_id in
    let tail : Bytes = concat parts in
    let t_sized : length (u64 table_id) ≡ 8 = length-to_be_bytes 8 table_id in
    let d_sized : length (u64 data_file_id) ≡ 8 = length-to_be_bytes 8 data_file_id in
    let o_sized : length o.bytes ≡ 16 = ho.sized in
    let total : length tail ≡ 36 = rw (length-concat parts) (omega arith) in
    let order_part : slice tail 0 16 ≡ ok o.bytes =
      slice_field parts 0 o.bytes 0 16 refl refl (omega arith) in
    let first : byte_at tail 16 ≡ ok b'/' = byte_field parts 1 b'/' 16 refl (omega arith) in
    let table_part : slice tail 17 25 ≡ ok (u64 table_id) =
      slice_field parts 2 (u64 table_id) 17 25 refl (omega arith) (omega arith) in
    let second : byte_at tail 25 ≡ ok b'/' = byte_field parts 3 b'/' 25 refl (omega arith) in
    let kind_part : byte_at tail 26 ≡ ok (code kind) =
      byte_field parts 4 (code kind) 26 refl (omega arith) in
    let third : byte_at tail 27 ≡ ok b'/' = byte_field parts 5 b'/' 27 refl (omega arith) in
    let file_part : slice tail 28 36 ≡ ok (u64 data_file_id) =
      slice_field parts 6 (u64 data_file_id) 28 36 refl (omega arith) (omega arith) in
    rw (
      strip_prefix-append (snapshot_data_file_change_prefix catalog) tail,
      total,
      first,
      second,
      third,
      order_part,
      table_part,
      from_be_bytes-to_be_bytes 8 table_id ht,
      kind_part,
      from_code-code kind,
      file_part,
      from_be_bytes-to_be_bytes 8 data_file_id hd,
    )
