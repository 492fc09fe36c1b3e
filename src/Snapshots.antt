-- ===== src/Snapshots.antt =====
-- crates/ducklake-catalog/src/store.rs: the rows of snapshots, read past the caches of a request.
pub mod Values
pub mod Timestamps
pub mod ExpiryResult
use aux_ducklake.Kv.Batch.{new, KvBatch, put, delete}
use aux_ducklake.Kv.Fake.{FakeOrderedCatalogKv, ordered_kv, commit}
use aux_ducklake.Error.{
  not_found, invalid_mutation, CatalogResult, ok, err, ensure, ok_or, collect_map, transpose_map,
  decode, invalid_key, ◌>>=◌, ◌>>◌,
}
pub mod Expiry
use aux_ducklake.Base.{
  first?, filter, ◌++◌, ℕ, ◌≡◌, Bool, true, false, ◌&&◌, not, Option, none, some, List, [], ◌∷◌,
  if◌then◌else◌, ◌==◌, ltb, length, get_elem?,
}
use aux_ducklake.Kv.{reverse, OrderedCatalogKv, RangeItem, forward, scan_prefix, usize_max}
use aux_ducklake.Rows.Snapshot.{
  with_created_at_micros, SnapshotRow, encode_snapshot, decode_snapshot,
}
use aux_ducklake.Base.Int.{ℤ, pos, negsuc, ltb_ℤ}
use aux_ducklake.Bytes.{Bytes, eq_bytes, strip_prefix}
use aux_ducklake.Bytes.Slices.{slice, byte_at}
use aux_ducklake.Ids.{
  CatalogId, CatalogOrderId, CatalogOrderKind, RawSnapshotSequence, lt_order, order_len,
  next_sequence,
}
use aux_ducklake.Ids.CatalogOrder.{from_bytes}
use aux_ducklake.Keys.{push, concat}
use aux_ducklake.Keys.Snapshot.{
  snapshot_key, snapshot_prefix, snapshot_timestamp_prefix, snapshot_timestamp_key,
  decode_snapshot_timestamp_key,
}
use aux_ducklake.Keys.Metadata.{latest_snapshot_row_key, raw_snapshot_row_key}

abbrev pub eq_ℤ : ℤ → ℤ → Bool
eq_ℤ (pos a) (pos b) = a == b
eq_ℤ (negsuc a) (negsuc b) = a == b
eq_ℤ _ _ = false

abbrev pub kind_byte : CatalogOrderKind → ℕ
kind_byte CatalogOrderKind.uuid_v7 = b'u'
kind_byte CatalogOrderKind.fdb_versionstamp = b'f'

unfoldable pub latest_snapshot_value : SnapshotRow → Bytes
latest_snapshot_value snapshot =
    concat (push 1 ∷ push (kind_byte snapshot.order.kind) ∷ encode_snapshot snapshot ∷ [])

unfoldable pub decode_latest_snapshot_value : Bytes → CatalogResult SnapshotRow
decode_latest_snapshot_value value =
    if ltb (length value) 2 then err (decode "latest snapshot row has invalid version") else (do
      version ← byte_at value 0
      ensure (version == 1) (decode "latest snapshot row has invalid version")
      marker ← byte_at value 1
      order_kind ←
          (if marker == b'u'
            then ok CatalogOrderKind.uuid_v7
            else if marker == b'f'
            then ok CatalogOrderKind.fdb_versionstamp
            else err (decode "latest snapshot row has unknown order kind"))
      tail ← slice value 2 (length value)
      row ← decode_snapshot tail
      ok (record row { order = from_bytes order_kind row.order.bytes }))

unfoldable pub stage_snapshot : KvBatch → CatalogId → SnapshotRow → KvBatch
stage_snapshot batch catalog snapshot =
    let batch1 = put batch (snapshot_key catalog snapshot.order) (encode_snapshot snapshot) in
    let batch2 =
      put batch1 (snapshot_timestamp_key catalog snapshot.created_at_micros snapshot.order)
        (encode_snapshot snapshot) in
    let batch3 = put batch2 (latest_snapshot_row_key catalog) (latest_snapshot_value snapshot) in
    put batch3 (raw_snapshot_row_key catalog snapshot.sequence) (latest_snapshot_value snapshot)

unfoldable pub stage_delete_snapshot : KvBatch → CatalogId → SnapshotRow → KvBatch
stage_delete_snapshot batch catalog snapshot =
    delete batch (snapshot_timestamp_key catalog snapshot.created_at_micros snapshot.order)

unfoldable pub snapshot_order_from_key :
    CatalogId → Bytes → CatalogOrderId → CatalogResult CatalogOrderId
snapshot_order_from_key catalog key value_order = do
  bytes ←
      ok_or (strip_prefix (snapshot_prefix catalog) key)
        (invalid_key "snapshot key has wrong prefix")
  ensure (length bytes == order_len) (invalid_key "snapshot key order must be 16 bytes")
  let kind : CatalogOrderKind =
      if eq_bytes value_order.bytes bytes
      then value_order.kind
      else CatalogOrderKind.fdb_versionstamp
  ok (from_bytes kind bytes)

unfoldable pub decode_snapshot_item : CatalogId → Bytes → Bytes → CatalogResult SnapshotRow
decode_snapshot_item catalog key value = do
  row ← decode_snapshot value
  order ← snapshot_order_from_key catalog key row.order
  ok (record row { order = order })

unfoldable pub decode_timestamp_snapshot : CatalogId → RangeItem → CatalogResult SnapshotRow
decode_timestamp_snapshot catalog item = do
  stamp ← decode_snapshot_timestamp_key catalog item.key
  row ← decode_snapshot_item catalog (snapshot_key catalog stamp.1) item.value
  ensure (eq_ℤ row.created_at_micros stamp.0)
      (decode "snapshot timestamp index does not match its row")
  ok row

-- `sort_by_key`, which is stable: each row goes before the rows of a higher order.
unfoldable pub insert_by_order : SnapshotRow → List SnapshotRow → List SnapshotRow
insert_by_order row [] = row ∷ []
insert_by_order row (first ∷ rows) =
    let rest = insert_by_order row rows in
    if lt_order first.order row.order then first ∷ rest else row ∷ first ∷ rows

unfoldable pub sort_by_order : List SnapshotRow → List SnapshotRow
sort_by_order [] = []
sort_by_order (row ∷ rows) = insert_by_order row (sort_by_order rows)

unfoldable pub list_snapshots : OrderedCatalogKv → CatalogId → CatalogResult (List SnapshotRow)
list_snapshots kv catalog = do
  items ← scan_prefix kv (snapshot_timestamp_prefix catalog) forward usize_max
  rows ← collect_map (decode_timestamp_snapshot catalog) items
  ok (sort_by_order rows)

unfoldable pub list_all_snapshots : OrderedCatalogKv → CatalogId → CatalogResult (List SnapshotRow)
list_all_snapshots kv catalog = do
  items ← scan_prefix kv (snapshot_prefix catalog) forward usize_max
  collect_map (λ (item : RangeItem). decode_snapshot_item catalog item.key item.value) items

-- The loop, with its `break`.
unfoldable pub older_rows : CatalogId → ℤ → List RangeItem → CatalogResult (List SnapshotRow)
older_rows catalog older_than_micros [] = ok []
older_rows catalog older_than_micros (item ∷ items) =
    let rest = older_rows catalog older_than_micros items in
    decode_snapshot_timestamp_key catalog item.key >>= λ stamp.
    if not (ltb_ℤ stamp.0 older_than_micros)
    then ok []
    else decode_timestamp_snapshot catalog item >>= λ row. rest >>= λ rows. ok (row ∷ rows)

unfoldable pub list_snapshots_older_than :
    OrderedCatalogKv → CatalogId → ℤ → CatalogResult (List SnapshotRow)
list_snapshots_older_than kv catalog older_than_micros = do
  items ← scan_prefix kv (snapshot_timestamp_prefix catalog) forward usize_max
  older_rows catalog older_than_micros items

pub data SnapshotTimestampBound : Type 0 where
  lower upper : SnapshotTimestampBound

-- The loop with the `selected` row, its `continue`, `break` and early return.
unfoldable pub select_rows :
    CatalogId
    → ℤ
    → SnapshotTimestampBound
    → Option SnapshotRow
    → List RangeItem
    → CatalogResult (Option SnapshotRow)
select_rows catalog timestamp bound selected [] = ok selected
select_rows catalog timestamp lower selected (item ∷ items) =
    let rest = select_rows catalog timestamp lower selected items in
    decode_snapshot_timestamp_key catalog item.key >>= λ stamp.
    if ltb_ℤ stamp.0 timestamp
    then rest
    else decode_timestamp_snapshot catalog item >>= λ row. ok (some row)
select_rows catalog timestamp upper selected (item ∷ items) =
    decode_snapshot_timestamp_key catalog item.key >>= λ stamp.
    if ltb_ℤ timestamp stamp.0
    then ok selected
    else decode_timestamp_snapshot catalog item >>= λ row.
        select_rows catalog timestamp upper (some row) items

unfoldable pub snapshot_by_timestamp :
    OrderedCatalogKv → CatalogId → ℤ → SnapshotTimestampBound → CatalogResult (Option SnapshotRow)
snapshot_by_timestamp kv catalog timestamp_micros bound = do
  items ← scan_prefix kv (snapshot_timestamp_prefix catalog) forward usize_max
  select_rows catalog timestamp_micros bound none items

unfoldable pub snapshot_by_raw_sequence :
    OrderedCatalogKv → CatalogId → RawSnapshotSequence → CatalogResult (Option SnapshotRow)
snapshot_by_raw_sequence kv catalog raw_sequence = do
  value ← kv.get_value (raw_snapshot_row_key catalog raw_sequence)
  transpose_map value decode_latest_snapshot_value

-- `fetch_snapshot_row` of catalog_request_read_set.rs: without the row of the latest snapshot the last
-- row of the snapshots is taken.
unfoldable pub fetch_snapshot_row :
    OrderedCatalogKv → CatalogId → Option Bytes → CatalogResult (Option SnapshotRow)
fetch_snapshot_row kv catalog (some value) =
    decode_latest_snapshot_value value >>= λ row. ok (some row)
fetch_snapshot_row kv catalog none = scan_prefix kv (snapshot_prefix catalog) reverse 1 >>= λ items.
    transpose_map (first? items)
      (λ (item : RangeItem). decode_snapshot_item catalog item.key item.value)

-- `fetch_latest_snapshot` of catalog_request_read_set.rs.
unfoldable pub fetch_latest_snapshot :
    OrderedCatalogKv → CatalogId → CatalogResult (Option SnapshotRow)
fetch_latest_snapshot kv catalog = do
  value ← kv.get_value (latest_snapshot_row_key catalog)
  fetch_snapshot_row kv catalog value

unfoldable pub snapshot_row_for_next_sequence :
    Option SnapshotRow → CatalogOrderId → ℤ → SnapshotRow
snapshot_row_for_next_sequence none order now = with_created_at_micros order 0 now
snapshot_row_for_next_sequence (some snapshot) order now =
    with_created_at_micros order (next_sequence snapshot.sequence) now

-- The loop of `expire_snapshots` over the rows of one sequence number.
unfoldable pub stage_delete_all : KvBatch → CatalogId → List SnapshotRow → KvBatch
stage_delete_all batch catalog [] = batch
stage_delete_all batch catalog (snapshot ∷ snapshots) =
    stage_delete_all (stage_delete_snapshot batch catalog snapshot) catalog snapshots

-- The loop of `expire_snapshots` over the sequence numbers: `snapshots` is the list that the map of
-- snapshots by sequence number is built from.
unfoldable pub stage_expired :
    CatalogId
    → SnapshotRow
    → List SnapshotRow
    → List RawSnapshotSequence
    → KvBatch
    → List SnapshotRow
    → CatalogResult (KvBatch × List SnapshotRow)
stage_expired catalog latest snapshots [] batch expired = ok (batch, expired)
stage_expired catalog latest snapshots (raw_sequence ∷ raw_sequences) batch expired =
    let found = filter (λ (s : SnapshotRow). s.sequence == raw_sequence) snapshots in
    let rest =
      stage_expired catalog latest snapshots raw_sequences (stage_delete_all batch catalog found)
        (expired ++ found) in
    if raw_sequence == latest.sequence
    then err (invalid_mutation "cannot expire latest snapshot")
    else rest

-- The rows read past the caches are those of the store before the commit.
unfoldable pub expire_snapshots :
    FakeOrderedCatalogKv
    → CatalogId
    → List RawSnapshotSequence
    → CatalogResult (FakeOrderedCatalogKv × List SnapshotRow)
expire_snapshots kv catalog [] = ok (kv, [])
expire_snapshots kv catalog (raw_sequence ∷ raw_sequences) = do
  found ← fetch_latest_snapshot (ordered_kv kv) catalog
  latest ← ok_or found (not_found "snapshot")
  snapshots ← list_snapshots (ordered_kv kv) catalog
  staged ← stage_expired catalog latest snapshots (raw_sequence ∷ raw_sequences) new []
  kv' ← commit kv staged.0
  ok (kv', staged.1)
