-- ===== src/SchemaVersion.antt =====
-- crates/ducklake-catalog/src/schema_version_state.rs: the history of schema versions.
-- What the request's read set holds for a key is an argument, `cached`.
pub mod Batch
pub mod History
pub mod Agreement
pub mod Equivalence
use mathlib.Core.Option
use aux_ducklake.Base.{
  ℕ, zero, suc, ◌+◌, ◌≡◌, Bool, true, false, ◌&&◌, Option, none, some, List, [], ◌∷◌, ◌++◌,
  if◌then◌else◌, ◌==◌, length, first?, get_elem?, map,
}
use aux_ducklake.Bytes.{Bytes, to_be_bytes, from_be_bytes, strip_prefix}
use aux_ducklake.Ids.{
  CatalogId, CatalogOrderKind, CatalogOrderId, RawSnapshotSequence, DuckLakeSnapshotId, order_len,
  le_order, saturating_add,
}
use aux_ducklake.Ids.CatalogOrder.{from_bytes}
use aux_ducklake.Error.{
  CatalogResult, ok, err, panic, invalid_key, backend, ok_or, ensure, transpose_map, collect_map,
  ◌>>=◌, ◌>>◌,
}
use aux_ducklake.Keys.Metadata.{
  current_schema_version_key, schema_version_history_key, schema_version_history_prefix,
  schema_version_history_scan_end, schema_version_begin_snapshot_key, catalog_snapshot_version_key,
}
use aux_ducklake.Kv.{OrderedCatalogKv, RangeItem, RangeDirection, usize_max}
use aux_ducklake.Kv.Batch.{KvBatch, put}

-- The value of a counter: eight bytes.
unfoldable pub decode_schema_version : Bytes → CatalogResult ℕ
decode_schema_version value =
    if length value == 8
    then ok (from_be_bytes value)
    else err (invalid_key "invalid current schema version value")

-- `row.map_or(Ok(0), |item| decode_schema_version(..))`.
abbrev pub version_of_row : Option RangeItem → CatalogResult ℕ
version_of_row none = ok 0
version_of_row (some row) = decode_schema_version row.value

unfoldable pub load_schema_version_at :
    Option (Option Bytes) → OrderedCatalogKv → CatalogId → CatalogOrderId → CatalogResult ℕ
load_schema_version_at (some (some value)) kv catalog order = decode_schema_version value
load_schema_version_at _ kv catalog order = do
  rows ←
      kv.scan_range (schema_version_history_prefix catalog)
        (schema_version_history_scan_end catalog order) RangeDirection.reverse 1
  version_of_row (first? rows)

unfoldable pub load_schema_version_begin_snapshot :
    OrderedCatalogKv → CatalogId → ℕ → CatalogResult (Option DuckLakeSnapshotId)
load_schema_version_begin_snapshot kv catalog schema_version = do
  value ← kv.get_value (schema_version_begin_snapshot_key catalog schema_version)
  transpose_map value decode_schema_version

load_schema_version : OrderedCatalogKv → Bytes → CatalogResult (Option ℕ)
load_schema_version kv key = do value ← kv.get_value key; transpose_map value decode_schema_version

unfoldable pub stage_next_catalog_snapshot_version :
    OrderedCatalogKv → KvBatch → CatalogId → CatalogResult KvBatch
unfolding load_schema_version
stage_next_catalog_snapshot_version kv batch catalog = do
  current ← load_schema_version kv (catalog_snapshot_version_key catalog)
  ok (
      put batch (catalog_snapshot_version_key catalog)
        (to_be_bytes 8 (saturating_add (Option.get_or current 0) 1)))

-- The snapshot row is used for its order and its sequence.
unfoldable pub stage_next_schema_version :
    OrderedCatalogKv
    → KvBatch
    → CatalogId
    → CatalogOrderId
    → RawSnapshotSequence
    → CatalogResult KvBatch
unfolding load_schema_version stage_next_catalog_snapshot_version
stage_next_schema_version kv batch catalog order sequence = do
  current ← load_schema_version kv (current_schema_version_key catalog)
  let next = saturating_add (Option.get_or current 0) 1
  let b1 = put batch (current_schema_version_key catalog) (to_be_bytes 8 next)
  let b2 = put b1 (schema_version_history_key catalog order) (to_be_bytes 8 next)
  let b3 = put b2 (schema_version_begin_snapshot_key catalog next) (to_be_bytes 8 sequence)
  stage_next_catalog_snapshot_version kv b3 catalog

-- `partition_point` of a slice whose orders up to `order` stand first: how many they are.
unfoldable pub partition_point : CatalogOrderId → List (CatalogOrderId × ℕ) → ℕ
partition_point order [] = 0
partition_point order ((change_order, _) ∷ history) =
    let rest = partition_point order history in if le_order change_order order then rest + 1 else 0

-- `end.checked_sub(1).map_or(current, |index| history[index].1)`, with the panic of an index out
-- of bounds.
unfoldable pub version_before : ℕ → List (CatalogOrderId × ℕ) → ℕ → CatalogResult ℕ
version_before current history zero = ok current
version_before current history (suc index) = elim (get_elem? history index) [
  | none ↦ panic
  | some (_, version) ↦ ok version
]

unfoldable pub decode_schema_history_row :
    Bytes → CatalogOrderKind → RangeItem → CatalogResult (CatalogOrderId × ℕ)
decode_schema_history_row prefix kind item = do
  tail ←
      ok_or (strip_prefix prefix item.key)
        (invalid_key "schema version history key has wrong prefix")
  ensure (length tail == order_len) (invalid_key "schema version history order has wrong length")
  version ← decode_schema_version item.value
  ok (from_bytes kind tail, version)
