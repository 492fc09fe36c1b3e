-- ===== src/SchemaVersion/Batch.antt =====
-- `load_schema_versions_at` of crates/ducklake-catalog/src/schema_version_state.rs: the versions at
-- many orders by two scans. A `BTreeSet` of orders is the list of them in its order, and the
-- resulting `BTreeMap` the list of its entries.
use aux_ducklake.Base.{
  first?, ℕ, Bool, true, false, Option, List, [], ◌∷◌, if◌then◌else◌, ltb, length,
}
use aux_ducklake.Bytes.{Bytes}
use aux_ducklake.Ids.{CatalogId, CatalogOrderId, eq_order}
use aux_ducklake.Error.{CatalogResult, ok, err, backend, collect_map, ◌>>=◌}
use aux_ducklake.Keys.Metadata.{schema_version_history_prefix, schema_version_history_scan_end}
use aux_ducklake.Kv.{OrderedCatalogKv, RangeItem, RangeDirection, usize_max}
use aux_ducklake.Kv.ReadSet.{CatalogReadRange, read_ranges}
use aux_ducklake.SchemaVersion.{
  load_schema_version_at, version_of_row, partition_point, version_before,
  decode_schema_history_row,
}

unfoldable pub last_order : CatalogOrderId → List CatalogOrderId → CatalogOrderId
last_order first [] = first
last_order first (o ∷ orders) = last_order o orders

unfoldable pub schema_version_read_ranges : CatalogId → List CatalogOrderId → List CatalogReadRange
unfolding last_order
schema_version_read_ranges catalog [] = []
schema_version_read_ranges catalog (first ∷ orders) =
    let boundary = schema_version_history_scan_end catalog first in
    let last = last_order first orders in
    let current : CatalogReadRange = record {
      start = schema_version_history_prefix catalog;
      end = boundary;
      direction = RangeDirection.reverse;
      limit = 1;
    } in
    let interval : CatalogReadRange = record {
      start = boundary;
      end = schema_version_history_scan_end catalog last;
      direction = RangeDirection.forward;
      limit = usize_max;
    } in
    if eq_order last first then current ∷ [] else current ∷ interval ∷ []

-- The check of the number of ranges, and the rows of the first and of the second one.
unfoldable pub split_ranges :
    Bool → List (List RangeItem) → CatalogResult (List RangeItem × List RangeItem)
split_ranges false (rows ∷ []) = ok (rows, [])
split_ranges true (rows ∷ interval ∷ []) = ok (rows, interval)
split_ranges _ _ = err (backend "schema version read set has wrong range count")

unfoldable pub resolve_schema_version_reads :
    CatalogId
    → List CatalogOrderId
    → List (List RangeItem)
    → CatalogResult (List (CatalogOrderId × ℕ))
unfolding split_ranges
resolve_schema_version_reads catalog [] ranges = ok []
resolve_schema_version_reads catalog (first ∷ orders) ranges = do
  (rows, interval) ← split_ranges (ltb 1 (length (first ∷ orders))) ranges
  current ← version_of_row (first? rows)
  history ←
      collect_map (decode_schema_history_row (schema_version_history_prefix catalog) first.kind)
        interval
  collect_map
      (λ order.
        version_before current history (partition_point order history) >>= λ v. ok (order, v))
      (first ∷ orders)

unfoldable pub load_schema_versions_at :
    Option (Option Bytes)
    → OrderedCatalogKv
    → CatalogId
    → List CatalogOrderId
    → CatalogResult (List (CatalogOrderId × ℕ))
unfolding read_ranges
load_schema_versions_at cached kv catalog [] = ok []
load_schema_versions_at cached kv catalog (order ∷ []) = do
  version ← load_schema_version_at cached kv catalog order
  ok ((order, version) ∷ [])
load_schema_versions_at cached kv catalog orders = do
  rows ← read_ranges kv (schema_version_read_ranges catalog orders)
  resolve_schema_version_reads catalog orders rows
