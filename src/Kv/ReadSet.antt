-- ===== src/Kv/ReadSet.antt =====
-- The methods of `OrderedCatalogKv` in crates/ducklake-catalog/src/kv.rs that are defined by its
-- other ones, and the join of an index with its primary rows.
pub mod Joins
use aux_ducklake.Base.{ℕ, Option, none, some, List, [], ◌∷◌, ◌++◌, if◌then◌else◌, ◌==◌, length, map}
use mathlib.Core.Option
use aux_ducklake.Bytes.{Bytes, strip_prefix}
use aux_ducklake.Error.{
  CatalogResult, ok, err, ensure, ok_or, collect_map, invalid_key, backend, ◌>>=◌, ◌>>◌,
}
use aux_ducklake.Kv.{OrderedCatalogKv, RangeItem, RangeDirection, forward, scan_prefix, usize_max}

pub record CatalogReadRange : Type 0 where
  pub start : Bytes
  pub end : Bytes
  pub direction : RangeDirection
  pub limit : ℕ

pub record CatalogReadResult : Type 0 where
  pub values : List (Option Bytes)
  pub ranges : List (List RangeItem)

pub record CatalogIndexJoin : Type 0 where
  pub index_prefix : Bytes
  pub primary_prefix : Bytes

pub record CatalogIndexRow : Type 0 where
  pub index : RangeItem
  pub primary : Option RangeItem

-- `.filter(|suffix| suffix.len() == 8)`.
abbrev eight_bytes : Option Bytes → Option Bytes
eight_bytes none = none
eight_bytes (some suffix) = if length suffix == 8 then some suffix else none

unfoldable pub primary_key : CatalogIndexJoin → Bytes → CatalogResult Bytes
primary_key join index_key = do
  suffix ←
      ok_or (eight_bytes (strip_prefix join.index_prefix index_key))
        (invalid_key "index row has an invalid primary identifier")
  ok (join.primary_prefix ++ suffix)

unfoldable pub batch_get : OrderedCatalogKv → List Bytes → CatalogResult (List (Option Bytes))
batch_get kv keys = collect_map kv.get_value keys

-- `indices.into_iter().zip(keys.into_iter().zip(values))` with its `map`.
unfoldable pub index_rows : List RangeItem → List Bytes → List (Option Bytes) → List CatalogIndexRow
index_rows (index ∷ indices) (key ∷ keys) (value ∷ values) =
    record { index = index; primary = Option.map (λ v. record { key = key; value = v }) value }
    ∷ index_rows indices keys values
index_rows _ _ _ = []

unfoldable pub scan_index_rows :
    OrderedCatalogKv → CatalogIndexJoin → CatalogResult (List CatalogIndexRow)
scan_index_rows kv join = do
  indices ← scan_prefix kv join.index_prefix forward usize_max
  keys ← collect_map (λ (index : RangeItem). primary_key join index.key) indices
  values ← batch_get kv keys
  ensure (length values == length keys) (backend "index join returned wrong primary row count")
  ok (index_rows indices keys values)

-- The ranges of `read_set`.
unfoldable pub read_ranges :
    OrderedCatalogKv → List CatalogReadRange → CatalogResult (List (List RangeItem))
read_ranges kv =
    collect_map (λ (r : CatalogReadRange). kv.scan_range r.start r.end r.direction r.limit)

unfoldable pub read_set :
    OrderedCatalogKv → List Bytes → List CatalogReadRange → CatalogResult CatalogReadResult
read_set kv keys ranges = do
  values ← batch_get kv keys
  found ← read_ranges kv ranges
  ok (record { values = values; ranges = found })

unfoldable pub scan_prefixes :
    OrderedCatalogKv → List Bytes → RangeDirection → ℕ → CatalogResult (List (List RangeItem))
scan_prefixes kv prefixes direction limit =
    collect_map (λ prefix. scan_prefix kv prefix direction limit) prefixes
