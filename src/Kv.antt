-- ===== src/Kv.antt =====
-- crates/ducklake-catalog/src/kv.rs: batches, the in-memory store and the interface to a store.
pub mod Batch
pub mod Fake
pub mod Commit
pub mod Fences
pub mod Ranges
pub mod FakeReads
pub mod Pages
pub mod ReadSet
use aux_ducklake.Base.{
  ℕ, ◌^◌, ◌-◌, ◌≡◌, Bool, false, ◌&&◌, Option, List, ◌∷◌, [], map, take, length, ◌≤◌,
}
use mathlib.Core.List
use aux_ducklake.Bytes.{Bytes, leb_bytes, ltb_bytes}
use aux_ducklake.BTreeMap.{Map, bytes_ord, retain, get, IsSorted}
use aux_ducklake.Keys.{in_range, prefix_end}
use aux_ducklake.Error.{CatalogResult, ok}

pub data RangeDirection : Type 0 where
  forward reverse : RangeDirection

pub record RangeItem : Type 0 where
  pub key : Bytes
  pub value : Bytes

-- The rows of a store.
abbrev pub Items : Type 0
Items = Map Bytes Bytes

abbrev pub usize_max : ℕ
usize_max = 2 ^ 64 - 1

abbrev pub item : Bytes × Bytes → RangeItem
item e = record { key = e.0; value = e.1 }

abbrev pub directed : RangeDirection → List RangeItem → List RangeItem
directed forward items = items
directed reverse items = List.reverse items

-- The rows from `start` on and below `end`, in the order of their keys.
unfoldable pub range : Bytes → Bytes → Items → List RangeItem
range start end items = map item (retain (λ key _. in_range start end key) items)

-- The reads of the trait `OrderedCatalogKv` that its other methods are defined by.
pub record OrderedCatalogKv : Type 0 where
  pub get_value : Bytes → CatalogResult (Option Bytes)
  pub scan_range : Bytes → Bytes → RangeDirection → ℕ → CatalogResult (List RangeItem)
  pub read_conflict_fence : Bytes → CatalogResult (Option Bytes)

-- The documented reads of a store that holds `items`: a point read, and a scan of a range that is
-- not inverted, cut to its limit.
pub record Reads (kv : OrderedCatalogKv) (items : Items) : Type 0 where
  pub sorted : IsSorted items
  pub get_lem : (key : Bytes) → kv.get_value key ≡ ok (get key items)
  pub scan_lem :
      (start end : Bytes) (direction : RangeDirection) (limit : ℕ)
      → ltb_bytes end start ≡ false
      → kv.scan_range start end direction limit
        ≡ ok (take limit (directed direction (range start end items)))

-- `scan_prefix`.
unfoldable pub scan_prefix :
    OrderedCatalogKv → Bytes → RangeDirection → ℕ → CatalogResult (List RangeItem)
scan_prefix kv prefix direction limit = kv.scan_range prefix (prefix_end prefix) direction limit
