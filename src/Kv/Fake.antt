-- ===== src/Kv/Fake.antt =====
-- `FakeOrderedCatalogKv` of crates/ducklake-catalog/src/kv.rs, the store in memory.
-- Its cache namespace, which identifies the store to the caches, is left out.
use mathlib.Core.Option
use aux_ducklake.Base.{
  ℕ, Bool, true, false, Option, none, some, List, [], ◌∷◌, if◌then◌else◌, min, take, ◌+◌, ◌^◌, ◌-◌,
}
use aux_ducklake.Bytes.{Bytes, eq_bytes, ltb_bytes, to_be_bytes}
use aux_ducklake.BTreeMap.{Map, bytes_ord, get, insert, remove}
use aux_ducklake.Ids.{CatalogOrderId, saturating_add}
use aux_ducklake.Ids.CatalogOrder.{uuid_v7}
use aux_ducklake.Error.{CatalogResult, ok, err, panic, conflict_fence_changed}
use aux_ducklake.Kv.{Items, RangeItem, RangeDirection, OrderedCatalogKv, directed, range}
use aux_ducklake.Kv.Batch.{KvBatch}

pub record FakeOrderedCatalogKv : Type 0 where
  pub items : Items
  pub fence_versions : Map Bytes ℕ
  pub next_order : ℕ

abbrev pub empty : FakeOrderedCatalogKv
empty = record { items = []; fence_versions = []; next_order = 0 }

-- `BTreeMap::range` panics on an inverted range.
unfoldable pub scan_range :
    FakeOrderedCatalogKv → Bytes → Bytes → RangeDirection → ℕ → CatalogResult (List RangeItem)
scan_range kv start end direction limit =
    if ltb_bytes end start
    then panic
    else ok (take limit (directed direction (range start end kv.items)))

unfoldable pub read_conflict_fence : FakeOrderedCatalogKv → Bytes → Option Bytes
read_conflict_fence kv key = Option.map (to_be_bytes 8) (get key kv.fence_versions)

unfoldable pub write_conflict_fence : FakeOrderedCatalogKv → Bytes → FakeOrderedCatalogKv
write_conflict_fence kv key =
    let version = Option.get_or (get key kv.fence_versions) 0 in
    record kv { fence_versions = insert key (saturating_add version 1) kv.fence_versions }

unfoldable pub generated_order_id : FakeOrderedCatalogKv → CatalogOrderId × FakeOrderedCatalogKv
generated_order_id kv =
    let next = min (kv.next_order + 1) (2 ^ 128 - 1) in
    (uuid_v7 next, record kv { next_order = next })

abbrev pub eq_value : Option Bytes → Option Bytes → Bool
eq_value none none = true
eq_value none (some b) = false
eq_value (some a) none = false
eq_value (some a) (some b) = eq_bytes a b

-- The fence of the first check that fails.
unfoldable pub failed_check : FakeOrderedCatalogKv → List (Bytes × Option Bytes) → Option Bytes
failed_check kv [] = none
failed_check kv ((key, expected) ∷ checks) =
    let rest = failed_check kv checks in
    if eq_value (read_conflict_fence kv key) expected then rest else some key

unfoldable pub remove_all : List Bytes → Items → Items
remove_all [] items = items
remove_all (key ∷ keys) items = remove_all keys (remove key items)

unfoldable pub insert_all : List (Bytes × Bytes) → Items → Items
insert_all [] items = items
insert_all ((key, value) ∷ writes) items = insert_all writes (insert key value items)

unfoldable pub write_fences : List Bytes → FakeOrderedCatalogKv → FakeOrderedCatalogKv
write_fences [] kv = kv
write_fences (key ∷ keys) kv = write_fences keys (write_conflict_fence kv key)

-- An error leaves the store as it was.
unfoldable pub commit : FakeOrderedCatalogKv → KvBatch → CatalogResult FakeOrderedCatalogKv
commit kv batch = elim (failed_check kv batch.checks) [
  | some fence ↦ err (conflict_fence_changed fence)
  | none ↦ ok (
      write_fences batch.fence_writes
        (record kv { items = insert_all batch.writes (remove_all batch.deletes kv.items) }))
]

-- The trait's reads.
abbrev pub ordered_kv : FakeOrderedCatalogKv → OrderedCatalogKv
ordered_kv kv = record {
  get_value = λ key. ok (get key kv.items);
  scan_range = scan_range kv;
  read_conflict_fence = λ key. ok (read_conflict_fence kv key);
}
