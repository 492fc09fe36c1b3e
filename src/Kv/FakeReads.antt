-- ===== src/Kv/FakeReads.antt =====
-- The store in memory as a store of the trait.
use aux_ducklake.Base.{refl}
use aux_ducklake.BTreeMap.{IsSorted, bytes_ord}
use aux_ducklake.Kv.{Reads}
use aux_ducklake.Kv.Fake.{FakeOrderedCatalogKv, ordered_kv, scan_range}

-- With its rows in the order of their keys, the store in memory reads as the trait documents it:
-- a point read finds the row, and a scan of a range that is not inverted gives its rows, in the
-- direction asked for and cut to the limit.
pub ordered_kv-Reads :
    (kv : FakeOrderedCatalogKv) → IsSorted kv.items → Reads (ordered_kv kv) kv.items
unfolding scan_range
ordered_kv-Reads kv s = record {
  sorted = s;
  get_lem = λ key. refl;
  scan_lem = λ start end direction limit h. rw h;
}
