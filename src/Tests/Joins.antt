-- ===== src/Tests/Joins.antt =====
-- An index with one good row and a store that has its primary row.
use aux_ducklake.Base.{◌≡◌, refl, [], ◌∷◌, arith}
use aux_ducklake.Bytes.{Bytes, ltb_bytes}
use aux_ducklake.BTreeMap.{bytes_ord}
use aux_ducklake.Error.{collect_map}
use aux_ducklake.Keys.{prefix_end, raise_last}
use aux_ducklake.Kv.{range}
use aux_ducklake.Kv.Fake.{FakeOrderedCatalogKv, ordered_kv}
use aux_ducklake.Kv.FakeReads.{ordered_kv-Reads}
use aux_ducklake.Kv.ReadSet.{CatalogIndexJoin, scan_index_rows}
use aux_ducklake.Kv.ReadSet.Joins.{join_row, scan_index_rows_lem}

abbrev id : Bytes
id = 0 ∷ 0 ∷ 0 ∷ 0 ∷ 0 ∷ 0 ∷ 0 ∷ 7 ∷ []

abbrev store : FakeOrderedCatalogKv
store = record { items = (8 ∷ id, 1 ∷ []) ∷ (9 ∷ id, []) ∷ []; fence_versions = []; next_order = 0 }

abbrev join : CatalogIndexJoin
join = record { index_prefix = 9 ∷ []; primary_prefix = 8 ∷ [] }

scan_index_rows_lem_example :
    scan_index_rows (ordered_kv store) join
    ≡ collect_map (join_row join store.items) (range (9 ∷ []) (prefix_end (9 ∷ [])) store.items)
unfolding prefix_end raise_last ltb_bytes
scan_index_rows_lem_example =
    scan_index_rows_lem (ordered_kv store) store.items join
      (ordered_kv-Reads store ((refl, tt), (tt, tt))) (omega arith) refl
