-- ===== src/Kv/ReadSet/Joins.antt =====
-- The join of an index as one lookup for each of its rows.
use aux_ducklake.Base.{
  ◌≤◌, ◌≡◌, refl, true, false, List, [], ◌∷◌, ◌==◌, length, map, take_all, length-map, arith, All,
}
use mathlib.Core.Option
use mathlib.Core.Path.{ap, ◌∙◌}
use aux_ducklake.Bytes.{Bytes, ltb_bytes}
use aux_ducklake.BTreeMap.{get, bytes_ord}
use aux_ducklake.Error.{
  CatalogResult, ok, err, panic, ensure, collect_map, collect_map_ok, ◌>>=◌, ◌>>◌, >>=_congr,
  backend,
}
use aux_ducklake.Keys.{prefix_end}
use aux_ducklake.Kv.{
  OrderedCatalogKv, RangeItem, Items, Reads, range, scan_prefix, usize_max, forward, item,
}
use aux_ducklake.Kv.Ranges.{within, range_lem, length-within}
use aux_ducklake.Kv.ReadSet.{
  CatalogIndexJoin, CatalogIndexRow, primary_key, batch_get, index_rows, scan_index_rows,
}

abbrev index_row : Items → RangeItem → Bytes → CatalogIndexRow
index_row items index key = record {
  index = index;
  primary = Option.map (λ v. record { key = key; value = v }) (get key items);
}

-- The row of the join for one row of the index: its primary row is looked up in `items`.
abbrev pub join_row : CatalogIndexJoin → Items → RangeItem → CatalogResult CatalogIndexRow
join_row join items index = primary_key join index.key >>= λ key. ok (index_row items index key)

-- The rest of the join once the keys are known.
finish_join : Items → List RangeItem → List Bytes → CatalogResult (List CatalogIndexRow)
finish_join items indices keys = ok (index_rows indices keys (map (λ key. get key items) keys))

-- One row more.
join_step :
    (join : CatalogIndexJoin) (items : Items) (index : RangeItem) (indices : List RangeItem)
    (key : CatalogResult Bytes) (keys : CatalogResult (List Bytes))
    → key >>= (λ k. keys >>= λ ks. ok (k ∷ ks)) >>= (λ ks. finish_join items (index ∷ indices) ks)
      ≡ key
        >>= (λ k. ok (index_row items index k))
        >>= (λ row. keys >>= (λ ks. finish_join items indices ks) >>= λ rows. ok (row ∷ rows))
unfolding finish_join index_rows
join_step join items index indices (ok k) (ok ks) = refl
join_step join items index indices (ok k) (err e) = refl
join_step join items index indices (ok k) panic = refl
join_step join items index indices (err e) keys = refl
join_step join items index indices panic keys = refl

join_all :
    (join : CatalogIndexJoin) (items : Items) (indices : List RangeItem)
    → collect_map (λ (index : RangeItem). primary_key join index.key) indices
        >>= (λ keys. finish_join items indices keys)
      ≡ collect_map (join_row join items) indices
unfolding collect_map finish_join index_rows
join_all join items [] = refl
join_all join items (index ∷ indices) =
    join_step join items index indices (primary_key join index.key)
      (collect_map (λ (i : RangeItem). primary_key join i.key) indices)
    ∙ ap (λ rows. join_row join items index >>= λ row. rows >>= λ all. ok (row ∷ all))
        (join_all join items indices)

-- Every key has its value, and the check of their number passes.
values_read :
    (kv : OrderedCatalogKv) (items : Items)
    → Reads kv items
    → (indices : List RangeItem) (keys : List Bytes)
    → collect_map kv.get_value keys >>= (λ values.
      ensure (length values == length keys) (backend "index join returned wrong primary row count")
      >> ok (index_rows indices keys values))
      ≡ finish_join items indices keys
unfolding finish_join
values_read kv items reads indices keys =
    let counted : (length (map (λ key. get key items) keys) == length keys) ≡ true =
      ground (arith, length-map (λ key. get key items) keys) in
    rw (collect_map_ok kv.get_value (λ key. get key items) keys (all keys), counted)
  where
    all : (keys : List Bytes) → All (λ key. kv.get_value key ≡ ok (get key items)) keys
    all [] = tt
    all (key ∷ keys) = (reads.get_lem key, all keys)

-- On a store that reads as documented the join of an index is, row by row, the index row with the
-- primary row that it names, or the error of the first index row whose identifier is not eight
-- bytes long; the count of the primary rows is always right.
pub scan_index_rows_lem :
    (kv : OrderedCatalogKv) (items : Items) (join : CatalogIndexJoin)
    → Reads kv items
    → length items ≤ usize_max
    → ltb_bytes (prefix_end join.index_prefix) join.index_prefix ≡ false
    → scan_index_rows kv join
      ≡ collect_map
          (join_row join items)
          (range join.index_prefix (prefix_end join.index_prefix) items)
unfolding scan_index_rows scan_prefix batch_get
scan_index_rows_lem kv items join reads h k =
    let rows = range join.index_prefix (prefix_end join.index_prefix) items in
    let fits : length rows ≤ usize_max =
      rw
        (
          range_lem join.index_prefix (prefix_end join.index_prefix) items,
          length-map item (within join.index_prefix (prefix_end join.index_prefix) items),
        )
        (omega (arith, length-within join.index_prefix (prefix_end join.index_prefix) items)) in
    rw
      (
        reads.scan_lem join.index_prefix (prefix_end join.index_prefix) forward usize_max k,
        take_all usize_max rows fits,
      )
      (>>=_congr (collect_map (λ (i : RangeItem). primary_key join i.key) rows) _ _
          (λ keys. values_read kv items reads rows keys)
        ∙ join_all join items rows)
