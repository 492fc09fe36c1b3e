-- ===== src/SchemaVersion/Equivalence.antt =====
-- `load_schema_versions_at` beside one load for each order.
use aux_ducklake.Base.{
  ltb, All-imp, ℕ, ◌≤◌, ◌≡◌, refl, sym, ap, ◌∙◌, true, false, none, List, [], ◌∷◌, map, All,
  All-map, All-last?, length, length-map, take, take_all, last?, last?-map, first?, first?-reverse,
  first?-take_one, arith, Option-cases, Bool-cases, inl, inr,
}
use aux_ducklake.Kv.ReadSet.{read_ranges}
use aux_ducklake.SchemaVersion.History.{
  up_to_row, IsHistoryRow, IsBetween, IsBetween-row, decoded, prefix_below, scan_end_mono,
}
use mathlib.Core.List
use mathlib.Core.List.{map-map}
use aux_ducklake.Bytes.{Bytes, eq_bytes, from_be_bytes}
use aux_ducklake.Bytes.Order.{eq_bytes→eq, ltb_bytes_irrefl, ltb_bytes_asymm, ltb-leb_bytes_trans}
use aux_ducklake.Ids.{CatalogId, CatalogOrderId, IsOrder, lt_order, le_order, eq_order}
use aux_ducklake.Error.{CatalogResult, ok, collect_map, collect_map_ok, collect_map_congr, ◌>>=◌}
use aux_ducklake.Keys.Metadata.{schema_version_history_prefix, schema_version_history_scan_end}
use aux_ducklake.Kv.{OrderedCatalogKv, Reads, Items, RangeItem, RangeDirection, item, usize_max}
use aux_ducklake.Kv.Ranges.{within, range_lem, All-within, length-within}
use aux_ducklake.SchemaVersion.{
  load_schema_version_at, version_of_row, partition_point, version_before, decode_schema_version,
  decode_schema_history_row,
}
use aux_ducklake.SchemaVersion.Batch.{
  load_schema_versions_at, resolve_schema_version_reads, schema_version_read_ranges, last_order,
  split_ranges,
}
use aux_ducklake.SchemaVersion.Agreement.{Ascending, resolved, load_schema_version_at_lem, up_to}

lt→le_order : (a b : CatalogOrderId) → lt_order a b ≡ true → le_order a b ≡ true
unfolding lt_order le_order
lt→le_order a b h = rw (ltb_bytes_asymm a.bytes b.bytes h)

le_order_refl : (a : CatalogOrderId) → le_order a a ≡ true
unfolding le_order
le_order_refl a = rw (ltb_bytes_irrefl a.bytes)

lt-le_order_trans :
    (a b c : CatalogOrderId) → lt_order a b ≡ true → le_order b c ≡ true → lt_order a c ≡ true
unfolding lt_order le_order
lt-le_order_trans a b c h k = ltb-leb_bytes_trans a.bytes b.bytes c.bytes h (ground arith)

lt→ne_order : (a b : CatalogOrderId) → lt_order a b ≡ true → eq_order b a ≡ false
unfolding lt_order eq_order
lt→ne_order a b h = elim (Bool-cases (eq_bytes b.bytes a.bytes)) [
  | inl e ↦ cc (h, eq_bytes→eq b.bytes a.bytes e, ltb_bytes_irrefl a.bytes)
  | inr n ↦ ground arith
]

-- The first order of an ascending list is at most its last one, and so are the others.
le_last_order :
    (f : CatalogOrderId) (orders : List CatalogOrderId)
    → Ascending (f ∷ orders)
    → le_order f (last_order f orders) ≡ true
unfolding last_order
le_last_order f [] a = le_order_refl f
le_last_order f (o ∷ orders) ((l, ls), a) =
    lt→le_order f _ (lt-le_order_trans f o _ l (le_last_order o orders a))

All-le_last_order :
    (f : CatalogOrderId) (orders : List CatalogOrderId)
    → Ascending (f ∷ orders)
    → All (λ o. le_order o (last_order f orders) ≡ true) (f ∷ orders)
unfolding last_order
All-le_last_order f [] a = (le_order_refl f, tt)
All-le_last_order f (o ∷ orders) ((l, ls), a) =
    (unfold last_order in le_last_order f (o ∷ orders) ((l, ls), a), All-le_last_order o orders a)

IsOrder-last_order :
    (f : CatalogOrderId) (orders : List CatalogOrderId)
    → All IsOrder (f ∷ orders)
    → IsOrder (last_order f orders)
unfolding last_order
IsOrder-last_order f [] (h, hs) = h
IsOrder-last_order f (o ∷ orders) (h, hs) = IsOrder-last_order o orders hs

module _ (kv : OrderedCatalogKv) (items : Items) (reads : Reads kv items) (catalog : CatalogId)
    (wf : All (IsHistoryRow catalog) items) where
  -- A version is found at every order.
  load_schema_version_at_total :
      (o : CatalogOrderId) → (v : ℕ) × (load_schema_version_at none kv catalog o ≡ ok v)
  load_schema_version_at_total o =
      let p = schema_version_history_prefix catalog in
      let E = schema_version_history_scan_end catalog in
      let rows = within p (E o) items in
      let read = λ (e : Bytes × Bytes). decode_schema_version e.1 ≡ ok (from_be_bytes e.1) in
      let reads_rows : All read rows =
        All-within (IsHistoryRow catalog) read p (E o) items (λ e h i. up_to_row catalog o e h i)
          wf in
      rw (load_schema_version_at_lem kv items reads catalog o, last?-map item rows)
        (elim (Option-cases (last? rows)) [
          | inl n ↦ rw n (0, refl)
          | inr (e, q) ↦ rw q (from_be_bytes e.1, All-last? read rows e reads_rows q)
        ])

  -- The scans for many orders.
  current_rows :
      (f : CatalogOrderId)
      → kv.scan_range
          (schema_version_history_prefix catalog)
          (schema_version_history_scan_end catalog f)
          RangeDirection.reverse
          1
        ≡ ok (take 1 (List.reverse (up_to catalog items f)))
  current_rows f =
      rw (reads.scan_lem _ _ RangeDirection.reverse 1 (prefix_below catalog f), range_lem)

  interval_rows :
      (f l : CatalogOrderId)
      → length items ≤ usize_max
      → IsOrder f
      → IsOrder l
      → le_order f l ≡ true
      → kv.scan_range
          (schema_version_history_scan_end catalog f)
          (schema_version_history_scan_end catalog l)
          RangeDirection.forward
          usize_max
        ≡ ok (
            map item (
              within
                (schema_version_history_scan_end catalog f)
                (schema_version_history_scan_end catalog l)
                items))
  interval_rows f l b hf hl fl =
      let E = schema_version_history_scan_end catalog in
      rw
        (
          reads.scan_lem (E f) (E l) RangeDirection.forward usize_max
              (scan_end_mono catalog f l hf hl fl),
          range_lem (E f) (E l) items,
        )
        (ap ok (
          take_all usize_max (map item (within (E f) (E l) items))
            (rw length-map (omega (arith, length-within (E f) (E l) items)))))

  -- The rows of the interval decode.
  decoded_rows :
      (f l : CatalogOrderId)
      → IsOrder f
      → IsOrder l
      → collect_map (decode_schema_history_row (schema_version_history_prefix catalog) f.kind) (
          map item (
            within
              (schema_version_history_scan_end catalog f)
              (schema_version_history_scan_end catalog l)
              items))
        ≡ ok (
            map
              (λ e. decoded catalog f.kind (item e))
              (within
                (schema_version_history_scan_end catalog f)
                (schema_version_history_scan_end catalog l)
                items))
  decoded_rows f l hf hl =
      let E = schema_version_history_scan_end catalog in
      let p = schema_version_history_prefix catalog in
      let rows = within (E f) (E l) items in
      let good : All (IsBetween catalog f.kind f l) rows =
        All-within (IsHistoryRow catalog) (IsBetween catalog f.kind f l) (E f) (E l) items
          (λ e h i. IsBetween-row catalog f.kind f l e hf hl h i) wf in
      collect_map_ok (decode_schema_history_row p f.kind) (decoded catalog f.kind) (map item rows) (
        All-map (IsBetween catalog f.kind f l)
          (λ (r : RangeItem). decode_schema_history_row p f.kind r ≡ ok (decoded catalog f.kind r))
          item rows (λ e b. b.decodes) good)
      ∙ ap ok (map-map (decoded catalog f.kind) item rows)

-- The interval scan and the decoding of its rows, as one list of versions.
abbrev interval_history :
    CatalogId → Items → CatalogOrderId → CatalogOrderId → List (CatalogOrderId × ℕ)
interval_history catalog items f l =
    map (λ (e : Bytes × Bytes). decoded catalog f.kind (item e))
      (within (schema_version_history_scan_end catalog f)
        (schema_version_history_scan_end catalog l) items)

abbrev looked_up :
    ℕ → List (CatalogOrderId × ℕ) → CatalogOrderId → CatalogResult (CatalogOrderId × ℕ)
looked_up current history order =
    version_before current history (partition_point order history) >>= λ v. ok (order, v)

abbrev pub loaded :
    OrderedCatalogKv → CatalogId → CatalogOrderId → CatalogResult (CatalogOrderId × ℕ)
loaded kv catalog order = load_schema_version_at none kv catalog order >>= λ v. ok (order, v)

-- With the version of the first scan's row and the rows of the second scan decoded, every order is looked up.
resolve-lem :
    (catalog : CatalogId) (f g : CatalogOrderId) (orders : List CatalogOrderId)
    (rows interval : List RangeItem) (current : ℕ) (history : List (CatalogOrderId × ℕ))
    → version_of_row (first? rows) ≡ ok current
    → collect_map
        (decode_schema_history_row (schema_version_history_prefix catalog) f.kind)
        interval
      ≡ ok history
    → resolve_schema_version_reads catalog (f ∷ g ∷ orders) (rows ∷ interval ∷ [])
      ≡ collect_map (looked_up current history) (f ∷ g ∷ orders)
unfolding resolve_schema_version_reads split_ranges
resolve-lem catalog f g orders rows interval current history c h =
    let many : ltb 1 (length (f ∷ g ∷ orders)) ≡ true = ground arith in rw (many, c, h)

module _ (kv : OrderedCatalogKv) (items : Items) (reads : Reads kv items) (catalog : CatalogId)
    (wf : All (IsHistoryRow catalog) items) where
  -- Every order of the set is resolved as its own load resolves it.
  each_resolved :
      (f l : CatalogOrderId) (os : List CatalogOrderId) (current : ℕ)
      → IsOrder f
      → IsOrder l
      → load_schema_version_at none kv catalog f ≡ ok current
      → All IsOrder os
      → All (λ o. le_order f o ≡ true) os
      → All (λ o. le_order o l ≡ true) os
      → All (λ o. looked_up current (interval_history catalog items f l) o ≡ loaded kv catalog o) os
  each_resolved f l [] current hf hl c v a b = tt
  each_resolved f l (o ∷ os) current hf hl c (v, vs) (a, ls) (b, bs) = (
    ap (λ (r : CatalogResult ℕ). r >>= λ n. ok (o, n))
        (resolved kv items reads catalog wf f o l current hf v hl a b c),
    each_resolved f l os current hf hl c vs ls bs,
  )

  scanned :
      (f g : CatalogOrderId) (orders : List CatalogOrderId)
      → length items ≤ usize_max
      → All IsOrder (f ∷ g ∷ orders)
      → Ascending (f ∷ g ∷ orders)
      → read_ranges kv (schema_version_read_ranges catalog (f ∷ g ∷ orders))
        ≡ ok (
            take 1 (List.reverse (up_to catalog items f))
            ∷ map item (
                within
                  (schema_version_history_scan_end catalog f)
                  (schema_version_history_scan_end catalog (last_order f (g ∷ orders)))
                  items)
            ∷ [])
  unfolding read_ranges schema_version_read_ranges collect_map last_order
  scanned f g orders b valid ((fg, fo), asc) =
      let l = last_order g orders in
      rw (
        lt→ne_order f l (lt-le_order_trans f g l fg (le_last_order g orders asc)),
        current_rows kv items reads catalog wf f,
        interval_rows kv items reads catalog wf f l b valid.0 (IsOrder-last_order g orders valid.1)
            (lt→le_order f l (lt-le_order_trans f g l fg (le_last_order g orders asc))),
      )

  -- For a set of orders in their order, with the rows of the catalog's history well formed, the two scans
  -- give for each order the version that a load at this order gives.
  pub load_schema_versions_at_lem :
      (orders : List CatalogOrderId)
      → length items ≤ usize_max
      → All IsOrder orders
      → Ascending orders
      → load_schema_versions_at none kv catalog orders ≡ collect_map (loaded kv catalog) orders
  unfolding load_schema_versions_at collect_map
  load_schema_versions_at_lem [] b valid asc = refl
  load_schema_versions_at_lem (f ∷ []) b valid asc =
      let (v, e) = load_schema_version_at_total kv items reads catalog wf f in rw e
  load_schema_versions_at_lem (f ∷ g ∷ orders) b valid asc =
      let rest = g ∷ orders in
      let l = last_order f rest in
      let hl : IsOrder l = IsOrder-last_order f rest valid in
      let (current, c) = load_schema_version_at_total kv items reads catalog wf f in
      let at_first : version_of_row (first? (take 1 (List.reverse (up_to catalog items f))))
          ≡ ok current =
        ap version_of_row (
          first?-take_one 0 (List.reverse (up_to catalog items f))
          ∙ first?-reverse (up_to catalog items f))
        ∙ sym (load_schema_version_at_lem kv items reads catalog f)
        ∙ c in
      ap
        (λ (r : CatalogResult (List (List RangeItem))).
          r >>= resolve_schema_version_reads catalog (f ∷ rest))
        (scanned f g orders b valid asc)
      ∙ resolve-lem catalog f g orders _ _ current (interval_history catalog items f l) at_first
          (decoded_rows kv items reads catalog wf f l valid.0 hl)
      ∙ collect_map_congr (looked_up current (interval_history catalog items f l))
          (loaded kv catalog) (f ∷ rest)
          (each_resolved f l (f ∷ rest) current valid.0 hl c valid
            (le_order_refl f, All-imp (λ o. lt→le_order f o) rest asc.0)
            (All-le_last_order f rest asc))
