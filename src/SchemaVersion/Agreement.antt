-- ===== src/SchemaVersion/Agreement.antt =====
-- One order of `load_schema_versions_at` beside a load at this order.
use aux_ducklake.Kv.Ranges.{within_split, All-within, within, range_lem}
use aux_ducklake.Base.{
  All-map, All-last?, Option-cases, last?-map, ℕ, ◌≡◌, refl, sym, ap, ◌∙◌, true, false, Option,
  none, some, List, [], ◌∷◌, ◌++◌, map, All, length, last?, last?-append, first?-reverse,
  first?-take_one, arith, inl, inr,
}
use aux_ducklake.Ids.{lt_order, CatalogId, CatalogOrderKind, CatalogOrderId, IsOrder, le_order}
use mathlib.Core.List
use mathlib.Core.List.{map-append}
use aux_ducklake.Bytes.{Bytes}
use aux_ducklake.Error.{ok}
use aux_ducklake.Keys.Metadata.{schema_version_history_prefix, schema_version_history_scan_end}
use aux_ducklake.Kv.{OrderedCatalogKv, Reads, Items, RangeItem, RangeDirection, item}
use aux_ducklake.SchemaVersion.{
  load_schema_version_at, version_of_row, partition_point, version_before,
}
use aux_ducklake.SchemaVersion.History.{
  IsHistoryRow, IsBetween, IsBetween-row, decoded, prefix_below, scan_end_mono,
}

-- The rows of the versions up to an order.
abbrev pub up_to : CatalogId → Items → CatalogOrderId → List RangeItem
up_to catalog items o = map item (
    within (schema_version_history_prefix catalog) (schema_version_history_scan_end catalog o)
      items)

module _ (kv : OrderedCatalogKv) (items : Items) (reads : Reads kv items)
    (catalog : CatalogId) where
  -- The version at an order is that of the last row up to it, or 0.
  pub load_schema_version_at_lem :
      (o : CatalogOrderId)
      → load_schema_version_at none kv catalog o ≡ version_of_row (last? (up_to catalog items o))
  unfolding load_schema_version_at
  load_schema_version_at_lem o =
      rw (reads.scan_lem _ _ RangeDirection.reverse 1 (prefix_below catalog o), range_lem)
        (ap version_of_row (
          first?-take_one 0 (List.reverse (up_to catalog items o))
          ∙ first?-reverse (up_to catalog items o)))

-- The point of partition, where the orders up to `o` stand first.
partition_point-append :
    (o : CatalogOrderId) (xs ys : List (CatalogOrderId × ℕ))
    → All (λ (e : CatalogOrderId × ℕ). le_order e.0 o ≡ true) xs
    → All (λ (e : CatalogOrderId × ℕ). le_order e.0 o ≡ false) ys
    → partition_point o (xs ++ ys) ≡ length xs
unfolding partition_point
partition_point-append o [] [] hx hy = refl
partition_point-append o [] ((p, v) ∷ ys) hx (h, hy) = rw h
partition_point-append o ((p, v) ∷ xs) ys (h, hx) hy =
    ground (arith, partition_point-append o xs ys hx hy)

-- The entry in front of the point of partition is the last one of the front part.
version_of_entry : ℕ → Option (CatalogOrderId × ℕ) → ℕ
version_of_entry current none = current
version_of_entry current (some e) = e.1

version_before-append :
    (current : ℕ) (xs ys : List (CatalogOrderId × ℕ))
    → version_before current (xs ++ ys) (length xs) ≡ ok (version_of_entry current (last? xs))
unfolding version_before version_of_entry
version_before-append current [] ys = refl
version_before-append current (e ∷ []) ys = refl
version_before-append current (e ∷ f ∷ xs) ys =
    ground (arith, version_before-append current (f ∷ xs) ys)

module _ (catalog : CatalogId) (kind : CatalogOrderKind) (a b : CatalogOrderId) where
  abbrev entry : Bytes × Bytes → CatalogOrderId × ℕ
  entry e = decoded catalog kind (item e)

  version_of_decoded :
      (m older : List (Bytes × Bytes)) (current : ℕ)
      → All (IsBetween catalog kind a b) m
      → version_of_row (last? (map item older)) ≡ ok current
      → version_of_row (last? (map item older ++ map item m))
        ≡ ok (version_of_entry current (last? (map entry m)))
  unfolding version_of_entry
  version_of_decoded m older current h c =
      rw (last?-append (map item older) (map item m), last?-map item m, last?-map entry m)
        (elim (Option-cases (last? m)) [
          | inl n ↦ rw n c
          | inr (e, q) ↦ rw q (All-last? (IsBetween catalog kind a b) m e h q).value_decodes
        ])

-- The orders of a `BTreeSet`.
abbrev pub Ascending : List CatalogOrderId → Type 0
Ascending [] = Unit
Ascending (o ∷ orders) = All (λ p. lt_order o p ≡ true) orders × Ascending orders

module _ (kv : OrderedCatalogKv) (items : Items) (reads : Reads kv items) (catalog : CatalogId)
    (wf : All (IsHistoryRow catalog) items) where
  -- One order between the first and the last one, with the rows behind the first.
  pub resolved :
      (f o l : CatalogOrderId) (current : ℕ)
      → IsOrder f
      → IsOrder o
      → IsOrder l
      → le_order f o ≡ true
      → le_order o l ≡ true
      → load_schema_version_at none kv catalog f ≡ ok current
      → (let history =
            map
              (λ e. decoded catalog f.kind (item e))
              (within
                (schema_version_history_scan_end catalog f)
                (schema_version_history_scan_end catalog l)
                items) in
          version_before current history (partition_point o history))
        ≡ load_schema_version_at none kv catalog o
  resolved f o l current hf ho hl fo ol c =
      let E = schema_version_history_scan_end catalog in
      let p = schema_version_history_prefix catalog in
      let d = λ (e : Bytes × Bytes). decoded catalog f.kind (item e) in
      let near = within (E f) (E o) items in
      let far = within (E o) (E l) items in
      let near_rows : All (IsBetween catalog f.kind f o) near =
        All-within (IsHistoryRow catalog) (IsBetween catalog f.kind f o) (E f) (E o) items
          (λ e h i. IsBetween-row catalog f.kind f o e hf ho h i) wf in
      let far_rows : All (IsBetween catalog f.kind o l) far =
        All-within (IsHistoryRow catalog) (IsBetween catalog f.kind o l) (E o) (E l) items
          (λ e h i. IsBetween-row catalog f.kind o l e ho hl h i) wf in
      let point : partition_point o (map d near ++ map d far) ≡ length (map d near) =
        partition_point-append o (map d near) (map d far)
          (All-map (IsBetween catalog f.kind f o)
            (λ (x : CatalogOrderId × ℕ). le_order x.0 o ≡ true) d near (λ e b. b.up_to_end)
            near_rows)
          (All-map (IsBetween catalog f.kind o l)
            (λ (x : CatalogOrderId × ℕ). le_order x.0 o ≡ false) d far (λ e b. b.behind)
            far_rows) in
      let rows_split : within (E f) (E l) items ≡ near ++ far =
        within_split (E f) (E o) (E l) items reads.sorted (scan_end_mono catalog f o hf ho fo)
          (scan_end_mono catalog o l ho hl ol) in
      let older = within p (E f) items in
      let scan_split : within p (E o) items ≡ older ++ near =
        within_split p (E f) (E o) items reads.sorted (prefix_below catalog f)
          (scan_end_mono catalog f o hf ho fo) in
      ap (λ (h : Items). version_before current (map d h) (partition_point o (map d h))) rows_split
      ∙ ap (λ (h : List (CatalogOrderId × ℕ)). version_before current h (partition_point o h))
          (map-append d near far)
      ∙ ap (version_before current (map d near ++ map d far)) point
      ∙ version_before-append current (map d near) (map d far)
      ∙ sym (
          version_of_decoded catalog f.kind f o near older current near_rows
            (sym (load_schema_version_at_lem kv items reads catalog f) ∙ c))
      ∙ sym (
          ap (λ (h : List RangeItem). version_of_row (last? h))
            (ap (map item) scan_split ∙ map-append item older near))
      ∙ sym (load_schema_version_at_lem kv items reads catalog o)
