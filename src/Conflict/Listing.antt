-- ===== src/Conflict/Listing.antt =====
-- `list_data_file_changes_since_base` against the changes that a store holds.
use aux_ducklake.Bytes.{starts_with, Bytes, IsU64, ltb_bytes, eq_bytes}
use aux_ducklake.Conflict.Window.{
  decode_snapshot_data_file_change_key-snapshot_data_file_change_key, changes_since_base_scan,
}
use aux_ducklake.Conflict.{
  decode_snapshot_data_file_change_key, list_data_file_changes_since_base,
  snapshot_change_scan_start_after, snapshot_change_scan_end, scan_order_kind,
}
use aux_ducklake.Base.{
  take, ◌≤◌, ◌≡◌, refl, sym, ap, ◌∙◌, Bool, true, false, ◌&&◌, List, [], ◌∷◌, ◌++◌, map, filter,
  length, All, take_all, length-map, if◌then◌else◌, Bool-cases, inl, inr, arith,
}
use aux_ducklake.Bytes.Ranges.{ltb_bytes-append_self, prefix_of_between}
use aux_ducklake.Bytes.Order.{
  ltb-leb_bytes_trans, ltb_bytes-append_left, ltb_bytes-append, ltb_bytes_irrefl,
}
use aux_ducklake.BTreeMap.{bytes_ord, retain}
use aux_ducklake.Error.{ok, collect_map}
use aux_ducklake.FileListing.{DataFileChange}
use aux_ducklake.Ids.{CatalogId, CatalogOrderKind, CatalogOrderId, IsOrder, lt_order, le_order}
use aux_ducklake.Ids.CatalogOrder.{from_bytes}
use aux_ducklake.Keys.{in_range}
use aux_ducklake.Keys.Change.{snapshot_data_file_change_prefix, snapshot_data_file_change_key}
use aux_ducklake.Kv.{OrderedCatalogKv, Reads, Items, RangeItem, RangeDirection, item, usize_max}
use aux_ducklake.Kv.Ranges.{within, range_lem, length-within}

-- What the types of a change's fields give.
pub record IsChange (c : DataFileChange) : Type 0 where
  pub order_valid : IsOrder c.order
  pub table_bound : IsU64 c.table_id
  pub file_bound : IsU64 c.data_file_id

-- The row that `write_data_file_change` leaves for a change.
abbrev pub change_row : CatalogId → DataFileChange → Bytes × Bytes
change_row catalog c =
    (snapshot_data_file_change_key catalog c.table_id c.order c.kind c.data_file_id, [])

-- The store's rows below the prefix of the snapshot changes are those of the changes listed.
abbrev pub HoldsChanges : CatalogId → Items → List DataFileChange → Type 0
HoldsChanges catalog items changes =
    retain (λ k _. starts_with (snapshot_data_file_change_prefix catalog) k) items
    ≡ map (change_row catalog) changes

abbrev pub in_window : CatalogOrderId → CatalogOrderId → DataFileChange → Bool
in_window base through c = lt_order base c.order && le_order c.order through

abbrev pub of_kind : CatalogOrderKind → DataFileChange → DataFileChange
of_kind kind c = record c { order = from_bytes kind c.order.bytes }

excluded : (p q : Bytes → Bool) (k : Bytes) → (p k ≡ true → q k ≡ true) → q k ≡ false → p k ≡ false
excluded p q k h n = elim (Bool-cases (p k)) [ inl e ↦ absurd (cc (h e, n)) | inr e ↦ e ]

if-map :
    (f : DataFileChange → Bytes × Bytes) (b : Bool) (xs ys : List DataFileChange)
    → (if b then map f xs else map f ys) ≡ map f (if b then xs else ys)
if-map f true xs ys = refl
if-map f false xs ys = refl

-- A test that implies another one may run behind it.
retain-retain :
    (p q : Bytes → Bool) (m : Items)
    → ((k : Bytes) → p k ≡ true → q k ≡ true)
    → retain (λ k _. p k) m ≡ retain (λ k _. p k) (retain (λ k _. q k) m)
unfolding retain
retain-retain p q [] h = refl
retain-retain p q ((k, v) ∷ m) h = elim (Bool-cases (q k)) [
  | inl e ↦ rw e (ap (λ rest. if p k then (k, v) ∷ rest else rest) (retain-retain p q m h))
  | inr n ↦ rw (n, excluded p q k (h k) n) (retain-retain p q m h)
]

module _ (catalog : CatalogId) (base through : CatalogOrderId) (hb : IsOrder base)
    (ht : IsOrder through) where
  abbrev start : Bytes
  start = snapshot_change_scan_start_after catalog base

  abbrev end_key : Bytes
  end_key = snapshot_change_scan_end catalog through

  excluded-prefix :
      (k : Bytes)
      → ltb_bytes k start ≡ false
      → ltb_bytes k (snapshot_data_file_change_prefix catalog) ≡ false
  unfolding snapshot_change_scan_start_after
  excluded-prefix k h =
      let p = snapshot_data_file_change_prefix catalog in
      let behind = ltb_bytes-append_self p (base.bytes ++ (0xff ∷ [])) in
      elim (Bool-cases (ltb_bytes k p)) [
        | inl e ↦ absurd (cc (h, ltb-leb_bytes_trans k p start e behind))
        | inr n ↦ n
      ]

  in_prefix :
      (k : Bytes)
      → in_range start end_key k ≡ true
      → starts_with (snapshot_data_file_change_prefix catalog) k ≡ true
  unfolding snapshot_change_scan_start_after snapshot_change_scan_end starts_with
  in_prefix k h =
      let p = snapshot_data_file_change_prefix catalog in
      let from_start : ltb_bytes k start ≡ false = ground arith in
      let below_end : ltb_bytes k end_key ≡ true = ground arith in
      let above : ltb_bytes k p ≡ false = excluded-prefix k from_start in
      let (x, e) = prefix_of_between p (through.bytes ++ (0xff ∷ [])) k above below_end in
      rw (starts_with, e)

  retain-map :
      (changes : List DataFileChange)
      → All IsChange changes
      → retain (λ k _. in_range start end_key k) (map (change_row catalog) changes)
        ≡ map (change_row catalog) (filter (in_window base through) changes)
  unfolding retain
  retain-map [] v = refl
  retain-map (c ∷ changes) (v, vs) =
      rw
        (changes_since_base_scan catalog base through c.order c.table_id c.kind c.data_file_id hb ht
          v.order_valid)
        (ap
            (λ (rest : Items).
              if in_window base through c then change_row catalog c ∷ rest else rest)
            (retain-map changes vs)
          ∙ if-map (change_row catalog) (in_window base through c) _ _)

  not_inverted : lt_order through base ≡ false → ltb_bytes end_key start ≡ false
  unfolding snapshot_change_scan_start_after snapshot_change_scan_end lt_order
  not_inverted h =
      ltb_bytes-append_left (snapshot_data_file_change_prefix catalog) _ _
      ∙ ltb_bytes-append through.bytes base.bytes _ _ (ht.sized ∙ sym hb.sized)
      ∙ elim (Bool-cases (eq_bytes through.bytes base.bytes)) [
        | inl e ↦ rw e (ltb_bytes_irrefl (0xff ∷ []))
        | inr n ↦ rw n h
      ]

  -- The rows of the scan are those of the changes in the window.
  window_rows :
      (items : Items) (changes : List DataFileChange)
      → HoldsChanges catalog items changes
      → All IsChange changes
      → within start end_key items
        ≡ map (change_row catalog) (filter (in_window base through) changes)
  unfolding within
  window_rows items changes held valid =
      retain-retain (in_range start end_key)
        (starts_with (snapshot_data_file_change_prefix catalog)) items in_prefix
      ∙ ap (retain (λ k _. in_range start end_key k)) held
      ∙ retain-map changes valid

All-filter :
    (p : DataFileChange → Bool) (changes : List DataFileChange)
    → All IsChange changes
    → All IsChange (filter p changes)
All-filter p [] v = tt
All-filter p (c ∷ changes) (v, vs) = elim (Bool-cases (p c)) [
  | inl e ↦ rw e (v, All-filter p changes vs)
  | inr n ↦ rw n (All-filter p changes vs)
]

decode_rows :
    (catalog : CatalogId) (kind : CatalogOrderKind) (changes : List DataFileChange)
    → All IsChange changes
    → collect_map
        (λ (row : RangeItem).
          decode_snapshot_data_file_change_key
            (snapshot_data_file_change_prefix catalog)
            row.key
            kind)
        (map item (map (change_row catalog) changes))
      ≡ ok (map (of_kind kind) changes)
unfolding collect_map
decode_rows catalog kind [] v = refl
decode_rows catalog kind (c ∷ changes) (v, vs) = rw (
  decode_snapshot_data_file_change_key-snapshot_data_file_change_key catalog c.order c.table_id
      c.kind c.data_file_id kind v.order_valid v.table_bound v.file_bound,
  decode_rows catalog kind changes vs,
)

-- Over a store whose rows below the prefix of the snapshot changes are those of a list of changes,
-- and whose number of rows the limit of a scan covers, the changes since a base are exactly the
-- listed ones above the base and up to the end, in their order, each with the kind of order that
-- the scan asks for; the end must not be below the base.
pub list_data_file_changes_since_base_lem :
    (kv : OrderedCatalogKv) (items : Items) (catalog : CatalogId) (base through : CatalogOrderId)
    (changes : List DataFileChange)
    → Reads kv items
    → IsOrder base
    → IsOrder through
    → lt_order through base ≡ false
    → length items ≤ usize_max
    → HoldsChanges catalog items changes
    → All IsChange changes
    → list_data_file_changes_since_base kv catalog base through
      ≡ ok (map (of_kind (scan_order_kind base through)) (filter (in_window base through) changes))
unfolding list_data_file_changes_since_base
list_data_file_changes_since_base_lem kv items catalog base through changes reads hb ht h bound held
      valid =
    let kind = scan_order_kind base through in
    let S = snapshot_change_scan_start_after catalog base in
    let E = snapshot_change_scan_end catalog through in
    let listed = filter (in_window base through) changes in
    let scanned : kv.scan_range S E RangeDirection.forward usize_max
        ≡ ok (map item (map (change_row catalog) listed)) =
      reads.scan_lem S E RangeDirection.forward usize_max
        (not_inverted catalog base through hb ht h)
      ∙ ap ok (
          ap (take usize_max) (range_lem S E items)
          ∙ take_all usize_max (map item (within S E items))
              (rw length-map (omega (arith, length-within S E items)))
          ∙ ap (map item) (window_rows catalog base through hb ht items changes held valid)) in
    rw (h, scanned)
      (decode_rows catalog kind listed (All-filter (in_window base through) changes valid))
