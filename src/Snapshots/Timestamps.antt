-- ===== src/Snapshots/Timestamps.antt =====
-- The snapshots at and before a timestamp, against the snapshots that a store holds.
use aux_ducklake.Snapshots.{
  list_snapshots, sort_by_order, lower, upper, decode_timestamp_snapshot, decode_snapshot_item,
  snapshot_order_from_key, eq_ℤ, older_rows, select_rows, list_snapshots_older_than,
  snapshot_by_timestamp,
}
use aux_ducklake.Keys.PrefixEnd.{prefix_end-family_prefix}
use aux_ducklake.Keys.Family.{KeyFamily}
use aux_ducklake.Base.{
  ◌≤◌, ◌≡◌, refl, Bool, true, false, not, Option, none, some, List, [], ◌∷◌, map, filter,
  if◌then◌else◌, length, All, take_all, length-map, arith, Bool-cases, inl, inr, first?, last?,
}
use mathlib.Core.Path.{sym, ap, ◌∙◌}
use aux_ducklake.Base.Int.{ℤ, pos, negsuc, ltb_ℤ}
use aux_ducklake.Bytes.{Bytes, ltb_bytes}
use aux_ducklake.Bytes.Order.{eq_bytes_refl}
use aux_ducklake.Bytes.Prefix.{strip_prefix-append}
use aux_ducklake.BTreeMap.{IsSorted, Above, bytes_ord}
use aux_ducklake.Error.{ok, collect_map}
use aux_ducklake.Ids.{CatalogId, CatalogOrderId, CatalogOrderKind, IsOrder, lt_order}
use aux_ducklake.Ids.CatalogOrder.{from_bytes}
use aux_ducklake.Keys.{prefix_end}
use aux_ducklake.Keys.Snapshot.{
  snapshot_key, snapshot_timestamp_prefix, snapshot_timestamp_key, snapshot_prefix,
}
use aux_ducklake.Keys.Timestamps.{
  ltb_bytes-snapshot_timestamp_key, decode_snapshot_timestamp_key-snapshot_timestamp_key,
}
use aux_ducklake.Kv.{OrderedCatalogKv, Reads, Items, item, usize_max, range, scan_prefix, forward}
use aux_ducklake.Kv.Ranges.{within, range_lem, length-within}
use aux_ducklake.Kv.Pages.Split.{within-IsSorted}
use aux_ducklake.Rows.Snapshot.{SnapshotRow, encode_snapshot}
use aux_ducklake.Rows.SnapshotRoundTrip.{IsSnapshotRow, decode_snapshot-encode_snapshot}

-- The row of the timestamp index that `stage_snapshot` writes for a snapshot.
abbrev pub timestamp_row : CatalogId → SnapshotRow → Bytes × Bytes
timestamp_row catalog s =
    (snapshot_timestamp_key catalog s.created_at_micros s.order, encode_snapshot s)

-- A snapshot as it is read back from its row, with an order of the kind of UUIDs.
abbrev pub as_listed : SnapshotRow → SnapshotRow
as_listed s = record s { order = from_bytes CatalogOrderKind.uuid_v7 s.order.bytes }

-- The rows of the timestamp index are those of the snapshots.
abbrev pub HoldsSnapshots : CatalogId → Items → List SnapshotRow → Type 0
HoldsSnapshots catalog items snapshots =
    within (snapshot_timestamp_prefix catalog) (prefix_end (snapshot_timestamp_prefix catalog))
      items
    ≡ map (timestamp_row catalog) snapshots

eq_ℤ_refl : (v : ℤ) → eq_ℤ v v ≡ true
eq_ℤ_refl (pos a) = ground arith
eq_ℤ_refl (negsuc a) = ground arith

order_read :
    (catalog : CatalogId) (o : CatalogOrderId)
    → IsOrder o
    → snapshot_order_from_key catalog
        (snapshot_key catalog (from_bytes CatalogOrderKind.uuid_v7 o.bytes))
        (from_bytes CatalogOrderKind.uuid_v7 o.bytes)
      ≡ ok (from_bytes CatalogOrderKind.uuid_v7 o.bytes)
unfolding snapshot_order_from_key snapshot_key snapshot_prefix from_bytes
order_read catalog o h = rw (strip_prefix-append, h.sized, eq_bytes_refl o.bytes) refl

decode_row :
    (catalog : CatalogId) (s : SnapshotRow)
    → IsSnapshotRow s
    → decode_timestamp_snapshot catalog (item (timestamp_row catalog s)) ≡ ok (as_listed s)
unfolding decode_timestamp_snapshot decode_snapshot_item from_bytes
decode_row catalog s v =
    rw
      (
        decode_snapshot_timestamp_key-snapshot_timestamp_key catalog s.created_at_micros s.order
            v.created_at_bound v.order_valid,
        decode_snapshot-encode_snapshot s v,
        order_read catalog s.order v.order_valid,
        eq_ℤ_refl s.created_at_micros,
      )
      refl

-- Later snapshots have no lower timestamps.
abbrev Ascending : List SnapshotRow → Type 0
Ascending [] = Unit
Ascending (s ∷ snapshots) =
    All (λ (d : SnapshotRow). ltb_ℤ d.created_at_micros s.created_at_micros ≡ false) snapshots
    × Ascending snapshots

ltb_ℤ_asymm : (a b : ℤ) → ltb_ℤ a b ≡ true → ltb_ℤ b a ≡ false
ltb_ℤ_asymm (pos a) (pos b) h = ground arith
ltb_ℤ_asymm (pos a) (negsuc b) h = cc
ltb_ℤ_asymm (negsuc a) (pos b) h = refl
ltb_ℤ_asymm (negsuc a) (negsuc b) h = ground arith

-- What is not below `s`, which is not below `t`, is not below `t`.
not_below : (d s t : ℤ) → ltb_ℤ d s ≡ false → ltb_ℤ s t ≡ false → ltb_ℤ d t ≡ false
not_below (pos d) (pos s) (pos t) h k = ground arith
not_below (pos d) (pos s) (negsuc t) h k = refl
not_below (pos d) (negsuc s) (pos t) h k = cc
not_below (pos d) (negsuc s) (negsuc t) h k = refl
not_below (negsuc d) (pos s) t h k = cc
not_below (negsuc d) (negsuc s) (pos t) h k = cc
not_below (negsuc d) (negsuc s) (negsuc t) h k = ground arith

-- The first test of two decides, unless both fail.
lesser :
    (t u : ℤ) (rest : Bool)
    → (if ltb_ℤ t u then true else if ltb_ℤ u t then false else rest) ≡ true
    → ltb_ℤ u t ≡ false
lesser t u rest h = ground (arith, ltb_ℤ_asymm t u)

not_earlier :
    (catalog : CatalogId) (s d : SnapshotRow)
    → IsSnapshotRow s
    → IsSnapshotRow d
    → ltb_bytes
        (snapshot_timestamp_key catalog s.created_at_micros s.order)
        (snapshot_timestamp_key catalog d.created_at_micros d.order)
      ≡ true
    → ltb_ℤ d.created_at_micros s.created_at_micros ≡ false
not_earlier catalog s d v w h =
    lesser s.created_at_micros d.created_at_micros (lt_order s.order d.order) (
      sym (
        ltb_bytes-snapshot_timestamp_key catalog s.created_at_micros d.created_at_micros s.order
          d.order v.created_at_bound w.created_at_bound)
      ∙ h)

Ascending-rows :
    (catalog : CatalogId) (snapshots : List SnapshotRow)
    → All IsSnapshotRow snapshots
    → IsSorted (map (timestamp_row catalog) snapshots)
    → Ascending snapshots
Ascending-rows catalog [] v h = tt
Ascending-rows catalog (s ∷ snapshots) (v, vs) (h, hs) =
    (later snapshots vs h, Ascending-rows catalog snapshots vs hs)
  where
    later :
        (snapshots : List SnapshotRow)
        → All IsSnapshotRow snapshots
        → Above
            (snapshot_timestamp_key catalog s.created_at_micros s.order)
            (map (timestamp_row catalog) snapshots)
        → All (λ (d : SnapshotRow). ltb_ℤ d.created_at_micros s.created_at_micros ≡ false) snapshots
    later [] vs h = tt
    later (d ∷ snapshots) (w, ws) (h, hs) = (not_earlier catalog s d v w h, later snapshots ws hs)

none_older :
    (t : ℤ) (s : SnapshotRow) (snapshots : List SnapshotRow)
    → ltb_ℤ s.created_at_micros t ≡ false
    → All (λ (d : SnapshotRow). ltb_ℤ d.created_at_micros s.created_at_micros ≡ false) snapshots
    → filter (λ (d : SnapshotRow). ltb_ℤ d.created_at_micros t) snapshots ≡ []
none_older t s [] h hs = refl
none_older t s (d ∷ snapshots) h (k, ks) =
    rw (not_below d.created_at_micros s.created_at_micros t k h, none_older t s snapshots h ks) refl

older_rows_lem :
    (catalog : CatalogId) (t : ℤ) (snapshots : List SnapshotRow)
    → All IsSnapshotRow snapshots
    → Ascending snapshots
    → older_rows catalog t (map item (map (timestamp_row catalog) snapshots))
      ≡ ok (map as_listed (filter (λ (s : SnapshotRow). ltb_ℤ s.created_at_micros t) snapshots))
unfolding older_rows
older_rows_lem catalog t [] v a = refl
older_rows_lem catalog t (s ∷ snapshots) (v, vs) (a, as_) =
    elim (Bool-cases (ltb_ℤ s.created_at_micros t)) [
      | inl e ↦
          rw
            (
              decode_snapshot_timestamp_key-snapshot_timestamp_key catalog s.created_at_micros
                  s.order v.created_at_bound v.order_valid,
              e,
              decode_row catalog s v,
              older_rows_lem catalog t snapshots vs as_,
            )
            refl
      | inr n ↦
          rw
            (
              decode_snapshot_timestamp_key-snapshot_timestamp_key catalog s.created_at_micros
                  s.order v.created_at_bound v.order_valid,
              n,
              none_older t s snapshots n a,
            )
            refl
    ]

lower_lem :
    (catalog : CatalogId) (t : ℤ) (snapshots : List SnapshotRow)
    → All IsSnapshotRow snapshots
    → select_rows catalog t lower none (map item (map (timestamp_row catalog) snapshots))
      ≡ ok (
          first? (
            map as_listed
              (filter (λ (s : SnapshotRow). not (ltb_ℤ s.created_at_micros t)) snapshots)))
unfolding select_rows
lower_lem catalog t [] v = refl
lower_lem catalog t (s ∷ snapshots) (v, vs) = elim (Bool-cases (ltb_ℤ s.created_at_micros t)) [
  | inl e ↦
      rw
        (
          decode_snapshot_timestamp_key-snapshot_timestamp_key catalog s.created_at_micros s.order
              v.created_at_bound v.order_valid,
          e,
          lower_lem catalog t snapshots vs,
        )
        refl
  | inr n ↦
      rw
        (
          decode_snapshot_timestamp_key-snapshot_timestamp_key catalog s.created_at_micros s.order
              v.created_at_bound v.order_valid,
          n,
          decode_row catalog s v,
        )
        refl
]

none_before :
    (t : ℤ) (s : SnapshotRow) (snapshots : List SnapshotRow)
    → ltb_ℤ t s.created_at_micros ≡ true
    → All (λ (d : SnapshotRow). ltb_ℤ d.created_at_micros s.created_at_micros ≡ false) snapshots
    → filter (λ (d : SnapshotRow). not (ltb_ℤ t d.created_at_micros)) snapshots ≡ []
none_before t s [] h hs = refl
none_before t s (d ∷ snapshots) h (k, ks) =
    ground
      (arith, not_below t d.created_at_micros s.created_at_micros, none_before t s snapshots h ks)

-- What the loop has selected, when the rest selects nothing.
abbrev or_selected : Option SnapshotRow → Option SnapshotRow → Option SnapshotRow
or_selected selected none = selected
or_selected selected (some s) = some s

last_selected :
    (s : SnapshotRow) (selected : Option SnapshotRow) (snapshots : List SnapshotRow)
    → or_selected selected (last? (s ∷ snapshots)) ≡ or_selected (some s) (last? snapshots)
last_selected s selected snapshots = ground arith

upper_lem :
    (catalog : CatalogId) (t : ℤ) (selected : Option SnapshotRow) (snapshots : List SnapshotRow)
    → All IsSnapshotRow snapshots
    → Ascending snapshots
    → select_rows catalog t upper selected (map item (map (timestamp_row catalog) snapshots))
      ≡ ok (
          or_selected selected (
            last? (
              map as_listed
                (filter (λ (s : SnapshotRow). not (ltb_ℤ t s.created_at_micros)) snapshots))))
unfolding select_rows
upper_lem catalog t selected [] v a = refl
upper_lem catalog t selected (s ∷ snapshots) (v, vs) (a, as_) =
    elim (Bool-cases (ltb_ℤ t s.created_at_micros)) [
      | inl e ↦
          rw
            (
              decode_snapshot_timestamp_key-snapshot_timestamp_key catalog s.created_at_micros
                  s.order v.created_at_bound v.order_valid,
              e,
              none_before t s snapshots e a,
            )
            refl
      | inr n ↦
          rw
            (
              decode_snapshot_timestamp_key-snapshot_timestamp_key catalog s.created_at_micros
                  s.order v.created_at_bound v.order_valid,
              n,
              decode_row catalog s v,
              upper_lem catalog t (some (as_listed s)) snapshots vs as_,
            )
            (ap ok (
              sym (
                last_selected (as_listed s) selected (
                  map as_listed
                    (filter (λ (s : SnapshotRow). not (ltb_ℤ t s.created_at_micros)) snapshots)))))
    ]

first_selected : (found : Option SnapshotRow) → or_selected none found ≡ found
first_selected none = refl
first_selected (some s) = refl

scanned :
    (kv : OrderedCatalogKv) (items : Items) (catalog : CatalogId) (snapshots : List SnapshotRow)
    → Reads kv items
    → length items ≤ usize_max
    → HoldsSnapshots catalog items snapshots
    → scan_prefix kv (snapshot_timestamp_prefix catalog) forward usize_max
      ≡ ok (map item (map (timestamp_row catalog) snapshots))
unfolding scan_prefix snapshot_timestamp_prefix
scanned kv items catalog snapshots reads h holds =
    let p = snapshot_timestamp_prefix catalog in
    let fits : length (range p (prefix_end p) items) ≤ usize_max =
      rw (range_lem p (prefix_end p) items, length-map item (within p (prefix_end p) items))
        (omega (arith, length-within p (prefix_end p) items)) in
    rw
      (
        reads.scan_lem p (prefix_end p) forward usize_max
            (prefix_end-family_prefix catalog KeyFamily.snapshot_by_timestamp),
        take_all usize_max (range p (prefix_end p) items) fits,
        range_lem p (prefix_end p) items,
      )
      (ap (λ rows. ok (map item rows)) holds)

rows_read :
    (catalog : CatalogId) (snapshots : List SnapshotRow)
    → All IsSnapshotRow snapshots
    → collect_map
        (decode_timestamp_snapshot catalog)
        (map item (map (timestamp_row catalog) snapshots))
      ≡ ok (map as_listed snapshots)
unfolding collect_map
rows_read catalog [] v = refl
rows_read catalog (s ∷ snapshots) (v, vs) =
    rw (decode_row catalog s v, rows_read catalog snapshots vs) refl

-- The list of the snapshots of a store whose rows of the timestamp index are those of some
-- snapshots.
pub list_snapshots_lem :
    (kv : OrderedCatalogKv) (items : Items) (catalog : CatalogId) (snapshots : List SnapshotRow)
    → Reads kv items
    → length items ≤ usize_max
    → HoldsSnapshots catalog items snapshots
    → All IsSnapshotRow snapshots
    → list_snapshots kv catalog ≡ ok (sort_by_order (map as_listed snapshots))
unfolding list_snapshots
list_snapshots_lem kv items catalog snapshots reads h holds valid =
    rw (scanned kv items catalog snapshots reads h holds, rows_read catalog snapshots valid) refl

-- What the loops of `list_snapshots_older_than` and `snapshot_by_timestamp` find in a store whose
-- rows of the timestamp index are those of the snapshots, in the order of their timestamps: the
-- snapshots below the timestamp, the first one at or after it, and the last one at or before it.
-- Each is read back with an order of the kind of UUIDs.
pub by_timestamp :
    (kv : OrderedCatalogKv) (items : Items) (catalog : CatalogId) (snapshots : List SnapshotRow)
    (t : ℤ)
    → Reads kv items
    → length items ≤ usize_max
    → HoldsSnapshots catalog items snapshots
    → All IsSnapshotRow snapshots
    → (list_snapshots_older_than kv catalog t
        ≡ ok (map as_listed (filter (λ (s : SnapshotRow). ltb_ℤ s.created_at_micros t) snapshots)))
      × (snapshot_by_timestamp kv catalog t lower
          ≡ ok (
              first? (
                map as_listed
                  (filter (λ (s : SnapshotRow). not (ltb_ℤ s.created_at_micros t)) snapshots))))
      × (snapshot_by_timestamp kv catalog t upper
          ≡ ok (
              last? (
                map as_listed
                  (filter (λ (s : SnapshotRow). not (ltb_ℤ t s.created_at_micros)) snapshots))))
unfolding list_snapshots_older_than snapshot_by_timestamp
by_timestamp kv items catalog snapshots t reads h holds valid =
    let p = snapshot_timestamp_prefix catalog in
    let sorted = rw holds at (within-IsSorted p (prefix_end p) items reads.sorted) in
    let ascending = Ascending-rows catalog snapshots valid sorted in
    let read = scanned kv items catalog snapshots reads h holds in
    (
      rw (read, older_rows_lem catalog t snapshots valid ascending) refl,
      rw (read, lower_lem catalog t snapshots valid) refl,
      rw (read, upper_lem catalog t none snapshots valid ascending)
          (ap ok (
            first_selected (
              last? (
                map as_listed
                  (filter (λ (s : SnapshotRow). not (ltb_ℤ t s.created_at_micros)) snapshots))))),
    )
