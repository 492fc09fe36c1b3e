-- ===== src/Keys/Scans.antt =====
-- The ends of the scans in keys.rs, object_keys.rs and change_keys.rs against the keys that they
-- are to find.
use aux_ducklake.Base.{ℕ, ◌≡◌, refl, ◌∙◌, sym, true, ◌&&◌, [], ◌∷◌, ◌++◌, append_assoc, append-nil}
use aux_ducklake.Bytes.{Bytes, ltb_bytes}
use aux_ducklake.Bytes.Ranges.{ltb_bytes-append_self, below_scan_end, below_scan_start}
use aux_ducklake.Ids.{CatalogId, TableId, DataFileId, CatalogOrderId, IsOrder, le_order}
use aux_ducklake.Keys.{in_range, u64}
use aux_ducklake.Keys.DataFile.{
  data_file_begin_key, data_file_begin_prefix, data_file_begin_scan_end, delete_file_timeline_key,
  delete_file_timeline_prefix, delete_file_timeline_scan_end,
}
use aux_ducklake.Keys.Object.{
  table_visibility_key, table_visibility_prefix, table_visibility_scan_end,
}
use aux_ducklake.Keys.Metadata.{
  schema_version_history_key, schema_version_history_prefix, schema_version_history_scan_end,
}
use aux_ducklake.FileListing.{DataFileChangeKind}
use aux_ducklake.FileListing.ChangeKind.{InlineRowChangeKind}
use aux_ducklake.Keys.Change.{
  table_data_file_change_prefix, table_data_file_change_scan_start, table_data_file_change_scan_end,
  table_data_file_change_key, table_delete_file_change_prefix, table_delete_file_change_scan_start,
  table_delete_file_change_scan_end, table_delete_file_change_key, order_delete_file_change_prefix,
  order_delete_file_change_scan_start, order_delete_file_change_scan_end,
  order_delete_file_change_key, table_inline_row_change_prefix, table_inline_row_change_scan_start,
  table_inline_row_change_scan_end, table_inline_row_change_key,
  table_schema_kind_inline_row_change_prefix, table_schema_kind_inline_row_change_scan_start,
  table_schema_kind_inline_row_change_scan_end, table_schema_kind_inline_row_change_key,
}

-- From a prefix to the end of the order `s`: the keys of the orders up to `s`.
module _ (p t : Bytes) (o s : CatalogOrderId) (ho : IsOrder o) (hs : IsOrder s) where
  pub up_to_order :
      ltb_bytes t (0xff ∷ []) ≡ true
      → in_range p (p ++ (s.bytes ++ (0xff ∷ []))) (p ++ (o.bytes ++ t)) ≡ le_order o s
  unfolding le_order
  up_to_order low = rw (
    ltb_bytes-append_self p (o.bytes ++ t),
    below_scan_end p o.bytes s.bytes t (ho.sized ∙ sym hs.sized) low,
  )

  -- From the start of the order `a` to the end of the order `s`.
  pub between_orders :
      (a : CatalogOrderId)
      → IsOrder a
      → ltb_bytes t (0xff ∷ []) ≡ true
      → in_range (p ++ a.bytes) (p ++ (s.bytes ++ (0xff ∷ []))) (p ++ (o.bytes ++ t))
        ≡ (le_order a o && le_order o s)
  unfolding le_order
  between_orders a ha low = rw (
    below_scan_start p o.bytes a.bytes t (ho.sized ∙ sym ha.sized),
    below_scan_end p o.bytes s.bytes t (ho.sized ∙ sym hs.sized) low,
  )

pub separator_low : (t : Bytes) → ltb_bytes (b'/' ∷ t) (0xff ∷ []) ≡ true
unfolding ltb_bytes
separator_low t = refl

-- The index of data files by begin order is keyed below its own prefix.
pub data_file_begin_key_lem :
    (catalog : CatalogId) (id : TableId) (o : CatalogOrderId) (sub : DataFileId)
    → data_file_begin_key catalog id o sub
      ≡ data_file_begin_prefix catalog id ++ (o.bytes ++ (b'/' ∷ u64 sub))
unfolding data_file_begin_key data_file_begin_prefix
data_file_begin_key_lem catalog id o sub = simp append_assoc

schema_version_history_scan :
    (catalog : CatalogId) (o s : CatalogOrderId)
    → IsOrder o
    → IsOrder s
    → in_range
        (schema_version_history_prefix catalog)
        (schema_version_history_scan_end catalog s)
        (schema_version_history_key catalog o)
      ≡ le_order o s
unfolding schema_version_history_key schema_version_history_scan_end
schema_version_history_scan catalog o s ho hs =
    rw (append_assoc (schema_version_history_prefix catalog) s.bytes (0xff ∷ [])) (
      rw (append-nil o.bytes) at (
        up_to_order (schema_version_history_prefix catalog) [] o s ho hs
          (unfold ltb_bytes in refl)))

-- A scan of what began by a snapshot, from the prefix of its index to the scan end of the
-- snapshot's order, takes in a key exactly where the key's order is at most the snapshot's:
-- begin index of data files, timeline of delete files, visibility index of tables, and history of
-- schema versions.
pub snapshot_scans :
    (catalog : CatalogId) (o s : CatalogOrderId) (id sub : ℕ)
    → IsOrder o
    → IsOrder s
    → (in_range
          (data_file_begin_prefix catalog id)
          (data_file_begin_scan_end catalog id s)
          (data_file_begin_key catalog id o sub)
        ≡ le_order o s)
      × (in_range
            (delete_file_timeline_prefix catalog id)
            (delete_file_timeline_scan_end catalog id s)
            (delete_file_timeline_key catalog id o sub)
          ≡ le_order o s)
      × (in_range
            (table_visibility_prefix catalog)
            (table_visibility_scan_end catalog s)
            (table_visibility_key catalog o id)
          ≡ le_order o s)
      × (in_range
            (schema_version_history_prefix catalog)
            (schema_version_history_scan_end catalog s)
            (schema_version_history_key catalog o)
          ≡ le_order o s)
unfolding data_file_begin_key data_file_begin_scan_end delete_file_timeline_key
    delete_file_timeline_scan_end table_visibility_key table_visibility_scan_end
    schema_version_history_key schema_version_history_scan_end
snapshot_scans catalog o s id sub ho hs =
    let low = separator_low (u64 sub) in
    (
      rw (data_file_begin_key_lem catalog id o sub)
          (up_to_order (data_file_begin_prefix catalog id) _ o s ho hs low),
      up_to_order (delete_file_timeline_prefix catalog id) _ o s ho hs low,
      up_to_order (table_visibility_prefix catalog) _ o s ho hs (separator_low (u64 id)),
      schema_version_history_scan catalog o s ho hs,
    )

-- A scan of a change feed, from its scan start at the order `a` to its scan end at the order `s`,
-- takes in the key of a change exactly where the change's order lies between `a` and `s`, both
-- included: data-file changes, delete-file changes by table and by order, inline row changes by
-- table and by schema and kind.
pub change_scans :
    (catalog : CatalogId) (a o s : CatalogOrderId) (id sub row : ℕ) (kind : DataFileChangeKind)
    (row_kind : InlineRowChangeKind)
    → IsOrder a
    → IsOrder o
    → IsOrder s
    → (in_range
          (table_data_file_change_scan_start catalog id a)
          (table_data_file_change_scan_end catalog id s)
          (table_data_file_change_key catalog id o kind sub)
        ≡ (le_order a o && le_order o s))
      × (in_range
            (table_delete_file_change_scan_start catalog id a)
            (table_delete_file_change_scan_end catalog id s)
            (table_delete_file_change_key catalog id o sub)
          ≡ (le_order a o && le_order o s))
      × (in_range
            (order_delete_file_change_scan_start catalog a)
            (order_delete_file_change_scan_end catalog s)
            (order_delete_file_change_key catalog o id sub)
          ≡ (le_order a o && le_order o s))
      × (in_range
            (table_inline_row_change_scan_start catalog id a)
            (table_inline_row_change_scan_end catalog id s)
            (table_inline_row_change_key catalog id o row_kind sub row)
          ≡ (le_order a o && le_order o s))
      × (in_range
            (table_schema_kind_inline_row_change_scan_start catalog id sub row_kind a)
            (table_schema_kind_inline_row_change_scan_end catalog id sub row_kind s)
            (table_schema_kind_inline_row_change_key catalog id sub row_kind o row)
          ≡ (le_order a o && le_order o s))
unfolding table_data_file_change_scan_start table_data_file_change_scan_end
    table_data_file_change_key table_delete_file_change_scan_start table_delete_file_change_scan_end
    table_delete_file_change_key order_delete_file_change_scan_start
    order_delete_file_change_scan_end order_delete_file_change_key
    table_inline_row_change_scan_start table_inline_row_change_scan_end table_inline_row_change_key
    table_schema_kind_inline_row_change_scan_start table_schema_kind_inline_row_change_scan_end
    table_schema_kind_inline_row_change_key
change_scans catalog a o s id sub row kind row_kind ha ho hs = (
  between_orders (table_data_file_change_prefix catalog id) _ o s ho hs a ha (separator_low _),
  between_orders (table_delete_file_change_prefix catalog id) _ o s ho hs a ha (separator_low _),
  between_orders (order_delete_file_change_prefix catalog) _ o s ho hs a ha (separator_low _),
  between_orders (table_inline_row_change_prefix catalog id) _ o s ho hs a ha (separator_low _),
  between_orders (table_schema_kind_inline_row_change_prefix catalog id sub row_kind) _ o s ho hs a
      ha (separator_low _),
)
