-- ===== src/Tests/Changes.antt =====
-- A store with two data-file changes, listed since the order of the first one.
use aux_ducklake.Base.{◌≡◌, refl, true, false, ◌&&◌, List, [], ◌∷◌, map, filter, All, arith}
use aux_ducklake.Bytes.{ltb_bytes, to_be_bytes, starts_with, strip_prefix}
use aux_ducklake.BTreeMap.{bytes_ord, retain, IsSorted}
use aux_ducklake.Error.{ok}
use aux_ducklake.FileListing.{DataFileChange, added, removed}
use aux_ducklake.FileListing.ChangeKind.{code}
use aux_ducklake.Ids.{CatalogOrderId, CatalogOrderKind, IsOrder, lt_order, le_order}
use aux_ducklake.Ids.CatalogOrder.{uuid_v7, uuid_v7-IsOrder, from_bytes, lt_order-uuid_v7}
use aux_ducklake.Keys.{in_range, family_prefix, catalog_prefix}
use aux_ducklake.Keys.Family.{KeyFamily}
use aux_ducklake.Keys.Change.{snapshot_data_file_change_prefix, snapshot_data_file_change_key}
use aux_ducklake.Kv.{Items}
use aux_ducklake.Kv.Fake.{FakeOrderedCatalogKv, ordered_kv}
use aux_ducklake.Kv.FakeReads.{ordered_kv-Reads}
use aux_ducklake.Conflict.{
  list_data_file_changes_since_base, scan_order_kind, decode_snapshot_data_file_change_key,
  snapshot_change_scan_start_after, snapshot_change_scan_end,
}
use aux_ducklake.Conflict.Window.{
  changes_since_base_scan, decode_snapshot_data_file_change_key-snapshot_data_file_change_key,
}
use aux_ducklake.Conflict.Listing.{
  IsChange, change_row, HoldsChanges, in_window, of_kind, list_data_file_changes_since_base_lem,
}

abbrev base : CatalogOrderId
base = uuid_v7 5

abbrev through : CatalogOrderId
through = uuid_v7 9

base-IsOrder : IsOrder base
base-IsOrder = uuid_v7-IsOrder 5 (omega arith)

through-IsOrder : IsOrder through
through-IsOrder = uuid_v7-IsOrder 9 (omega arith)

abbrev changes : List DataFileChange
changes =
    record { table_id = 2; order = base; kind = added; data_file_id = 3 }
    ∷ record { table_id = 2; order = through; kind = removed; data_file_id = 3 }
    ∷ []

changes-IsChange : All IsChange changes
changes-IsChange = (
  record { order_valid = base-IsOrder; table_bound = omega arith; file_bound = omega arith },
  (
    record { order_valid = through-IsOrder; table_bound = omega arith; file_bound = omega arith },
    tt,
  ),
)

abbrev items : Items
items = map (change_row 1) changes

abbrev store : FakeOrderedCatalogKv
store = record { items = items; fence_versions = []; next_order = 0 }

keys_ascend :
    ltb_bytes
      (change_row 1 (record { table_id = 2; order = base; kind = added; data_file_id = 3 })).0
      (change_row 1 (record { table_id = 2; order = through; kind = removed; data_file_id = 3 })).0
    ≡ true
unfolding snapshot_data_file_change_key snapshot_data_file_change_prefix family_prefix
    catalog_prefix aux_ducklake.Keys.Family.code code to_be_bytes uuid_v7 ltb_bytes
keys_ascend = refl

items-IsSorted : IsSorted items
items-IsSorted = ((keys_ascend, tt), (tt, tt))

items-HoldsChanges : HoldsChanges 1 items changes
unfolding snapshot_data_file_change_key snapshot_data_file_change_prefix family_prefix
    catalog_prefix aux_ducklake.Keys.Family.code code to_be_bytes uuid_v7 retain starts_with
    strip_prefix
items-HoldsChanges = refl

not_before : lt_order through base ≡ false
not_before = lt_order-uuid_v7 9 5 (omega arith) (omega arith)

list_data_file_changes_since_base_lem_example :
    list_data_file_changes_since_base (ordered_kv store) 1 base through
    ≡ ok (map (of_kind (scan_order_kind base through)) (filter (in_window base through) changes))
list_data_file_changes_since_base_lem_example =
    list_data_file_changes_since_base_lem (ordered_kv store) items 1 base through changes
      (ordered_kv-Reads store items-IsSorted) base-IsOrder through-IsOrder not_before (omega arith)
      items-HoldsChanges changes-IsChange

changes_since_base_scan_example :
    in_range
      (snapshot_change_scan_start_after 1 base)
      (snapshot_change_scan_end 1 through)
      (snapshot_data_file_change_key 1 2 base added 3)
    ≡ (lt_order base base && le_order base through)
changes_since_base_scan_example =
    changes_since_base_scan 1 base through base 2 added 3 base-IsOrder through-IsOrder base-IsOrder

decode_snapshot_data_file_change_key-snapshot_data_file_change_key_example :
    decode_snapshot_data_file_change_key
      (snapshot_data_file_change_prefix 1)
      (snapshot_data_file_change_key 1 2 base added 3)
      CatalogOrderKind.uuid_v7
    ≡ ok (record {
      table_id = 2;
      order = from_bytes CatalogOrderKind.uuid_v7 base.bytes;
      kind = added;
      data_file_id = 3;
    })
decode_snapshot_data_file_change_key-snapshot_data_file_change_key_example =
    decode_snapshot_data_file_change_key-snapshot_data_file_change_key 1 base 2 added 3
      CatalogOrderKind.uuid_v7 base-IsOrder (omega arith) (omega arith)
