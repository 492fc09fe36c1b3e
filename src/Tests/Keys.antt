-- ===== src/Tests/Keys.antt =====
-- Keys, their ranges and their order at concrete values.
use aux_ducklake.Ids.{CatalogId, lt_order, CatalogOrderKind, CatalogOrderId, IsOrder, le_order}
use aux_ducklake.Bytes.{Bytes, ltb_bytes, starts_with}
use aux_ducklake.Base.{false, if◌then◌else◌, arith, ◌≡◌, refl, true, ◌&&◌, [], ◌∷◌}
use aux_ducklake.Keys.{in_range, prefix_end}
use aux_ducklake.Keys.DataFile.{
  data_file_begin_key, data_file_begin_prefix, data_file_begin_scan_end, delete_file_timeline_key,
  delete_file_timeline_prefix, delete_file_timeline_scan_end,
}
use aux_ducklake.Keys.Object.{
  table_visibility_key, table_visibility_prefix, table_visibility_scan_end,
}
use aux_ducklake.Keys.Metadata.{
  schema_version_history_key, schema_version_history_prefix, schema_version_history_scan_end,
}
use aux_ducklake.Keys.Change.{
  table_data_file_change_scan_start, table_data_file_change_scan_end, table_data_file_change_key,
  table_delete_file_change_scan_start, table_delete_file_change_scan_end,
  table_delete_file_change_key, order_delete_file_change_scan_start,
  order_delete_file_change_scan_end, order_delete_file_change_key,
  table_inline_row_change_scan_start, table_inline_row_change_scan_end, table_inline_row_change_key,
  table_schema_kind_inline_row_change_scan_start, table_schema_kind_inline_row_change_scan_end,
  table_schema_kind_inline_row_change_key,
}
use aux_ducklake.FileListing.{added}
use aux_ducklake.FileListing.ChangeKind.{inserted}
use aux_ducklake.Ids.CatalogOrder.{uuid_v7, uuid_v7-IsOrder}
use aux_ducklake.Keys.Scans.{snapshot_scans, change_scans}
use aux_ducklake.Keys.PrefixEnd.{in_range-prefix_end}
use aux_ducklake.Keys.Family.{KeyFamily}
use aux_ducklake.Keys.Disjoint.{family_prefix_injective}
use aux_ducklake.Keys.Snapshot.{snapshot_timestamp_key, decode_snapshot_timestamp_key}
use aux_ducklake.Keys.Timestamps.{
  ltb_bytes-snapshot_timestamp_key, decode_snapshot_timestamp_key-snapshot_timestamp_key,
}
use aux_ducklake.Base.Int.{pos, negsuc, ltb_ℤ}
use aux_ducklake.Error.{ok}

abbrev early : CatalogOrderId
early = uuid_v7 5

abbrev late : CatalogOrderId
late = uuid_v7 9

early-IsOrder : IsOrder early
early-IsOrder = uuid_v7-IsOrder 5 (omega arith)

late-IsOrder : IsOrder late
late-IsOrder = uuid_v7-IsOrder 9 (omega arith)

snapshot_scans_example :
    (in_range
        (data_file_begin_prefix 1 20)
        (data_file_begin_scan_end 1 20 late)
        (data_file_begin_key 1 20 early 30)
      ≡ le_order early late)
    × (in_range
          (delete_file_timeline_prefix 1 20)
          (delete_file_timeline_scan_end 1 20 late)
          (delete_file_timeline_key 1 20 early 30)
        ≡ le_order early late)
    × (in_range
          (table_visibility_prefix 1)
          (table_visibility_scan_end 1 late)
          (table_visibility_key 1 early 20)
        ≡ le_order early late)
    × (in_range
          (schema_version_history_prefix 1)
          (schema_version_history_scan_end 1 late)
          (schema_version_history_key 1 early)
        ≡ le_order early late)
snapshot_scans_example = snapshot_scans 1 early late 20 30 early-IsOrder late-IsOrder

change_scans_example :
    (in_range
        (table_data_file_change_scan_start 1 20 early)
        (table_data_file_change_scan_end 1 20 late)
        (table_data_file_change_key 1 20 late added 30)
      ≡ (le_order early late && le_order late late))
    × (in_range
          (table_delete_file_change_scan_start 1 20 early)
          (table_delete_file_change_scan_end 1 20 late)
          (table_delete_file_change_key 1 20 late 30)
        ≡ (le_order early late && le_order late late))
    × (in_range
          (order_delete_file_change_scan_start 1 early)
          (order_delete_file_change_scan_end 1 late)
          (order_delete_file_change_key 1 late 20 30)
        ≡ (le_order early late && le_order late late))
    × (in_range
          (table_inline_row_change_scan_start 1 20 early)
          (table_inline_row_change_scan_end 1 20 late)
          (table_inline_row_change_key 1 20 late inserted 30 40)
        ≡ (le_order early late && le_order late late))
    × (in_range
          (table_schema_kind_inline_row_change_scan_start 1 20 30 inserted early)
          (table_schema_kind_inline_row_change_scan_end 1 20 30 inserted late)
          (table_schema_kind_inline_row_change_key 1 20 30 inserted late 40)
        ≡ (le_order early late && le_order late late))
change_scans_example =
    change_scans 1 early late late 20 30 40 added inserted early-IsOrder late-IsOrder late-IsOrder

-- A prefix that ends in 0xff.
in_range-prefix_end_example :
    in_range (1 ∷ 0xff ∷ []) (prefix_end (1 ∷ 0xff ∷ [])) (1 ∷ 0xff ∷ 3 ∷ [])
    ≡ starts_with (1 ∷ 0xff ∷ []) (1 ∷ 0xff ∷ 3 ∷ [])
in_range-prefix_end_example =
    in_range-prefix_end [] (0xff ∷ []) (1 ∷ 0xff ∷ 3 ∷ []) 1 (omega arith)
      (omega arith, (omega arith, tt)) (omega arith, (omega arith, (omega arith, tt))) (omega arith)

abbrev catalog : CatalogId
catalog = 1

abbrev tail : Bytes
tail = 5 ∷ []

family_prefix_injective_example :
    (catalog ≡ catalog) × (KeyFamily.object ≡ KeyFamily.object) × (tail ≡ tail)
family_prefix_injective_example =
    family_prefix_injective catalog catalog KeyFamily.object KeyFamily.object tail tail
      (omega arith) (omega arith) refl

-- Three seconds before the epoch and one second after it.
ltb_bytes-snapshot_timestamp_key_example :
    ltb_bytes
      (snapshot_timestamp_key 1 (negsuc 2999999) late)
      (snapshot_timestamp_key 1 (pos 1000000) early)
    ≡ (if ltb_ℤ (negsuc 2999999) (pos 1000000)
        then true
        else if ltb_ℤ (pos 1000000) (negsuc 2999999)
        then false
        else lt_order late early)
ltb_bytes-snapshot_timestamp_key_example =
    ltb_bytes-snapshot_timestamp_key 1 (negsuc 2999999) (pos 1000000) late early (omega arith)
      (omega arith)

decode_snapshot_timestamp_key-snapshot_timestamp_key_example :
    decode_snapshot_timestamp_key 1 (snapshot_timestamp_key 1 (negsuc 2999999) late)
    ≡ ok (negsuc 2999999, record late { kind = CatalogOrderKind.uuid_v7 })
decode_snapshot_timestamp_key-snapshot_timestamp_key_example =
    decode_snapshot_timestamp_key-snapshot_timestamp_key 1 (negsuc 2999999) late (omega arith)
      late-IsOrder
