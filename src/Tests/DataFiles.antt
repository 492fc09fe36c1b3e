-- ===== src/Tests/DataFiles.antt =====
-- Data files that are checked before they are appended.
use aux_ducklake.Base.{List, ℕ, ◌≡◌, refl, true, none, ◌∷◌, [], All, arith}
use aux_ducklake.Error.{err, invalid_mutation, ok}
use aux_ducklake.Ids.{CatalogId}
use aux_ducklake.Ids.CatalogOrder.{uuid_v7}
use aux_ducklake.BTreeMap.{get}
use aux_ducklake.Kv.Fake.{empty, ordered_kv}
use aux_ducklake.Rows.DataFile.{DataFileRow}
use aux_ducklake.Conflict.Watermarks.{load_table_next_row_id, load_u64}
use aux_ducklake.DataFiles.{
  row_id_overlap_check_needed, reject_row_id_overlap, reject_overlaps_with,
  reject_proposed_data_file_row_id_overlaps, push_by_table, group_by_table, data_files_by_table,
  reject_below, reject_reuse_by_table, reject_allocated_table_row_id_reuse,
  reject_current_data_file_row_id_overlaps,
}
use aux_ducklake.DataFiles.RowIds.{AreDisjoint, IsFresh, accepted_row_ids}

abbrev catalog : CatalogId
catalog = 4

abbrev file : ℕ → ℕ → ℕ → DataFileRow
file id start count = record {
  data_file_id = id;
  table_id = 2;
  path = [];
  record_count = count;
  file_size_bytes = 400;
  footer_size = none;
  encryption_key = [];
  row_id_start = start;
  row_id_start_known = true;
  mapping_id = none;
  max_partial_order = none;
  validity = record { begin_order = uuid_v7 1; end_order = none };
}

abbrev files : List DataFileRow
files = file 1 0 10 ∷ file 2 10 5 ∷ []

files_accepted : reject_current_data_file_row_id_overlaps (ordered_kv empty) catalog files ≡ ok tt
unfolding reject_current_data_file_row_id_overlaps reject_proposed_data_file_row_id_overlaps
    reject_overlaps_with reject_row_id_overlap reject_allocated_table_row_id_reuse
    data_files_by_table group_by_table push_by_table reject_reuse_by_table reject_below
    row_id_overlap_check_needed load_table_next_row_id load_u64 get
files_accepted = refl

-- The last row id of the first file.
accepted_row_ids_example :
    AreDisjoint 9 files
    × All (λ (row : DataFileRow). IsFresh (ordered_kv empty) catalog row.table_id row) files
accepted_row_ids_example =
    accepted_row_ids (ordered_kv empty) catalog files 9 (omega arith) files_accepted

-- A file that begins with the last row id of another is refused.
overlap_refused :
    reject_row_id_overlap (file 1 0 10) (file 2 9 5)
    ≡ err (invalid_mutation "conflict committing data mutation: row ids overlap")
unfolding reject_row_id_overlap
overlap_refused = refl
