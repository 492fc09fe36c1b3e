-- ===== src/DataFiles.antt =====
-- crates/ducklake-catalog/src/data_file_store.rs: the row ids of the data files that are appended.
pub mod RowIds
use aux_ducklake.Base.{
  ℕ, ◌+◌, Bool, true, false, not, ◌&&◌, Option, none, some, List, [], ◌∷◌, ◌++◌, if◌then◌else◌,
  ◌==◌, ltb, filter,
}
use aux_ducklake.Error.{CatalogResult, ok, err, invalid_mutation, ◌>>=◌, ◌>>◌}
use aux_ducklake.Ids.{CatalogId, TableId, saturating_add}
use aux_ducklake.Kv.{OrderedCatalogKv}
use aux_ducklake.Rows.DataFile.{DataFileRow}
use aux_ducklake.Conflict.Watermarks.{load_table_next_row_id}

unfoldable pub row_id_overlap_check_needed : DataFileRow → Bool
row_id_overlap_check_needed row = row.row_id_start_known && ltb 0 row.record_count

unfoldable pub data_file_next_row_id : DataFileRow → Option ℕ
data_file_next_row_id row =
    if row_id_overlap_check_needed row
    then some (saturating_add row.row_id_start row.record_count)
    else none

unfoldable pub reject_row_id_overlap : DataFileRow → DataFileRow → CatalogResult (Unit {0})
reject_row_id_overlap left right =
    if left.table_id == right.table_id
      && left.row_id_start_known
      && right.row_id_start_known
      && not (left.record_count == 0)
      && not (right.record_count == 0)
    then (let left_end = saturating_add left.row_id_start left.record_count in
        let right_end = saturating_add right.row_id_start right.record_count in
        if ltb left.row_id_start right_end && ltb right.row_id_start left_end
        then err (invalid_mutation "conflict committing data mutation: row ids overlap")
        else ok tt)
    else ok tt

-- The inner loop.
unfoldable pub reject_overlaps_with : DataFileRow → List DataFileRow → CatalogResult (Unit {0})
reject_overlaps_with row [] = ok tt
reject_overlaps_with row (other ∷ others) =
    reject_row_id_overlap row other >> reject_overlaps_with row others

unfoldable pub reject_proposed_data_file_row_id_overlaps :
    List DataFileRow → CatalogResult (Unit {0})
reject_proposed_data_file_row_id_overlaps [] = ok tt
reject_proposed_data_file_row_id_overlaps (row ∷ rows) =
    reject_overlaps_with row rows >> reject_proposed_data_file_row_id_overlaps rows

-- One step of `data_files_by_table`: the index of the table is looked up, and the row goes to the
-- group of the table or to a new group at the end.
unfoldable pub push_by_table :
    DataFileRow → List (TableId × List DataFileRow) → List (TableId × List DataFileRow)
push_by_table row [] = (row.table_id, row ∷ []) ∷ []
push_by_table row ((table_id, rows) ∷ by_table) =
    let rest = push_by_table row by_table in
    if table_id == row.table_id
    then (table_id, rows ++ row ∷ []) ∷ by_table
    else (table_id, rows) ∷ rest

-- The loop of `data_files_by_table`.
unfoldable pub group_by_table :
    List (TableId × List DataFileRow) → List DataFileRow → List (TableId × List DataFileRow)
group_by_table by_table [] = by_table
group_by_table by_table (row ∷ rows) = group_by_table (push_by_table row by_table) rows

unfoldable pub data_files_by_table : List DataFileRow → List (TableId × List DataFileRow)
data_files_by_table rows = group_by_table [] rows

-- The inner loop, over the rows that `filter` leaves.
unfoldable pub reject_below : ℕ → List DataFileRow → CatalogResult (Unit {0})
reject_below next_row_id [] = ok tt
reject_below next_row_id (row ∷ rows) =
    let rest = reject_below next_row_id rows in
    if ltb row.row_id_start next_row_id
    then err (invalid_mutation "conflict committing data mutation: reuse of allocated row ids")
    else rest

unfoldable pub reject_reuse_by_table :
    OrderedCatalogKv → CatalogId → List (TableId × List DataFileRow) → CatalogResult (Unit {0})
reject_reuse_by_table kv catalog [] = ok tt
reject_reuse_by_table kv catalog ((table_id, rows) ∷ by_table) =
    load_table_next_row_id kv catalog table_id >>= λ next_row_id.
    reject_below next_row_id (filter row_id_overlap_check_needed rows)
    >> reject_reuse_by_table kv catalog by_table

unfoldable pub reject_allocated_table_row_id_reuse :
    OrderedCatalogKv → CatalogId → List DataFileRow → CatalogResult (Unit {0})
reject_allocated_table_row_id_reuse kv catalog rows =
    reject_reuse_by_table kv catalog (data_files_by_table rows)

-- The check of an append, which replaces no data files.
unfoldable pub reject_current_data_file_row_id_overlaps :
    OrderedCatalogKv → CatalogId → List DataFileRow → CatalogResult (Unit {0})
reject_current_data_file_row_id_overlaps kv catalog rows =
    reject_proposed_data_file_row_id_overlaps rows
    >> reject_allocated_table_row_id_reuse kv catalog rows
