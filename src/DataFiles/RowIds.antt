-- ===== src/DataFiles/RowIds.antt =====
-- The row ids of data files that are accepted.
use aux_ducklake.Base.{
  ℕ, ◌+◌, ◌<◌, ◌≡◌, refl, Bool, false, ◌&&◌, List, [], ◌∷◌, ◌++◌, ◌==◌, ltb, leb, filter, All,
  arith, Bool-cases, inl, inr,
}
use aux_ducklake.Error.{CatalogResult, ok, err, panic, ◌>>◌, >>=-eq-ok}
use aux_ducklake.Ids.{CatalogId, TableId, u64_max}
use aux_ducklake.Kv.{OrderedCatalogKv}
use aux_ducklake.Rows.DataFile.{DataFileRow}
use aux_ducklake.Conflict.Watermarks.{load_table_next_row_id}
use aux_ducklake.DataFiles.{
  row_id_overlap_check_needed, reject_row_id_overlap, reject_overlaps_with,
  reject_proposed_data_file_row_id_overlaps, push_by_table, group_by_table, data_files_by_table,
  reject_below, reject_reuse_by_table, reject_allocated_table_row_id_reuse,
  reject_current_data_file_row_id_overlaps,
}

-- A row id is one of the rows of a file with known row ids.
abbrev pub has_row_id : DataFileRow → ℕ → Bool
has_row_id row id =
    row.row_id_start_known
    && leb row.row_id_start id
    && ltb id (row.row_id_start + row.record_count)

-- Two files of one table that both have a row id.
abbrev pub share : ℕ → DataFileRow → DataFileRow → Bool
share id row other = (row.table_id == other.table_id) && has_row_id row id && has_row_id other id

-- No two of the files share a row id.
abbrev pub AreDisjoint : ℕ → List DataFileRow → Type 0
AreDisjoint id [] = Unit
AreDisjoint id (row ∷ rows) =
    All (λ (other : DataFileRow). share id row other ≡ false) rows × AreDisjoint id rows

-- The next row id of a table can be read, and a file with known row ids and with rows is not below it.
abbrev pub IsFresh : OrderedCatalogKv → CatalogId → TableId → DataFileRow → Type 0
IsFresh kv catalog table_id row =
    (next : ℕ) × (load_table_next_row_id kv catalog table_id ≡ ok next)
    × ((row_id_overlap_check_needed row && ltb row.row_id_start next) ≡ false)

no_share :
    (id : ℕ) (row other : DataFileRow)
    → id < u64_max
    → reject_row_id_overlap row other ≡ ok tt
    → share id row other ≡ false
unfolding reject_row_id_overlap
no_share id row other h k = ground arith

>>-ok :
    (first rest : CatalogResult (Unit {0}))
    → first >> rest ≡ ok tt
    → (first ≡ ok tt) × (rest ≡ ok tt)
>>-ok (ok u) rest h = (refl, h)
>>-ok (err e) rest h = cc
>>-ok panic rest h = cc

none_shared :
    (id : ℕ) (row : DataFileRow) (others : List DataFileRow)
    → id < u64_max
    → reject_overlaps_with row others ≡ ok tt
    → All (λ (other : DataFileRow). share id row other ≡ false) others
unfolding reject_overlaps_with
none_shared id row [] h k = tt
none_shared id row (other ∷ others) h k =
    let (first, rest) =
      >>-ok (reject_row_id_overlap row other) (reject_overlaps_with row others) k in
    (no_share id row other h first, none_shared id row others h rest)

proposed-AreDisjoint :
    (id : ℕ) (rows : List DataFileRow)
    → id < u64_max
    → reject_proposed_data_file_row_id_overlaps rows ≡ ok tt
    → AreDisjoint id rows
unfolding reject_proposed_data_file_row_id_overlaps
proposed-AreDisjoint id [] h k = tt
proposed-AreDisjoint id (row ∷ rows) h k =
    let (first, rest) =
      >>-ok (reject_overlaps_with row rows) (reject_proposed_data_file_row_id_overlaps rows) k in
    (none_shared id row rows h first, proposed-AreDisjoint id rows h rest)

-- Every file of every group is fresh.
abbrev AreFresh : OrderedCatalogKv → CatalogId → List (TableId × List DataFileRow) → Type 0
AreFresh kv catalog by_table =
    All (λ (group : TableId × List DataFileRow). All (IsFresh kv catalog group.0) group.1) by_table

not_below-IsFresh :
    (kv : OrderedCatalogKv) (catalog : CatalogId) (table_id : TableId) (next : ℕ)
    (rows : List DataFileRow)
    → load_table_next_row_id kv catalog table_id ≡ ok next
    → reject_below next (filter row_id_overlap_check_needed rows) ≡ ok tt
    → All (IsFresh kv catalog table_id) rows
unfolding reject_below
not_below-IsFresh kv catalog table_id next [] l h = tt
not_below-IsFresh kv catalog table_id next (row ∷ rows) l h =
    elim (Bool-cases (row_id_overlap_check_needed row)) [
      | inl e ↦ elim (Bool-cases (ltb row.row_id_start next)) [
        | inl b ↦ let q = rw (e, b) at h in absurd (ground arith)
        | inr b ↦
            let q = rw (e, b) at h in
            ((next, l, rw (e, b) refl), not_below-IsFresh kv catalog table_id next rows l q)
      ]
      | inr e ↦
          let q = rw e at h in
          ((next, l, rw e refl), not_below-IsFresh kv catalog table_id next rows l q)
    ]

reuse-AreFresh :
    (kv : OrderedCatalogKv) (catalog : CatalogId) (by_table : List (TableId × List DataFileRow))
    → reject_reuse_by_table kv catalog by_table ≡ ok tt
    → AreFresh kv catalog by_table
unfolding reject_reuse_by_table
reuse-AreFresh kv catalog [] h = tt
reuse-AreFresh kv catalog ((table_id, rows) ∷ by_table) h =
    let (next, l, q) =
      >>=-eq-ok (load_table_next_row_id kv catalog table_id)
        (λ next.
          reject_below next (filter row_id_overlap_check_needed rows)
          >> reject_reuse_by_table kv catalog by_table)
        h in
    let (first, rest) =
      >>-ok (reject_below next (filter row_id_overlap_check_needed rows))
        (reject_reuse_by_table kv catalog by_table) q in
    (
      not_below-IsFresh kv catalog table_id next rows l first,
      reuse-AreFresh kv catalog by_table rest,
    )

All-last :
    {A : Type 0} (P : A → Type 0) (xs : List A) (x : A) → All P (xs ++ x ∷ []) → All P xs × P x
All-last P [] x (h, hs) = (tt, h)
All-last P (y ∷ xs) x (h, hs) = let (hs', k) = All-last P xs x hs in ((h, hs'), k)

pushed-IsFresh :
    (kv : OrderedCatalogKv) (catalog : CatalogId) (row : DataFileRow)
    (by_table : List (TableId × List DataFileRow))
    → AreFresh kv catalog (push_by_table row by_table)
    → AreFresh kv catalog by_table × IsFresh kv catalog row.table_id row
unfolding push_by_table
pushed-IsFresh kv catalog row [] ((h, u), hs) = (tt, h)
pushed-IsFresh kv catalog row ((table_id, rows) ∷ by_table) h =
    elim (Bool-cases (table_id == row.table_id)) [
      | inl e ↦
          let (group, rest) = rw e at h in
          let (old, fresh) = All-last (IsFresh kv catalog table_id) rows row group in
          let same_table : table_id ≡ row.table_id = ground arith in
          ((old, rest), rw same_table at fresh)
      | inr e ↦
          let (group, rest) = rw e at h in
          let (old, fresh) = pushed-IsFresh kv catalog row by_table rest in ((group, old), fresh)
    ]

grouped-IsFresh :
    (kv : OrderedCatalogKv) (catalog : CatalogId) (by_table : List (TableId × List DataFileRow))
    (rows : List DataFileRow)
    → AreFresh kv catalog (group_by_table by_table rows)
    → AreFresh kv catalog by_table
      × All (λ (row : DataFileRow). IsFresh kv catalog row.table_id row) rows
unfolding group_by_table
grouped-IsFresh kv catalog by_table [] h = (h, tt)
grouped-IsFresh kv catalog by_table (row ∷ rows) h =
    let (pushed, fresh) = grouped-IsFresh kv catalog (push_by_table row by_table) rows h in
    let (old, first) = pushed-IsFresh kv catalog row by_table pushed in (old, (first, fresh))

-- Of the data files that an append accepts no two of one table have a row id in common below
-- 2 ^ 64 - 1, and none that has rows with known row ids begins below the next row id that is read
-- for its table.
pub accepted_row_ids :
    (kv : OrderedCatalogKv) (catalog : CatalogId) (rows : List DataFileRow) (id : ℕ)
    → id < u64_max
    → reject_current_data_file_row_id_overlaps kv catalog rows ≡ ok tt
    → AreDisjoint id rows × All (λ (row : DataFileRow). IsFresh kv catalog row.table_id row) rows
unfolding reject_current_data_file_row_id_overlaps reject_allocated_table_row_id_reuse
    data_files_by_table
accepted_row_ids kv catalog rows id h k =
    let (proposed, reuse) =
      >>-ok (reject_proposed_data_file_row_id_overlaps rows)
        (reject_allocated_table_row_id_reuse kv catalog rows) k in
    (
      proposed-AreDisjoint id rows h proposed,
      (grouped-IsFresh kv catalog [] rows
          (reuse-AreFresh kv catalog (data_files_by_table rows) reuse)).1,
    )
