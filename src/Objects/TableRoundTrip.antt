-- ===== src/Objects/TableRoundTrip.antt =====
-- `TableRow::decode` behind `TableRow::encode`.
use aux_ducklake.Objects.Framed.{framed_lem}
use aux_ducklake.Base.{
  ℕ, ◌+◌, ◌%◌, ◌^◌, ◌≤◌, ◌<◌, ◌≡◌, refl, Bool, true, false, Option, none, some, List, [], ◌∷◌, ◌++◌,
  if◌then◌else◌, length, All, arith, All-imp,
}
use mathlib.Core.Path.{ap}
use mathlib.Core.Option
use aux_ducklake.Bytes.{Bytes, IsU64}
use aux_ducklake.Error.{ok}
use aux_ducklake.Ids.{u64_max, ColumnId}
use aux_ducklake.Keys.{concat}
use aux_ducklake.Rows.DataFileFields.{IsOptionalU64}
use aux_ducklake.Objects.Cursor.{
  Allocator, Elements, with_capacity, vec_of_columns, vec_of_inlined_tables,
  vec_of_partition_fields, vec_of_sort_fields, Decoder, ◌>>=◌, decode_u64, decode_bool,
  encode_string, encode_optional_string,
}
use aux_ducklake.Objects.Cursor.ReadsBack.{
  ReadsBack, ReadsBack->>=, ReadsBack-last, ReadsBack-pure, ReadsBack-pure_eq, ReadsBack-decode_u32,
  ReadsBack-decode_u64, ReadsBack-decode_bool, ReadsBack-decode_string,
  ReadsBack-decode_optional_string, ReadsBack-repeat, IsText, IsOptionalText,
}
use aux_ducklake.Objects.Header.{ObjectHeader}
use aux_ducklake.Objects.Header.RoundTrip.{IsObjectHeader}
use aux_ducklake.Objects.Table.{
  TableColumnRow, InlinedTableRow, TablePartitionFieldRow, TablePartitionRow, TableSortFieldRow,
  TableSortRow, TableRow, encode_list, decode_list, encode_parent, encode_column,
  encode_inlined_table, encode_partition_field, encode_partition, encode_sort_field, encode_sort,
  encode_table, decode_column, decode_inlined_table, decode_partition_field, decode_partition,
  decode_sort_field, decode_sort, decode_table_parts, table_messages, decode_table,
}

-- What the types of the fields give, with texts and lists whose lengths 32 bits hold.
pub record IsTableColumnRow (column : TableColumnRow) : Type 0 where
  pub column_id_bound : IsU64 column.column_id
  pub name_valid : IsText column.name
  pub column_type_valid : IsText column.column_type
  pub parent_bound : IsOptionalU64 column.parent_id
  pub comment_valid : IsOptionalText column.comment
  pub initial_default_valid : IsOptionalText column.initial_default
  pub default_value_valid : IsOptionalText column.default_value
  pub default_value_type_valid : IsText column.default_value_type

pub record IsInlinedTableRow (row : InlinedTableRow) : Type 0 where
  pub name_valid : IsText row.table_name
  pub version_bound : IsU64 row.schema_version

pub record IsTablePartitionFieldRow (field : TablePartitionFieldRow) : Type 0 where
  pub key_index_bound : IsU64 field.partition_key_index
  pub column_id_bound : IsU64 field.column_id
  pub transform_valid : IsText field.transform

pub record IsTableSortFieldRow (field : TableSortFieldRow) : Type 0 where
  pub key_index_bound : IsU64 field.sort_key_index
  pub expression_valid : IsText field.expression
  pub dialect_valid : IsText field.dialect
  pub direction_valid : IsText field.sort_direction
  pub null_order_valid : IsText field.null_order

abbrev pub IsTablePartition : Option TablePartitionRow → Type 0
IsTablePartition none = Unit
IsTablePartition (some partition) =
    IsU64 partition.partition_id
    × (length partition.fields < 2 ^ 32)
    × All IsTablePartitionFieldRow partition.fields

abbrev pub IsTableSort : Option TableSortRow → Type 0
IsTableSort none = Unit
IsTableSort (some sort) =
    IsU64 sort.sort_id × (length sort.fields < 2 ^ 32) × All IsTableSortFieldRow sort.fields

ReadsBack-with_capacity :
    (allocates : Allocator) (elements : Elements) (count : ℕ)
    → allocates elements count ≡ true
    → ReadsBack (with_capacity allocates elements count) [] tt
unfolding with_capacity
ReadsBack-with_capacity allocates elements count room = record {
  reads = λ bytes rest offset l h e.
      rw room (let s : offset ≡ offset + 0 = omega arith in ap (λ n. ok (tt, n)) s);
}

-- There is room for the fields of a partition, and of a sort order.
abbrev pub AllocatesPartition : Allocator → Option TablePartitionRow → Type 0
AllocatesPartition allocates none = Unit
AllocatesPartition allocates (some partition) =
    allocates vec_of_partition_fields (length partition.fields) ≡ true

abbrev pub AllocatesSort : Allocator → Option TableSortRow → Type 0
AllocatesSort allocates none = Unit
AllocatesSort allocates (some sort) = allocates vec_of_sort_fields (length sort.fields) ≡ true

-- There is room for the vectors of a row.
pub record AllocatesTable (allocates : Allocator) (row : TableRow) : Type 0 where
  pub columns_room : allocates vec_of_columns (length row.columns) ≡ true
  pub inlined_room : allocates vec_of_inlined_tables (length row.inlined_data_tables) ≡ true
  pub partition_room : AllocatesPartition allocates row.partition
  pub sort_room : AllocatesSort allocates row.sort

pub ReadsBack-list :
    {A : Type 0} (allocates : Allocator) (elements : Elements) (decoder : Decoder A)
    (encode : A → Bytes) (values : List A)
    → length values < 2 ^ 32
    → allocates elements (length values) ≡ true
    → All (λ v. ReadsBack decoder (encode v) v) values
    → ReadsBack (decode_list allocates elements decoder) (encode_list encode values) values
ReadsBack-list allocates elements decoder encode values h room all =
    let count : length values % 2 ^ 32 ≡ length values = omega arith in
    rw count (
      ReadsBack->>= _ (ReadsBack-decode_u32 (length values) h) (
        ReadsBack->>= _ (ReadsBack-with_capacity allocates elements (length values) room)
          (ReadsBack-repeat decoder encode values all)))

has : Option ColumnId → Bool
has none = false
has (some parent) = true

parent_held : (p : Option ColumnId) → (if has p then some (Option.get_or p 0) else none) ≡ p
unfolding has
parent_held none = refl
parent_held (some p) = refl

ReadsBack-parent :
    {B : Type 0} (then_decoder : Bool → ℕ → Decoder B) (parent : Option ColumnId) {text : Bytes}
    {result : B}
    → IsOptionalU64 parent
    → ReadsBack (then_decoder (has parent) (Option.get_or parent 0)) text result
    → ReadsBack
        (decode_bool >>= λ p. decode_u64 >>= λ v. then_decoder p v)
        (encode_parent parent ++ text)
        result
unfolding has encode_parent
ReadsBack-parent then_decoder none h r =
    ReadsBack->>= _ (ReadsBack-decode_bool false)
      (ReadsBack->>= _ (ReadsBack-decode_u64 0 (omega arith)) r)
ReadsBack-parent then_decoder (some p) h r =
    ReadsBack->>= _ (ReadsBack-decode_bool true) (ReadsBack->>= _ (ReadsBack-decode_u64 p h) r)

ReadsBack-column :
    (column : TableColumnRow)
    → IsTableColumnRow column
    → ReadsBack decode_column (encode_column column) column
unfolding decode_column encode_column
ReadsBack-column column v =
    ReadsBack->>= _ (ReadsBack-decode_u64 column.column_id v.column_id_bound) (
      ReadsBack->>= _ (ReadsBack-decode_bool column.nulls_allowed) (
        ReadsBack-parent _ column.parent_id v.parent_bound (
          ReadsBack->>= _ (ReadsBack-decode_string column.name v.name_valid) (
            ReadsBack->>= _ (ReadsBack-decode_string column.column_type v.column_type_valid) (
              ReadsBack->>= _ (ReadsBack-decode_optional_string column.comment v.comment_valid) (
                ReadsBack->>= _
                  (ReadsBack-decode_optional_string column.initial_default v.initial_default_valid)
                  (ReadsBack->>= _
                    (ReadsBack-decode_optional_string column.default_value v.default_value_valid)
                    (ReadsBack->>= _
                      (ReadsBack-decode_string column.default_value_type v.default_value_type_valid)
                      (ReadsBack-last _ (ReadsBack-decode_bool column.created_with_table) (
                        ReadsBack-pure_eq _ column (
                          ap (λ p. record column { parent_id = p })
                            (parent_held column.parent_id))))))))))))

ReadsBack-inlined_table :
    (row : InlinedTableRow)
    → IsInlinedTableRow row
    → ReadsBack decode_inlined_table (encode_inlined_table row) row
unfolding decode_inlined_table encode_inlined_table
ReadsBack-inlined_table row v =
    ReadsBack->>= _ (ReadsBack-decode_string row.table_name v.name_valid) (
      ReadsBack-last _ (ReadsBack-decode_u64 row.schema_version v.version_bound)
        (ReadsBack-pure row))

ReadsBack-partition_field :
    (field : TablePartitionFieldRow)
    → IsTablePartitionFieldRow field
    → ReadsBack decode_partition_field (encode_partition_field field) field
unfolding decode_partition_field encode_partition_field
ReadsBack-partition_field field v =
    ReadsBack->>= _ (ReadsBack-decode_u64 field.partition_key_index v.key_index_bound) (
      ReadsBack->>= _ (ReadsBack-decode_u64 field.column_id v.column_id_bound) (
        ReadsBack-last _ (ReadsBack-decode_string field.transform v.transform_valid)
          (ReadsBack-pure field)))

ReadsBack-sort_field :
    (field : TableSortFieldRow)
    → IsTableSortFieldRow field
    → ReadsBack decode_sort_field (encode_sort_field field) field
unfolding decode_sort_field encode_sort_field
ReadsBack-sort_field field v =
    ReadsBack->>= _ (ReadsBack-decode_u64 field.sort_key_index v.key_index_bound) (
      ReadsBack->>= _ (ReadsBack-decode_string field.expression v.expression_valid) (
        ReadsBack->>= _ (ReadsBack-decode_string field.dialect v.dialect_valid) (
          ReadsBack->>= _ (ReadsBack-decode_string field.sort_direction v.direction_valid) (
            ReadsBack-last _ (ReadsBack-decode_string field.null_order v.null_order_valid)
              (ReadsBack-pure field)))))

ReadsBack-partition :
    (allocates : Allocator) (partition : Option TablePartitionRow)
    → IsTablePartition partition
    → AllocatesPartition allocates partition
    → ReadsBack (decode_partition allocates) (encode_partition partition) partition
unfolding decode_partition encode_partition
ReadsBack-partition allocates none v room =
    ReadsBack-last _ (ReadsBack-decode_bool false) (ReadsBack-pure none)
ReadsBack-partition allocates (some partition) (id, count, all) room =
    ReadsBack->>= _ (ReadsBack-decode_bool true) (
      ReadsBack->>= _ (ReadsBack-decode_u64 partition.partition_id id) (
        ReadsBack-last _
          (ReadsBack-list allocates vec_of_partition_fields decode_partition_field
            encode_partition_field partition.fields count room
            (All-imp ReadsBack-partition_field partition.fields all))
          (ReadsBack-pure (some partition))))

ReadsBack-sort :
    (allocates : Allocator) (sort : Option TableSortRow)
    → IsTableSort sort
    → AllocatesSort allocates sort
    → ReadsBack (decode_sort allocates) (encode_sort sort) sort
unfolding decode_sort encode_sort
ReadsBack-sort allocates none v room =
    ReadsBack-last _ (ReadsBack-decode_bool false) (ReadsBack-pure none)
ReadsBack-sort allocates (some sort) (id, count, all) room =
    ReadsBack->>= _ (ReadsBack-decode_bool true) (
      ReadsBack->>= _ (ReadsBack-decode_u64 sort.sort_id id) (
        ReadsBack-last _
          (ReadsBack-list allocates vec_of_sort_fields decode_sort_field encode_sort_field
            sort.fields count room (All-imp ReadsBack-sort_field sort.fields all))
          (ReadsBack-pure (some sort))))

abbrev pub table_header : TableRow → ObjectHeader
table_header row = record {
  object_id = row.table_id;
  schema_id = row.schema_id;
  validity = row.validity;
}

-- What the types of the fields give, with texts and lists whose lengths 32 bits hold.
pub record IsTableRow (row : TableRow) : Type 0 where
  pub header_valid : IsObjectHeader (table_header row)
  pub uuid_valid : IsText row.uuid
  pub name_valid : IsText row.name
  pub path_valid : IsText row.path
  pub comment_valid : IsOptionalText row.comment
  pub columns_bound : length row.columns < 2 ^ 32
  pub columns_valid : All IsTableColumnRow row.columns
  pub inlined_bound : length row.inlined_data_tables < 2 ^ 32
  pub inlined_valid : All IsInlinedTableRow row.inlined_data_tables
  pub partition_valid : IsTablePartition row.partition
  pub sort_valid : IsTableSort row.sort

abbrev table_parts : TableRow → Bytes
table_parts row = concat (
    encode_string row.uuid
    ∷ encode_string row.name
    ∷ encode_string row.path
    ∷ encode_optional_string row.comment
    ∷ encode_list encode_column row.columns
    ∷ encode_list encode_inlined_table row.inlined_data_tables
    ∷ encode_partition row.partition
    ∷ encode_sort row.sort
    ∷ [])

ReadsBack-table_parts :
    (allocates : Allocator) (row : TableRow)
    → IsTableRow row
    → AllocatesTable allocates row
    → ReadsBack (decode_table_parts allocates (table_header row)) (table_parts row) row
unfolding decode_table_parts
ReadsBack-table_parts allocates row v room =
    ReadsBack->>= _ (ReadsBack-decode_string row.uuid v.uuid_valid) (
      ReadsBack->>= _ (ReadsBack-decode_string row.name v.name_valid) (
        ReadsBack->>= _ (ReadsBack-decode_string row.path v.path_valid) (
          ReadsBack->>= _ (ReadsBack-decode_optional_string row.comment v.comment_valid) (
            ReadsBack->>= _
              (ReadsBack-list allocates vec_of_columns decode_column encode_column row.columns
                v.columns_bound room.columns_room
                (All-imp ReadsBack-column row.columns v.columns_valid))
              (ReadsBack->>= _
                (ReadsBack-list allocates vec_of_inlined_tables decode_inlined_table
                  encode_inlined_table row.inlined_data_tables v.inlined_bound room.inlined_room
                  (All-imp ReadsBack-inlined_table row.inlined_data_tables v.inlined_valid))
                (ReadsBack->>= _
                  (ReadsBack-partition allocates row.partition v.partition_valid
                    room.partition_room)
                  (ReadsBack-last _ (ReadsBack-sort allocates row.sort v.sort_valid room.sort_room)
                    (ReadsBack-pure row))))))))

-- A row of a table decodes to the row it was encoded from, its columns, inlined tables, partition and
-- sort order included: where its identifiers fit their types, its texts are UTF-8, 32 bits hold the
-- lengths of its texts and lists and 64 bits the length of the encoded row, and there is room for its
-- vectors.
pub decode_table-encode_table :
    (allocates : Allocator) (row : TableRow)
    → IsTableRow row
    → AllocatesTable allocates row
    → length (encode_table row) ≤ u64_max
    → decode_table allocates (encode_table row) ≡ ok row
unfolding decode_table encode_table
decode_table-encode_table allocates row v room fits =
    framed_lem table_messages 8 (table_header row) (decode_table_parts allocates) (table_parts row)
      row v.header_valid (ReadsBack-table_parts allocates row v room) fits
