-- ===== src/Objects/Table.antt =====
-- `TableRow` of crates/ducklake-catalog/src/table_rows.rs, with the rows of table_partition_rows.rs and
-- table_sort_rows.rs that it holds.
use aux_ducklake.Base.{
  ℕ, ◌%◌, ◌^◌, Bool, Option, none, some, List, [], ◌∷◌, if◌then◌else◌, map, length,
}
use aux_ducklake.Bytes.{Bytes}
use aux_ducklake.Error
use aux_ducklake.Error.{CatalogResult, ok}
use aux_ducklake.Ids.{TableId, SchemaId, ColumnId}
use aux_ducklake.Keys.{push, concat, u32, u64}
use aux_ducklake.Rows.{ValidityWindow}
use aux_ducklake.Objects.Cursor.{
  Decoder, ◌>>=◌, pure, decode_u32, decode_u64, decode_string, decode_bool, decode_optional_string,
  repeat, Allocator, Elements, with_capacity, vec_of_columns, vec_of_inlined_tables,
  vec_of_partition_fields, vec_of_sort_fields, encode_string, encode_optional_string, bool_byte,
}
use aux_ducklake.Objects.Header.{
  HeaderMessages, ObjectHeader, encode_header, decode_header, header_len,
}

pub record TableColumnRow : Type 0 where
  pub column_id : ColumnId
  pub name : Bytes
  pub column_type : Bytes
  pub nulls_allowed : Bool
  pub parent_id : Option ColumnId
  pub comment : Option Bytes
  pub initial_default : Option Bytes
  pub default_value : Option Bytes
  pub default_value_type : Bytes
  pub created_with_table : Bool

pub record InlinedTableRow : Type 0 where
  pub table_name : Bytes
  pub schema_version : ℕ

pub record TablePartitionFieldRow : Type 0 where
  pub partition_key_index : ℕ
  pub column_id : ColumnId
  pub transform : Bytes

pub record TablePartitionRow : Type 0 where
  pub partition_id : ℕ
  pub fields : List TablePartitionFieldRow

pub record TableSortFieldRow : Type 0 where
  pub sort_key_index : ℕ
  pub expression : Bytes
  pub dialect : Bytes
  pub sort_direction : Bytes
  pub null_order : Bytes

pub record TableSortRow : Type 0 where
  pub sort_id : ℕ
  pub fields : List TableSortFieldRow

pub record TableRow : Type 0 where
  pub table_id : TableId
  pub schema_id : SchemaId
  pub uuid : Bytes
  pub name : Bytes
  pub path : Bytes
  pub comment : Option Bytes
  pub columns : List TableColumnRow
  pub inlined_data_tables : List InlinedTableRow
  pub partition : Option TablePartitionRow
  pub sort : Option TableSortRow
  pub validity : ValidityWindow

-- The number of the values in four bytes, and then each of them.
abbrev pub encode_list : {A : Type 0} → (A → Bytes) → List A → Bytes
encode_list encode values = concat (u32 (length values % 2 ^ 32) ∷ concat (map encode values) ∷ [])

-- The number of the values is read, and the vector for them is allocated before they are read.
abbrev pub decode_list : {A : Type 0} → Allocator → Elements → Decoder A → Decoder (List A)
decode_list allocates elements decoder = do
  count ← decode_u32
  room ← with_capacity allocates elements count
  repeat count decoder

-- A marker, with a number that is 0 where there is none.
unfoldable pub encode_parent : Option ColumnId → Bytes
encode_parent none = concat (push 0 ∷ u64 0 ∷ [])
encode_parent (some parent) = concat (push 1 ∷ u64 parent ∷ [])

unfoldable pub encode_column : TableColumnRow → Bytes
encode_column column = concat (
    u64 column.column_id
    ∷ push (bool_byte column.nulls_allowed)
    ∷ encode_parent column.parent_id
    ∷ encode_string column.name
    ∷ encode_string column.column_type
    ∷ encode_optional_string column.comment
    ∷ encode_optional_string column.initial_default
    ∷ encode_optional_string column.default_value
    ∷ encode_string column.default_value_type
    ∷ push (bool_byte column.created_with_table)
    ∷ [])

unfoldable pub encode_inlined_table : InlinedTableRow → Bytes
encode_inlined_table row = concat (encode_string row.table_name ∷ u64 row.schema_version ∷ [])

unfoldable pub encode_partition_field : TablePartitionFieldRow → Bytes
encode_partition_field field =
    concat
      (u64 field.partition_key_index ∷ u64 field.column_id ∷ encode_string field.transform ∷ [])

unfoldable pub encode_partition : Option TablePartitionRow → Bytes
encode_partition none = push 0
encode_partition (some partition) =
    concat (
      push 1
      ∷ u64 partition.partition_id
      ∷ encode_list encode_partition_field partition.fields
      ∷ [])

unfoldable pub encode_sort_field : TableSortFieldRow → Bytes
encode_sort_field field = concat (
    u64 field.sort_key_index
    ∷ encode_string field.expression
    ∷ encode_string field.dialect
    ∷ encode_string field.sort_direction
    ∷ encode_string field.null_order
    ∷ [])

unfoldable pub encode_sort : Option TableSortRow → Bytes
encode_sort none = push 0
encode_sort (some sort) =
    concat (push 1 ∷ u64 sort.sort_id ∷ encode_list encode_sort_field sort.fields ∷ [])

unfoldable pub encode_table : TableRow → Bytes
encode_table row = concat (
    encode_header 8
      (record { object_id = row.table_id; schema_id = row.schema_id; validity = row.validity })
    ∷ encode_string row.uuid
    ∷ encode_string row.name
    ∷ encode_string row.path
    ∷ encode_optional_string row.comment
    ∷ encode_list encode_column row.columns
    ∷ encode_list encode_inlined_table row.inlined_data_tables
    ∷ encode_partition row.partition
    ∷ encode_sort row.sort
    ∷ [])

unfoldable pub decode_column : Decoder TableColumnRow
decode_column = do
  column_id ← decode_u64
  nulls_allowed ← decode_bool
  has_parent ← decode_bool
  parent_value ← decode_u64
  name ← decode_string
  column_type ← decode_string
  comment ← decode_optional_string
  initial_default ← decode_optional_string
  default_value ← decode_optional_string
  default_value_type ← decode_string
  created_with_table ← decode_bool
  pure (record {
    column_id = column_id;
    name = name;
    column_type = column_type;
    nulls_allowed = nulls_allowed;
    parent_id = if has_parent then some parent_value else none;
    comment = comment;
    initial_default = initial_default;
    default_value = default_value;
    default_value_type = default_value_type;
    created_with_table = created_with_table;
  })

unfoldable pub decode_inlined_table : Decoder InlinedTableRow
decode_inlined_table = do
  table_name ← decode_string
  schema_version ← decode_u64
  pure (record { table_name = table_name; schema_version = schema_version })

unfoldable pub decode_partition_field : Decoder TablePartitionFieldRow
decode_partition_field = do
  partition_key_index ← decode_u64
  column_id ← decode_u64
  transform ← decode_string
  pure (record {
    partition_key_index = partition_key_index;
    column_id = column_id;
    transform = transform;
  })

unfoldable pub decode_partition : Allocator → Decoder (Option TablePartitionRow)
decode_partition allocates = do
  present ← decode_bool
  (if present
      then (do
        partition_id ← decode_u64
        fields ← decode_list allocates vec_of_partition_fields decode_partition_field
        pure (some (record { partition_id = partition_id; fields = fields })))
      else pure none)

unfoldable pub decode_sort_field : Decoder TableSortFieldRow
decode_sort_field = do
  sort_key_index ← decode_u64
  expression ← decode_string
  dialect ← decode_string
  sort_direction ← decode_string
  null_order ← decode_string
  pure (record {
    sort_key_index = sort_key_index;
    expression = expression;
    dialect = dialect;
    sort_direction = sort_direction;
    null_order = null_order;
  })

unfoldable pub decode_sort : Allocator → Decoder (Option TableSortRow)
decode_sort allocates = do
  present ← decode_bool
  (if present
      then (do
        sort_id ← decode_u64
        fields ← decode_list allocates vec_of_sort_fields decode_sort_field
        pure (some (record { sort_id = sort_id; fields = fields })))
      else pure none)

-- What follows the header.
unfoldable pub decode_table_parts : Allocator → ObjectHeader → Decoder TableRow
decode_table_parts allocates header = do
  uuid ← decode_string
  name ← decode_string
  path ← decode_string
  comment ← decode_optional_string
  columns ← decode_list allocates vec_of_columns decode_column
  inlined_data_tables ← decode_list allocates vec_of_inlined_tables decode_inlined_table
  partition ← decode_partition allocates
  sort ← decode_sort allocates
  pure (record {
    table_id = header.object_id;
    schema_id = header.schema_id;
    uuid = uuid;
    name = name;
    path = path;
    comment = comment;
    columns = columns;
    inlined_data_tables = inlined_data_tables;
    partition = partition;
    sort = sort;
    validity = header.validity;
  })

abbrev pub table_messages : HeaderMessages
table_messages = record {
  unsupported = "unsupported table row version";
  too_short = "table row is too short";
  end_marker = "invalid table end-order marker";
}

unfoldable pub decode_table : Allocator → Bytes → CatalogResult TableRow
decode_table allocates bytes =
    Error.◌>>=◌ (decode_header table_messages 8 bytes)
      (λ header. Error.◌>>=◌ (decode_table_parts allocates header bytes header_len) (λ r. ok r.0))
