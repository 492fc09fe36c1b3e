-- ===== src/Tests/Objects.antt =====
-- Rows of a table, a view and a macro.
use aux_ducklake.Base.{leb, ◌++◌, ◌≤◌, ◌≡◌, refl, true, false, none, some, [], ◌∷◌, length, arith}
use aux_ducklake.Bytes.{to_be_bytes, from_be_bytes, Bytes}
use aux_ducklake.Bytes.Slices.{slice, byte_at, from_utf8, is_utf8, continues_utf8, continuation}
use aux_ducklake.Error.{ok, panic}
use aux_ducklake.Ids.{u64_max}
use aux_ducklake.Ids.CatalogOrder.{uuid_v7, uuid_v7-IsOrder, from_bytes}
use aux_ducklake.Rows.{encode_stored_order, decode_stored_order}
use aux_ducklake.Objects.Cursor.{
  Allocator, with_capacity, decode_string, decode_u32, take_bytes, decode_optional_string,
  decode_bool, encode_string, encode_optional_string,
}
use aux_ducklake.Objects.Cursor.Total.{Refused}
use aux_ducklake.Objects.Cursor.ReadsBack.{IsText}
use aux_ducklake.Objects.Header.{encode_header, decode_header}
use aux_ducklake.Objects.Table.{
  TableColumnRow, TableRow, encode_table, decode_table, encode_column, encode_inlined_table,
  encode_partition, encode_sort, encode_parent, encode_partition_field,
}
use aux_ducklake.Objects.TableRoundTrip.{AllocatesTable, IsTableRow, decode_table-encode_table}
use aux_ducklake.Objects.View.{decode_view_parts, ViewRow, encode_view, decode_view}
use aux_ducklake.Objects.Macro.{
  MacroRow, encode_macro, decode_macro, encode_implementation, encode_parameter,
}
use aux_ducklake.Objects.ViewRoundTrip.{
  IsViewRow, decode_view-encode_view, IsMacroRow, AllocatesMacro, decode_macro-encode_macro,
}
use aux_ducklake.Objects.Returns.{objects-ReturnsUnless, ReturnsUnless}

-- There is room for a thousand elements, whatever they are.
abbrev thousand : Allocator
thousand elements count = leb count 1000

a-IsText : IsText (97 ∷ [])
unfolding is_utf8 continues_utf8 continuation
a-IsText = record { bound = omega arith; utf8 = refl }

empty-IsText : IsText []
unfolding is_utf8 continues_utf8
empty-IsText = record { bound = omega arith; utf8 = refl }

abbrev column : TableColumnRow
column = record {
  column_id = 1;
  name = 97 ∷ [];
  column_type = 97 ∷ [];
  nulls_allowed = true;
  parent_id = some 7;
  comment = none;
  initial_default = none;
  default_value = some (97 ∷ []);
  default_value_type = 97 ∷ [];
  created_with_table = false;
}

abbrev table : TableRow
table = record {
  table_id = 5;
  schema_id = 0;
  uuid = [];
  name = 97 ∷ [];
  path = [];
  comment = some (97 ∷ []);
  columns = column ∷ [];
  inlined_data_tables = record { table_name = 97 ∷ []; schema_version = 3 } ∷ [];
  partition = some (record {
    partition_id = 2;
    fields = record { partition_key_index = 0; column_id = 1; transform = 97 ∷ [] } ∷ [];
  });
  sort = none;
  validity = record { begin_order = uuid_v7 3; end_order = some (uuid_v7 4) };
}

table-IsTableRow : IsTableRow table
table-IsTableRow = record {
  header_valid = record {
    object_id_bound = omega arith;
    schema_id_bound = omega arith;
    begin_order_valid = uuid_v7-IsOrder 3 (omega arith);
    end_order_valid = uuid_v7-IsOrder 4 (omega arith);
  };
  uuid_valid = empty-IsText;
  name_valid = a-IsText;
  path_valid = empty-IsText;
  comment_valid = a-IsText;
  columns_bound = omega arith;
  columns_valid = (
    record {
      column_id_bound = omega arith;
      name_valid = a-IsText;
      column_type_valid = a-IsText;
      parent_bound = omega arith;
      comment_valid = tt;
      initial_default_valid = tt;
      default_value_valid = a-IsText;
      default_value_type_valid = a-IsText;
    },
    tt,
  );
  inlined_bound = omega arith;
  inlined_valid = (record { name_valid = a-IsText; version_bound = omega arith }, tt);
  partition_valid = (
    omega arith,
    omega arith,
    (
      record {
        key_index_bound = omega arith;
        column_id_bound = omega arith;
        transform_valid = a-IsText;
      },
      tt,
    ),
  );
  sort_valid = tt;
}

table-AllocatesTable : AllocatesTable thousand table
table-AllocatesTable = record {
  columns_room = refl;
  inlined_room = refl;
  partition_room = refl;
  sort_room = tt;
}

length-table : length (encode_table table) ≤ u64_max
unfolding encode_table encode_header encode_string encode_optional_string encode_column
    encode_parent encode_inlined_table encode_partition encode_partition_field encode_sort
    to_be_bytes encode_stored_order uuid_v7 from_bytes
length-table = omega arith

decode_table-encode_table_example : decode_table thousand (encode_table table) ≡ ok table
decode_table-encode_table_example =
    decode_table-encode_table thousand table table-IsTableRow table-AllocatesTable length-table

abbrev view : ViewRow
view = record {
  view_id = 9;
  schema_id = 1;
  uuid = [];
  name = 97 ∷ [];
  dialect = 97 ∷ [];
  sql = 97 ∷ [];
  column_aliases = (97 ∷ []) ∷ [] ∷ [];
  comment = none;
  validity = record { begin_order = uuid_v7 3; end_order = none };
}

view-IsViewRow : IsViewRow view
view-IsViewRow = record {
  header_valid = record {
    object_id_bound = omega arith;
    schema_id_bound = omega arith;
    begin_order_valid = uuid_v7-IsOrder 3 (omega arith);
    end_order_valid = tt;
  };
  uuid_valid = empty-IsText;
  name_valid = a-IsText;
  dialect_valid = a-IsText;
  sql_valid = a-IsText;
  comment_valid = tt;
  aliases_bound = omega arith;
  aliases_valid = (a-IsText, (empty-IsText, tt));
}

length-view : length (encode_view view) ≤ u64_max
unfolding encode_view encode_header encode_string encode_optional_string to_be_bytes
    encode_stored_order uuid_v7 from_bytes
length-view = omega arith

decode_view-encode_view_example : decode_view thousand (encode_view view) ≡ ok view
decode_view-encode_view_example =
    decode_view-encode_view thousand view view-IsViewRow refl length-view

abbrev macro : MacroRow
macro = record {
  macro_id = 9;
  schema_id = 1;
  name = 97 ∷ [];
  implementations =
      record {
        dialect = 97 ∷ [];
        sql = 97 ∷ [];
        macro_type = 97 ∷ [];
        parameters =
            record {
              parameter_name = 97 ∷ [];
              parameter_type = [];
              default_value = [];
              default_value_type = 97 ∷ [];
            }
            ∷ [];
      }
      ∷ [];
  validity = record { begin_order = uuid_v7 3; end_order = none };
}

macro-IsMacroRow : IsMacroRow macro
macro-IsMacroRow = record {
  header_valid = record {
    object_id_bound = omega arith;
    schema_id_bound = omega arith;
    begin_order_valid = uuid_v7-IsOrder 3 (omega arith);
    end_order_valid = tt;
  };
  name_valid = a-IsText;
  implementations_bound = omega arith;
  implementations_valid = (
    record {
      dialect_valid = a-IsText;
      sql_valid = a-IsText;
      macro_type_valid = a-IsText;
      parameters_bound = omega arith;
      parameters_valid = (
        record {
          name_valid = a-IsText;
          type_valid = empty-IsText;
          default_valid = empty-IsText;
          default_type_valid = a-IsText;
        },
        tt,
      );
    },
    tt,
  );
}

macro-AllocatesMacro : AllocatesMacro thousand macro
macro-AllocatesMacro = record { implementations_room = refl; parameters_room = (refl, tt) }

length-macro : length (encode_macro macro) ≤ u64_max
unfolding encode_macro encode_header encode_string encode_implementation encode_parameter
    to_be_bytes encode_stored_order uuid_v7 from_bytes
length-macro = omega arith

decode_macro-encode_macro_example : decode_macro thousand (encode_macro macro) ≡ ok macro
decode_macro-encode_macro_example =
    decode_macro-encode_macro thousand macro macro-IsMacroRow macro-AllocatesMacro length-macro

-- A view that ends with the number of its aliases, the largest of 32 bits.
abbrev huge_count : Bytes
huge_count =
    encode_header 1 (record { object_id = 9; schema_id = 1; validity = view.validity })
    ++ (0 ∷ 0 ∷ 0 ∷ 0 ∷ 0 ∷ 0 ∷ 0 ∷ 0 ∷ 0 ∷ 0 ∷ 0 ∷ 0 ∷ 0 ∷ 0 ∷ 0 ∷ 0 ∷ 0 ∷ 255 ∷ 255 ∷ 255 ∷ 255
        ∷ [])

-- The row does not even hold one alias, and its decoder asks for room for all of them.
huge_count_fits : length huge_count ≤ u64_max
unfolding encode_header to_be_bytes encode_stored_order uuid_v7 from_bytes
huge_count_fits = omega arith

huge_count_panics : decode_view thousand huge_count ≡ panic
unfolding decode_view decode_view_parts decode_header with_capacity encode_header to_be_bytes
    encode_stored_order uuid_v7 slice decode_stored_order byte_at decode_string decode_u32
    take_bytes from_be_bytes from_utf8 is_utf8 continues_utf8 decode_optional_string decode_bool
huge_count_panics = refl

objects-ReturnsUnless_example :
    ReturnsUnless (Refused thousand huge_count) (decode_table thousand huge_count)
    × ReturnsUnless (Refused thousand huge_count) (decode_view thousand huge_count)
    × ReturnsUnless (Refused thousand huge_count) (decode_macro thousand huge_count)
objects-ReturnsUnless_example = objects-ReturnsUnless thousand huge_count huge_count_fits
