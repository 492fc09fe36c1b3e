-- ===== src/Objects/View.antt =====
-- `ViewRow` of crates/ducklake-catalog/src/view_rows.rs.
use aux_ducklake.Base.{Option, List, [], ◌∷◌}
use aux_ducklake.Bytes.{Bytes}
use aux_ducklake.Error
use aux_ducklake.Error.{CatalogResult, ok}
use aux_ducklake.Ids.{TableId, SchemaId}
use aux_ducklake.Keys.{concat}
use aux_ducklake.Rows.{ValidityWindow}
use aux_ducklake.Objects.Cursor.{
  Allocator, vec_of_aliases, Decoder, ◌>>=◌, pure, decode_string, decode_optional_string,
  encode_string, encode_optional_string,
}
use aux_ducklake.Objects.Header.{
  HeaderMessages, ObjectHeader, encode_header, decode_header, header_len,
}
use aux_ducklake.Objects.Table.{encode_list, decode_list}

pub record ViewRow : Type 0 where
  pub view_id : TableId
  pub schema_id : SchemaId
  pub uuid : Bytes
  pub name : Bytes
  pub dialect : Bytes
  pub sql : Bytes
  pub column_aliases : List Bytes
  pub comment : Option Bytes
  pub validity : ValidityWindow

unfoldable pub encode_view : ViewRow → Bytes
encode_view row = concat (
    encode_header 1
      (record { object_id = row.view_id; schema_id = row.schema_id; validity = row.validity })
    ∷ encode_string row.uuid
    ∷ encode_string row.name
    ∷ encode_string row.dialect
    ∷ encode_string row.sql
    ∷ encode_optional_string row.comment
    ∷ encode_list encode_string row.column_aliases
    ∷ [])

unfoldable pub decode_view_parts : Allocator → ObjectHeader → Decoder ViewRow
decode_view_parts allocates header = do
  uuid ← decode_string
  name ← decode_string
  dialect ← decode_string
  sql ← decode_string
  comment ← decode_optional_string
  column_aliases ← decode_list allocates vec_of_aliases decode_string
  pure (record {
    view_id = header.object_id;
    schema_id = header.schema_id;
    uuid = uuid;
    name = name;
    dialect = dialect;
    sql = sql;
    column_aliases = column_aliases;
    comment = comment;
    validity = header.validity;
  })

abbrev pub view_messages : HeaderMessages
view_messages = record {
  unsupported = "unsupported view row version";
  too_short = "view row is too short";
  end_marker = "invalid view end-order marker";
}

unfoldable pub decode_view : Allocator → Bytes → CatalogResult ViewRow
decode_view allocates bytes =
    Error.◌>>=◌ (decode_header view_messages 1 bytes)
      (λ header. Error.◌>>=◌ (decode_view_parts allocates header bytes header_len) (λ r. ok r.0))
