-- ===== src/Objects/Macro.antt =====
-- `MacroRow` of crates/ducklake-catalog/src/macro_rows.rs.
use aux_ducklake.Base.{List, [], ◌∷◌}
use aux_ducklake.Bytes.{Bytes}
use aux_ducklake.Error
use aux_ducklake.Error.{CatalogResult, ok}
use aux_ducklake.Ids.{MacroId, SchemaId}
use aux_ducklake.Keys.{concat}
use aux_ducklake.Rows.{ValidityWindow}
use aux_ducklake.Objects.Cursor.{
  Allocator, vec_of_parameters, vec_of_implementations, Decoder, ◌>>=◌, pure, decode_string,
  encode_string,
}
use aux_ducklake.Objects.Header.{
  HeaderMessages, ObjectHeader, encode_header, decode_header, header_len,
}
use aux_ducklake.Objects.Table.{encode_list, decode_list}

pub record MacroParameterRow : Type 0 where
  pub parameter_name : Bytes
  pub parameter_type : Bytes
  pub default_value : Bytes
  pub default_value_type : Bytes

pub record MacroImplementationRow : Type 0 where
  pub dialect : Bytes
  pub sql : Bytes
  pub macro_type : Bytes
  pub parameters : List MacroParameterRow

pub record MacroRow : Type 0 where
  pub macro_id : MacroId
  pub schema_id : SchemaId
  pub name : Bytes
  pub implementations : List MacroImplementationRow
  pub validity : ValidityWindow

unfoldable pub encode_parameter : MacroParameterRow → Bytes
encode_parameter parameter = concat (
    encode_string parameter.parameter_name
    ∷ encode_string parameter.parameter_type
    ∷ encode_string parameter.default_value
    ∷ encode_string parameter.default_value_type
    ∷ [])

unfoldable pub encode_implementation : MacroImplementationRow → Bytes
encode_implementation implementation = concat (
    encode_string implementation.dialect
    ∷ encode_string implementation.sql
    ∷ encode_string implementation.macro_type
    ∷ encode_list encode_parameter implementation.parameters
    ∷ [])

unfoldable pub encode_macro : MacroRow → Bytes
encode_macro row = concat (
    encode_header 1
      (record { object_id = row.macro_id; schema_id = row.schema_id; validity = row.validity })
    ∷ encode_string row.name
    ∷ encode_list encode_implementation row.implementations
    ∷ [])

unfoldable pub decode_parameter : Decoder MacroParameterRow
decode_parameter = do
  parameter_name ← decode_string
  parameter_type ← decode_string
  default_value ← decode_string
  default_value_type ← decode_string
  pure (record {
    parameter_name = parameter_name;
    parameter_type = parameter_type;
    default_value = default_value;
    default_value_type = default_value_type;
  })

unfoldable pub decode_implementation : Allocator → Decoder MacroImplementationRow
decode_implementation allocates = do
  dialect ← decode_string
  sql ← decode_string
  macro_type ← decode_string
  parameters ← decode_list allocates vec_of_parameters decode_parameter
  pure (record { dialect = dialect; sql = sql; macro_type = macro_type; parameters = parameters })

unfoldable pub decode_macro_parts : Allocator → ObjectHeader → Decoder MacroRow
decode_macro_parts allocates header = do
  name ← decode_string
  implementations ← decode_list allocates vec_of_implementations (decode_implementation allocates)
  pure (record {
    macro_id = header.object_id;
    schema_id = header.schema_id;
    name = name;
    implementations = implementations;
    validity = header.validity;
  })

abbrev pub macro_messages : HeaderMessages
macro_messages = record {
  unsupported = "unsupported macro row version";
  too_short = "macro row is too short";
  end_marker = "invalid macro end-order marker";
}

unfoldable pub decode_macro : Allocator → Bytes → CatalogResult MacroRow
decode_macro allocates bytes =
    Error.◌>>=◌ (decode_header macro_messages 1 bytes)
      (λ header. Error.◌>>=◌ (decode_macro_parts allocates header bytes header_len) (λ r. ok r.0))
