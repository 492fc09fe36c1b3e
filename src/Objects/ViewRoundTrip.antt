-- ===== src/Objects/ViewRoundTrip.antt =====
-- `ViewRow::decode` behind `ViewRow::encode`, and the same of `MacroRow`.
use aux_ducklake.Base.{true, List, ◌^◌, ◌≤◌, ◌<◌, ◌≡◌, [], ◌∷◌, length, All, All-imp}
use aux_ducklake.Bytes.{Bytes}
use aux_ducklake.Error.{ok}
use aux_ducklake.Ids.{u64_max}
use aux_ducklake.Keys.{concat}
use aux_ducklake.Objects.Cursor.{
  Allocator, vec_of_aliases, vec_of_parameters, vec_of_implementations, encode_string,
  encode_optional_string, decode_string,
}
use aux_ducklake.Objects.Cursor.ReadsBack.{
  ReadsBack, ReadsBack->>=, ReadsBack-last, ReadsBack-pure, ReadsBack-decode_string,
  ReadsBack-decode_optional_string, IsText, IsOptionalText,
}
use aux_ducklake.Objects.Framed.{framed_lem}
use aux_ducklake.Objects.Header.{ObjectHeader}
use aux_ducklake.Objects.Header.RoundTrip.{IsObjectHeader}
use aux_ducklake.Objects.Table.{encode_list}
use aux_ducklake.Objects.TableRoundTrip.{ReadsBack-list}
use aux_ducklake.Objects.View.{ViewRow, encode_view, decode_view, decode_view_parts, view_messages}
use aux_ducklake.Objects.Macro.{
  MacroParameterRow, MacroImplementationRow, MacroRow, encode_parameter, encode_implementation,
  encode_macro, decode_parameter, decode_implementation, decode_macro_parts, macro_messages,
  decode_macro,
}

abbrev view_header : ViewRow → ObjectHeader
view_header row = record {
  object_id = row.view_id;
  schema_id = row.schema_id;
  validity = row.validity;
}

-- What the types of the fields give, with texts and a list whose lengths 32 bits hold.
pub record IsViewRow (row : ViewRow) : Type 0 where
  pub header_valid : IsObjectHeader (view_header row)
  pub uuid_valid : IsText row.uuid
  pub name_valid : IsText row.name
  pub dialect_valid : IsText row.dialect
  pub sql_valid : IsText row.sql
  pub comment_valid : IsOptionalText row.comment
  pub aliases_bound : length row.column_aliases < 2 ^ 32
  pub aliases_valid : All IsText row.column_aliases

abbrev view_parts : ViewRow → Bytes
view_parts row = concat (
    encode_string row.uuid
    ∷ encode_string row.name
    ∷ encode_string row.dialect
    ∷ encode_string row.sql
    ∷ encode_optional_string row.comment
    ∷ encode_list encode_string row.column_aliases
    ∷ [])

ReadsBack-view_parts :
    (allocates : Allocator) (row : ViewRow)
    → IsViewRow row
    → allocates vec_of_aliases (length row.column_aliases) ≡ true
    → ReadsBack (decode_view_parts allocates (view_header row)) (view_parts row) row
unfolding decode_view_parts
ReadsBack-view_parts allocates row v room =
    ReadsBack->>= _ (ReadsBack-decode_string row.uuid v.uuid_valid) (
      ReadsBack->>= _ (ReadsBack-decode_string row.name v.name_valid) (
        ReadsBack->>= _ (ReadsBack-decode_string row.dialect v.dialect_valid) (
          ReadsBack->>= _ (ReadsBack-decode_string row.sql v.sql_valid) (
            ReadsBack->>= _ (ReadsBack-decode_optional_string row.comment v.comment_valid) (
              ReadsBack-last _
                (ReadsBack-list allocates vec_of_aliases decode_string encode_string
                  row.column_aliases v.aliases_bound room
                  (All-imp ReadsBack-decode_string row.column_aliases v.aliases_valid))
                (ReadsBack-pure row))))))

-- A row of a view decodes to the row it was encoded from: where its identifiers fit their types, its
-- texts are UTF-8, 32 bits hold the lengths of its texts and of its list of aliases and 64 bits the
-- length of the encoded row, and there is room for the list.
pub decode_view-encode_view :
    (allocates : Allocator) (row : ViewRow)
    → IsViewRow row
    → allocates vec_of_aliases (length row.column_aliases) ≡ true
    → length (encode_view row) ≤ u64_max
    → decode_view allocates (encode_view row) ≡ ok row
unfolding decode_view encode_view
decode_view-encode_view allocates row v room fits =
    framed_lem view_messages 1 (view_header row) (decode_view_parts allocates) (view_parts row) row
      v.header_valid (ReadsBack-view_parts allocates row v room) fits

abbrev macro_header : MacroRow → ObjectHeader
macro_header row = record {
  object_id = row.macro_id;
  schema_id = row.schema_id;
  validity = row.validity;
}

pub record IsMacroParameterRow (parameter : MacroParameterRow) : Type 0 where
  pub name_valid : IsText parameter.parameter_name
  pub type_valid : IsText parameter.parameter_type
  pub default_valid : IsText parameter.default_value
  pub default_type_valid : IsText parameter.default_value_type

pub record IsMacroImplementationRow (implementation : MacroImplementationRow) : Type 0 where
  pub dialect_valid : IsText implementation.dialect
  pub sql_valid : IsText implementation.sql
  pub macro_type_valid : IsText implementation.macro_type
  pub parameters_bound : length implementation.parameters < 2 ^ 32
  pub parameters_valid : All IsMacroParameterRow implementation.parameters

pub record IsMacroRow (row : MacroRow) : Type 0 where
  pub header_valid : IsObjectHeader (macro_header row)
  pub name_valid : IsText row.name
  pub implementations_bound : length row.implementations < 2 ^ 32
  pub implementations_valid : All IsMacroImplementationRow row.implementations

-- There is room for the parameters of an implementation, and for the vectors of a row.
abbrev pub AllocatesParameters : Allocator → MacroImplementationRow → Type 0
AllocatesParameters allocates implementation =
    allocates vec_of_parameters (length implementation.parameters) ≡ true

pub record AllocatesMacro (allocates : Allocator) (row : MacroRow) : Type 0 where
  pub implementations_room : allocates vec_of_implementations (length row.implementations) ≡ true
  pub parameters_room : All (AllocatesParameters allocates) row.implementations

All-both :
    {A : Type 0} (P Q : A → Type 0) (xs : List A) → All P xs → All Q xs → All (λ x. P x × Q x) xs
All-both P Q [] h k = tt
All-both P Q (x ∷ xs) (h, hs) (k, ks) = ((h, k), All-both P Q xs hs ks)

ReadsBack-parameter :
    (parameter : MacroParameterRow)
    → IsMacroParameterRow parameter
    → ReadsBack decode_parameter (encode_parameter parameter) parameter
unfolding decode_parameter encode_parameter
ReadsBack-parameter parameter v =
    ReadsBack->>= _ (ReadsBack-decode_string parameter.parameter_name v.name_valid) (
      ReadsBack->>= _ (ReadsBack-decode_string parameter.parameter_type v.type_valid) (
        ReadsBack->>= _ (ReadsBack-decode_string parameter.default_value v.default_valid) (
          ReadsBack-last _
            (ReadsBack-decode_string parameter.default_value_type v.default_type_valid)
            (ReadsBack-pure parameter))))

ReadsBack-implementation :
    (allocates : Allocator) (implementation : MacroImplementationRow)
    → IsMacroImplementationRow implementation × AllocatesParameters allocates implementation
    → ReadsBack
        (decode_implementation allocates)
        (encode_implementation implementation)
        implementation
unfolding decode_implementation encode_implementation
ReadsBack-implementation allocates implementation (v, room) =
    ReadsBack->>= _ (ReadsBack-decode_string implementation.dialect v.dialect_valid) (
      ReadsBack->>= _ (ReadsBack-decode_string implementation.sql v.sql_valid) (
        ReadsBack->>= _ (ReadsBack-decode_string implementation.macro_type v.macro_type_valid) (
          ReadsBack-last _
            (ReadsBack-list allocates vec_of_parameters decode_parameter encode_parameter
              implementation.parameters v.parameters_bound room
              (All-imp ReadsBack-parameter implementation.parameters v.parameters_valid))
            (ReadsBack-pure implementation))))

ReadsBack-macro_parts :
    (allocates : Allocator) (row : MacroRow)
    → IsMacroRow row
    → AllocatesMacro allocates row
    → ReadsBack
        (decode_macro_parts allocates (macro_header row))
        (concat
          (encode_string row.name ∷ encode_list encode_implementation row.implementations ∷ []))
        row
unfolding decode_macro_parts
ReadsBack-macro_parts allocates row v room =
    ReadsBack->>= _ (ReadsBack-decode_string row.name v.name_valid) (
      ReadsBack-last _
        (ReadsBack-list allocates vec_of_implementations (decode_implementation allocates)
          encode_implementation row.implementations v.implementations_bound
          room.implementations_room
          (All-imp (ReadsBack-implementation allocates) row.implementations
            (All-both _ _ row.implementations v.implementations_valid room.parameters_room)))
        (ReadsBack-pure row))

-- A row of a macro decodes to the row it was encoded from, its implementations and their parameters
-- included: where its identifiers fit their types, its texts are UTF-8, 32 bits hold the lengths of
-- its texts and lists and 64 bits the length of the encoded row, and there is room for its vectors.
pub decode_macro-encode_macro :
    (allocates : Allocator) (row : MacroRow)
    → IsMacroRow row
    → AllocatesMacro allocates row
    → length (encode_macro row) ≤ u64_max
    → decode_macro allocates (encode_macro row) ≡ ok row
unfolding decode_macro encode_macro
decode_macro-encode_macro allocates row v room fits =
    framed_lem macro_messages 1 (macro_header row) (decode_macro_parts allocates) _ row
      v.header_valid (ReadsBack-macro_parts allocates row v room) fits
