-- ===== src/Rows/DataFile.antt =====
-- `DataFileRow` of crates/ducklake-catalog/src/rows.rs.
use aux_ducklake.Base.{
  ◌^◌, ◌%◌, ℕ, ◌+◌, Bool, true, false, ◌&&◌, Option, none, some, [], ◌∷◌, if◌then◌else◌, ◌==◌, leb,
  length, first?,
}
use aux_ducklake.Error.{CatalogError, CatalogResult, ok, err, decode, ensure, ok_or, ◌>>=◌, ◌>>◌}
use aux_ducklake.Bytes.{Bytes}
use aux_ducklake.Bytes.Slices.{slice, byte_at, from_utf8}
use aux_ducklake.Ids.{CatalogOrderId, DataFileId, TableId, saturating_add}
use aux_ducklake.Ids.CatalogOrder.{uuid_v7}
use aux_ducklake.Keys.{push, concat, u32, u64}
use aux_ducklake.Rows.{
  ValidityWindow, read_uint, encode_stored_order, decode_stored_order, stored_order_len,
}

pub record DataFileRow : Type 0 where
  pub data_file_id : DataFileId
  pub table_id : TableId
  pub path : Bytes
  pub record_count : ℕ
  pub file_size_bytes : ℕ
  pub footer_size : Option ℕ
  pub encryption_key : Bytes
  pub row_id_start : ℕ
  pub row_id_start_known : Bool
  pub mapping_id : Option ℕ
  pub max_partial_order : Option CatalogOrderId
  pub validity : ValidityWindow

-- A marker and eight bytes.
abbrev pub marked_u64 : Option ℕ → Bytes
marked_u64 none = concat (push 0 ∷ u64 0 ∷ [])
marked_u64 (some value) = concat (push 1 ∷ u64 value ∷ [])

-- A marker and a stored order.
abbrev pub marked_order : Option CatalogOrderId → Bytes
marked_order none = concat (push 0 ∷ encode_stored_order (uuid_v7 0) ∷ [])
marked_order (some order) = concat (push 1 ∷ encode_stored_order order ∷ [])

unfoldable pub encode_data_file : DataFileRow → Bytes
encode_data_file row = concat (
    push 8
    ∷ u64 row.data_file_id
    ∷ u64 row.table_id
    ∷ u64 row.record_count
    ∷ u64 row.file_size_bytes
    ∷ u64 row.row_id_start
    ∷ push (if row.row_id_start_known then 1 else 0)
    ∷ marked_u64 row.mapping_id
    ∷ encode_stored_order row.validity.begin_order
    ∷ marked_order row.validity.end_order
    ∷ marked_order row.max_partial_order
    ∷ marked_u64 row.footer_size
    ∷ u32 (length row.encryption_key % 2 ^ 32)
    ∷ row.encryption_key
    ∷ row.path
    ∷ [])

-- A marker, with the message where it is neither 0 nor 1.
abbrev pub by_marker {ℓ} :
    {A : Type ℓ} → ℕ → CatalogResult A → CatalogResult A → CatalogError → CatalogResult A
by_marker marker absent present error =
    if marker == 0 then absent else if marker == 1 then present else err error

unfoldable pub decode_row_id_known : Bytes → ℕ → ℕ → CatalogResult Bool
decode_row_id_known bytes version row_id_known_start =
    if leb 7 version
    then (byte_at bytes row_id_known_start >>= λ marker.
        by_marker marker (ok false) (ok true) (decode "invalid data file row-id-known marker"))
    else ok false

unfoldable pub decode_mapping : Bytes → ℕ → ℕ → CatalogResult (Option ℕ)
decode_mapping bytes version mapping_start =
    if leb 4 version
    then (do
      marker ← byte_at bytes mapping_start
      let value_start : ℕ = mapping_start + 1
      value ← read_uint bytes value_start (value_start + 8)
      by_marker marker (ok none) (ok (some value)) (decode "invalid data file mapping marker"))
    else ok none

unfoldable pub decode_marked_order : Bytes → ℕ → ℕ → ℕ → CatalogResult (Option CatalogOrderId)
decode_marked_order bytes present_index start end = do
  marker ← byte_at bytes present_index
  by_marker marker (ok none)
      (slice bytes start end >>= λ s. decode_stored_order s >>= λ order. ok (some order))
      (decode "invalid data file order marker")

unfoldable pub decode_footer : Bytes → ℕ → ℕ → ℕ → ℕ → CatalogResult (Option ℕ)
decode_footer bytes version footer_present_index footer_start encryption_length_start =
    if leb 6 version
    then (do
      value ← read_uint bytes footer_start encryption_length_start
      marker ← byte_at bytes footer_present_index
      by_marker marker (ok none) (ok (some value)) (decode "invalid data file footer-size marker"))
    else ok none

unfoldable pub decode_encryption : Bytes → ℕ → ℕ → CatalogResult (Bytes × ℕ)
decode_encryption bytes version encryption_length_start =
    if leb 8 version
    then (do
      let encryption_value_start : ℕ = encryption_length_start + 4
      len ← read_uint bytes encryption_length_start encryption_value_start
      let path_start : ℕ = saturating_add encryption_value_start len
      ensure (leb path_start (length bytes)) (decode "data file encryption key is truncated")
      text ← slice bytes encryption_value_start path_start
      key ← from_utf8 text "data file encryption key is not utf8"
      ok (key, path_start))
    else ok ([], encryption_length_start)

unfoldable pub decode_data_file : Bytes → CatalogResult DataFileRow
decode_data_file bytes = do
  version ← ok_or (first? bytes) (decode "data file row is too short")
  ensure (leb 3 version && leb version 8) (decode "unsupported data file row version")
  let row_id_known_len : ℕ = if leb 7 version then 1 else 0
  let mapping_len : ℕ = if leb 4 version then 1 + 8 else 0
  let max_partial_len : ℕ = if leb 5 version then 1 + stored_order_len else 0
  let footer_len : ℕ = if leb 6 version then 1 + 8 else 0
  let encryption_len : ℕ = if leb 8 version then 4 else 0
  let minimum_len : ℕ =
      1 + 8 + 8 + 8 + 8 + 8 + row_id_known_len + mapping_len + stored_order_len + 1
      + stored_order_len + max_partial_len + footer_len + encryption_len
  ensure (leb minimum_len (length bytes)) (decode "data file row is too short")
  let data_file_start : ℕ = 1
  let table_start : ℕ = data_file_start + 8
  let record_count_start : ℕ = table_start + 8
  let file_size_start : ℕ = record_count_start + 8
  let row_id_start : ℕ = file_size_start + 8
  let row_id_known_start : ℕ = row_id_start + 8
  let mapping_start : ℕ = row_id_known_start + row_id_known_len
  let begin_start : ℕ = mapping_start + mapping_len
  let end_present_index : ℕ = begin_start + stored_order_len
  let end_start : ℕ = end_present_index + 1
  let max_partial_present_index : ℕ = end_start + stored_order_len
  let max_partial_start : ℕ = max_partial_present_index + 1
  let footer_present_index : ℕ = max_partial_present_index + max_partial_len
  let footer_start : ℕ = footer_present_index + 1
  let encryption_length_start : ℕ = footer_present_index + footer_len
  data_file_id ← read_uint bytes data_file_start table_start
  table_id ← read_uint bytes table_start record_count_start
  record_count ← read_uint bytes record_count_start file_size_start
  file_size_bytes ← read_uint bytes file_size_start row_id_start
  row_id ← read_uint bytes row_id_start row_id_known_start
  row_id_start_known ← decode_row_id_known bytes version row_id_known_start
  mapping_id ← decode_mapping bytes version mapping_start
  begin_bytes ← slice bytes begin_start end_present_index
  begin_order ← decode_stored_order begin_bytes
  end_order ← decode_marked_order bytes end_present_index end_start max_partial_present_index
  max_partial_order ←
      (if leb 5 version
        then decode_marked_order bytes max_partial_present_index max_partial_start
            footer_present_index
        else ok none)
  footer_size ←
      decode_footer bytes version footer_present_index footer_start encryption_length_start
  (encryption_key, path_start) ← decode_encryption bytes version encryption_length_start
  tail ← slice bytes path_start (length bytes)
  path ← from_utf8 tail "data file path is not utf8"
  ok (record {
    data_file_id = data_file_id;
    table_id = table_id;
    path = path;
    record_count = record_count;
    file_size_bytes = file_size_bytes;
    footer_size = footer_size;
    encryption_key = encryption_key;
    row_id_start = row_id;
    row_id_start_known = row_id_start_known;
    mapping_id = mapping_id;
    max_partial_order = max_partial_order;
    validity = record { begin_order = begin_order; end_order = end_order };
  })
