-- ===== src/Rows/DataFileRoundTrip.antt =====
-- `DataFileRow::decode` behind `DataFileRow::encode`.
use aux_ducklake.Base.{
  first?, leb, ℕ, ◌+◌, ◌%◌, ◌^◌, ◌<◌, ◌≡◌, refl, ap, Bool, true, false, Option, none, some, length,
  arith, if◌then◌else◌,
}
use mathlib.Core.Option
use aux_ducklake.Bytes.{Bytes, IsU64, from_be_bytes}
use aux_ducklake.Bytes.BigEndian.{from_be_bytes-to_be_bytes}
use aux_ducklake.Bytes.Slices.{from_utf8_lem, slice, byte_at, is_utf8}
use aux_ducklake.Error.{ok}
use aux_ducklake.Ids.{CatalogOrderId, saturating_add}
use aux_ducklake.Keys.{concat, u32, u64}
use aux_ducklake.Rows.{encode_stored_order, read_uint}
use aux_ducklake.Rows.StoredOrder.{decode_stored_order-encode_stored_order}
use aux_ducklake.Rows.DataFile.{
  DataFileRow, encode_data_file, decode_data_file, decode_row_id_known, decode_mapping,
  decode_marked_order, decode_footer, decode_encryption,
}
use aux_ducklake.Rows.DataFileFields.{
  IsDataFileRow, IsOptionalOrder, IsOptionalU64, marker, stored_order, fields, field_at, marker_at,
  length-fields, encode_data_file_lem,
}

-- A number between two positions.
read_uint_lem :
    (bytes : Bytes) (v start end : ℕ)
    → IsU64 v
    → slice bytes start end ≡ ok (u64 v)
    → read_uint bytes start end ≡ ok v
read_uint_lem bytes v start end h s = rw s (ap ok (from_be_bytes-to_be_bytes 8 v h))

optional_bound : (o : Option ℕ) → IsOptionalU64 o → IsU64 (Option.get_or o 0)
optional_bound none h = omega arith
optional_bound (some v) h = h

decode_mapping_lem :
    (bytes : Bytes) (o : Option ℕ)
    → IsOptionalU64 o
    → byte_at bytes 42 ≡ ok (marker o)
    → slice bytes 43 51 ≡ ok (u64 (Option.get_or o 0))
    → decode_mapping bytes 8 42 ≡ ok o
unfolding decode_mapping
decode_mapping_lem bytes none h m s = rw (m, s)
decode_mapping_lem bytes (some v) h m s = rw (m, s, from_be_bytes-to_be_bytes 8 v h)

decode_footer_lem :
    (bytes : Bytes) (o : Option ℕ)
    → IsOptionalU64 o
    → byte_at bytes 104 ≡ ok (marker o)
    → slice bytes 105 113 ≡ ok (u64 (Option.get_or o 0))
    → decode_footer bytes 8 104 105 113 ≡ ok o
unfolding decode_footer
decode_footer_lem bytes none h m s = rw (m, s)
decode_footer_lem bytes (some v) h m s = rw (m, s, from_be_bytes-to_be_bytes 8 v h)

decode_marked_order_lem :
    (bytes : Bytes) (o : Option CatalogOrderId) (index start end : ℕ)
    → IsOptionalOrder o
    → byte_at bytes index ≡ ok (marker o)
    → slice bytes start end ≡ ok (encode_stored_order (stored_order o))
    → decode_marked_order bytes index start end ≡ ok o
unfolding decode_marked_order
decode_marked_order_lem bytes none index start end h m s = rw m
decode_marked_order_lem bytes (some o) index start end h m s =
    rw (m, s, decode_stored_order-encode_stored_order o h)

decode_known_lem :
    (bytes : Bytes) (known : Bool)
    → byte_at bytes 41 ≡ ok (if known then 1 else 0)
    → decode_row_id_known bytes 8 41 ≡ ok known
unfolding decode_row_id_known
decode_known_lem bytes true m = rw m
decode_known_lem bytes false m = rw m

decode_encryption_lem :
    (bytes key : Bytes) (total : ℕ)
    → length key < 2 ^ 32
    → is_utf8 key ≡ true
    → length bytes ≡ 117 + length key + total
    → slice bytes 113 117 ≡ ok (u32 (length key % 2 ^ 32))
    → slice bytes 117 (117 + length key) ≡ ok key
    → decode_encryption bytes 8 113 ≡ ok (key, 117 + length key)
unfolding decode_encryption
decode_encryption_lem bytes key total h text size len s =
    let n : length key % 2 ^ 32 ≡ length key = omega arith in
    let read : from_be_bytes (u32 (length key % 2 ^ 32)) ≡ length key =
      rw n (from_be_bytes-to_be_bytes 4 (length key) h) in
    let end : saturating_add 117 (length key) ≡ 117 + length key = omega arith in
    let fits : leb (117 + length key) (length bytes) ≡ true = ground arith in
    rw (len, read, end, fits, s, from_utf8_lem key _ text)

-- The bytes hold, at the offsets of version 8, the fields of the row.
record Holds (bytes : Bytes) (row : DataFileRow) : Type 0 where
  version : first? bytes ≡ some 8
  total : length bytes ≡ 117 + length row.encryption_key + length row.path
  data_file_id : read_uint bytes 1 9 ≡ ok row.data_file_id
  table_id : read_uint bytes 9 17 ≡ ok row.table_id
  record_count : read_uint bytes 17 25 ≡ ok row.record_count
  file_size : read_uint bytes 25 33 ≡ ok row.file_size_bytes
  row_id : read_uint bytes 33 41 ≡ ok row.row_id_start
  known : decode_row_id_known bytes 8 41 ≡ ok row.row_id_start_known
  mapping : decode_mapping bytes 8 42 ≡ ok row.mapping_id
  begin_order : slice bytes 51 68 ≡ ok (encode_stored_order row.validity.begin_order)
  end_order : decode_marked_order bytes 68 69 86 ≡ ok row.validity.end_order
  max_partial : decode_marked_order bytes 86 87 104 ≡ ok row.max_partial_order
  footer : decode_footer bytes 8 104 105 113 ≡ ok row.footer_size
  encryption :
      decode_encryption bytes 8 113 ≡ ok (row.encryption_key, 117 + length row.encryption_key)
  path : slice bytes (117 + length row.encryption_key) (length bytes) ≡ ok row.path

Holds-fields : (row : DataFileRow) → IsDataFileRow row → Holds (concat (fields row)) row
Holds-fields row valid =
    let bytes = concat (fields row) in
    let at = field_at row valid in
    let marked = marker_at row valid in
    record {
      version = refl;
      total = length-fields row valid;
      data_file_id = read_uint_lem bytes _ 1 9 valid.data_file_id_bound (at 1 _ 1 9 refl refl refl);
      table_id = read_uint_lem bytes _ 9 17 valid.table_id_bound (at 2 _ 9 17 refl refl refl);
      record_count =
          read_uint_lem bytes _ 17 25 valid.record_count_bound (at 3 _ 17 25 refl refl refl);
      file_size = read_uint_lem bytes _ 25 33 valid.file_size_bound (at 4 _ 25 33 refl refl refl);
      row_id = read_uint_lem bytes _ 33 41 valid.row_id_bound (at 5 _ 33 41 refl refl refl);
      known = decode_known_lem bytes row.row_id_start_known (marked 6 _ 41 refl refl);
      mapping =
          decode_mapping_lem bytes row.mapping_id valid.mapping_bound (marked 7 _ 42 refl refl)
            (at 8 _ 43 51 refl refl refl);
      begin_order = at 9 _ 51 68 refl refl refl;
      end_order =
          decode_marked_order_lem bytes row.validity.end_order 68 69 86 valid.end_order_valid
            (marked 10 _ 68 refl refl) (at 11 _ 69 86 refl refl refl);
      max_partial =
          decode_marked_order_lem bytes row.max_partial_order 86 87 104 valid.max_partial_valid
            (marked 12 _ 86 refl refl) (at 13 _ 87 104 refl refl refl);
      footer =
          decode_footer_lem bytes row.footer_size valid.footer_bound (marked 14 _ 104 refl refl)
            (at 15 _ 105 113 refl refl refl);
      encryption =
          decode_encryption_lem bytes row.encryption_key (length row.path) valid.key_bound
            valid.key_is_text (length-fields row valid) (at 16 _ 113 117 refl refl refl)
            (at 17 _ 117 (117 + length row.encryption_key) refl refl (omega arith));
      path =
          at 18 _ (117 + length row.encryption_key) (length bytes) refl (omega arith)
            (omega (arith, length-fields row valid));
    }

decode_held :
    (bytes : Bytes) (row : DataFileRow)
    → IsDataFileRow row
    → Holds bytes row
    → decode_data_file bytes ≡ ok row
unfolding decode_data_file
decode_held bytes row valid h =
    let long : leb 117 (length bytes) ≡ true = ground (arith, h.total) in
    rw (
      h.version,
      long,
      h.data_file_id,
      h.table_id,
      h.record_count,
      h.file_size,
      h.row_id,
      h.known,
      h.mapping,
      h.begin_order,
      decode_stored_order-encode_stored_order row.validity.begin_order valid.begin_order_valid,
      h.end_order,
      h.max_partial,
      h.footer,
      h.encryption,
      h.path,
      from_utf8_lem row.path "data file path is not utf8" valid.path_is_text,
    )

-- A data-file row decodes to the row it was encoded from.
pub decode_data_file-encode_data_file :
    (row : DataFileRow) → IsDataFileRow row → decode_data_file (encode_data_file row) ≡ ok row
decode_data_file-encode_data_file row valid =
    rw (encode_data_file_lem row)
      (decode_held (concat (fields row)) row valid (Holds-fields row valid))
