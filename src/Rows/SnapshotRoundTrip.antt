-- ===== src/Rows/SnapshotRoundTrip.antt =====
-- `SnapshotRow::decode` behind `SnapshotRow::encode`.
use aux_ducklake.Bytes.{to_be_bytes, Bytes, IsU64, from_be_bytes}
use aux_ducklake.Bytes.BigEndian.{
  to_be_bytes-from_be_bytes, length-to_be_bytes, from_be_bytes-to_be_bytes,
}
use aux_ducklake.Bytes.Fields.{sum, slice_field, byte_field, length-concat}
use aux_ducklake.Ids.{CatalogOrderKind, IsOrder}
use aux_ducklake.Ids.CatalogOrder.{uuid_v7, from_bytes}
use aux_ducklake.Base.{
  sym, ap, ◌∙◌, map, take, suc, get_elem?, ◌==◌, List, append-nil, append_assoc, ℕ, ◌+◌, ◌%◌, ◌^◌,
  ◌<◌, ◌≤◌, ◌≡◌, refl, true, Option, none, some, [], ◌∷◌, length, arith, leb,
}
use aux_ducklake.Base.Int.{i64_bits-lt, i64_of_bits-i64_bits, i64_bits, IsI64}
use aux_ducklake.Rows.Snapshot.{
  encode_snapshot, decode_snapshot, decode_snapshot_texts, SnapshotRow,
  encode_optional_snapshot_string, decode_optional_snapshot_string,
}
use aux_ducklake.Keys.{u64, push, concat, u32}
use mathlib.Core.Option
use aux_ducklake.Bytes.Slices.{slice, byte_at, is_utf8, from_utf8_lem}
use aux_ducklake.Error.{ok}

abbrev text : Option Bytes → Bytes
text o = Option.get_or o []

abbrev marker : Option Bytes → ℕ
marker none = 0
marker (some t) = 1

-- A text of UTF-8 whose length 32 bits hold.
pub record IsText (o : Option Bytes) : Type 0 where
  pub bound : length (text o) < 2 ^ 32
  pub utf8 : is_utf8 (text o) ≡ true

-- What the types of the fields give, and texts whose lengths 32 bits hold.
pub record IsSnapshotRow (row : SnapshotRow) : Type 0 where
  pub order_valid : IsOrder row.order
  pub sequence_bound : IsU64 row.sequence
  pub created_at_bound : IsI64 row.created_at_micros
  pub created_by_valid : IsText (some row.created_by)
  pub commit_message_valid : IsText row.commit_message
  pub commit_extra_info_valid : IsText row.commit_extra_info

string_fields :
    (o : Option Bytes)
    → encode_optional_snapshot_string o
      ≡ concat (push (marker o) ∷ u32 (length (text o) % 2 ^ 32) ∷ text o ∷ [])
unfolding encode_optional_snapshot_string
string_fields none = rw (append-nil (u32 0))
string_fields (some t) = refl

decode_string_lem :
    (bytes : Bytes) (o : Option Bytes) (offset : ℕ)
    → IsText o
    → offset + 1 + 4 + length (text o) ≤ length bytes
    → byte_at bytes offset ≡ ok (marker o)
    → slice bytes (offset + 1) (offset + 1 + 4) ≡ ok (u32 (length (text o) % 2 ^ 32))
    → slice bytes (offset + 1 + 4) (offset + 1 + 4 + length (text o)) ≡ ok (text o)
    → decode_optional_snapshot_string bytes offset ≡ ok (o, offset + 1 + 4 + length (text o))
unfolding decode_optional_snapshot_string
decode_string_lem bytes none offset valid fits m len s =
    let start : leb (offset + 5) (length bytes) ≡ true = ground arith in
    let read : from_be_bytes (u32 0) ≡ 0 = from_be_bytes-to_be_bytes 4 0 (omega arith) in
    let end : leb (offset + 1 + 4 + 0) (length bytes) ≡ true = ground arith in
    rw (start, m, len, read, end)
decode_string_lem bytes (some t) offset valid fits m len s =
    let n : length t % 2 ^ 32 ≡ length t = omega (arith, valid.bound) in
    let read : from_be_bytes (u32 (length t % 2 ^ 32)) ≡ length t =
      rw n (from_be_bytes-to_be_bytes 4 (length t) valid.bound) in
    let start : leb (offset + 5) (length bytes) ≡ true = ground arith in
    let end : leb (offset + 1 + 4 + length t) (length bytes) ≡ true = ground arith in
    rw (start, m, len, read, end, s, from_utf8_lem t "is not utf8" valid.utf8)

abbrev string_parts : Option Bytes → List Bytes → List Bytes
string_parts o rest = push (marker o) ∷ u32 (length (text o) % 2 ^ 32) ∷ text o ∷ rest

abbrev fields : SnapshotRow → List Bytes
fields row =
    push 3
    ∷ row.order.bytes
    ∷ u64 row.sequence
    ∷ u64 (i64_bits row.created_at_micros)
    ∷ string_parts (some row.created_by)
        (string_parts row.commit_message (string_parts row.commit_extra_info []))

encode_snapshot_lem : (row : SnapshotRow) → encode_snapshot row ≡ concat (fields row)
unfolding encode_snapshot
encode_snapshot_lem row =
    rw
      (
        string_fields (some row.created_by),
        string_fields row.commit_message,
        string_fields row.commit_extra_info,
      )
      (rw (
        append_assoc (u32 (length row.created_by % 2 ^ 32)) row.created_by,
        append_assoc (u32 (length (text row.commit_message) % 2 ^ 32)) (text row.commit_message),
      ))

abbrev sizes : SnapshotRow → List ℕ
sizes row =
    1
    ∷ 16
    ∷ 8
    ∷ 8
    ∷ 1
    ∷ 4
    ∷ length row.created_by
    ∷ 1
    ∷ 4
    ∷ length (text row.commit_message)
    ∷ 1
    ∷ 4
    ∷ length (text row.commit_extra_info)
    ∷ []

-- Where the texts end.
abbrev first_end : SnapshotRow → ℕ
first_end row = 33 + 1 + 4 + length row.created_by

abbrev second_end : SnapshotRow → ℕ
second_end row = first_end row + 1 + 4 + length (text row.commit_message)

abbrev third_end : SnapshotRow → ℕ
third_end row = second_end row + 1 + 4 + length (text row.commit_extra_info)

module _ (row : SnapshotRow) (valid : IsSnapshotRow row) where
  sizes_lem : map length (fields row) ≡ sizes row
  sizes_lem = rw (
    valid.order_valid.sized,
    length-to_be_bytes 8 row.sequence,
    length-to_be_bytes 8 (i64_bits row.created_at_micros),
    length-to_be_bytes 4 (length row.created_by % 2 ^ 32),
    length-to_be_bytes 4 (length (text row.commit_message) % 2 ^ 32),
    length-to_be_bytes 4 (length (text row.commit_extra_info) % 2 ^ 32),
  )

  length-fields : length (concat (fields row)) ≡ third_end row
  length-fields = length-concat (fields row) ∙ ap sum sizes_lem ∙ omega arith

  field_at :
      (k : ℕ) (x : Bytes) (start end : ℕ)
      → get_elem? (fields row) k ≡ some x
      → sum (take k (sizes row)) ≡ start
      → sum (take (suc k) (sizes row)) ≡ end
      → slice (concat (fields row)) start end ≡ ok x
  field_at k x start end h s e =
      slice_field (fields row) k x start end h (ap (λ l. sum (take k l)) sizes_lem ∙ s)
        (ap (λ l. sum (take (suc k) l)) sizes_lem ∙ e)

  marker_at :
      (k b start : ℕ)
      → get_elem? (fields row) k ≡ some (b ∷ [])
      → sum (take k (sizes row)) ≡ start
      → byte_at (concat (fields row)) start ≡ ok b
  marker_at k b start h s =
      byte_field (fields row) k b start h (ap (λ l. sum (take k l)) sizes_lem ∙ s)

  -- The texts are read one behind the other, up to the end of the row.
  decode_texts_lem :
      decode_snapshot_texts (concat (fields row)) 3 33
      ≡ ok (row.created_by, row.commit_message, row.commit_extra_info)
  unfolding decode_snapshot_texts
  decode_texts_lem =
      let bytes = concat (fields row) in
      let first : decode_optional_snapshot_string bytes 33
          ≡ ok (some row.created_by, first_end row) =
        decode_string_lem bytes (some row.created_by) 33 valid.created_by_valid
          (omega (arith, length-fields)) (marker_at 4 _ 33 refl refl)
          (field_at 5 _ _ _ refl (omega arith) (omega arith))
          (field_at 6 _ _ _ refl (omega arith) (omega arith)) in
      let second : decode_optional_snapshot_string bytes (first_end row)
          ≡ ok (row.commit_message, second_end row) =
        decode_string_lem bytes row.commit_message (first_end row) valid.commit_message_valid
          (omega (arith, length-fields)) (marker_at 7 _ _ refl (omega arith))
          (field_at 8 _ _ _ refl (omega arith) (omega arith))
          (field_at 9 _ _ _ refl (omega arith) (omega arith)) in
      let third : decode_optional_snapshot_string bytes (second_end row)
          ≡ ok (row.commit_extra_info, third_end row) =
        decode_string_lem bytes row.commit_extra_info (second_end row) valid.commit_extra_info_valid
          (omega (arith, length-fields)) (marker_at 10 _ _ refl (omega arith))
          (field_at 11 _ _ _ refl (omega arith) (omega arith))
          (field_at 12 _ _ _ refl (omega arith) (omega arith)) in
      let total : (third_end row == length bytes) ≡ true = ground (arith, length-fields) in
      rw (first, second, third, total)

decode_held :
    (bytes : Bytes) (row : SnapshotRow)
    → IsSnapshotRow row
    → 33 ≤ length bytes
    → byte_at bytes 0 ≡ ok 3
    → slice bytes 1 17 ≡ ok row.order.bytes
    → slice bytes 17 25 ≡ ok (u64 row.sequence)
    → slice bytes 25 33 ≡ ok (u64 (i64_bits row.created_at_micros))
    → decode_snapshot_texts bytes 3 33
      ≡ ok (row.created_by, row.commit_message, row.commit_extra_info)
    → decode_snapshot bytes
      ≡ ok (record row { order = from_bytes CatalogOrderKind.uuid_v7 row.order.bytes })
unfolding decode_snapshot from_bytes uuid_v7
decode_held bytes row valid long version order sequence created texts =
    let header : leb 25 (length bytes) ≡ true = ground arith in
    let body : leb 33 (length bytes) ≡ true = ground arith in
    let read_order : to_be_bytes 16 (from_be_bytes row.order.bytes) ≡ row.order.bytes =
      ap (λ n. to_be_bytes n (from_be_bytes row.order.bytes)) (sym valid.order_valid.sized)
      ∙ to_be_bytes-from_be_bytes row.order.bytes valid.order_valid.are_bytes in
    rw (
      header,
      version,
      body,
      order,
      sequence,
      created,
      texts,
      read_order,
      from_be_bytes-to_be_bytes 8 row.sequence valid.sequence_bound,
      from_be_bytes-to_be_bytes 8 (i64_bits row.created_at_micros)
          (i64_bits-lt row.created_at_micros valid.created_at_bound),
      i64_of_bits-i64_bits row.created_at_micros valid.created_at_bound,
    )

-- A snapshot row of the current version decodes to itself, except that its order comes back as a
-- UUID order whatever kind it had.
pub decode_snapshot-encode_snapshot :
    (row : SnapshotRow)
    → IsSnapshotRow row
    → decode_snapshot (encode_snapshot row)
      ≡ ok (record row { order = from_bytes CatalogOrderKind.uuid_v7 row.order.bytes })
decode_snapshot-encode_snapshot row valid = rw (encode_snapshot_lem row) (
    decode_held (concat (fields row)) row valid (omega (arith, length-fields row valid))
      (marker_at row valid 0 3 0 refl refl) (field_at row valid 1 _ 1 17 refl refl refl)
      (field_at row valid 2 _ 17 25 refl refl refl) (field_at row valid 3 _ 25 33 refl refl refl)
      (decode_texts_lem row valid))
