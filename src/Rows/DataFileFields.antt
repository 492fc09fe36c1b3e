-- ===== src/Rows/DataFileFields.antt =====
-- The fields of an encoded `DataFileRow`, and where the decoder finds each of them.
use aux_ducklake.Base.{
  ℕ, ◌+◌, ◌%◌, ◌^◌, ◌<◌, ◌≡◌, refl, ap, ◌∙◌, true, Option, none, some, List, [], ◌∷◌, map,
  if◌then◌else◌, length, take, get_elem?, arith, suc,
}
use mathlib.Core.Option
use aux_ducklake.Bytes.{Bytes, IsU64}
use aux_ducklake.Bytes.BigEndian.{length-to_be_bytes}
use aux_ducklake.Bytes.Slices.{slice, byte_at, is_utf8}
use aux_ducklake.Bytes.Fields.{sum, slice_field, byte_field, length-concat}
use aux_ducklake.Error.{ok}
use aux_ducklake.Ids.{CatalogOrderId, IsOrder}
use aux_ducklake.Ids.CatalogOrder.{uuid_v7, uuid_v7-IsOrder}
use aux_ducklake.Keys.{push, concat, u32, u64}
use aux_ducklake.Rows.{encode_stored_order}
use aux_ducklake.Rows.StoredOrder.{length-encode_stored_order}
use aux_ducklake.Rows.DataFile.{DataFileRow, encode_data_file, marked_u64, marked_order}

abbrev pub IsOptionalOrder : Option CatalogOrderId → Type 0
IsOptionalOrder none = Unit
IsOptionalOrder (some o) = IsOrder o

abbrev pub IsOptionalU64 : Option ℕ → Type 0
IsOptionalU64 none = Unit
IsOptionalU64 (some v) = IsU64 v

-- What the types of the fields give, and a key whose length 32 bits hold.
pub record IsDataFileRow (row : DataFileRow) : Type 0 where
  pub data_file_id_bound : IsU64 row.data_file_id
  pub table_id_bound : IsU64 row.table_id
  pub record_count_bound : IsU64 row.record_count
  pub file_size_bound : IsU64 row.file_size_bytes
  pub row_id_bound : IsU64 row.row_id_start
  pub mapping_bound : IsOptionalU64 row.mapping_id
  pub footer_bound : IsOptionalU64 row.footer_size
  pub begin_order_valid : IsOrder row.validity.begin_order
  pub end_order_valid : IsOptionalOrder row.validity.end_order
  pub max_partial_valid : IsOptionalOrder row.max_partial_order
  pub key_bound : length row.encryption_key < 2 ^ 32
  pub key_is_text : is_utf8 row.encryption_key ≡ true
  pub path_is_text : is_utf8 row.path ≡ true

abbrev pub marker {ℓ} : {A : Type ℓ} → Option A → ℕ
marker none = 0
marker (some a) = 1

abbrev pub stored_order : Option CatalogOrderId → CatalogOrderId
stored_order o = Option.get_or o (uuid_v7 0)

marked_u64_lem : (o : Option ℕ) → marked_u64 o ≡ marker o ∷ u64 (Option.get_or o 0)
marked_u64_lem none = refl
marked_u64_lem (some v) = refl

pub marked_order_lem :
    (o : Option CatalogOrderId) → marked_order o ≡ marker o ∷ encode_stored_order (stored_order o)
marked_order_lem none = refl
marked_order_lem (some v) = refl

pub stored_order-IsOrder :
    (o : Option CatalogOrderId) → IsOptionalOrder o → IsOrder (stored_order o)
stored_order-IsOrder none h = uuid_v7-IsOrder 0 (omega arith)
stored_order-IsOrder (some o) h = h

-- Every marker is a field of its own.
abbrev pub fields : DataFileRow → List Bytes
fields row =
    push 8
    ∷ u64 row.data_file_id
    ∷ u64 row.table_id
    ∷ u64 row.record_count
    ∷ u64 row.file_size_bytes
    ∷ u64 row.row_id_start
    ∷ push (if row.row_id_start_known then 1 else 0)
    ∷ push (marker row.mapping_id)
    ∷ u64 (Option.get_or row.mapping_id 0)
    ∷ encode_stored_order row.validity.begin_order
    ∷ push (marker row.validity.end_order)
    ∷ encode_stored_order (stored_order row.validity.end_order)
    ∷ push (marker row.max_partial_order)
    ∷ encode_stored_order (stored_order row.max_partial_order)
    ∷ push (marker row.footer_size)
    ∷ u64 (Option.get_or row.footer_size 0)
    ∷ u32 (length row.encryption_key % 2 ^ 32)
    ∷ row.encryption_key
    ∷ row.path
    ∷ []

pub encode_data_file_lem : (row : DataFileRow) → encode_data_file row ≡ concat (fields row)
unfolding encode_data_file
encode_data_file_lem row = rw (
  marked_u64_lem row.mapping_id,
  marked_order_lem row.validity.end_order,
  marked_order_lem row.max_partial_order,
  marked_u64_lem row.footer_size,
)

abbrev pub sizes : DataFileRow → List ℕ
sizes row =
    1
    ∷ 8
    ∷ 8
    ∷ 8
    ∷ 8
    ∷ 8
    ∷ 1
    ∷ 1
    ∷ 8
    ∷ 17
    ∷ 1
    ∷ 17
    ∷ 1
    ∷ 17
    ∷ 1
    ∷ 8
    ∷ 4
    ∷ length row.encryption_key
    ∷ length row.path
    ∷ []

module _ (row : DataFileRow) (valid : IsDataFileRow row) where
  pub sizes_lem : map length (fields row) ≡ sizes row
  sizes_lem = rw (
    length-to_be_bytes 8 row.data_file_id,
    length-to_be_bytes 8 row.table_id,
    length-to_be_bytes 8 row.record_count,
    length-to_be_bytes 8 row.file_size_bytes,
    length-to_be_bytes 8 row.row_id_start,
    length-to_be_bytes 8 (Option.get_or row.mapping_id 0),
    length-to_be_bytes 8 (Option.get_or row.footer_size 0),
    length-to_be_bytes 4,
    length-encode_stored_order row.validity.begin_order valid.begin_order_valid,
    length-encode_stored_order _
        (stored_order-IsOrder row.validity.end_order valid.end_order_valid),
    length-encode_stored_order _
        (stored_order-IsOrder row.max_partial_order valid.max_partial_valid),
  )

  pub length-fields :
      length (concat (fields row)) ≡ 117 + length row.encryption_key + length row.path
  length-fields = length-concat (fields row) ∙ ap sum sizes_lem ∙ omega arith

  pub field_at :
      (k : ℕ) (x : Bytes) (start end : ℕ)
      → get_elem? (fields row) k ≡ some x
      → sum (take k (sizes row)) ≡ start
      → sum (take (suc k) (sizes row)) ≡ end
      → slice (concat (fields row)) start end ≡ ok x
  field_at k x start end h s e =
      slice_field (fields row) k x start end h (ap (λ l. sum (take k l)) sizes_lem ∙ s)
        (ap (λ l. sum (take (suc k) l)) sizes_lem ∙ e)

  pub marker_at :
      (k b start : ℕ)
      → get_elem? (fields row) k ≡ some (b ∷ [])
      → sum (take k (sizes row)) ≡ start
      → byte_at (concat (fields row)) start ≡ ok b
  marker_at k b start h s =
      byte_field (fields row) k b start h (ap (λ l. sum (take k l)) sizes_lem ∙ s)
