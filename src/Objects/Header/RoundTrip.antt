-- ===== src/Objects/Header/RoundTrip.antt =====
-- The header read back from the front of a row.
use aux_ducklake.Base.{
  append-nil, ℕ, suc, ◌+◌, ◌≤◌, ◌≡◌, refl, true, Option, none, some, List, [], ◌∷◌, ◌++◌, map,
  length, take, get_elem?, first?, leb, ◌==◌, arith, append_assoc,
}
use mathlib.Core.Path.{sym, ap, ◌∙◌}
use aux_ducklake.Bytes.{Bytes, IsU64}
use aux_ducklake.Bytes.BigEndian.{length-to_be_bytes, from_be_bytes-to_be_bytes}
use aux_ducklake.Bytes.Slices.{slice, byte_at}
use aux_ducklake.Bytes.Fields.{sum, slice_field, byte_field, length-concat}
use aux_ducklake.Error.{CatalogError, ok, ◌>>=◌}
use aux_ducklake.Ids.{CatalogOrderId, IsOrder}
use aux_ducklake.Keys.{push, concat, u64}
use aux_ducklake.Rows.{encode_stored_order, decode_stored_order}
use aux_ducklake.Rows.StoredOrder.{
  length-encode_stored_order, decode_stored_order-encode_stored_order,
}
use aux_ducklake.Rows.DataFile.{by_marker}
use aux_ducklake.Rows.DataFileFields.{
  IsOptionalOrder, marker, stored_order, stored_order-IsOrder, marked_order_lem,
}
use aux_ducklake.Objects.Header.{
  ObjectHeader, HeaderMessages, encode_header, decode_header, header_len,
}

pub record IsObjectHeader (header : ObjectHeader) : Type 0 where
  pub object_id_bound : IsU64 header.object_id
  pub schema_id_bound : IsU64 header.schema_id
  pub begin_order_valid : IsOrder header.validity.begin_order
  pub end_order_valid : IsOptionalOrder header.validity.end_order

abbrev fields : ℕ → ObjectHeader → Bytes → List Bytes
fields version header rest =
    push version
    ∷ u64 header.object_id
    ∷ u64 header.schema_id
    ∷ encode_stored_order header.validity.begin_order
    ∷ push (marker header.validity.end_order)
    ∷ encode_stored_order (stored_order header.validity.end_order)
    ∷ rest
    ∷ []

fields_lem :
    (version : ℕ) (header : ObjectHeader) (rest : Bytes)
    → encode_header version header ++ rest ≡ concat (fields version header rest)
unfolding encode_header
fields_lem version header rest =
    rw (marked_order_lem header.validity.end_order, append_assoc, append_assoc, append_assoc) refl

module _ (version : ℕ) (header : ObjectHeader) (rest : Bytes) (valid : IsObjectHeader header) where
  sizes_lem : map length (fields version header rest) ≡ 1 ∷ 8 ∷ 8 ∷ 17 ∷ 1 ∷ 17 ∷ length rest ∷ []
  sizes_lem =
      rw
        (
          length-to_be_bytes 8 header.object_id,
          length-to_be_bytes 8 header.schema_id,
          length-encode_stored_order header.validity.begin_order valid.begin_order_valid,
          length-encode_stored_order _
              (stored_order-IsOrder header.validity.end_order valid.end_order_valid),
        )
        refl

  length-fields : length (concat (fields version header rest)) ≡ header_len + length rest
  length-fields = length-concat (fields version header rest) ∙ ap sum sizes_lem ∙ omega arith

  field_at :
      (k : ℕ) (x : Bytes) (start end : ℕ)
      → get_elem? (fields version header rest) k ≡ some x
      → sum (take k (1 ∷ 8 ∷ 8 ∷ 17 ∷ 1 ∷ 17 ∷ length rest ∷ [])) ≡ start
      → sum (take (suc k) (1 ∷ 8 ∷ 8 ∷ 17 ∷ 1 ∷ 17 ∷ length rest ∷ [])) ≡ end
      → slice (concat (fields version header rest)) start end ≡ ok x
  field_at k x start end h s e =
      slice_field (fields version header rest) k x start end h
        (ap (λ l. sum (take k l)) sizes_lem ∙ s) (ap (λ l. sum (take (suc k) l)) sizes_lem ∙ e)

marked_order_read :
    (bytes : Bytes) (o : Option CatalogOrderId) (start end : ℕ) (error : CatalogError)
    → IsOptionalOrder o
    → slice bytes start end ≡ ok (encode_stored_order (stored_order o))
    → by_marker
        (marker o)
        (ok none)
        (slice bytes start end >>= λ s. decode_stored_order s >>= λ order. ok (some order))
        error
      ≡ ok o
marked_order_read bytes none start end error h s = refl
marked_order_read bytes (some o) start end error h s =
    rw (s, decode_stored_order-encode_stored_order o h) refl

decode_held :
    (messages : HeaderMessages) (version : ℕ) (header : ObjectHeader) (bytes : Bytes)
    → IsObjectHeader header
    → first? bytes ≡ some version
    → header_len ≤ length bytes
    → slice bytes 1 9 ≡ ok (u64 header.object_id)
    → slice bytes 9 17 ≡ ok (u64 header.schema_id)
    → slice bytes 17 34 ≡ ok (encode_stored_order header.validity.begin_order)
    → byte_at bytes 34 ≡ ok (marker header.validity.end_order)
    → slice bytes 35 52 ≡ ok (encode_stored_order (stored_order header.validity.end_order))
    → decode_header messages version bytes ≡ ok header
unfolding decode_header
decode_held messages version header bytes valid f l a b c m d =
    let version_held : (version == version) ≡ true = ground arith in
    let long : leb header_len (length bytes) ≡ true = ground arith in
    rw
      (
        f,
        version_held,
        long,
        a,
        b,
        from_be_bytes-to_be_bytes 8 header.object_id valid.object_id_bound,
        from_be_bytes-to_be_bytes 8 header.schema_id valid.schema_id_bound,
        c,
        decode_stored_order-encode_stored_order header.validity.begin_order valid.begin_order_valid,
        m,
        marked_order_read bytes header.validity.end_order 35 52 _ valid.end_order_valid d,
      )
      refl

pub decode_header-encode_header :
    (messages : HeaderMessages) (version : ℕ) (header : ObjectHeader) (rest : Bytes)
    → IsObjectHeader header
    → decode_header messages version (encode_header version header ++ rest) ≡ ok header
decode_header-encode_header messages version header rest valid =
    let at = field_at version header rest valid in
    rw (fields_lem version header rest) (
      decode_held messages version header (concat (fields version header rest)) valid refl
        (omega (arith, length-fields version header rest valid))
        (at 1 (u64 header.object_id) 1 9 refl refl refl)
        (at 2 (u64 header.schema_id) 9 17 refl refl refl) (at 3 _ 17 34 refl refl refl)
        (byte_field (fields version header rest) 4 _ 34 refl
          (ap (λ l. sum (take 4 l)) (sizes_lem version header rest valid)))
        (at 5 _ 35 52 refl refl refl))

pub length-encode_header :
    (version : ℕ) (header : ObjectHeader)
    → IsObjectHeader header
    → length (encode_header version header) ≡ header_len
length-encode_header version header valid =
    ap length (sym (append-nil (encode_header version header)) ∙ fields_lem version header [])
    ∙ length-fields version header [] valid
