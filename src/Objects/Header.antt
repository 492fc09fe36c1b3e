-- ===== src/Objects/Header.antt =====
-- The fixed part at the front of the rows of tables, views and macros: the version, two identifiers
-- and the window of validity. The three decoders repeat it with messages of their own.
pub mod RoundTrip
use aux_ducklake.Base.{
  ℕ, ◌+◌, Bool, true, false, Option, none, some, [], ◌∷◌, if◌then◌else◌, ◌==◌, leb, length, first?,
  String,
}
use aux_ducklake.Bytes.{Bytes}
use aux_ducklake.Bytes.Slices.{slice, byte_at}
use aux_ducklake.Error.{CatalogError, CatalogResult, ok, err, decode, ensure, ok_or, ◌>>=◌, ◌>>◌}
use aux_ducklake.Ids.{CatalogOrderId}
use aux_ducklake.Ids.CatalogOrder.{uuid_v7}
use aux_ducklake.Keys.{push, concat, u64}
use aux_ducklake.Rows.{
  ValidityWindow, read_uint, encode_stored_order, decode_stored_order, stored_order_len,
}
use aux_ducklake.Rows.DataFile.{marked_order, by_marker}

pub record ObjectHeader : Type 0 where
  pub object_id : ℕ
  pub schema_id : ℕ
  pub validity : ValidityWindow

pub record HeaderMessages : Type 0 where
  pub unsupported : String
  pub too_short : String
  pub end_marker : String

unfoldable pub encode_header : ℕ → ObjectHeader → Bytes
encode_header version header = concat (
    push version
    ∷ u64 header.object_id
    ∷ u64 header.schema_id
    ∷ encode_stored_order header.validity.begin_order
    ∷ marked_order header.validity.end_order
    ∷ [])

-- Where the header ends.
abbrev pub header_len : ℕ
header_len = 1 + 8 + 8 + stored_order_len + 1 + stored_order_len

unfoldable pub decode_header : HeaderMessages → ℕ → Bytes → CatalogResult ObjectHeader
decode_header messages version bytes = do
  found ← ok_or (first? bytes) (decode messages.too_short)
  ensure (found == version) (decode messages.unsupported)
  ensure (leb header_len (length bytes)) (decode messages.too_short)
  let object_start : ℕ = 1
  let schema_start : ℕ = object_start + 8
  let begin_start : ℕ = schema_start + 8
  let end_present_index : ℕ = begin_start + stored_order_len
  let end_start : ℕ = end_present_index + 1
  let offset : ℕ = end_start + stored_order_len
  object_id ← read_uint bytes object_start schema_start
  schema_id ← read_uint bytes schema_start begin_start
  begin_bytes ← slice bytes begin_start end_present_index
  begin_order ← decode_stored_order begin_bytes
  marker ← byte_at bytes end_present_index
  end_order ←
      by_marker marker (ok none)
        (slice bytes end_start offset >>= λ s. decode_stored_order s >>= λ order. ok (some order))
        (decode messages.end_marker)
  ok (record {
    object_id = object_id;
    schema_id = schema_id;
    validity = record { begin_order = begin_order; end_order = end_order };
  })
