-- ===== src/Rows/StoredOrder.antt =====
-- Encoding and decoding of stored orders.
use aux_ducklake.Base.{true, suc, ◌≡◌, ◌==◌, length, arith}
use aux_ducklake.Bytes.{Bytes}
use aux_ducklake.Bytes.Slices.{byte_at}
use aux_ducklake.Error.{ok}
use aux_ducklake.Ids.{CatalogOrderKind, CatalogOrderId, IsOrder, order_len}
use aux_ducklake.Ids.CatalogOrder.{from_bytes}
use aux_ducklake.Rows.{encode_stored_order, decode_stored_order}

pub length-encode_stored_order :
    (o : CatalogOrderId) → IsOrder o → length (encode_stored_order o) ≡ 17
unfolding encode_stored_order
length-encode_stored_order o h = omega (arith, h.sized)

decode_fields :
    (kind : CatalogOrderKind) (bytes : Bytes)
    → length bytes ≡ order_len
    → decode_stored_order (encode_stored_order (from_bytes kind bytes)) ≡ ok (from_bytes kind bytes)
unfolding decode_stored_order encode_stored_order byte_at from_bytes
decode_fields kind bytes h =
    let sized : (suc (length bytes) == 17) ≡ true = ground arith in
    elim kind
      as (λ k.
        decode_stored_order (encode_stored_order (from_bytes k bytes)) ≡ ok (from_bytes k bytes)) [
          | CatalogOrderKind.fdb_versionstamp ↦ rw sized
          | CatalogOrderKind.uuid_v7 ↦ rw sized
        ]

-- A stored order decodes to the order it was encoded from, its kind included.
pub decode_stored_order-encode_stored_order :
    (o : CatalogOrderId) → IsOrder o → decode_stored_order (encode_stored_order o) ≡ ok o
unfolding from_bytes
decode_stored_order-encode_stored_order o h = decode_fields o.kind o.bytes h.sized
