-- ===== src/Keys/Timestamps.antt =====
-- Timestamp keys of snapshots: their decoding and their order.
use aux_ducklake.Base.{
  ◌≡◌, refl, sym, ap, ◌∙◌, true, false, [], ◌∷◌, if◌then◌else◌, get_elem?-append_length,
  drop-append_suc, length, length-append, take-append,
}
use aux_ducklake.Base.Int.{
  ℤ, ltb_ℤ, IsI64, i64_bits, i64_bits-lt, i64_of_bits-i64_bits, flip_top_bit-lt,
  flip_top_bit_involutive, ltb-flip_top_bit,
}
use aux_ducklake.Bytes.{from_be_bytes, ltb_bytes}
use aux_ducklake.Bytes.BigEndian.{
  length-to_be_bytes, from_be_bytes-to_be_bytes, ltb_bytes-to_be_bytes, to_be_bytes-from_be_bytes,
}
use aux_ducklake.Bytes.Order.{ltb_bytes-append_by_order, ltb_bytes-append_left}
use aux_ducklake.Bytes.Prefix.{strip_prefix-append}
use aux_ducklake.Ids.{CatalogId, CatalogOrderKind, CatalogOrderId, IsOrder, lt_order}
use aux_ducklake.Ids.CatalogOrder.{uuid_v7}
use aux_ducklake.Error.{ok}
use aux_ducklake.Keys.Snapshot.{
  sortable_i64, unsortable_i64, snapshot_timestamp_prefix, snapshot_timestamp_key,
  decode_snapshot_timestamp_key,
}

pub unsortable_i64-sortable_i64 : (v : ℤ) → IsI64 v → unsortable_i64 (sortable_i64 v) ≡ v
unfolding sortable_i64 unsortable_i64
unsortable_i64-sortable_i64 v h =
    rw
      (
        from_be_bytes-to_be_bytes 8 _ (flip_top_bit-lt (i64_bits v)),
        flip_top_bit_involutive _ (i64_bits-lt v h),
      )
      (i64_of_bits-i64_bits v h)

ltb_bytes-sortable_i64 :
    (t u : ℤ) → IsI64 t → IsI64 u → ltb_bytes (sortable_i64 t) (sortable_i64 u) ≡ ltb_ℤ t u
unfolding sortable_i64
ltb_bytes-sortable_i64 t u ht hu =
    ltb_bytes-to_be_bytes 8 _ _ (flip_top_bit-lt (i64_bits t)) (flip_top_bit-lt (i64_bits u))
    ∙ ltb-flip_top_bit t u ht hu

length-sortable_i64 : (t : ℤ) → length (sortable_i64 t) ≡ 8
unfolding sortable_i64
length-sortable_i64 t = length-to_be_bytes 8 _

-- Timestamp keys of one catalog sort by the timestamp, negative ones first, and at one timestamp
-- by the catalog order.
pub ltb_bytes-snapshot_timestamp_key :
    (catalog : CatalogId) (t u : ℤ) (o p : CatalogOrderId)
    → IsI64 t
    → IsI64 u
    → ltb_bytes (snapshot_timestamp_key catalog t o) (snapshot_timestamp_key catalog u p)
      ≡ (if ltb_ℤ t u then true else if ltb_ℤ u t then false else lt_order o p)
unfolding snapshot_timestamp_key lt_order
ltb_bytes-snapshot_timestamp_key catalog t u o p ht hu =
    ltb_bytes-append_left _ _ _
    ∙ ltb_bytes-append_by_order (sortable_i64 t) (sortable_i64 u) _ _
        (length-sortable_i64 t ∙ sym (length-sortable_i64 u))
    ∙ rw
        (
          ltb_bytes-sortable_i64 t u ht hu,
          ltb_bytes-sortable_i64 u t hu ht,
          ltb_bytes-append_left (b'/' ∷ []) o.bytes p.bytes,
        )
        refl

uuid_v7-from_be_bytes :
    (o : CatalogOrderId)
    → IsOrder o
    → uuid_v7 (from_be_bytes o.bytes) ≡ record o { kind = CatalogOrderKind.uuid_v7 }
unfolding uuid_v7
uuid_v7-from_be_bytes o h =
    ap (λ b. record { kind = CatalogOrderKind.uuid_v7; bytes = b })
      (rw h.sized at (to_be_bytes-from_be_bytes o.bytes h.are_bytes))

-- A timestamp key is read back with its timestamp and the bytes of its order; the kind of the
-- order becomes the kind of version 7 UUIDs, whatever it was.
pub decode_snapshot_timestamp_key-snapshot_timestamp_key :
    (catalog : CatalogId) (t : ℤ) (o : CatalogOrderId)
    → IsI64 t
    → IsOrder o
    → decode_snapshot_timestamp_key catalog (snapshot_timestamp_key catalog t o)
      ≡ ok (t, record o { kind = CatalogOrderKind.uuid_v7 })
unfolding decode_snapshot_timestamp_key snapshot_timestamp_key snapshot_timestamp_prefix
decode_snapshot_timestamp_key-snapshot_timestamp_key catalog t o ht ho =
    let sized = length-sortable_i64 t in
    rw (
      strip_prefix-append,
      length-append (sortable_i64 t) (b'/' ∷ o.bytes),
      sized,
      ho.sized,
      get_elem?-append_length 8 (sortable_i64 t) b'/' o.bytes sized,
      take-append 8 (sortable_i64 t) (b'/' ∷ o.bytes) sized,
      drop-append_suc 8 (sortable_i64 t) b'/' o.bytes sized,
      unsortable_i64-sortable_i64 t ht,
      uuid_v7-from_be_bytes o ho,
    )
