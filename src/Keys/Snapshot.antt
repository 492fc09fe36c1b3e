-- ===== src/Keys/Snapshot.antt =====
-- crates/ducklake-catalog/src/snapshot_keys.rs: keys of snapshots by order and by timestamp.
use aux_ducklake.Base.{◌+◌, false, none, some, [], ◌∷◌, ◌==◌, get_elem?, take, drop, length}
use aux_ducklake.Base.Int.{ℤ, i64_bits, i64_of_bits, flip_top_bit}
use aux_ducklake.Bytes.{Bytes, to_be_bytes, from_be_bytes, strip_prefix}
use aux_ducklake.Ids.{CatalogId, CatalogOrderId, order_len}
use aux_ducklake.Ids.CatalogOrder.{uuid_v7}
use aux_ducklake.Error.{CatalogResult, ok, invalid_key, ok_or, ensure, ◌>>=◌, ◌>>◌}
use aux_ducklake.Keys.{concat, push, family_prefix}
use aux_ducklake.Keys.Family.{KeyFamily}

unfoldable pub snapshot_key : CatalogId → CatalogOrderId → Bytes
snapshot_key catalog order = concat (family_prefix catalog KeyFamily.snapshot ∷ order.bytes ∷ [])

unfoldable pub snapshot_prefix : CatalogId → Bytes
snapshot_prefix catalog = family_prefix catalog KeyFamily.snapshot

unfoldable pub sortable_i64 : ℤ → Bytes
sortable_i64 value = to_be_bytes 8 (flip_top_bit (i64_bits value))

unfoldable pub unsortable_i64 : Bytes → ℤ
unsortable_i64 bytes = i64_of_bits (flip_top_bit (from_be_bytes bytes))

unfoldable pub snapshot_timestamp_prefix : CatalogId → Bytes
snapshot_timestamp_prefix catalog = family_prefix catalog KeyFamily.snapshot_by_timestamp

unfoldable pub snapshot_timestamp_key : CatalogId → ℤ → CatalogOrderId → Bytes
snapshot_timestamp_key catalog created_at_micros order = concat (
    family_prefix catalog KeyFamily.snapshot_by_timestamp
    ∷ sortable_i64 created_at_micros
    ∷ push b'/'
    ∷ order.bytes
    ∷ [])

-- The conversions of slices to arrays cannot fail once the length is checked.
unfoldable pub decode_snapshot_timestamp_key :
    CatalogId → Bytes → CatalogResult (ℤ × CatalogOrderId)
decode_snapshot_timestamp_key catalog key = do
  tail ←
      ok_or (strip_prefix (snapshot_timestamp_prefix catalog) key)
        (invalid_key "snapshot timestamp key has wrong prefix")
  ensure (length tail == 8 + 1 + order_len)
      (invalid_key "snapshot timestamp key tail has wrong length")
  ensure (elim (get_elem? tail 8) [ none ↦ false | some b ↦ b == b'/' ])
      (invalid_key "snapshot timestamp key is missing separator")
  ok (unsortable_i64 (take 8 tail), uuid_v7 (from_be_bytes (drop 9 tail)))
