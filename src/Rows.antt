-- ===== src/Rows.antt =====
-- crates/ducklake-catalog/src/rows.rs: what the rows share, validity windows and stored orders.
-- A `String` is its bytes. `try_into` of a slice of the length its bounds give does not fail.
pub mod Snapshot
pub mod DataFile
pub mod StoredOrder
pub mod DataFileFields
pub mod SnapshotRoundTrip
pub mod Total
pub mod DataFileRoundTrip
use aux_ducklake.Base.{
  ℕ, ◌+◌, Bool, true, ◌&&◌, Option, none, some, [], ◌∷◌, ◌++◌, if◌then◌else◌, ◌==◌, length, drop,
  String,
}
use aux_ducklake.Bytes.{Bytes, from_be_bytes}
use aux_ducklake.Bytes.Slices.{slice, byte_at}
use aux_ducklake.Error.{CatalogResult, ok, err, decode, ensure, ◌>>=◌, ◌>>◌}
use aux_ducklake.Ids.{CatalogOrderKind, CatalogOrderId, order_len, le_order, lt_order}
use aux_ducklake.Ids.CatalogOrder.{from_bytes}

pub record ValidityWindow : Type 0 where
  pub begin_order : CatalogOrderId
  pub end_order : Option CatalogOrderId

unfoldable pub is_visible_at : ValidityWindow → CatalogOrderId → Bool
is_visible_at window snapshot_order =
    le_order window.begin_order snapshot_order
    && elim window.end_order [ none ↦ true | some end_order ↦ lt_order snapshot_order end_order ]

-- `STORED_ORDER_LEN`.
abbrev pub stored_order_len : ℕ
stored_order_len = 1 + order_len

abbrev stored_kind : CatalogOrderKind → ℕ
stored_kind CatalogOrderKind.fdb_versionstamp = 1
stored_kind CatalogOrderKind.uuid_v7 = 2

unfoldable pub encode_stored_order : CatalogOrderId → Bytes
encode_stored_order order = stored_kind order.kind ∷ order.bytes

-- The name of the field, which only the messages hold, is left out.
unfoldable pub decode_stored_order : Bytes → CatalogResult CatalogOrderId
decode_stored_order bytes = do
  ensure (length bytes == stored_order_len) (decode "is truncated")
  code ← byte_at bytes 0
  kind ←
      (if code == 1
        then ok CatalogOrderKind.fdb_versionstamp
        else if code == 2
        then ok CatalogOrderKind.uuid_v7
        else err (decode "unsupported order kind"))
  ok (from_bytes kind (drop 1 bytes))

-- `u64::from_be_bytes(bytes[start..end])`, and the same for other widths.
abbrev pub read_uint : Bytes → ℕ → ℕ → CatalogResult ℕ
read_uint bytes start end = slice bytes start end >>= λ s. ok (from_be_bytes s)
