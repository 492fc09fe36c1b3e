-- ===== src/Ids/CatalogOrder.antt =====
-- The constructors of `CatalogOrderId` in crates/ducklake-catalog/src/ids.rs.
use aux_ducklake.Base.{ℕ, ◌^◌, ◌<◌, ◌≡◌, [], ◌∷◌, ◌++◌, ltb}
use aux_ducklake.Bytes.{Bytes, to_be_bytes}
use aux_ducklake.Bytes.BigEndian.{length-to_be_bytes, to_be_bytes-AreBytes, ltb_bytes-to_be_bytes}
use aux_ducklake.Ids.{CatalogOrderKind, CatalogOrderId, IsOrder, lt_order}

unfoldable pub from_bytes : CatalogOrderKind → Bytes → CatalogOrderId
from_bytes kind bytes = record { kind = kind; bytes = bytes }

unfoldable pub uuid_v7 : ℕ → CatalogOrderId
uuid_v7 value = record { kind = CatalogOrderKind.uuid_v7; bytes = to_be_bytes 16 value }

-- The ten bytes of a versionstamp, a two-byte suffix, and four zeros.
unfoldable pub fdb_versionstamp : Bytes → ℕ → CatalogOrderId
fdb_versionstamp versionstamp user_suffix = record {
  kind = CatalogOrderKind.fdb_versionstamp;
  bytes = versionstamp ++ (to_be_bytes 2 user_suffix ++ (0 ∷ 0 ∷ 0 ∷ 0 ∷ []));
}

pub uuid_v7-IsOrder : (v : ℕ) → v < 2 ^ 128 → IsOrder (uuid_v7 v)
unfolding uuid_v7
uuid_v7-IsOrder v h = record {
  sized = length-to_be_bytes 16 v;
  are_bytes = to_be_bytes-AreBytes 16 v h;
}

pub lt_order-uuid_v7 :
    (a b : ℕ) → a < 2 ^ 128 → b < 2 ^ 128 → lt_order (uuid_v7 a) (uuid_v7 b) ≡ ltb a b
unfolding uuid_v7 lt_order
lt_order-uuid_v7 a b ha hb = ltb_bytes-to_be_bytes 16 a b ha hb
