-- ===== src/Ids.antt =====
-- crates/ducklake-catalog/src/ids.rs: identifiers, sequence numbers and catalog orders.
-- A newtype over an unsigned integer is its number; a range is a hypothesis where it matters.
pub mod CatalogOrder
use aux_ducklake.Base.{ℕ, ◌+◌, ◌^◌, ◌-◌, ◌≡◌, Bool, false, true, ◌&&◌, min, length}
use aux_ducklake.Bytes.{Bytes, AreBytes, ltb_bytes, leb_bytes, eq_bytes}

abbrev pub CatalogId : Type 0
CatalogId = ℕ

abbrev pub CommitAttemptId : Type 0
CommitAttemptId = ℕ

abbrev pub RawSnapshotSequence : Type 0
RawSnapshotSequence = ℕ

abbrev pub DuckLakeSnapshotId : Type 0
DuckLakeSnapshotId = ℕ

abbrev pub TableId : Type 0
TableId = ℕ

abbrev pub MacroId : Type 0
MacroId = ℕ

abbrev pub SchemaId : Type 0
SchemaId = ℕ

abbrev pub DataFileId : Type 0
DataFileId = ℕ

abbrev pub DeleteFileId : Type 0
DeleteFileId = ℕ

abbrev pub ColumnId : Type 0
ColumnId = ℕ

abbrev pub PartitionKeyIndex : Type 0
PartitionKeyIndex = ℕ

abbrev pub u64_max : ℕ
u64_max = 2 ^ 64 - 1

-- `saturating_add` on `u64`.
abbrev pub saturating_add : ℕ → ℕ → ℕ
saturating_add a b = min (a + b) u64_max

-- `RawSnapshotSequence::next`.
unfoldable pub next_sequence : RawSnapshotSequence → RawSnapshotSequence
next_sequence s = saturating_add s 1

pub data CatalogOrderKind : Type 0 where
  fdb_versionstamp uuid_v7 : CatalogOrderKind

pub record CatalogOrderId : Type 0 where
  pub kind : CatalogOrderKind
  pub bytes : Bytes

-- `CatalogOrderId::LEN`.
abbrev pub order_len : ℕ
order_len = 16

-- What the type `[u8; 16]` of the field gives.
pub record IsOrder (o : CatalogOrderId) : Type 0 where
  pub sized : length o.bytes ≡ order_len
  pub are_bytes : AreBytes o.bytes

-- `Ord` compares the bytes alone.
unfoldable pub lt_order : CatalogOrderId → CatalogOrderId → Bool
lt_order a b = ltb_bytes a.bytes b.bytes

unfoldable pub le_order : CatalogOrderId → CatalogOrderId → Bool
le_order a b = leb_bytes a.bytes b.bytes

unfoldable pub eq_kind : CatalogOrderKind → CatalogOrderKind → Bool
eq_kind fdb_versionstamp fdb_versionstamp = true
eq_kind uuid_v7 uuid_v7 = true
eq_kind _ _ = false

-- The derived `PartialEq` compares the kind too.
unfoldable pub eq_order : CatalogOrderId → CatalogOrderId → Bool
unfolding eq_kind
eq_order a b = eq_kind a.kind b.kind && eq_bytes a.bytes b.bytes
