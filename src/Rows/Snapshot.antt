-- ===== src/Rows/Snapshot.antt =====
-- `SnapshotRow` of crates/ducklake-catalog/src/rows.rs. The clock that `SnapshotRow::new` reads is
-- an argument.
use aux_ducklake.Base.{
  ◌^◌, ◌%◌, ℕ, ◌+◌, ◌||◌, Option, none, some, [], ◌∷◌, if◌then◌else◌, ◌==◌, leb, length,
}
use mathlib.Core.Option
use aux_ducklake.Base.Int.{ℤ, i64_bits, i64_of_bits}
use aux_ducklake.Bytes.{Bytes}
use aux_ducklake.Bytes.Slices.{slice, byte_at, from_utf8}
use aux_ducklake.Error.{CatalogResult, ok, err, decode, ensure, ◌>>=◌, ◌>>◌}
use aux_ducklake.Ids.{CatalogOrderId, RawSnapshotSequence, order_len}
use aux_ducklake.Ids.CatalogOrder.{uuid_v7}
use aux_ducklake.Keys.{push, concat, u32, u64, codes}
use aux_ducklake.Rows.{read_uint}

pub record SnapshotRow : Type 0 where
  pub order : CatalogOrderId
  pub sequence : RawSnapshotSequence
  pub created_at_micros : ℤ
  pub created_by : Bytes
  pub commit_message : Option Bytes
  pub commit_extra_info : Option Bytes

pub record SnapshotCommitMetadata : Type 0 where
  pub author : Option Bytes
  pub commit_message : Option Bytes
  pub commit_extra_info : Option Bytes

abbrev pub default_author : Bytes
default_author = codes "aux-ducklake"

unfoldable pub with_created_at_micros : CatalogOrderId → RawSnapshotSequence → ℤ → SnapshotRow
with_created_at_micros order sequence created_at_micros = record {
  order = order;
  sequence = sequence;
  created_at_micros = created_at_micros;
  created_by = default_author;
  commit_message = none;
  commit_extra_info = none;
}

unfoldable pub with_optional_commit_metadata :
    SnapshotRow → Option SnapshotCommitMetadata → SnapshotRow
with_optional_commit_metadata row none = row
with_optional_commit_metadata row (some metadata) = record {
  order = row.order;
  sequence = row.sequence;
  created_at_micros = row.created_at_micros;
  created_by = Option.get_or metadata.author row.created_by;
  commit_message = metadata.commit_message;
  commit_extra_info = metadata.commit_extra_info;
}

-- The length is cut to 32 bits.
unfoldable pub encode_optional_snapshot_string : Option Bytes → Bytes
encode_optional_snapshot_string none = concat (push 0 ∷ u32 0 ∷ [])
encode_optional_snapshot_string (some value) =
    concat (push 1 ∷ u32 (length value % 2 ^ 32) ∷ value ∷ [])

-- The name of the field, which only the messages hold, is left out.
unfoldable pub decode_optional_snapshot_string : Bytes → ℕ → CatalogResult (Option Bytes × ℕ)
decode_optional_snapshot_string bytes offset = do
  ensure (leb (offset + 5) (length bytes)) (decode "is truncated")
  present ← byte_at bytes offset
  let len_start : ℕ = offset + 1
  let value_start : ℕ = len_start + 4
  len ← read_uint bytes len_start value_start
  let value_end : ℕ = value_start + len
  ensure (leb value_end (length bytes)) (decode "bytes are truncated")
  value ←
      (if present == 0
        then (if len == 0 then ok none else err (decode "absent marker has nonzero length"))
        else if present == 1
        then (slice bytes value_start value_end >>= λ text.
            from_utf8 text "is not utf8" >>= λ v. ok (some v))
        else err (decode "has unsupported marker"))
  ok (value, value_end)

unfoldable pub encode_snapshot : SnapshotRow → Bytes
encode_snapshot row = concat (
    push 3
    ∷ row.order.bytes
    ∷ u64 row.sequence
    ∷ u64 (i64_bits row.created_at_micros)
    ∷ encode_optional_snapshot_string (some row.created_by)
    ∷ encode_optional_snapshot_string row.commit_message
    ∷ encode_optional_snapshot_string row.commit_extra_info
    ∷ [])

-- The texts of version 2, and those of version 3.
unfoldable pub decode_snapshot_texts :
    Bytes → ℕ → ℕ → CatalogResult (Bytes × Option Bytes × Option Bytes)
decode_snapshot_texts bytes version created_by_start =
    if version == 2
    then (do
      tail ← slice bytes created_by_start (length bytes)
      text ← from_utf8 tail "created_by is not utf8"
      ok (text, none, none))
    else (do
      (created_by, offset1) ← decode_optional_snapshot_string bytes created_by_start
      (commit_message, offset2) ← decode_optional_snapshot_string bytes offset1
      (commit_extra_info, offset3) ← decode_optional_snapshot_string bytes offset2
      ensure (offset3 == length bytes) (decode "snapshot row has trailing bytes")
      ok (Option.get_or created_by default_author, commit_message, commit_extra_info))

unfoldable pub decode_snapshot : Bytes → CatalogResult SnapshotRow
decode_snapshot bytes = do
  ensure (leb (1 + order_len + 8) (length bytes)) (decode "snapshot row is too short")
  version ← byte_at bytes 0
  ensure (version == 2 || version == 3) (decode "unsupported snapshot row version")
  let order_start : ℕ = 1
  let sequence_start : ℕ = order_start + order_len
  let timestamp_start : ℕ = sequence_start + 8
  let created_by_start : ℕ = timestamp_start + 8
  ensure (leb created_by_start (length bytes)) (decode "snapshot row is too short")
  order ← read_uint bytes order_start sequence_start
  sequence ← read_uint bytes sequence_start timestamp_start
  created_at ← read_uint bytes timestamp_start created_by_start
  (created_by, commit_message, commit_extra_info) ←
      decode_snapshot_texts bytes version created_by_start
  ok (record {
    order = uuid_v7 order;
    sequence = sequence;
    created_at_micros = i64_of_bits created_at;
    created_by = created_by;
    commit_message = commit_message;
    commit_extra_info = commit_extra_info;
  })
