-- ===== src/Conflict/Attempt.antt =====
-- `CommitAttemptRow` and the staging of a commit attempt, of crates/ducklake-catalog/src/conflict.rs.
use aux_ducklake.Base.{ℕ, ◌+◌, Option, none, some, [], ◌∷◌, if◌then◌else◌, ◌==◌, length, first?}
use aux_ducklake.Bytes.{Bytes, to_be_bytes}
use aux_ducklake.Bytes.Slices.{slice}
use aux_ducklake.Error.{
  CatalogResult, ok, err, decode, commit_attempt_order_changed, ok_or, ensure, transpose_map, ◌>>=◌,
  ◌>>◌,
}
use aux_ducklake.Ids.{CatalogId, CommitAttemptId, CatalogOrderId, eq_order}
use aux_ducklake.Keys.{push, concat, family_prefix}
use aux_ducklake.Keys.Family.{KeyFamily}
use aux_ducklake.Kv.{OrderedCatalogKv}
use aux_ducklake.Kv.Batch.{KvBatch, put}
use aux_ducklake.Rows.{read_uint, stored_order_len, encode_stored_order, decode_stored_order}

pub record CommitAttemptRow : Type 0 where
  pub attempt_id : CommitAttemptId
  pub commit_order : CatalogOrderId

pub data CommitAttemptDecision : Type 0 where
  first_commit : CommitAttemptRow → CommitAttemptDecision
  already_committed : CommitAttemptRow → CommitAttemptDecision

-- `CommitAttemptId::LEN`.
abbrev attempt_len : ℕ
attempt_len = 16

unfoldable pub encode_commit_attempt : CommitAttemptRow → Bytes
encode_commit_attempt row =
    concat
      (push 2 ∷ to_be_bytes attempt_len row.attempt_id ∷ encode_stored_order row.commit_order ∷ [])

unfoldable pub decode_commit_attempt : Bytes → CatalogResult CommitAttemptRow
decode_commit_attempt bytes = do
  version ← ok_or (first? bytes) (decode "commit attempt row is too short: 0 bytes")
  ensure (version == 2) (decode "unsupported commit attempt row version")
  let expected_len : ℕ = 1 + attempt_len + stored_order_len
  ensure (length bytes == expected_len) (decode "commit attempt row has wrong length")
  let attempt_start : ℕ = 1
  let order_start : ℕ = attempt_start + attempt_len
  attempt_id ← read_uint bytes attempt_start order_start
  order ← slice bytes order_start (length bytes)
  commit_order ← decode_stored_order order
  ok (record { attempt_id = attempt_id; commit_order = commit_order })

unfoldable pub commit_attempt_key : CatalogId → CommitAttemptId → Bytes
commit_attempt_key catalog attempt_id =
    concat
      (family_prefix catalog KeyFamily.commit_attempt ∷ to_be_bytes attempt_len attempt_id ∷ [])

unfoldable pub load_commit_attempt :
    OrderedCatalogKv → CatalogId → CommitAttemptId → CatalogResult (Option CommitAttemptRow)
load_commit_attempt kv catalog attempt_id =
    kv.get_value (commit_attempt_key catalog attempt_id) >>= λ value.
    transpose_map value decode_commit_attempt

unfoldable pub stage_commit_attempt :
    OrderedCatalogKv
    → KvBatch
    → CatalogId
    → CommitAttemptId
    → CatalogOrderId
    → CatalogResult (CommitAttemptDecision × KvBatch)
stage_commit_attempt kv batch catalog attempt_id commit_order = do
  existing ← load_commit_attempt kv catalog attempt_id
  elim existing [
    | some row ↦
        if eq_order row.commit_order commit_order
        then ok (already_committed row, batch)
        else err (commit_attempt_order_changed attempt_id)
    | none ↦
        let row : CommitAttemptRow = record {
          attempt_id = attempt_id;
          commit_order = commit_order;
        } in
        ok (
          first_commit row,
          put batch (commit_attempt_key catalog attempt_id) (encode_commit_attempt row),
        )
  ]
