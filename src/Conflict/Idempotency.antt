-- ===== src/Conflict/Idempotency.antt =====
-- A commit attempt that is staged, committed and staged again.
use aux_ducklake.Kv.{OrderedCatalogKv}
use aux_ducklake.Kv.Batch.{KvBatch, put}
use aux_ducklake.Kv.Fake.{FakeOrderedCatalogKv, ordered_kv, commit}
use aux_ducklake.Kv.Commit.{commit_rows, row_after, last_write}
use aux_ducklake.BTreeMap.{bytes_ord, get}
use aux_ducklake.BTreeMap.Lookup.{same_refl}
use aux_ducklake.Ids.{CatalogId, eq_order, CommitAttemptId, CatalogOrderId, IsOrder}
use aux_ducklake.Error.{err, commit_attempt_order_changed, >>=-eq-ok, ok}
use aux_ducklake.Base.{
  ◌++◌, some, sym, ap, ◌∙◌, if◌then◌else◌, List, ℕ, ◌^◌, ◌<◌, ◌≡◌, refl, [], ◌∷◌, length, arith,
}
use aux_ducklake.Conflict.Attempt.{
  first_commit, already_committed, commit_attempt_key, load_commit_attempt, stage_commit_attempt,
  CommitAttemptRow, encode_commit_attempt, decode_commit_attempt,
}
use aux_ducklake.Bytes.Fields.{slice_field, length-concat}
use aux_ducklake.Bytes.{Bytes, to_be_bytes, from_be_bytes}
use aux_ducklake.Bytes.BigEndian.{length-to_be_bytes, from_be_bytes-to_be_bytes}
use aux_ducklake.Bytes.Slices.{slice}
use aux_ducklake.Keys.{push, concat}
use aux_ducklake.Rows.{encode_stored_order, decode_stored_order}
use aux_ducklake.Rows.StoredOrder.{
  length-encode_stored_order, decode_stored_order-encode_stored_order,
}

decode_fields :
    (id order : Bytes) (v : ℕ) (o : CatalogOrderId)
    → length id ≡ 16
    → length order ≡ 17
    → from_be_bytes id ≡ v
    → decode_stored_order order ≡ ok o
    → decode_commit_attempt (concat (push 2 ∷ id ∷ order ∷ []))
      ≡ ok (record { attempt_id = v; commit_order = o })
unfolding decode_commit_attempt
decode_fields id order v o hi ho read_id read_order =
    let fields : List Bytes = push 2 ∷ id ∷ order ∷ [] in
    let total : length (concat fields) ≡ 34 = rw (length-concat fields) (omega arith) in
    let id_slice : slice (concat fields) 1 17 ≡ ok id =
      slice_field fields 1 id 1 17 refl (omega arith) (omega arith) in
    let order_slice : slice (concat fields) 17 34 ≡ ok order =
      slice_field fields 2 order 17 34 refl (omega arith) (omega arith) in
    rw (total, id_slice, order_slice, read_order, read_id)

-- A commit-attempt row decodes to the row it was encoded from.
pub decode_commit_attempt-encode_commit_attempt :
    (row : CommitAttemptRow)
    → row.attempt_id < 2 ^ 128
    → IsOrder row.commit_order
    → decode_commit_attempt (encode_commit_attempt row) ≡ ok row
unfolding encode_commit_attempt
decode_commit_attempt-encode_commit_attempt row a o =
    decode_fields (to_be_bytes 16 row.attempt_id) (encode_stored_order row.commit_order)
      row.attempt_id row.commit_order (length-to_be_bytes 16 row.attempt_id)
      (length-encode_stored_order row.commit_order o)
      (from_be_bytes-to_be_bytes 16 row.attempt_id a)
      (decode_stored_order-encode_stored_order row.commit_order o)

abbrev attempt : CommitAttemptId → CatalogOrderId → CommitAttemptRow
attempt id order = record { attempt_id = id; commit_order = order }

-- A first commit is staged where no attempt is stored, and its row is what the batch writes last.
first_commit_staged :
    (kv : OrderedCatalogKv) (batch batch' : KvBatch) (catalog : CatalogId) (id : CommitAttemptId)
    (order : CatalogOrderId) (row : CommitAttemptRow)
    → stage_commit_attempt kv batch catalog id order ≡ ok (first_commit row, batch')
    → (row ≡ attempt id order)
      × (batch'
          ≡ put batch (commit_attempt_key catalog id) (encode_commit_attempt (attempt id order)))
unfolding stage_commit_attempt
first_commit_staged kv batch batch' catalog id order row h =
    let (existing, e, f) = >>=-eq-ok (load_commit_attempt kv catalog id) _ h in ground arith

last_write-put :
    (k v : Bytes) (writes : List (Bytes × Bytes)) → last_write k (writes ++ ((k, v) ∷ [])) ≡ some v
last_write-put k v [] = rw (same_refl k)
last_write-put k v ((j, w) ∷ writes) = rw (row_after, last_write-put k v writes)

-- The row that a commit of a first attempt leaves.
attempt_stored :
    (kv kv' : FakeOrderedCatalogKv) (batch : KvBatch) (catalog : CatalogId) (id : CommitAttemptId)
    (order : CatalogOrderId)
    → id < 2 ^ 128
    → IsOrder order
    → commit kv
        (put batch (commit_attempt_key catalog id) (encode_commit_attempt (attempt id order)))
      ≡ ok kv'
    → load_commit_attempt (ordered_kv kv') catalog id ≡ ok (some (attempt id order))
unfolding load_commit_attempt put
attempt_stored kv kv' batch catalog id order hi ho h =
    let k = commit_attempt_key catalog id in
    let stored : get k kv'.items ≡ some (encode_commit_attempt (attempt id order)) =
      commit_rows kv kv' _ k h
      ∙ rw (row_after, last_write-put k (encode_commit_attempt (attempt id order)) batch.writes) in
    rw (stored, decode_commit_attempt-encode_commit_attempt (attempt id order) hi ho)

-- An attempt staged as a first commit and committed is found by every later staging of the same
-- attempt: with the order it was committed with it is already committed and the batch stays as it
-- is, and with another order it is refused.
pub stage_commit_attempt_again :
    (kv kv' : FakeOrderedCatalogKv) (batch batch' later : KvBatch) (catalog : CatalogId)
    (id : CommitAttemptId) (order order' : CatalogOrderId) (row : CommitAttemptRow)
    → id < 2 ^ 128
    → IsOrder order
    → stage_commit_attempt (ordered_kv kv) batch catalog id order ≡ ok (first_commit row, batch')
    → commit kv batch' ≡ ok kv'
    → stage_commit_attempt (ordered_kv kv') later catalog id order' ≡ (
        if eq_order order order'
        then ok (already_committed row, later)
        else err (commit_attempt_order_changed id))
unfolding stage_commit_attempt
stage_commit_attempt_again kv kv' batch batch' later catalog id order order' row hi ho h c =
    let (r, b) = first_commit_staged (ordered_kv kv) batch batch' catalog id order row h in
    let found = attempt_stored kv kv' batch catalog id order hi ho (ap (commit kv) (sym b) ∙ c) in
    rw (found, r)
