-- ===== src/Snapshots/Values.antt =====
-- The rows of a snapshot that a commit leaves, and what is read back from them.
use aux_ducklake.Snapshots.{
  fetch_snapshot_row, latest_snapshot_value, decode_latest_snapshot_value, kind_byte,
  stage_snapshot, snapshot_by_raw_sequence, fetch_latest_snapshot,
}
use aux_ducklake.Base.{
  suc, ℕ, ◌≡◌, refl, true, false, some, List, [], ◌∷◌, ◌++◌, length, leb, ltb, arith, take, ◌&&◌,
  ◌-◌, take_all,
}
use aux_ducklake.Keys.Family.{KeyFamily}
use mathlib.Core.Path.{◌∙◌}
use aux_ducklake.Bytes.{Bytes, ltb_bytes}
use aux_ducklake.Bytes.Order.{ltb_bytes-append_left}
use aux_ducklake.Bytes.Slices.{slice, byte_at}
use aux_ducklake.BTreeMap.{get, same, bytes_ord}
use aux_ducklake.BTreeMap.Lookup.{same_refl}
use aux_ducklake.Error.{ok}
use aux_ducklake.Ids.{CatalogId, CatalogOrderKind}
use aux_ducklake.Ids.CatalogOrder.{from_bytes}
use aux_ducklake.Keys.{family_prefix}
use aux_ducklake.Keys.Metadata.{latest_snapshot_row_key, raw_snapshot_row_key}
use aux_ducklake.Kv.Batch.{KvBatch, put}
use aux_ducklake.Kv.Fake.{FakeOrderedCatalogKv, commit, ordered_kv}
use aux_ducklake.Kv.Commit.{commit_rows, row_after, last_write}
use aux_ducklake.Rows.Snapshot.{SnapshotRow, encode_snapshot, decode_snapshot}
use aux_ducklake.Rows.SnapshotRoundTrip.{IsSnapshotRow, decode_snapshot-encode_snapshot}

decode_bytes :
    (kind : CatalogOrderKind) (body : Bytes) (row : SnapshotRow) (bytes : Bytes)
    → decode_snapshot body ≡ ok (record row { order = from_bytes CatalogOrderKind.uuid_v7 bytes })
    → decode_latest_snapshot_value (1 ∷ kind_byte kind ∷ body)
      ≡ ok (record row { order = from_bytes kind bytes })
unfolding decode_latest_snapshot_value byte_at slice from_bytes
decode_bytes kind body row bytes d =
    let size = suc (suc (length body)) in
    let long : ltb size 2 ≡ false = ground arith in
    let fits : (leb 2 size && leb size size) ≡ true = ground arith in
    let width : size - 2 ≡ length body = omega arith in
    let whole : take (length body) body ≡ body = take_all (length body) body (omega arith) in
    elim kind
      as (λ k.
        decode_latest_snapshot_value (1 ∷ kind_byte k ∷ body)
        ≡ ok (record row { order = from_bytes k bytes })) [
          | CatalogOrderKind.uuid_v7 ↦ rw (long, fits, width, whole, d) refl
          | CatalogOrderKind.fdb_versionstamp ↦ rw (long, fits, width, whole, d) refl
        ]

-- The value of the latest snapshot decodes to the row of the snapshot, the kind of its order
-- included.
pub decode_latest_snapshot_value-latest_snapshot_value :
    (row : SnapshotRow)
    → IsSnapshotRow row
    → decode_latest_snapshot_value (latest_snapshot_value row) ≡ ok row
unfolding latest_snapshot_value from_bytes
decode_latest_snapshot_value-latest_snapshot_value row valid =
    decode_bytes row.order.kind (encode_snapshot row) row row.order.bytes
      (decode_snapshot-encode_snapshot row valid)

last_write-append :
    (k v : Bytes) (writes : List (Bytes × Bytes)) → last_write k (writes ++ (k, v) ∷ []) ≡ some v
last_write-append k v [] = rw (same_refl k) refl
last_write-append k v ((j, w) ∷ writes) = rw (last_write-append k v writes) refl

last_write-append_other :
    (k j v : Bytes) (writes : List (Bytes × Bytes))
    → same k j ≡ false
    → last_write k (writes ++ (j, v) ∷ []) ≡ last_write k writes
last_write-append_other k j v [] n = rw n refl
last_write-append_other k j v ((i, w) ∷ writes) n = rw (last_write-append_other k j v writes n) refl

keys_apart :
    (catalog : CatalogId) (n : ℕ)
    → same (latest_snapshot_row_key catalog) (raw_snapshot_row_key catalog n) ≡ false
unfolding latest_snapshot_row_key raw_snapshot_row_key
keys_apart catalog n =
    rw
      (
        ltb_bytes-append_left (family_prefix catalog KeyFamily.metadata_version) _ _,
        ltb_bytes-append_left (family_prefix catalog KeyFamily.metadata_version) _ _,
      )
      (unfold ltb_bytes in refl)

module _ (kv kv' : FakeOrderedCatalogKv) (catalog : CatalogId) (batch : KvBatch)
    (row : SnapshotRow) where
  raw_committed :
      commit kv (stage_snapshot batch catalog row) ≡ ok kv'
      → get (raw_snapshot_row_key catalog row.sequence) kv'.items ≡ some (latest_snapshot_value row)
  unfolding stage_snapshot put
  raw_committed h =
      commit_rows kv kv' (stage_snapshot batch catalog row)
        (raw_snapshot_row_key catalog row.sequence) h
      ∙ rw (row_after, last_write-append) refl

  latest_committed :
      commit kv (stage_snapshot batch catalog row) ≡ ok kv'
      → get (latest_snapshot_row_key catalog) kv'.items ≡ some (latest_snapshot_value row)
  unfolding stage_snapshot put
  latest_committed h =
      commit_rows kv kv' (stage_snapshot batch catalog row) (latest_snapshot_row_key catalog) h
      ∙ rw
          (
            row_after,
            last_write-append_other (latest_snapshot_row_key catalog)
                (raw_snapshot_row_key catalog row.sequence) _ _ (keys_apart catalog row.sequence),
            last_write-append,
          )
          refl

-- After a batch that ends with the rows of a snapshot was committed, the snapshot is the latest one
-- and is found by its sequence number, the kind of its order included.
pub committed_snapshot :
    (kv kv' : FakeOrderedCatalogKv) (catalog : CatalogId) (batch : KvBatch) (row : SnapshotRow)
    → IsSnapshotRow row
    → commit kv (stage_snapshot batch catalog row) ≡ ok kv'
    → (fetch_latest_snapshot (ordered_kv kv') catalog ≡ ok (some row))
      × (snapshot_by_raw_sequence (ordered_kv kv') catalog row.sequence ≡ ok (some row))
unfolding fetch_latest_snapshot fetch_snapshot_row snapshot_by_raw_sequence
committed_snapshot kv kv' catalog batch row valid h = (
  rw
      (
        latest_committed kv kv' catalog batch row h,
        decode_latest_snapshot_value-latest_snapshot_value row valid,
      )
      refl,
  rw
      (
        raw_committed kv kv' catalog batch row h,
        decode_latest_snapshot_value-latest_snapshot_value row valid,
      )
      refl,
)
