-- ===== src/Snapshots/Expiry.antt =====
-- What the expiry of snapshots removes from a store.
use aux_ducklake.Base.{
  append-nil, ℕ, zero, suc, ◌≡◌, refl, false, none, some, List, [], ◌∷◌, ◌++◌, ◌==◌, filter, All,
  arith, map, append_assoc, Bool-cases, inl, inr,
}
use mathlib.Core.List.{map-append}
use mathlib.Core.Path.{sym, ap, ◌∙◌}
use aux_ducklake.Bytes.{Bytes}
use aux_ducklake.BTreeMap.{get, bytes_ord}
use aux_ducklake.Error.{CatalogResult, ok, err, panic, ◌>>=◌}
use aux_ducklake.Ids.{CatalogId, RawSnapshotSequence}
use aux_ducklake.Keys.Snapshot.{snapshot_timestamp_key}
use aux_ducklake.Kv.{Items}
use aux_ducklake.Kv.Batch.{KvBatch, new, delete}
use aux_ducklake.Kv.Fake.{FakeOrderedCatalogKv, commit, ordered_kv}
use aux_ducklake.Kv.Commit.{commit_rows, row_after, times_listed}
use aux_ducklake.Rows.Snapshot.{SnapshotRow}
use aux_ducklake.Snapshots.{
  stage_delete_snapshot, stage_delete_all, stage_expired, expire_snapshots, fetch_latest_snapshot,
  list_snapshots,
}

abbrev pub timestamp_key : CatalogId → SnapshotRow → Bytes
timestamp_key catalog s = snapshot_timestamp_key catalog s.created_at_micros s.order

-- How many of the snapshots have their row of the timestamp index under a key.
abbrev pub times_indexed : CatalogId → Bytes → List SnapshotRow → ℕ
times_indexed catalog key snapshots = times_listed key (map (timestamp_key catalog) snapshots)

-- Snapshots that are not the latest one.
abbrev pub AreOlder : SnapshotRow → List SnapshotRow → Type 0
AreOlder latest snapshots =
    All (λ (s : SnapshotRow). (s.sequence == latest.sequence) ≡ false) snapshots

pub deletes-stage_delete_all :
    (catalog : CatalogId) (keys : List Bytes) (snapshots : List SnapshotRow)
    → stage_delete_all (record new { deletes = keys }) catalog snapshots
      ≡ record new { deletes = keys ++ map (timestamp_key catalog) snapshots }
unfolding stage_delete_all stage_delete_snapshot delete
deletes-stage_delete_all catalog keys [] =
    ap (λ ks. record new { deletes = ks }) (sym (append-nil keys))
deletes-stage_delete_all catalog keys (s ∷ snapshots) =
    deletes-stage_delete_all catalog (keys ++ timestamp_key catalog s ∷ []) snapshots
    ∙ ap (λ ks. record new { deletes = ks })
        (append_assoc keys (timestamp_key catalog s ∷ []) (map (timestamp_key catalog) snapshots))

AreOlder-filter :
    (latest : SnapshotRow) (n : ℕ) (snapshots : List SnapshotRow)
    → (n == latest.sequence) ≡ false
    → AreOlder latest (filter (λ (s : SnapshotRow). s.sequence == n) snapshots)
AreOlder-filter latest n [] h = tt
AreOlder-filter latest n (s ∷ snapshots) h = elim (Bool-cases (s.sequence == n)) [
  | inl e ↦ rw e (ground arith, AreOlder-filter latest n snapshots h)
  | inr e ↦ rw e (AreOlder-filter latest n snapshots h)
]

AreOlder-append :
    (latest : SnapshotRow) (xs ys : List SnapshotRow)
    → AreOlder latest xs
    → AreOlder latest ys
    → AreOlder latest (xs ++ ys)
AreOlder-append latest [] ys h k = k
AreOlder-append latest (x ∷ xs) ys (h, hs) k = (h, AreOlder-append latest xs ys hs k)

-- A batch that deletes the rows of the expired snapshots and does nothing else.
record Expires (catalog : CatalogId) (latest : SnapshotRow) (batch : KvBatch)
    (expired : List SnapshotRow) : Type 0 where
  older : AreOlder latest expired
  staged : batch ≡ record new { deletes = map (timestamp_key catalog) expired }

-- What is staged, if the loop returns.
abbrev ExpiresIfOk : CatalogId → SnapshotRow → CatalogResult (KvBatch × List SnapshotRow) → Type 0
ExpiresIfOk catalog latest (ok (batch, expired)) = Expires catalog latest batch expired
ExpiresIfOk catalog latest (err e) = Unit
ExpiresIfOk catalog latest panic = Unit

stage_delete_all-Expires :
    (catalog : CatalogId) (latest : SnapshotRow) (n : ℕ) (snapshots expired : List SnapshotRow)
    (batch : KvBatch)
    → (n == latest.sequence) ≡ false
    → Expires catalog latest batch expired
    → Expires catalog latest
        (stage_delete_all batch catalog (filter (λ (s : SnapshotRow). s.sequence == n) snapshots))
        (expired ++ filter (λ (s : SnapshotRow). s.sequence == n) snapshots)
stage_delete_all-Expires catalog latest n snapshots expired batch h x =
    let found = filter (λ (s : SnapshotRow). s.sequence == n) snapshots in
    record {
      older = AreOlder-append latest expired found x.older (AreOlder-filter latest n snapshots h);
      staged =
          ap (λ b. stage_delete_all b catalog found) x.staged
          ∙ deletes-stage_delete_all catalog (map (timestamp_key catalog) expired) found
          ∙ ap (λ ks. record new { deletes = ks })
              (sym (map-append (timestamp_key catalog) expired found));
    }

stage_expired-ExpiresIfOk :
    (catalog : CatalogId) (latest : SnapshotRow) (snapshots : List SnapshotRow)
    (raw_sequences : List RawSnapshotSequence) (batch : KvBatch) (expired : List SnapshotRow)
    → Expires catalog latest batch expired
    → ExpiresIfOk catalog latest
        (stage_expired catalog latest snapshots raw_sequences batch expired)
unfolding stage_expired
stage_expired-ExpiresIfOk catalog latest snapshots [] batch expired x = x
stage_expired-ExpiresIfOk catalog latest snapshots (n ∷ ns) batch expired x =
    elim (Bool-cases (n == latest.sequence)) [
      | inl e ↦ rw e tt
      | inr e ↦ rw e (
          stage_expired-ExpiresIfOk catalog latest snapshots ns _ _
            (stage_delete_all-Expires catalog latest n snapshots expired batch e x))
    ]

-- What is committed, if the expiry returns.
abbrev RemovedIfOk :
    CatalogId
    → SnapshotRow
    → Items
    → Bytes
    → CatalogResult (FakeOrderedCatalogKv × List SnapshotRow)
    → Type 0
RemovedIfOk catalog latest items key (ok (kv', expired)) =
    AreOlder latest expired
    × (get key kv'.items
        ≡ elim (times_indexed catalog key expired) [ zero ↦ get key items | suc _ ↦ none ])
RemovedIfOk catalog latest items key (err e) = Unit
RemovedIfOk catalog latest items key panic = Unit

committed-RemovedIfOk :
    (kv : FakeOrderedCatalogKv) (catalog : CatalogId) (latest : SnapshotRow) (key : Bytes)
    (staged : CatalogResult (KvBatch × List SnapshotRow))
    → ExpiresIfOk catalog latest staged
    → RemovedIfOk catalog latest kv.items key
        (staged >>= λ s. commit kv s.0 >>= λ kv'. ok (kv', s.1))
committed-RemovedIfOk kv catalog latest key (ok (batch, expired)) x = go (commit kv batch) refl
  where
    go :
        (result : CatalogResult FakeOrderedCatalogKv)
        → commit kv batch ≡ result
        → RemovedIfOk catalog latest kv.items key (result >>= λ kv'. ok (kv', expired))
    go (ok kv') h =
        (x.older, commit_rows kv kv' batch key h ∙ ap (λ b. row_after b kv.items key) x.staged)
    go (err e) h = tt
    go panic h = tt
committed-RemovedIfOk kv catalog latest key (err e) x = tt
committed-RemovedIfOk kv catalog latest key panic x = tt

expire_snapshots-RemovedIfOk :
    (kv : FakeOrderedCatalogKv) (catalog : CatalogId) (raw_sequences : List RawSnapshotSequence)
    (latest : SnapshotRow) (key : Bytes)
    → fetch_latest_snapshot (ordered_kv kv) catalog ≡ ok (some latest)
    → RemovedIfOk catalog latest kv.items key (expire_snapshots kv catalog raw_sequences)
unfolding expire_snapshots
expire_snapshots-RemovedIfOk kv catalog [] latest key l = (tt, refl)
expire_snapshots-RemovedIfOk kv catalog (n ∷ ns) latest key l =
    rw l (listed (list_snapshots (ordered_kv kv) catalog))
  where
    listed :
        (snapshots : CatalogResult (List SnapshotRow))
        → RemovedIfOk catalog latest kv.items key (
            snapshots >>= λ found. stage_expired catalog latest found (n ∷ ns) new [] >>= λ s.
            commit kv s.0 >>= λ kv'. ok (kv', s.1))
    listed (ok found) =
        committed-RemovedIfOk kv catalog latest key
          (stage_expired catalog latest found (n ∷ ns) new [])
          (stage_expired-ExpiresIfOk catalog latest found (n ∷ ns) new []
            (record { older = tt; staged = refl }))
    listed (err e) = tt
    listed panic = tt

-- An expiry that returns removes the rows of the timestamp index of the snapshots that it returns
-- and leaves every other row, and the latest snapshot is not among them.
pub expire_snapshots_rows :
    (kv kv' : FakeOrderedCatalogKv) (catalog : CatalogId) (raw_sequences : List RawSnapshotSequence)
    (expired : List SnapshotRow) (latest : SnapshotRow) (key : Bytes)
    → expire_snapshots kv catalog raw_sequences ≡ ok (kv', expired)
    → fetch_latest_snapshot (ordered_kv kv) catalog ≡ ok (some latest)
    → AreOlder latest expired
      × (get key kv'.items
          ≡ elim (times_indexed catalog key expired) [ zero ↦ get key kv.items | suc _ ↦ none ])
expire_snapshots_rows kv kv' catalog raw_sequences expired latest key h l =
    rw h at (expire_snapshots-RemovedIfOk kv catalog raw_sequences latest key l)
