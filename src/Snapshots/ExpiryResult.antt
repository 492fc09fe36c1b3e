-- ===== src/Snapshots/ExpiryResult.antt =====
-- The result of the expiry of snapshots, by the numbers asked for and the snapshots that are listed.
use aux_ducklake.Base.{
  ◌≡◌, refl, Bool, true, false, some, List, [], ◌∷◌, ◌++◌, if◌then◌else◌, ◌==◌, filter, map,
  append_assoc, Bool-cases, inl, inr, append-nil,
}
use mathlib.Core.List.{map-append}
use mathlib.Core.Path.{sym, ap, ◌∙◌}
use aux_ducklake.Error.{CatalogResult, ok, err, invalid_mutation}
use aux_ducklake.Ids.{CatalogId, RawSnapshotSequence}
use aux_ducklake.Kv.Batch.{KvBatch, new}
use aux_ducklake.Kv.Fake.{
  FakeOrderedCatalogKv, commit, ordered_kv, remove_all, insert_all, failed_check, write_fences,
}
use aux_ducklake.Rows.Snapshot.{SnapshotRow}
use aux_ducklake.Snapshots.{
  stage_expired, stage_delete_all, expire_snapshots, fetch_latest_snapshot, list_snapshots,
}
use aux_ducklake.Snapshots.Expiry.{timestamp_key, deletes-stage_delete_all}

-- Whether the latest snapshot is among those asked for.
abbrev pub names_latest : SnapshotRow → List RawSnapshotSequence → Bool
names_latest latest [] = false
names_latest latest (n ∷ ns) = if n == latest.sequence then true else names_latest latest ns

-- The snapshots of the numbers asked for, number by number.
abbrev pub named : List RawSnapshotSequence → List SnapshotRow → List SnapshotRow
named [] snapshots = []
named (n ∷ ns) snapshots =
    filter (λ (s : SnapshotRow). s.sequence == n) snapshots ++ named ns snapshots

-- The batch that removes the rows of the timestamp index of some snapshots.
abbrev removal : CatalogId → List SnapshotRow → KvBatch
removal catalog expired = record new { deletes = map (timestamp_key catalog) expired }

stage_delete_all-removal :
    (catalog : CatalogId) (expired found : List SnapshotRow)
    → stage_delete_all (removal catalog expired) catalog found ≡ removal catalog (expired ++ found)
stage_delete_all-removal catalog expired found =
    deletes-stage_delete_all catalog (map (timestamp_key catalog) expired) found
    ∙ ap (λ ks. record new { deletes = ks })
        (sym (map-append (timestamp_key catalog) expired found))

abbrev staged : CatalogId → List SnapshotRow → CatalogResult (KvBatch × List SnapshotRow)
staged catalog expired = ok (removal catalog expired, expired)

stage_expired_lem :
    (catalog : CatalogId) (latest : SnapshotRow) (snapshots expired : List SnapshotRow)
    (ns : List RawSnapshotSequence)
    → stage_expired catalog latest snapshots ns (removal catalog expired) expired ≡ (
        if names_latest latest ns
        then err (invalid_mutation "cannot expire latest snapshot")
        else staged catalog (expired ++ named ns snapshots))
unfolding stage_expired
stage_expired_lem catalog latest snapshots expired [] =
    ap (staged catalog) (sym (append-nil expired))
stage_expired_lem catalog latest snapshots expired (n ∷ ns) =
    let found = filter (λ (s : SnapshotRow). s.sequence == n) snapshots in
    elim (Bool-cases (n == latest.sequence)) [
      | inl e ↦ rw e refl
      | inr e ↦
          rw
            (
              e,
              stage_delete_all-removal catalog expired found,
              stage_expired_lem catalog latest snapshots (expired ++ found) ns,
              append_assoc expired found (named ns snapshots),
            )
            refl
    ]

commit-removal :
    (kv : FakeOrderedCatalogKv) (catalog : CatalogId) (expired : List SnapshotRow)
    → commit kv (removal catalog expired)
      ≡ ok (record kv { items = remove_all (map (timestamp_key catalog) expired) kv.items })
unfolding commit failed_check insert_all write_fences
commit-removal kv catalog expired = refl

-- Where the latest snapshot and the list of the snapshots can be read, an expiry is refused if it
-- asks for the latest snapshot; otherwise it removes from the store the rows of the timestamp index
-- of the listed snapshots with the numbers asked for, and returns these snapshots.
pub expire_snapshots_lem :
    (kv : FakeOrderedCatalogKv) (catalog : CatalogId) (ns : List RawSnapshotSequence)
    (latest : SnapshotRow) (snapshots : List SnapshotRow)
    → fetch_latest_snapshot (ordered_kv kv) catalog ≡ ok (some latest)
    → list_snapshots (ordered_kv kv) catalog ≡ ok snapshots
    → expire_snapshots kv catalog ns ≡ (
        if names_latest latest ns
        then err (invalid_mutation "cannot expire latest snapshot")
        else ok (
          record kv {
            items = remove_all (map (timestamp_key catalog) (named ns snapshots)) kv.items;
          },
          named ns snapshots,
        ))
unfolding expire_snapshots remove_all
expire_snapshots_lem kv catalog [] latest snapshots l s = refl
expire_snapshots_lem kv catalog (n ∷ ns) latest snapshots l s =
    rw (l, s, stage_expired_lem catalog latest snapshots [] (n ∷ ns))
      (elim (Bool-cases (names_latest latest (n ∷ ns))) [
        | inl e ↦ rw e refl
        | inr e ↦ rw (e, commit-removal kv catalog (named (n ∷ ns) snapshots)) refl
      ])
