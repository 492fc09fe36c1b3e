-- ===== src/Kv/Commit.antt =====
-- What a commit of `FakeOrderedCatalogKv` does to the rows and to the conflict fences.
use aux_ducklake.Base.{
  ℕ, zero, suc, ◌+◌, ◌≡◌, refl, ap, ◌∙◌, Option, none, some, List, [], ◌∷◌, if◌then◌else◌, arith,
  Option-cases, inl, inr,
}
use aux_ducklake.Bytes.{Bytes}
use aux_ducklake.BTreeMap.{bytes_ord, same, get, IsSorted}
use aux_ducklake.BTreeMap.Lookup.{get-insert, get-remove}
use aux_ducklake.BTreeMap.Sorted.{insert-IsSorted, remove-IsSorted}
use aux_ducklake.Error.{ok}
use aux_ducklake.Kv.{Items}
use aux_ducklake.Kv.Batch.{KvBatch}
use aux_ducklake.Kv.Fake.{
  FakeOrderedCatalogKv, commit, failed_check, remove_all, insert_all, write_fences,
  write_conflict_fence,
}

-- The value of the last staged write of a key.
abbrev pub last_write : Bytes → List (Bytes × Bytes) → Option Bytes
last_write k [] = none
last_write k ((j, v) ∷ writes) = elim (last_write k writes) [
  | some w ↦ some w
  | none ↦ if same k j then some v else none
]

-- How often a key is listed.
abbrev pub times_listed : Bytes → List Bytes → ℕ
times_listed k [] = 0
times_listed k (j ∷ ks) = (if same k j then 1 else 0) + times_listed k ks

-- The row that a batch leaves under a key: its last staged write, else nothing if a delete is
-- staged, else the row that was there.
abbrev pub row_after : KvBatch → Items → Bytes → Option Bytes
row_after batch items k = elim (last_write k batch.writes) [
  | some v ↦ some v
  | none ↦ elim (times_listed k batch.deletes) [ zero ↦ get k items | suc _ ↦ none ]
]

get-insert_all :
    (k : Bytes) (writes : List (Bytes × Bytes)) (m : Items)
    → get k (insert_all writes m) ≡ elim (last_write k writes) [ some v ↦ some v | none ↦ get k m ]
unfolding insert_all
get-insert_all k [] m = refl
get-insert_all k ((j, v) ∷ writes) m =
    get-insert_all k writes _ ∙ ground (arith, get-insert k j v m)

get-remove_all :
    (k : Bytes) (keys : List Bytes) (m : Items)
    → get k (remove_all keys m) ≡ elim (times_listed k keys) [ zero ↦ get k m | suc _ ↦ none ]
unfolding remove_all
get-remove_all k [] m = refl
get-remove_all k (j ∷ keys) m = get-remove_all k keys _ ∙ ground (arith, get-remove k j m)

items-write_fences :
    (keys : List Bytes) (kv : FakeOrderedCatalogKv) → (write_fences keys kv).items ≡ kv.items
unfolding write_fences write_conflict_fence
items-write_fences [] kv = refl
items-write_fences (k ∷ keys) kv = items-write_fences keys (write_conflict_fence kv k)

committed_items :
    (kv : FakeOrderedCatalogKv) {kv' : FakeOrderedCatalogKv} (batch : KvBatch)
    → commit kv batch ≡ ok kv'
    → failed_check kv batch.checks ≡ none
    → kv'.items ≡ insert_all batch.writes (remove_all batch.deletes kv.items)
unfolding commit
committed_items kv batch h n = ground (
  arith,
  items-write_fences batch.fence_writes
      (record kv { items = insert_all batch.writes (remove_all batch.deletes kv.items) }),
)

failed_commit :
    (kv : FakeOrderedCatalogKv) {kv' : FakeOrderedCatalogKv} (batch : KvBatch) {f : Bytes}
    → commit kv batch ≡ ok kv'
    → failed_check kv batch.checks ≡ some f
    → ⊥
unfolding commit
failed_commit kv batch h e = ground arith

-- After a commit that succeeds, every key has the row that the batch leaves there: deletes apply
-- before writes, and of several writes the last one stands.
pub commit_rows :
    (kv kv' : FakeOrderedCatalogKv) (batch : KvBatch) (k : Bytes)
    → commit kv batch ≡ ok kv'
    → get k kv'.items ≡ row_after batch kv.items k
commit_rows kv kv' batch k h = elim (Option-cases (failed_check kv batch.checks)) [
  | inl n ↦
      ap (λ (i : Items). get k i) (committed_items kv batch h n)
      ∙ get-insert_all k batch.writes _
      ∙ ground (arith, get-remove_all k batch.deletes kv.items)
  | inr (f, e) ↦ absurd (failed_commit kv batch h e)
]

insert_all-IsSorted :
    (writes : List (Bytes × Bytes)) (m : Items) → IsSorted m → IsSorted (insert_all writes m)
unfolding insert_all
insert_all-IsSorted [] m h = h
insert_all-IsSorted ((k, v) ∷ writes) m h = insert_all-IsSorted writes _ (insert-IsSorted k v m h)

remove_all-IsSorted : (keys : List Bytes) (m : Items) → IsSorted m → IsSorted (remove_all keys m)
unfolding remove_all
remove_all-IsSorted [] m h = h
remove_all-IsSorted (k ∷ keys) m h = remove_all-IsSorted keys _ (remove-IsSorted k m h)

-- A commit keeps the rows in the order of their keys.
pub commit-IsSorted :
    (kv kv' : FakeOrderedCatalogKv) (batch : KvBatch)
    → commit kv batch ≡ ok kv'
    → IsSorted kv.items
    → IsSorted kv'.items
commit-IsSorted kv kv' batch h s = elim (Option-cases (failed_check kv batch.checks)) [
  | inl n ↦
      rw (committed_items kv batch h n)
        (insert_all-IsSorted batch.writes _ (remove_all-IsSorted batch.deletes _ s))
  | inr (f, e) ↦ absurd (failed_commit kv batch h e)
]
