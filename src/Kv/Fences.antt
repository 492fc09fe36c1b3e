-- ===== src/Kv/Fences.antt =====
-- Conflict fences of `FakeOrderedCatalogKv`, and the commits that check them.
use mathlib.Core.Option
use aux_ducklake.Base.{
  ℕ, ◌+◌, ◌≤◌, ◌<◌, ◌≡◌, refl, false, Option, none, some, List, [], ◌∷◌, ◌++◌, if◌then◌else◌, min,
  arith, Bool-cases, inl, inr,
}
use aux_ducklake.Bytes.{Bytes, eq_bytes, to_be_bytes}
use aux_ducklake.Bytes.BigEndian.{to_be_bytes_injective}
use aux_ducklake.Bytes.Order.{eq_bytes→eq}
use aux_ducklake.BTreeMap.{bytes_ord, same, get}
use aux_ducklake.BTreeMap.Lookup.{get-insert, same_refl, same→eq}
use aux_ducklake.Ids.{u64_max}
use aux_ducklake.Error.{ok, err, conflict_fence_changed}
use aux_ducklake.Kv.Batch.{KvBatch}
use aux_ducklake.Kv.Commit.{times_listed}
use aux_ducklake.Kv.Fake.{
  FakeOrderedCatalogKv, commit, failed_check, write_fences, write_conflict_fence,
  read_conflict_fence, eq_value, insert_all, remove_all,
}

-- The version of a fence.
abbrev pub version : FakeOrderedCatalogKv → Bytes → ℕ
version kv k = Option.get_or (get k kv.fence_versions) 0

version-write_conflict_fence :
    (k j : Bytes) (kv : FakeOrderedCatalogKv)
    → version (write_conflict_fence kv j) k
      ≡ (if same k j then min (version kv k + 1) u64_max else version kv k)
unfolding write_conflict_fence
version-write_conflict_fence k j kv = elim (Bool-cases (same k j)) [
  | inl e ↦ rw (get-insert k j _ kv.fence_versions, e) (rw (← (same→eq k j e)) refl)
  | inr n ↦ rw (get-insert k j _ kv.fence_versions, n)
]

version-write_fences :
    (k : Bytes) (keys : List Bytes) (kv : FakeOrderedCatalogKv)
    → version kv k ≤ u64_max
    → version (write_fences keys kv) k ≡ min (version kv k + times_listed k keys) u64_max
unfolding write_fences
version-write_fences k [] kv h = omega arith
version-write_fences k (j ∷ keys) kv h = ground (
  arith,
  version-write_conflict_fence k j kv,
  version-write_fences k keys (write_conflict_fence kv j),
)

shown_changed :
    (old fresh : Option ℕ)
    → Option.get_or old 0 < Option.get_or fresh 0
    → Option.get_or fresh 0 ≤ u64_max
    → eq_value (Option.map (to_be_bytes 8) fresh) (Option.map (to_be_bytes 8) old) ≡ false
shown_changed old none lt le = absurd (omega arith)
shown_changed none (some a) lt le = refl
shown_changed (some b) (some a) lt le =
    elim (Bool-cases (eq_bytes (to_be_bytes 8 a) (to_be_bytes 8 b))) [
      | inl e ↦ absurd (
          omega
            (arith, to_be_bytes_injective 8 a b (omega arith) (omega arith) (eq_bytes→eq _ _ e)))
      | inr n ↦ n
    ]

-- What a fence shows decides its version.
fence-changed :
    (kv kv' : FakeOrderedCatalogKv) (k : Bytes)
    → version kv k < version kv' k
    → version kv' k ≤ u64_max
    → eq_value (read_conflict_fence kv' k) (read_conflict_fence kv k) ≡ false
unfolding read_conflict_fence
fence-changed kv kv' k lt le =
    shown_changed (get k kv.fence_versions) (get k kv'.fence_versions) lt le

times_listed-pos : (k : Bytes) (front back : List Bytes) → 0 < times_listed k (front ++ (k ∷ back))
times_listed-pos k [] back = rw (same_refl k) (omega arith)
times_listed-pos k (j ∷ front) back = omega (arith, times_listed-pos k front back)

failed_check_of_changed :
    (kv : FakeOrderedCatalogKv) (k : Bytes) (expected : Option Bytes)
    (front back : List (Bytes × Option Bytes))
    → eq_value (read_conflict_fence kv k) expected ≡ false
    → (f : Bytes) × (failed_check kv (front ++ ((k, expected) ∷ back)) ≡ some f)
unfolding failed_check
failed_check_of_changed kv k expected [] back h = (k, rw h)
failed_check_of_changed kv k expected ((j, w) ∷ front) back h =
    let (f, e) = failed_check_of_changed kv k expected front back h in
    elim (Bool-cases (eq_value (read_conflict_fence kv j) w)) [
      | inl same_value ↦ (f, rw same_value e)
      | inr differs ↦ (j, rw differs)
    ]

version_after_commit :
    (kv kv' : FakeOrderedCatalogKv) (batch : KvBatch) (k : Bytes)
    → commit kv batch ≡ ok kv'
    → version kv k ≤ u64_max
    → version kv' k ≡ min (version kv k + times_listed k batch.fence_writes) u64_max
unfolding commit
version_after_commit kv kv' batch k h v = ground (
  arith,
  version-write_fences k batch.fence_writes
      (record kv { items = insert_all batch.writes (remove_all batch.deletes kv.items) }),
)

commit_refused :
    (kv : FakeOrderedCatalogKv) (batch : KvBatch) (f : Bytes)
    → failed_check kv batch.checks ≡ some f
    → commit kv batch ≡ err (conflict_fence_changed f)
unfolding commit
commit_refused kv batch f e = ground arith

-- Optimistic concurrency. Two batches were staged against the same store, the second one with a
-- check that the fence `k` still shows what it showed there, and the first one writes that fence.
-- Once the first is committed, the commit of the second is refused, as long as the counter of the
-- fence is not exhausted.
pub stale_commit_refused :
    (kv kv' : FakeOrderedCatalogKv) (first second : KvBatch) (k : Bytes)
    (fences_front fences_back : List Bytes) (checks_front checks_back : List (Bytes × Option Bytes))
    → commit kv first ≡ ok kv'
    → first.fence_writes ≡ fences_front ++ (k ∷ fences_back)
    → second.checks ≡ checks_front ++ ((k, read_conflict_fence kv k) ∷ checks_back)
    → version kv k < u64_max
    → (f : Bytes) × (commit kv' second ≡ err (conflict_fence_changed f))
stale_commit_refused kv kv' first second k ff fb cf cb h w c v =
    let grown = version_after_commit kv kv' first k h (omega arith) in
    let listed = rw (← w) at (times_listed-pos k ff fb) in
    let changed = fence-changed kv kv' k (omega arith) (omega arith) in
    let (f, e) = failed_check_of_changed kv' k (read_conflict_fence kv k) cf cb changed in
    (f, commit_refused kv' second f (rw c e))
