-- ===== src/Tests/Stores.antt =====
-- Commits, fences, scans and the history of schema versions on small stores.
use aux_ducklake.Ids.{u64_max, CatalogOrderId, IsOrder, eq_order}
use aux_ducklake.Kv.Fences.{version, stale_commit_refused}
use aux_ducklake.Bytes.{ltb_bytes, Bytes}
use aux_ducklake.BTreeMap.{insert, remove, bytes_ord, get}
use aux_ducklake.Kv.Fake.{
  failed_check, remove_all, insert_all, write_fences, write_conflict_fence, FakeOrderedCatalogKv,
  empty, commit, ordered_kv, read_conflict_fence,
}
use aux_ducklake.Conflict.Attempt.{
  CommitAttemptRow, first_commit, already_committed, stage_commit_attempt, load_commit_attempt,
  commit_attempt_key, encode_commit_attempt,
}
use aux_ducklake.Conflict.Idempotency.{stage_commit_attempt_again}
use aux_ducklake.Ids.CatalogOrder.{uuid_v7, uuid_v7-IsOrder}
use aux_ducklake.Error.{commit_attempt_order_changed, ok, err, conflict_fence_changed}
use aux_ducklake.Base.{◌<◌, true, if◌then◌else◌, arith, ◌≡◌, refl, none, [], ◌∷◌}
use aux_ducklake.Kv.Batch.{KvBatch, new, put}
use aux_ducklake.Kv.Commit.{commit_rows, row_after}

-- A batch that overwrites a row, deletes another one and writes a fence.
abbrev batch : KvBatch
batch = record {
  checks = [];
  writes = ((1 ∷ [], 7 ∷ []) ∷ (2 ∷ [], 8 ∷ []) ∷ (1 ∷ [], 9 ∷ []) ∷ []);
  deletes = (3 ∷ []) ∷ [];
  fence_writes = (5 ∷ []) ∷ [];
}

abbrev store : FakeOrderedCatalogKv
store = record { items = (3 ∷ [], 1 ∷ []) ∷ []; fence_versions = []; next_order = 0 }

abbrev committed : FakeOrderedCatalogKv
committed = record {
  items = (1 ∷ [], 9 ∷ []) ∷ (2 ∷ [], 8 ∷ []) ∷ [];
  fence_versions = (5 ∷ [], 1) ∷ [];
  next_order = 0;
}

commits : commit store batch ≡ ok committed
unfolding commit failed_check remove_all insert_all write_fences write_conflict_fence get insert
    remove ltb_bytes
commits = refl

commit_rows_example : get (3 ∷ []) committed.items ≡ row_after batch store.items (3 ∷ [])
commit_rows_example = commit_rows store committed batch (3 ∷ []) commits

-- A batch staged against the same store that relies on the fence.
abbrev stale : KvBatch
stale = record {
  checks = (5 ∷ [], none) ∷ [];
  writes = (4 ∷ [], 4 ∷ []) ∷ [];
  deletes = [];
  fence_writes = [];
}

fence_unwritten : stale.checks ≡ (5 ∷ [], read_conflict_fence store (5 ∷ [])) ∷ []
unfolding read_conflict_fence get
fence_unwritten = refl

fence_version : version store (5 ∷ []) < u64_max
unfolding get
fence_version = omega arith

first_below_second : ltb_bytes (1 ∷ []) (2 ∷ []) ≡ true
unfolding ltb_bytes
first_below_second = refl

stale_commit_refused_example :
    (f : Bytes) × (commit committed stale ≡ err (conflict_fence_changed f))
stale_commit_refused_example =
    stale_commit_refused store committed batch stale (5 ∷ []) [] [] [] [] commits refl
      fence_unwritten fence_version

-- An attempt of the order 7 in an empty store.
abbrev order : CatalogOrderId
order = uuid_v7 7

order-IsOrder : IsOrder order
order-IsOrder = uuid_v7-IsOrder 7 (omega arith)

abbrev attempt : CommitAttemptRow
attempt = record { attempt_id = 42; commit_order = order }

abbrev staged : KvBatch
staged = record {
  checks = [];
  writes = (commit_attempt_key 1 42, encode_commit_attempt attempt) ∷ [];
  deletes = [];
  fence_writes = [];
}

abbrev attempted : FakeOrderedCatalogKv
attempted = record {
  items = (commit_attempt_key 1 42, encode_commit_attempt attempt) ∷ [];
  fence_versions = [];
  next_order = 0;
}

stages : stage_commit_attempt (ordered_kv empty) new 1 42 order ≡ ok (first_commit attempt, staged)
unfolding stage_commit_attempt load_commit_attempt get put
stages = refl

stages_commit : commit empty staged ≡ ok attempted
unfolding commit failed_check remove_all insert_all write_fences insert
stages_commit = refl

stage_commit_attempt_again_example :
    stage_commit_attempt (ordered_kv attempted) new 1 42 (uuid_v7 8) ≡ (
      if eq_order order (uuid_v7 8)
      then ok (already_committed attempt, new)
      else err (commit_attempt_order_changed 42))
stage_commit_attempt_again_example =
    stage_commit_attempt_again empty attempted new staged new 1 42 order (uuid_v7 8) attempt
      (omega arith) order-IsOrder stages stages_commit
