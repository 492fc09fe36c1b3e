-- ===== src/Tests/Watermarks.antt =====
-- A watermark of 7 in the store, one of 9 that is staged, and a lower candidate.
use aux_ducklake.Base.{arith, ◌≡◌, refl, some, [], ◌∷◌}
use aux_ducklake.Bytes.{eq_bytes, Bytes, ltb_bytes, to_be_bytes, from_be_bytes}
use aux_ducklake.BTreeMap.{insert, bytes_ord, get}
use aux_ducklake.Kv.Fake.{
  commit, failed_check, remove_all, insert_all, write_fences, FakeOrderedCatalogKv, ordered_kv,
}
use aux_ducklake.Error.{ok}
use aux_ducklake.Kv.Batch.{KvBatch, new, put_max_u64, put_max_writes}
use aux_ducklake.Conflict.Watermarks.{stage_max_u64, load_u64, decode_u64}
use aux_ducklake.Conflict.Monotone.{stage_max_u64_lem, times_written}

abbrev mark : Bytes
mark = 1 ∷ []

abbrev store : FakeOrderedCatalogKv
store = record { items = (mark, to_be_bytes 8 7) ∷ []; fence_versions = []; next_order = 0 }

-- The batch had staged 9 for the key, and another row.
abbrev before : KvBatch
before = record new { writes = (mark, to_be_bytes 8 9) ∷ (2 ∷ [], 3 ∷ []) ∷ [] }

abbrev after_commit : FakeOrderedCatalogKv
after_commit = record store { items = (mark, to_be_bytes 8 9) ∷ (2 ∷ [], 3 ∷ []) ∷ [] }

loads : load_u64 (ordered_kv store) mark ≡ ok (some 7)
unfolding load_u64 decode_u64 get ltb_bytes to_be_bytes from_be_bytes
loads = refl

stages : stage_max_u64 (ordered_kv store) before mark 5 ≡ ok before
unfolding stage_max_u64 load_u64 decode_u64 get ltb_bytes to_be_bytes from_be_bytes put_max_u64
    put_max_writes eq_bytes
stages = refl

commits : commit store before ≡ ok after_commit
unfolding commit failed_check remove_all insert_all write_fences insert ltb_bytes
commits = refl

stage_max_u64_lem_example :
    (get mark after_commit.items ≡ some (to_be_bytes 8 9))
    × (get (2 ∷ []) after_commit.items ≡ some (3 ∷ []))
    × (times_written mark before.writes ≡ 1)
unfolding ltb_bytes to_be_bytes from_be_bytes
stage_max_u64_lem_example =
    stage_max_u64_lem store after_commit before before mark (2 ∷ []) 5 (some 7) loads (omega arith)
      stages commits refl
