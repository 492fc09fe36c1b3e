-- ===== src/Kv/Batch.antt =====
-- `KvBatch` of crates/ducklake-catalog/src/kv.rs.
use aux_ducklake.Base.{ℕ, ◌==◌, Option, List, [], ◌∷◌, ◌++◌, if◌then◌else◌, max, length}
use aux_ducklake.Bytes.{Bytes, eq_bytes, to_be_bytes, from_be_bytes}
use aux_ducklake.Error.{CatalogResult, ok, err, invalid_key, ◌>>=◌}

pub record KvBatch : Type 0 where
  pub checks : List (Bytes × Option Bytes)
  pub writes : List (Bytes × Bytes)
  pub deletes : List Bytes
  pub fence_writes : List Bytes

abbrev pub new : KvBatch
new = record { checks = []; writes = []; deletes = []; fence_writes = [] }

unfoldable pub check_value : KvBatch → Bytes → Option Bytes → KvBatch
check_value batch key expected = record batch { checks = batch.checks ++ (key, expected) ∷ [] }

unfoldable pub put : KvBatch → Bytes → Bytes → KvBatch
put batch key value = record batch { writes = batch.writes ++ (key, value) ∷ [] }

unfoldable pub delete : KvBatch → Bytes → KvBatch
delete batch key = record batch { deletes = batch.deletes ++ key ∷ [] }

unfoldable pub write_conflict_fence : KvBatch → Bytes → KvBatch
write_conflict_fence batch key = record batch { fence_writes = batch.fence_writes ++ key ∷ [] }

-- The loop of `put_max_u64`: the first staged write of the key is raised, or one is added.
unfoldable pub put_max_writes :
    Bytes → ℕ → List (Bytes × Bytes) → CatalogResult (List (Bytes × Bytes))
put_max_writes key value [] = ok ((key, to_be_bytes 8 value) ∷ [])
put_max_writes key value ((staged_key, staged_value) ∷ writes) =
    let rest = put_max_writes key value writes in
    if eq_bytes staged_key key
    then (if length staged_value == 8
        then ok ((staged_key, to_be_bytes 8 (max (from_be_bytes staged_value) value)) ∷ writes)
        else err (invalid_key "staged max-u64 value is not 8 bytes"))
    else rest >>= λ ws. ok ((staged_key, staged_value) ∷ ws)

unfoldable pub put_max_u64 : KvBatch → Bytes → ℕ → CatalogResult KvBatch
put_max_u64 batch key value = do
  writes ← put_max_writes key value batch.writes
  ok (record batch { writes = writes })
