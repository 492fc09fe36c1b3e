-- ===== src/Keys/Cleanup.antt =====
-- crates/ducklake-catalog/src/keys.rs: keys of scheduled cleanups.
use aux_ducklake.Base.{ℕ, [], ◌∷◌}
use aux_ducklake.Bytes.{Bytes}
use aux_ducklake.Ids.{CatalogId, DataFileId, DeleteFileId}
use aux_ducklake.Keys.{concat, push, u64, family_prefix}
use aux_ducklake.Keys.Family.{KeyFamily}

unfoldable pub scheduled_cleanup_prefix : CatalogId → ℕ → Bytes
scheduled_cleanup_prefix catalog kind =
    concat (family_prefix catalog KeyFamily.scheduled_cleanup ∷ push kind ∷ push b'/' ∷ [])

unfoldable pub scheduled_cleanup_key : CatalogId → ℕ → ℕ → Bytes
scheduled_cleanup_key catalog kind id = concat (scheduled_cleanup_prefix catalog kind ∷ u64 id ∷ [])

unfoldable pub scheduled_data_file_cleanup_key : CatalogId → DataFileId → Bytes
scheduled_data_file_cleanup_key catalog data_file_id =
    scheduled_cleanup_key catalog b'd' data_file_id

unfoldable pub scheduled_delete_file_cleanup_key : CatalogId → DeleteFileId → Bytes
scheduled_delete_file_cleanup_key catalog delete_file_id =
    scheduled_cleanup_key catalog b'x' delete_file_id

unfoldable pub scheduled_data_file_cleanup_prefix : CatalogId → Bytes
scheduled_data_file_cleanup_prefix catalog = scheduled_cleanup_prefix catalog b'd'

unfoldable pub scheduled_delete_file_cleanup_prefix : CatalogId → Bytes
scheduled_delete_file_cleanup_prefix catalog = scheduled_cleanup_prefix catalog b'x'
