-- ===== src/Keys/Stats.antt =====
-- crates/ducklake-catalog/src/keys.rs: keys of column statistics and partition values.
use aux_ducklake.Base.{◌%◌, ◌^◌, [], ◌∷◌, length}
use aux_ducklake.Bytes.{Bytes}
use aux_ducklake.Ids.{CatalogId, TableId, DataFileId, ColumnId, PartitionKeyIndex}
use aux_ducklake.Keys.{concat, push, u64, u32, family_prefix}
use aux_ducklake.Keys.Family.{KeyFamily}

unfoldable pub file_column_stats_data_file_prefix : CatalogId → DataFileId → Bytes
file_column_stats_data_file_prefix catalog data_file_id =
    concat (family_prefix catalog KeyFamily.file_column_stats ∷ u64 data_file_id ∷ [])

unfoldable pub file_column_stats_key : CatalogId → DataFileId → ColumnId → Bytes
file_column_stats_key catalog data_file_id column_id =
    concat
      (file_column_stats_data_file_prefix catalog data_file_id ∷ push b'/' ∷ u64 column_id ∷ [])

unfoldable pub file_column_stats_lookup_prefix : CatalogId → TableId → ColumnId → Bytes
file_column_stats_lookup_prefix catalog table_id column_id = concat (
    family_prefix catalog KeyFamily.file_column_stats_lookup
    ∷ u64 table_id
    ∷ push b'/'
    ∷ u64 column_id
    ∷ push b'/'
    ∷ [])

unfoldable pub file_column_stats_lookup_key : CatalogId → TableId → ColumnId → DataFileId → Bytes
file_column_stats_lookup_key catalog table_id column_id data_file_id =
    concat (file_column_stats_lookup_prefix catalog table_id column_id ∷ u64 data_file_id ∷ [])

unfoldable pub file_partition_value_prefix : CatalogId → DataFileId → Bytes
file_partition_value_prefix catalog data_file_id =
    concat
      (family_prefix catalog KeyFamily.file_partition_value ∷ u64 data_file_id ∷ push b'/' ∷ [])

unfoldable pub file_partition_value_key : CatalogId → DataFileId → PartitionKeyIndex → Bytes
file_partition_value_key catalog data_file_id partition_key_index =
    concat (file_partition_value_prefix catalog data_file_id ∷ u32 partition_key_index ∷ [])

unfoldable pub partition_value_lookup_prefix :
    CatalogId → TableId → PartitionKeyIndex → Bytes → Bytes
partition_value_lookup_prefix catalog table_id partition_key_index partition_value = concat (
    family_prefix catalog KeyFamily.partition_value_lookup
    ∷ u64 table_id
    ∷ push b'/'
    ∷ u32 partition_key_index
    ∷ push b'/'
    ∷ u32 (length partition_value % 2 ^ 32)
    ∷ partition_value
    ∷ push b'/'
    ∷ [])

unfoldable pub partition_value_lookup_key :
    CatalogId → TableId → PartitionKeyIndex → Bytes → DataFileId → Bytes
partition_value_lookup_key catalog table_id partition_key_index partition_value data_file_id =
    concat (
      partition_value_lookup_prefix catalog table_id partition_key_index partition_value
      ∷ u64 data_file_id
      ∷ [])
