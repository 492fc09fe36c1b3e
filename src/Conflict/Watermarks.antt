-- ===== src/Conflict/Watermarks.antt =====
-- crates/ducklake-catalog/src/conflict_watermarks.rs: the marks that new identifiers stay above.
-- What the request's read set holds for the keys is an argument, `cached`.
use mathlib.Core.Option
use aux_ducklake.Base.{
  ℕ, false, Option, none, some, List, [], ◌∷◌, if◌then◌else◌, ◌==◌, length, max,
}
use aux_ducklake.Bytes.{Bytes, eq_bytes, from_be_bytes}
use aux_ducklake.Error.{
  CatalogResult, ok, err, backend, invalid_key, ensure, transpose_map, collect_map, ◌>>=◌, ◌>>◌,
}
use aux_ducklake.Ids.{CatalogId, TableId}
use aux_ducklake.Keys.{u64}
use aux_ducklake.Keys.Metadata.{
  conflict_watermarks_initialized_key, conflict_max_catalog_id_key, conflict_max_file_id_key,
  current_schema_version_key, table_next_row_id_key,
}
use aux_ducklake.Kv.{OrderedCatalogKv}
use aux_ducklake.Kv.Batch.{KvBatch, put, put_max_u64}
use aux_ducklake.SchemaVersion.{decode_schema_version}

pub record ConflictWatermarkValues : Type 0 where
  pub max_catalog_id : Option ℕ
  pub max_file_id : Option ℕ

unfoldable pub stage_conflict_watermarks_initialized : KvBatch → CatalogId → KvBatch
stage_conflict_watermarks_initialized batch catalog =
    let b1 = put batch (conflict_watermarks_initialized_key catalog) (1 ∷ []) in
    put b1 (conflict_max_catalog_id_key catalog) (u64 0)

unfoldable pub decode_u64 : Bytes → CatalogResult ℕ
decode_u64 value =
    if length value == 8
    then ok (from_be_bytes value)
    else err (invalid_key "invalid u64 watermark value")

unfoldable pub load_u64 : OrderedCatalogKv → Bytes → CatalogResult (Option ℕ)
load_u64 kv key = kv.get_value key >>= λ value. transpose_map value decode_u64

unfoldable pub load_max_catalog_id_watermark :
    OrderedCatalogKv → CatalogId → CatalogResult (Option ℕ)
load_max_catalog_id_watermark kv catalog = load_u64 kv (conflict_max_catalog_id_key catalog)

unfoldable pub load_max_file_id_watermark : OrderedCatalogKv → CatalogId → CatalogResult (Option ℕ)
load_max_file_id_watermark kv catalog = load_u64 kv (conflict_max_file_id_key catalog)

unfoldable pub conflict_watermark_keys : CatalogId → List Bytes
conflict_watermark_keys catalog =
    conflict_watermarks_initialized_key catalog
    ∷ conflict_max_catalog_id_key catalog
    ∷ conflict_max_file_id_key catalog
    ∷ []

-- The values of a batched read must be as many as its keys.
unfoldable pub fetch_conflict_values :
    Option (List (Option Bytes))
    → OrderedCatalogKv
    → List Bytes
    → CatalogResult (List (Option Bytes))
fetch_conflict_values cached kv keys = do
  values ← elim cached [ some found ↦ ok found | none ↦ collect_map kv.get_value keys ]
  ensure (length values == length keys)
      (backend "conflict watermark batch returned wrong number of values")
  ok values

unfoldable pub validate_initialized_marker : Option Bytes → CatalogResult (Unit {0})
validate_initialized_marker value =
    ensure (elim value [ none ↦ false | some v ↦ eq_bytes v (1 ∷ []) ])
      (invalid_key "missing or invalid conflict watermarks initialized marker")

unfoldable pub decode_conflict_watermarks :
    List (Option Bytes) → CatalogResult ConflictWatermarkValues
decode_conflict_watermarks (marker ∷ catalog_id ∷ file_id ∷ []) = do
  validate_initialized_marker marker
  max_catalog_id ← transpose_map catalog_id decode_u64
  max_file_id ← transpose_map file_id decode_u64
  ok (record { max_catalog_id = max_catalog_id; max_file_id = max_file_id })
decode_conflict_watermarks _ = err (backend "wrong number of values")

unfoldable pub load_conflict_watermarks :
    Option (List (Option Bytes))
    → OrderedCatalogKv
    → CatalogId
    → CatalogResult ConflictWatermarkValues
load_conflict_watermarks cached kv catalog =
    fetch_conflict_values cached kv (conflict_watermark_keys catalog) >>= decode_conflict_watermarks

-- The three values and the schema version.
unfoldable pub decode_conflict_snapshot :
    List (Option Bytes) → CatalogResult (ConflictWatermarkValues × Option ℕ)
decode_conflict_snapshot (marker ∷ catalog_id ∷ file_id ∷ schema ∷ []) = do
  watermarks ← decode_conflict_watermarks (marker ∷ catalog_id ∷ file_id ∷ [])
  schema_version ← transpose_map schema decode_schema_version
  ok (watermarks, schema_version)
decode_conflict_snapshot _ = err (backend "wrong number of values")

unfoldable pub load_conflict_snapshot_values :
    Option (List (Option Bytes))
    → OrderedCatalogKv
    → CatalogId
    → CatalogResult (ConflictWatermarkValues × Option ℕ)
load_conflict_snapshot_values cached kv catalog =
    fetch_conflict_values cached kv (
      conflict_watermarks_initialized_key catalog
      ∷ conflict_max_catalog_id_key catalog
      ∷ conflict_max_file_id_key catalog
      ∷ current_schema_version_key catalog
      ∷ [])
    >>= decode_conflict_snapshot

unfoldable pub stage_max_u64 : OrderedCatalogKv → KvBatch → Bytes → ℕ → CatalogResult KvBatch
stage_max_u64 kv batch key candidate = do
  current ← load_u64 kv key
  put_max_u64 batch key (elim current [ none ↦ candidate | some c ↦ max c candidate ])

unfoldable pub stage_max_catalog_id_watermark :
    OrderedCatalogKv → KvBatch → CatalogId → ℕ → CatalogResult KvBatch
stage_max_catalog_id_watermark kv batch catalog =
    stage_max_u64 kv batch (conflict_max_catalog_id_key catalog)

unfoldable pub stage_max_file_id_watermark :
    OrderedCatalogKv → KvBatch → CatalogId → ℕ → CatalogResult KvBatch
stage_max_file_id_watermark kv batch catalog =
    stage_max_u64 kv batch (conflict_max_file_id_key catalog)

unfoldable pub stage_table_next_row_id :
    OrderedCatalogKv → KvBatch → CatalogId → TableId → ℕ → CatalogResult KvBatch
stage_table_next_row_id kv batch catalog table_id =
    stage_max_u64 kv batch (table_next_row_id_key catalog table_id)

unfoldable pub load_table_next_row_id : OrderedCatalogKv → CatalogId → TableId → CatalogResult ℕ
load_table_next_row_id kv catalog table_id =
    load_u64 kv (table_next_row_id_key catalog table_id) >>= λ value. ok (Option.get_or value 0)

unfoldable pub decode_table_next_row_id : Option Bytes → CatalogResult ℕ
decode_table_next_row_id value =
    transpose_map value decode_u64 >>= λ next. ok (Option.get_or next 0)
