-- ===== src/Keys/Family.antt =====
-- crates/ducklake-catalog/src/keys.rs: `KeyFamily` and its byte codes.
use aux_ducklake.Base.{ℕ, ◌<◌, ◌≡◌, refl, ◌==◌, if◌then◌else◌, arith}
use aux_ducklake.Error.{CatalogResult, ok, err, invalid_key}

pub data KeyFamily : Type 0 where
  snapshot : KeyFamily
  snapshot_by_timestamp : KeyFamily
  snapshot_changes : KeyFamily
  table_changes : KeyFamily
  object : KeyFamily
  data_file : KeyFamily
  current_data_file : KeyFamily
  data_file_begin : KeyFamily
  end_order : KeyFamily
  inline_flush_watermark : KeyFamily
  delete_file : KeyFamily
  current_delete_file : KeyFamily
  delete_file_timeline : KeyFamily
  delete_file_change : KeyFamily
  delete_file_change_by_order : KeyFamily
  file_column_stats : KeyFamily
  file_column_stats_lookup : KeyFamily
  file_partition_value : KeyFamily
  partition_value_lookup : KeyFamily
  inline_table : KeyFamily
  inline_deletion : KeyFamily
  inline_file_deletion : KeyFamily
  inline_row_change : KeyFamily
  inline_table_change : KeyFamily
  inline_row_change_by_schema_kind : KeyFamily
  inline_live_row : KeyFamily
  inline_current_row : KeyFamily
  metadata_setting : KeyFamily
  metadata_version : KeyFamily
  column_mapping : KeyFamily
  conflict_fence : KeyFamily
  commit_attempt : KeyFamily
  scheduled_cleanup : KeyFamily
  snapshot_operation : KeyFamily

unfoldable pub code : KeyFamily → ℕ
code snapshot = b's'
code snapshot_by_timestamp = b'S'
code snapshot_changes = b'c'
code table_changes = b'C'
code object = b'o'
code data_file = b'd'
code current_data_file = b'D'
code data_file_begin = b'b'
code end_order = b'E'
code inline_flush_watermark = b'W'
code delete_file = b'x'
code current_delete_file = b'X'
code delete_file_timeline = b'y'
code delete_file_change = b'Y'
code delete_file_change_by_order = b'k'
code file_column_stats = b'f'
code file_column_stats_lookup = b'F'
code file_partition_value = b'P'
code partition_value_lookup = b'q'
code inline_table = b'i'
code inline_deletion = b'I'
code inline_file_deletion = b'J'
code inline_row_change = b'R'
code inline_table_change = b'H'
code inline_row_change_by_schema_kind = b'K'
code inline_live_row = b'L'
code inline_current_row = b'r'
code metadata_setting = b'm'
code metadata_version = b'v'
code column_mapping = b'M'
code conflict_fence = b'w'
code commit_attempt = b'z'
code scheduled_cleanup = b'G'
code snapshot_operation = b'O'

unfoldable pub from_code : ℕ → CatalogResult KeyFamily
from_code c =
    if c == b's'
    then ok snapshot
    else if c == b'S'
    then ok snapshot_by_timestamp
    else if c == b'c'
    then ok snapshot_changes
    else if c == b'C'
    then ok table_changes
    else if c == b'o'
    then ok object
    else if c == b'd'
    then ok data_file
    else if c == b'D'
    then ok current_data_file
    else if c == b'b'
    then ok data_file_begin
    else if c == b'E'
    then ok end_order
    else if c == b'W'
    then ok inline_flush_watermark
    else if c == b'x'
    then ok delete_file
    else if c == b'X'
    then ok current_delete_file
    else if c == b'y'
    then ok delete_file_timeline
    else if c == b'Y'
    then ok delete_file_change
    else if c == b'k'
    then ok delete_file_change_by_order
    else if c == b'f'
    then ok file_column_stats
    else if c == b'F'
    then ok file_column_stats_lookup
    else if c == b'P'
    then ok file_partition_value
    else if c == b'q'
    then ok partition_value_lookup
    else if c == b'i'
    then ok inline_table
    else if c == b'I'
    then ok inline_deletion
    else if c == b'J'
    then ok inline_file_deletion
    else if c == b'R'
    then ok inline_row_change
    else if c == b'H'
    then ok inline_table_change
    else if c == b'K'
    then ok inline_row_change_by_schema_kind
    else if c == b'L'
    then ok inline_live_row
    else if c == b'r'
    then ok inline_current_row
    else if c == b'm'
    then ok metadata_setting
    else if c == b'v'
    then ok metadata_version
    else if c == b'M'
    then ok column_mapping
    else if c == b'w'
    then ok conflict_fence
    else if c == b'z'
    then ok commit_attempt
    else if c == b'G'
    then ok scheduled_cleanup
    else if c == b'O'
    then ok snapshot_operation
    else err (invalid_key "unknown family byte")

-- Every family is read back from its code.
pub from_code-code : (f : KeyFamily) → from_code (code f) ≡ ok f
unfolding from_code code
from_code-code snapshot = refl
from_code-code snapshot_by_timestamp = refl
from_code-code snapshot_changes = refl
from_code-code table_changes = refl
from_code-code object = refl
from_code-code data_file = refl
from_code-code current_data_file = refl
from_code-code data_file_begin = refl
from_code-code end_order = refl
from_code-code inline_flush_watermark = refl
from_code-code delete_file = refl
from_code-code current_delete_file = refl
from_code-code delete_file_timeline = refl
from_code-code delete_file_change = refl
from_code-code delete_file_change_by_order = refl
from_code-code file_column_stats = refl
from_code-code file_column_stats_lookup = refl
from_code-code file_partition_value = refl
from_code-code partition_value_lookup = refl
from_code-code inline_table = refl
from_code-code inline_deletion = refl
from_code-code inline_file_deletion = refl
from_code-code inline_row_change = refl
from_code-code inline_table_change = refl
from_code-code inline_row_change_by_schema_kind = refl
from_code-code inline_live_row = refl
from_code-code inline_current_row = refl
from_code-code metadata_setting = refl
from_code-code metadata_version = refl
from_code-code column_mapping = refl
from_code-code conflict_fence = refl
from_code-code commit_attempt = refl
from_code-code scheduled_cleanup = refl
from_code-code snapshot_operation = refl

-- Distinct families have distinct codes.
pub code_injective : (f g : KeyFamily) → code f ≡ code g → f ≡ g
code_injective f g h = cc (from_code-code f, from_code-code g)

-- Only the codes of families are read.
pub from_code→eq : (c : ℕ) (f : KeyFamily) → from_code c ≡ ok f → c ≡ code f
unfolding from_code code
from_code→eq c f h = ground arith

pub code-lt : (f : KeyFamily) → code f < 256
unfolding code
code-lt snapshot = omega arith
code-lt snapshot_by_timestamp = omega arith
code-lt snapshot_changes = omega arith
code-lt table_changes = omega arith
code-lt object = omega arith
code-lt data_file = omega arith
code-lt current_data_file = omega arith
code-lt data_file_begin = omega arith
code-lt end_order = omega arith
code-lt inline_flush_watermark = omega arith
code-lt delete_file = omega arith
code-lt current_delete_file = omega arith
code-lt delete_file_timeline = omega arith
code-lt delete_file_change = omega arith
code-lt delete_file_change_by_order = omega arith
code-lt file_column_stats = omega arith
code-lt file_column_stats_lookup = omega arith
code-lt file_partition_value = omega arith
code-lt partition_value_lookup = omega arith
code-lt inline_table = omega arith
code-lt inline_deletion = omega arith
code-lt inline_file_deletion = omega arith
code-lt inline_row_change = omega arith
code-lt inline_table_change = omega arith
code-lt inline_row_change_by_schema_kind = omega arith
code-lt inline_live_row = omega arith
code-lt inline_current_row = omega arith
code-lt metadata_setting = omega arith
code-lt metadata_version = omega arith
code-lt column_mapping = omega arith
code-lt conflict_fence = omega arith
code-lt commit_attempt = omega arith
code-lt scheduled_cleanup = omega arith
code-lt snapshot_operation = omega arith
