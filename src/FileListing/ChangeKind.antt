-- ===== src/FileListing/ChangeKind.antt =====
-- `DataFileChangeKind::code` and `from_code` of crates/ducklake-catalog/src/file_listing.rs, and
-- `InlineRowChangeKind` of inline_change_feed.rs.
use aux_ducklake.Base.{ℕ, ◌≡◌, refl, ◌==◌, if◌then◌else◌}
use aux_ducklake.Error.{CatalogResult, ok, err, decode, invalid_key}
use aux_ducklake.FileListing.{DataFileChangeKind, added, removed}

unfoldable pub code : DataFileChangeKind → ℕ
code added = b'a'
code removed = b'r'

unfoldable pub from_code : ℕ → CatalogResult DataFileChangeKind
from_code c =
    if c == b'a'
    then ok added
    else if c == b'r'
    then ok removed
    else err (decode "unknown data file change kind")

pub data InlineRowChangeKind : Type 0 where
  inserted deleted : InlineRowChangeKind

unfoldable pub inline_code : InlineRowChangeKind → ℕ
inline_code inserted = b'i'
inline_code deleted = b'd'

unfoldable pub inline_from_code : ℕ → CatalogResult InlineRowChangeKind
inline_from_code c =
    if c == b'i'
    then ok inserted
    else if c == b'd'
    then ok deleted
    else err (invalid_key "unknown inline row change kind")

pub from_code-code : (k : DataFileChangeKind) → from_code (code k) ≡ ok k
unfolding from_code code
from_code-code added = refl
from_code-code removed = refl
