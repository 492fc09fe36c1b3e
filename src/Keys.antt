-- ===== src/Keys.antt =====
-- crates/ducklake-catalog/src/keys.rs: the prefixes of catalogs and families, and the end of the
-- range of a prefix. The keys themselves are in the children, one for each kind of row.
pub mod Family
pub mod Object
pub mod Change
pub mod Metadata
pub mod Inline
pub mod DataFile
pub mod Stats
pub mod Cleanup
pub mod Snapshot
pub mod Timestamps
pub mod Scans
pub mod Disjoint
pub mod PrefixEnd
use Prim.Native.Char.{code as char_code}
use Prim.Native.String
use aux_ducklake.Base.{
  ℕ, ◌+◌, ◌-◌, String, Bool, ◌&&◌, List, [], ◌∷◌, ◌++◌, Option, none, some, if◌then◌else◌, ltb, leb,
  map,
}
use aux_ducklake.Bytes.{Bytes, to_be_bytes, leb_bytes, ltb_bytes}
use aux_ducklake.Ids.{CatalogId}
use aux_ducklake.Keys.Family.{KeyFamily, code}

-- `key.push(byte)`.
abbrev pub push : ℕ → Bytes
push b = b ∷ []

-- A key built by `extend_from_slice` and `push`, in this order.
abbrev pub concat : List Bytes → Bytes
concat [] = []
concat (x ∷ []) = x
concat (x ∷ y ∷ rest) = x ++ concat (y ∷ rest)

abbrev pub u64 : ℕ → Bytes
u64 v = to_be_bytes 8 v

abbrev pub u32 : ℕ → Bytes
u32 v = to_be_bytes 4 v

-- A byte-string literal.
abbrev pub codes : String → Bytes
codes String.[] = []
codes (String.◌∷◌ c s) = char_code c ∷ codes s

-- `str::to_ascii_lowercase` on the bytes of a text.
unfoldable pub to_ascii_lowercase : Bytes → Bytes
to_ascii_lowercase = map (λ c. if leb b'A' c && leb c b'Z' then c + 32 else c)

unfoldable pub catalog_prefix : CatalogId → Bytes
catalog_prefix catalog = concat (u64 catalog ∷ push b'/' ∷ [])

unfoldable pub family_prefix : CatalogId → KeyFamily → Bytes
family_prefix catalog family = concat (catalog_prefix catalog ∷ push (code family) ∷ push b'/' ∷ [])

-- One step from the last byte: below 0xff it is raised, and the loop returns; 0xff becomes 0 and
-- the loop goes on to the left. `none` means that every byte was 0xff.
unfoldable pub raise_last : Bytes → Option Bytes
raise_last [] = none
raise_last (b ∷ rest) = elim (raise_last rest) [
  | some rest' ↦ some (b ∷ rest')
  | none ↦ if ltb b 0xff then some ((b + 1) ∷ map (λ _. 0) rest) else none
]

unfoldable pub prefix_end : Bytes → Bytes
prefix_end prefix = elim (raise_last prefix) [
  | some end ↦ end
  | none ↦ map (λ _. 0) prefix ++ push 0
]

-- The keys that a scan from `start` to `end` returns.
abbrev pub in_range : Bytes → Bytes → Bytes → Bool
in_range start end key = leb_bytes start key && ltb_bytes key end
