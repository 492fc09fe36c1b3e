-- ===== src/Bytes.antt =====
-- Byte strings: the order of slices, equality, stripping a prefix, and big-endian integers.
pub mod BigEndian
pub mod Order
pub mod Prefix
pub mod Ranges
pub mod Slices
pub mod Fields
use aux_ducklake.Base.{
  ℕ, zero, suc, ◌+◌, ◌*◌, ◌/◌, ◌%◌, ◌^◌, ◌<◌, ◌≡◌, Bool, true, false, ◌&&◌, not, List, [], ◌∷◌,
  Option, none, some, ltb, ◌==◌, if◌then◌else◌, length, All,
}

-- `Vec<u8>` and `&[u8]`.
abbrev pub Bytes : Type 0
Bytes = List ℕ

abbrev pub IsByte : ℕ → Type 0
IsByte b = b < 256

abbrev pub AreBytes : Bytes → Type 0
AreBytes = All IsByte

abbrev pub IsU64 : ℕ → Type 0
IsU64 v = v < 2 ^ 64

-- `a < b` on slices: lexicographic, a proper prefix first.
unfoldable pub ltb_bytes : Bytes → Bytes → Bool
ltb_bytes [] [] = false
ltb_bytes [] (y ∷ ys) = true
ltb_bytes (x ∷ xs) [] = false
ltb_bytes (x ∷ xs) (y ∷ ys) =
    let rest = ltb_bytes xs ys in if ltb x y then true else if ltb y x then false else rest

-- `a <= b` on slices.
abbrev pub leb_bytes : Bytes → Bytes → Bool
leb_bytes a b = not (ltb_bytes b a)

-- `a == b` on slices.
unfoldable pub eq_bytes : Bytes → Bytes → Bool
eq_bytes [] [] = true
eq_bytes [] (y ∷ ys) = false
eq_bytes (x ∷ xs) [] = false
eq_bytes (x ∷ xs) (y ∷ ys) = let rest = eq_bytes xs ys in if x == y then rest else false

-- `key.strip_prefix(prefix)`.
unfoldable pub strip_prefix : Bytes → Bytes → Option Bytes
strip_prefix [] key = some key
strip_prefix (p ∷ ps) [] = none
strip_prefix (p ∷ ps) (k ∷ ks) = let rest = strip_prefix ps ks in if p == k then rest else none

-- `to_be_bytes` of an unsigned integer of `width` bytes.
unfoldable pub to_be_bytes : ℕ → ℕ → Bytes
to_be_bytes zero v = []
to_be_bytes (suc width) v = (v / 256 ^ width) ∷ to_be_bytes width (v % 256 ^ width)

-- `from_be_bytes` of as many bytes as there are.
unfoldable pub from_be_bytes : Bytes → ℕ
from_be_bytes [] = 0
from_be_bytes (b ∷ bs) = b * 256 ^ length bs + from_be_bytes bs

-- `key.starts_with(prefix)`.
unfoldable pub starts_with : Bytes → Bytes → Bool
starts_with prefix key = elim (strip_prefix prefix key) [ none ↦ false | some _ ↦ true ]
