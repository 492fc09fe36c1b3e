-- ===== src/Bytes/Slices.antt =====
-- Slicing and indexing of byte slices, and the check of `std::str::from_utf8`.
use aux_ducklake.Bytes.{Bytes}
use aux_ducklake.Error.{CatalogResult, ok, panic, decode, ensure, ◌>>=◌}
use aux_ducklake.Base.{
  ◌≡◌, ℕ, ◌-◌, Bool, true, false, ◌&&◌, List, [], ◌∷◌, Option, none, some, if◌then◌else◌, ltb, leb,
  ◌==◌, length, get_elem?, take, drop, String,
}

-- `&bytes[start..end]`, with the panic out of range.
unfoldable pub slice : Bytes → ℕ → ℕ → CatalogResult Bytes
slice bytes start end =
    if leb start end && leb end (length bytes)
    then ok (take (end - start) (drop start bytes))
    else panic

-- `bytes[index]`.
unfoldable pub byte_at : Bytes → ℕ → CatalogResult ℕ
byte_at bytes index = elim (get_elem? bytes index) [ none ↦ panic | some b ↦ ok b ]

-- The bytes that may follow a first byte of a character, as bounds for each of them: `none` for a
-- byte that begins no character.
unfoldable pub continuation : ℕ → Option (List (ℕ × ℕ))
continuation b =
    if ltb b 0x80
    then some []
    else if ltb b 0xc2
    then none
    else if ltb b 0xe0
    then some ((0x80, 0xbf) ∷ [])
    else if b == 0xe0
    then some ((0xa0, 0xbf) ∷ (0x80, 0xbf) ∷ [])
    else if b == 0xed
    then some ((0x80, 0x9f) ∷ (0x80, 0xbf) ∷ [])
    else if ltb b 0xf0
    then some ((0x80, 0xbf) ∷ (0x80, 0xbf) ∷ [])
    else if b == 0xf0
    then some ((0x90, 0xbf) ∷ (0x80, 0xbf) ∷ (0x80, 0xbf) ∷ [])
    else if ltb b 0xf4
    then some ((0x80, 0xbf) ∷ (0x80, 0xbf) ∷ (0x80, 0xbf) ∷ [])
    else if b == 0xf4
    then some ((0x80, 0x8f) ∷ (0x80, 0xbf) ∷ (0x80, 0xbf) ∷ [])
    else none

unfoldable pub continues_utf8 : List (ℕ × ℕ) → Bytes → Bool
continues_utf8 [] [] = true
continues_utf8 (bound ∷ bounds) [] = false
continues_utf8 [] (b ∷ bytes) = elim (continuation b) [
  | none ↦ false
  | some bounds ↦ continues_utf8 bounds bytes
]
continues_utf8 ((low, high) ∷ bounds) (b ∷ bytes) =
    let rest = continues_utf8 bounds bytes in leb low b && leb b high && rest

-- A text is its bytes; these are the ones that are text.
unfoldable pub is_utf8 : Bytes → Bool
is_utf8 = continues_utf8 []

unfoldable pub from_utf8 : Bytes → String → CatalogResult Bytes
from_utf8 bytes message = ensure (is_utf8 bytes) (decode message) >>= λ _. ok bytes

pub from_utf8_lem :
    (bytes : Bytes) (message : String) → is_utf8 bytes ≡ true → from_utf8 bytes message ≡ ok bytes
unfolding from_utf8
from_utf8_lem bytes message h = rw h
