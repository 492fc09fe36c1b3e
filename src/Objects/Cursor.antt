-- ===== src/Objects/Cursor.antt =====
-- The helpers at the end of crates/ducklake-catalog/src/table_rows.rs, which view_rows.rs and
-- macro_rows.rs repeat: they read a value at an offset, and move the offset behind it.
-- The name of the field, which only the messages hold, is left out.
pub mod ReadsBack
pub mod Total
use aux_ducklake.Bytes.{from_be_bytes, Bytes}
use aux_ducklake.Base.{
  ℕ, zero, suc, ◌+◌, ◌%◌, ◌^◌, Bool, true, false, Option, none, some, List, [], ◌∷◌, if◌then◌else◌,
  ◌==◌, leb, ltb, length,
}
use aux_ducklake.Bytes.Slices.{slice, byte_at, from_utf8}
use aux_ducklake.Error
use aux_ducklake.Error.{CatalogResult, ok, err, panic, decode, ensure}
use aux_ducklake.Ids.{saturating_add}
use aux_ducklake.Keys.{push, concat, u32}
use aux_ducklake.Rows.{read_uint}

-- A call with `bytes` and `&mut offset`: the value and the offset after it.
abbrev pub Decoder : Type 0 → Type 0
Decoder A = Bytes → ℕ → CatalogResult (A × ℕ)

module _ {A B : Type 0} where
  infixl 5 ◌>>=◌
  abbrev pub ◌>>=◌ : Decoder A → (A → Decoder B) → Decoder B
  (first >>= rest) bytes offset = Error.◌>>=◌ (first bytes offset) (λ r. rest r.0 bytes r.1)

abbrev pub pure : {A : Type 0} → A → Decoder A
pure value bytes offset = ok (value, offset)

-- The bytes up to `offset + len`.
unfoldable pub take_bytes : ℕ → Decoder Bytes
take_bytes len bytes offset =
    let end : ℕ = saturating_add offset len in
    if ltb (length bytes) end
    then err (decode "is truncated")
    else Error.◌>>=◌ (slice bytes offset end) (λ s. ok (s, end))

unfoldable pub decode_u32 : Decoder ℕ
decode_u32 = take_bytes 4 >>= λ s. pure (from_be_bytes s)

unfoldable pub decode_u64 : Decoder ℕ
decode_u64 = take_bytes 8 >>= λ s. pure (from_be_bytes s)

unfoldable pub decode_string : Decoder Bytes
decode_string = do
  len ← decode_u32
  s ← take_bytes len
  λ bytes offset. Error.◌>>=◌ (from_utf8 s "is not utf8") (λ text. ok (text, offset))

unfoldable pub decode_bool : Decoder Bool
decode_bool bytes offset =
    if leb (length bytes) offset
    then err (decode "is truncated")
    else Error.◌>>=◌ (byte_at bytes offset) (λ marker.
      if marker == 0
      then ok (false, offset + 1)
      else if marker == 1
      then ok (true, offset + 1)
      else err (decode "has invalid bool marker"))

unfoldable pub decode_optional_string : Decoder (Option Bytes)
decode_optional_string = do
  present ← decode_bool
  (if present then (decode_string >>= λ text. pure (some text)) else pure none)

-- The vectors that a decoder allocates before it reads their elements.
pub data Elements : Type 0 where
  vec_of_columns vec_of_inlined_tables vec_of_partition_fields vec_of_sort_fields : Elements
  vec_of_aliases vec_of_implementations vec_of_parameters : Elements

-- Whether there is room for a vector of so many elements.
abbrev pub Allocator : Type 0
Allocator = Elements → ℕ → Bool

-- `Vec::with_capacity(count)`, which does not return when it cannot allocate.
unfoldable pub with_capacity : Allocator → Elements → ℕ → Decoder (Unit {0})
with_capacity allocates elements count bytes offset =
    if allocates elements count then ok (tt, offset) else panic

-- `for _ in 0..count { values.push(decode(..)?) }`.
unfoldable pub repeat : {A : Type 0} → ℕ → Decoder A → Decoder (List A)
repeat zero decoder = pure []
repeat (suc count) decoder = do
  value ← decoder
  values ← repeat count decoder
  pure (value ∷ values)

unfoldable pub encode_string : Bytes → Bytes
encode_string value = concat (u32 (length value % 2 ^ 32) ∷ value ∷ [])

unfoldable pub encode_optional_string : Option Bytes → Bytes
encode_optional_string none = push 0
encode_optional_string (some value) = concat (push 1 ∷ encode_string value ∷ [])

-- `u8::from` of a flag.
abbrev pub bool_byte : Bool → ℕ
bool_byte false = 0
bool_byte true = 1
