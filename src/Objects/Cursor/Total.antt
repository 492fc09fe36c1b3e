-- ===== src/Objects/Cursor/Total.antt =====
-- Decoders that do not panic, whatever the bytes are, and that stay within them.
use aux_ducklake.Base.{
  ℕ, zero, suc, ◌+◌, ◌≤◌, ◌<◌, Bool, true, false, none, some, [], ◌∷◌, if◌then◌else◌, ◌==◌, leb,
  ltb, length, ◌≡◌, Bool-cases, inl, inr, arith,
}
use aux_ducklake.Bytes.{Bytes, from_be_bytes}
use aux_ducklake.Bytes.Slices.{slice, byte_at, from_utf8}
use aux_ducklake.Error
use aux_ducklake.Error.{CatalogResult, ok, err, panic, decode}
use aux_ducklake.Ids.{u64_max, saturating_add}
use aux_ducklake.Rows.Total.{Returns, Returns-slice, Returns-byte_at, Returns-from_utf8}
use aux_ducklake.Objects.Cursor.{
  Decoder, ◌>>=◌, pure, take_bytes, decode_u32, decode_u64, decode_string, decode_bool,
  decode_optional_string, repeat, Allocator, Elements,
}

-- The allocator has no room for a vector of as many elements as at most four of the bytes say.
abbrev pub Refused : Allocator → Bytes → Type 0
Refused allocates bytes =
    (elements : Elements) × (start : ℕ) × (end : ℕ) × (count : Bytes) × (end ≤ start + 4)
    × (slice bytes start end ≡ ok count)
    × (allocates elements (from_be_bytes count) ≡ false)

-- An error, or a value with an offset within the bound; a panic only for the reason given.
abbrev pub Stays : {A : Type 0} → Type 0 → ℕ → CatalogResult (A × ℕ) → Type 0
Stays reason bound (ok r) = r.1 ≤ bound
Stays reason bound (err e) = Unit
Stays reason bound panic = reason

pub record IsTotal {A : Type 0} (allocates : Allocator) (decoder : Decoder A) : Type 0 where
  pub stays :
      (bytes : Bytes) (offset : ℕ)
      → length bytes ≤ u64_max
      → offset ≤ length bytes
      → Stays (Refused allocates bytes) (length bytes) (decoder bytes offset)

module _ {A B : Type 0} where
  Stays->>= :
      (reason : Type 0) (bound : ℕ) (m : CatalogResult (A × ℕ)) (f : A × ℕ → CatalogResult (B × ℕ))
      → Stays reason bound m
      → ((r : A × ℕ) → r.1 ≤ bound → Stays reason bound (f r))
      → Stays reason bound (Error.◌>>=◌ m f)
  Stays->>= reason bound (ok r) f h k = k r h
  Stays->>= reason bound (err e) f h k = tt
  Stays->>= reason bound panic f h k = h

  Stays-returned :
      (reason : Type 0) (bound : ℕ) (m : CatalogResult A) (f : A → CatalogResult (B × ℕ))
      → Returns m
      → ((a : A) → Stays reason bound (f a))
      → Stays reason bound (Error.◌>>=◌ m f)
  Stays-returned reason bound (ok a) f h k = k a
  Stays-returned reason bound (err e) f h k = tt
  Stays-returned reason bound panic f h k = elim h [ ]

  pub IsTotal->>= :
      {allocates : Allocator} {decoder : Decoder A} (then_decoder : A → Decoder B)
      → IsTotal allocates decoder
      → ((a : A) → IsTotal allocates (then_decoder a))
      → IsTotal allocates (decoder >>= then_decoder)
  IsTotal->>= {allocates} {decoder} then_decoder d f = record {
    stays = λ bytes offset l h.
        Stays->>= (Refused allocates bytes) (length bytes) (decoder bytes offset) _
          (d.stays bytes offset l h) (λ r k. (f r.0).stays bytes r.1 l k);
  }

pub IsTotal-pure : {allocates : Allocator} {A : Type 0} (value : A) → IsTotal allocates (pure value)
IsTotal-pure value = record { stays = λ bytes offset l h. h }

pub IsTotal-if :
    {allocates : Allocator} {A : Type 0} (b : Bool) {one two : Decoder A}
    → IsTotal allocates one
    → IsTotal allocates two
    → IsTotal allocates (if b then one else two)
IsTotal-if true h k = h
IsTotal-if false h k = k

IsTotal-take_bytes : {allocates : Allocator} (len : ℕ) → IsTotal allocates (take_bytes len)
unfolding take_bytes
IsTotal-take_bytes {allocates} len = record {
  stays = λ bytes offset l h. elim (Bool-cases (ltb (length bytes) (saturating_add offset len))) [
    | inl long ↦ rw long tt
    | inr fits ↦ rw fits (
        Stays-returned (Refused allocates bytes) (length bytes)
          (slice bytes offset (saturating_add offset len)) _
          (Returns-slice bytes offset (saturating_add offset len) (omega arith) (ground arith))
          (λ s. ground arith))
  ];
}

pub IsTotal-decode_u32 : {allocates : Allocator} → IsTotal allocates decode_u32
unfolding decode_u32
IsTotal-decode_u32 = IsTotal->>= _ (IsTotal-take_bytes 4) (λ s. IsTotal-pure (from_be_bytes s))

pub IsTotal-decode_u64 : {allocates : Allocator} → IsTotal allocates decode_u64
unfolding decode_u64
IsTotal-decode_u64 = IsTotal->>= _ (IsTotal-take_bytes 8) (λ s. IsTotal-pure (from_be_bytes s))

pub IsTotal-decode_string : {allocates : Allocator} → IsTotal allocates decode_string
unfolding decode_string
IsTotal-decode_string {allocates} = IsTotal->>= _ IsTotal-decode_u32 (λ len.
    IsTotal->>= _ (IsTotal-take_bytes len) (λ s. record {
      stays = λ bytes offset l h.
          Stays-returned (Refused allocates bytes) (length bytes) (from_utf8 s "is not utf8") _
            (Returns-from_utf8 s "is not utf8") (λ text. h);
    }))

marker-Stays :
    (reason : Type 0) (bound marker offset : ℕ)
    → offset < bound
    → Stays {A = Bool} reason bound (
        if marker == 0
        then ok (false, offset + 1)
        else if marker == 1
        then ok (true, offset + 1)
        else err (decode "has invalid bool marker"))
marker-Stays reason bound marker offset h = elim (Bool-cases (marker == 0)) [
  | inl z ↦ rw z (omega arith)
  | inr n ↦ elim (Bool-cases (marker == 1)) [
    | inl o ↦ rw (n, o) (omega arith)
    | inr m ↦ rw (n, m) tt
  ]
]

pub IsTotal-decode_bool : {allocates : Allocator} → IsTotal allocates decode_bool
unfolding decode_bool
IsTotal-decode_bool {allocates} = record {
  stays = λ bytes offset l h. elim (Bool-cases (leb (length bytes) offset)) [
    | inl past ↦ rw past tt
    | inr before ↦ rw before (
        Stays-returned (Refused allocates bytes) (length bytes) (byte_at bytes offset) _
          (Returns-byte_at bytes offset (ground arith))
          (λ marker.
            marker-Stays (Refused allocates bytes) (length bytes) marker offset (ground arith)))
  ];
}

pub IsTotal-decode_optional_string :
    {allocates : Allocator} → IsTotal allocates decode_optional_string
unfolding decode_optional_string
IsTotal-decode_optional_string = IsTotal->>= _ IsTotal-decode_bool (λ present.
    IsTotal-if present (IsTotal->>= _ IsTotal-decode_string (λ text. IsTotal-pure (some text)))
      (IsTotal-pure none))

pub IsTotal-repeat :
    {allocates : Allocator} {A : Type 0} (count : ℕ) (decoder : Decoder A)
    → IsTotal allocates decoder
    → IsTotal allocates (repeat count decoder)
unfolding repeat
IsTotal-repeat zero decoder h = IsTotal-pure []
IsTotal-repeat (suc count) decoder h = IsTotal->>= _ h (λ value.
    IsTotal->>= _ (IsTotal-repeat count decoder h) (λ values. IsTotal-pure (value ∷ values)))
