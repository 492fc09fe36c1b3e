-- ===== src/Objects/Cursor/ReadsBack.antt =====
-- Decoders that read a value back from the text that was written for it.
use aux_ducklake.Objects.Cursor.{
  bool_byte, Decoder, ◌>>=◌, pure, take_bytes, decode_u32, decode_u64, decode_string, decode_bool,
  decode_optional_string, repeat, encode_string, encode_optional_string,
}
use aux_ducklake.Base.{
  append-nil, ℕ, zero, suc, ◌+◌, ◌-◌, ◌%◌, ◌^◌, ◌≤◌, ◌<◌, ◌≡◌, refl, Bool, true, false, Option,
  none, some, List, [], ◌∷◌, ◌++◌, leb, ltb, length, drop, take-append, length-append, append_assoc,
  All, map, arith, ◌&&◌,
}
use aux_ducklake.Bytes.{to_be_bytes, Bytes, IsU64, from_be_bytes}
use mathlib.Core.Path.{sym, ap, ◌∙◌, subst}
use aux_ducklake.Bytes.BigEndian.{length-to_be_bytes, from_be_bytes-to_be_bytes}
use aux_ducklake.Bytes.Slices.{slice, byte_at, is_utf8, from_utf8_lem}
use aux_ducklake.Bytes.Fields.{concat_cons}
use aux_ducklake.Error.{ok}
use aux_ducklake.Ids.{u64_max, saturating_add}
use aux_ducklake.Keys.{push, concat, u32, u64}

-- Wherever the text stands the decoder returns the value and moves behind the text.
pub record ReadsBack {A : Type 0} (decoder : Decoder A) (text : Bytes) (value : A) : Type 0 where
  pub reads :
      (bytes rest : Bytes) (offset : ℕ)
      → length bytes ≤ u64_max
      → offset ≤ length bytes
      → drop offset bytes ≡ text ++ rest
      → decoder bytes offset ≡ ok (value, offset + length text)

drop-nil : (n : ℕ) → drop {A = ℕ} n [] ≡ []
drop-nil zero = refl
drop-nil (suc n) = refl

length-drop : (n : ℕ) (xs : Bytes) → n ≤ length xs → n + length (drop n xs) ≡ length xs
length-drop zero xs h = omega arith
length-drop (suc n) [] h = absurd (omega arith)
length-drop (suc n) (x ∷ xs) h = omega (arith, length-drop n xs (omega arith))

pub drop-append_left : (xs ys : Bytes) → drop (length xs) (xs ++ ys) ≡ ys
drop-append_left [] ys = refl
drop-append_left (x ∷ xs) ys = drop-append_left xs ys

drop-drop : (n m : ℕ) (xs : Bytes) → drop (n + m) xs ≡ drop m (drop n xs)
drop-drop zero m xs = let e : 0 + m ≡ m = omega arith in rw e refl
drop-drop (suc n) m [] = drop-nil (suc n + m) ∙ sym (drop-nil m)
drop-drop (suc n) m (x ∷ xs) =
    let e : suc n + m ≡ suc (n + m) = omega arith in rw e (drop-drop n m xs)

-- Behind the text.
at_end :
    (bytes text rest : Bytes) (offset : ℕ)
    → offset ≤ length bytes
    → drop offset bytes ≡ text ++ rest
    → (offset + length text ≤ length bytes) × (drop (offset + length text) bytes ≡ rest)
at_end bytes text rest offset h e = (
  omega (arith, length-drop offset bytes h, ap length e, length-append text rest),
  drop-drop offset (length text) bytes ∙ ap (drop (length text)) e ∙ drop-append_left text rest,
)

slice_at :
    (bytes text rest : Bytes) (offset : ℕ)
    → offset ≤ length bytes
    → drop offset bytes ≡ text ++ rest
    → slice bytes offset (offset + length text) ≡ ok text
unfolding slice
slice_at bytes text rest offset h e =
    let (end, _) = at_end bytes text rest offset h e in
    let fits : (leb offset (offset + length text) && leb (offset + length text) (length bytes))
        ≡ true =
      ground arith in
    let width : (offset + length text) - offset ≡ length text = omega arith in
    rw (fits, width, e) (ap ok (take-append (length text) text rest refl))

module _ {A B : Type 0} where
  pub ReadsBack->>= :
      {decoder : Decoder A} (then_decoder : A → Decoder B) {text then_text : Bytes} {value : A}
      {result : B}
      → ReadsBack decoder text value
      → ReadsBack (then_decoder value) then_text result
      → ReadsBack (decoder >>= then_decoder) (text ++ then_text) result
  ReadsBack->>= {decoder} then_decoder {text} {then_text} {value} {result} d f = record {
    reads = λ bytes rest offset l h e.
        let first : drop offset bytes ≡ text ++ (then_text ++ rest) =
          e ∙ append_assoc text then_text rest in
        let (h', e') = at_end bytes text (then_text ++ rest) offset h first in
        let total : offset + length text + length then_text ≡ offset + length (text ++ then_text) =
          omega (arith, length-append text then_text) in
        rw
          (
            d.reads bytes (then_text ++ rest) offset l h first,
            f.reads bytes rest (offset + length text) l h' e',
            total,
          )
          refl;
  }

  -- The last part of a text.
  pub ReadsBack-last :
      {decoder : Decoder A} (then_decoder : A → Decoder B) {text : Bytes} {value : A} {result : B}
      → ReadsBack decoder text value
      → ReadsBack (then_decoder value) [] result
      → ReadsBack (decoder >>= then_decoder) text result
  ReadsBack-last {decoder} then_decoder {text} {value} {result} d f =
      subst (λ t. ReadsBack (decoder >>= then_decoder) t result) (append-nil text)
        (ReadsBack->>= then_decoder d f)

pub ReadsBack-pure : {A : Type 0} (value : A) → ReadsBack (pure value) [] value
ReadsBack-pure value = record {
  reads = λ bytes rest offset l h e.
      let s : offset ≡ offset + 0 = omega arith in ap (λ n. ok (value, n)) s;
}

pub ReadsBack-pure_eq :
    {A : Type 0} (value result : A) → value ≡ result → ReadsBack (pure value) [] result
ReadsBack-pure_eq value result e = subst (λ r. ReadsBack (pure value) [] r) e (ReadsBack-pure value)

pub ReadsBack-take_bytes :
    (text : Bytes) (len : ℕ) → length text ≡ len → ReadsBack (take_bytes len) text text
unfolding take_bytes
ReadsBack-take_bytes text len sized = record {
  reads = λ bytes rest offset l h e.
      let (end, _) = at_end bytes text rest offset h e in
      let exact : saturating_add offset len ≡ offset + length text = omega arith in
      let fits : ltb (length bytes) (offset + length text) ≡ false = ground arith in
      rw (exact, fits, slice_at bytes text rest offset h e) refl;
}

ReadsBack-uint :
    (w v : ℕ)
    → v < 256 ^ w
    → ReadsBack (take_bytes w >>= λ s. pure (from_be_bytes s)) (to_be_bytes w v) v
ReadsBack-uint w v b =
    ReadsBack-last _ (ReadsBack-take_bytes (to_be_bytes w v) w (length-to_be_bytes w v)) (
      subst (λ n. ReadsBack (pure n) [] v) (sym (from_be_bytes-to_be_bytes w v b))
        (ReadsBack-pure v))

pub ReadsBack-decode_u32 : (v : ℕ) → v < 2 ^ 32 → ReadsBack decode_u32 (u32 v) v
unfolding decode_u32
ReadsBack-decode_u32 v b = ReadsBack-uint 4 v (omega arith)

pub ReadsBack-decode_u64 : (v : ℕ) → IsU64 v → ReadsBack decode_u64 (u64 v) v
unfolding decode_u64
ReadsBack-decode_u64 v b = ReadsBack-uint 8 v (omega arith)

-- A text of UTF-8 whose length 32 bits hold.
pub record IsText (text : Bytes) : Type 0 where
  pub bound : length text < 2 ^ 32
  pub utf8 : is_utf8 text ≡ true

ReadsBack-checked :
    {A : Type 0} (decoder : Decoder A) (value : A)
    → ((bytes : Bytes) (offset : ℕ) → decoder bytes offset ≡ ok (value, offset))
    → ReadsBack decoder [] value
ReadsBack-checked decoder value h = record {
  reads = λ bytes rest offset l k e.
      let s : offset ≡ offset + 0 = omega arith in h bytes offset ∙ ap (λ n. ok (value, n)) s;
}

pub ReadsBack-decode_string :
    (text : Bytes) → IsText text → ReadsBack decode_string (encode_string text) text
unfolding decode_string encode_string
ReadsBack-decode_string text t =
    let fits : length text % 2 ^ 32 ≡ length text = omega (arith, t.bound) in
    rw fits (
      ReadsBack->>= _ (ReadsBack-decode_u32 (length text) t.bound) (
        ReadsBack-last _ (ReadsBack-take_bytes text (length text) refl) (
          ReadsBack-checked _ text
            (λ bytes offset. rw (from_utf8_lem text "is not utf8" t.utf8) refl))))

byte_next :
    (bytes rest : Bytes) (b offset : ℕ)
    → drop offset bytes ≡ b ∷ rest
    → (byte_at bytes offset ≡ ok b) × (leb (length bytes) offset ≡ false)
unfolding byte_at
byte_next [] rest b offset e = let t = sym (drop-nil offset) ∙ e in cc
byte_next (x ∷ bytes) rest b zero e = let u : x ≡ b = cc in (ap ok u, ground arith)
byte_next (x ∷ bytes) rest b (suc offset) e =
    let (q, l) = byte_next bytes rest b offset e in (q, ground arith)

pub ReadsBack-decode_bool : (b : Bool) → ReadsBack decode_bool (push (bool_byte b)) b
unfolding decode_bool
ReadsBack-decode_bool b = record {
  reads = λ bytes rest offset l h e.
      elim b
          as (λ v.
            drop offset bytes ≡ push (bool_byte v) ++ rest
            → decode_bool bytes offset ≡ ok (v, offset + 1)) [
              | false ↦ λ q. let (r, n) = byte_next bytes rest 0 offset q in rw (n, r) refl
              | true ↦ λ q. let (r, n) = byte_next bytes rest 1 offset q in rw (n, r) refl
            ]
        e;
}

abbrev pub IsOptionalText : Option Bytes → Type 0
IsOptionalText none = Unit
IsOptionalText (some text) = IsText text

pub ReadsBack-decode_optional_string :
    (text : Option Bytes)
    → IsOptionalText text
    → ReadsBack decode_optional_string (encode_optional_string text) text
unfolding decode_optional_string encode_optional_string
ReadsBack-decode_optional_string none t =
    ReadsBack-last _ (ReadsBack-decode_bool false) (ReadsBack-pure none)
ReadsBack-decode_optional_string (some text) t =
    ReadsBack->>= _ (ReadsBack-decode_bool true)
      (ReadsBack-last _ (ReadsBack-decode_string text t) (ReadsBack-pure (some text)))

pub ReadsBack-repeat :
    {A : Type 0} (decoder : Decoder A) (encode : A → Bytes) (values : List A)
    → All (λ v. ReadsBack decoder (encode v) v) values
    → ReadsBack (repeat (length values) decoder) (concat (map encode values)) values
unfolding repeat
ReadsBack-repeat decoder encode [] h = ReadsBack-pure []
ReadsBack-repeat decoder encode (v ∷ values) (h, hs) =
    subst (λ t. ReadsBack (repeat (suc (length values)) decoder) t (v ∷ values))
      (sym (concat_cons (encode v) (map encode values)))
      (ReadsBack->>= _ h (
        ReadsBack-last _ (ReadsBack-repeat decoder encode values hs) (ReadsBack-pure (v ∷ values))))
