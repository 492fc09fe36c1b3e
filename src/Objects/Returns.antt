-- ===== src/Objects/Returns.antt =====
-- The decoders of tables, views and macros as wholes.
use aux_ducklake.Base.{
  Bool-cases, refl, ℕ, ◌≤◌, ◌≡◌, [], ◌∷◌, ◌==◌, leb, length, first?, arith, Option-cases, inl, inr,
}
use aux_ducklake.Error.{CatalogResult, ok, err, panic, ok_or, decode, ◌>>=◌}
use aux_ducklake.Bytes.{Bytes}
use aux_ducklake.Ids.{u64_max}
use aux_ducklake.Rows.Total.{
  Returns, Returns-ensure, Returns-if, Returns->>=, Returns-slice, Returns-byte_at,
  Returns-read_uint, Returns-decode_stored_order,
}
use aux_ducklake.Objects.Cursor.{Allocator, Decoder}
use aux_ducklake.Objects.Cursor.Total.{IsTotal, Stays, Refused}
use aux_ducklake.Objects.Header.{HeaderMessages, ObjectHeader, decode_header, header_len}
use aux_ducklake.Objects.Table.{decode_table, decode_table_parts, table_messages}
use aux_ducklake.Objects.View.{decode_view, decode_view_parts, view_messages}
use aux_ducklake.Objects.Macro.{decode_macro, decode_macro_parts, macro_messages}
use aux_ducklake.Objects.Total.{IsTotal-table_parts, IsTotal-view_parts, IsTotal-macro_parts}

Returns-ok_or :
    (bytes : Bytes) (messages : HeaderMessages)
    → Returns (ok_or (first? bytes) (decode messages.too_short))
Returns-ok_or [] messages = tt
Returns-ok_or (b ∷ bytes) messages = tt

Returns-decode_header :
    (messages : HeaderMessages) (version : ℕ) (bytes : Bytes)
    → Returns (decode_header messages version bytes)
unfolding decode_header
Returns-decode_header messages version bytes =
    Returns->>= _ _ (Returns-ok_or bytes messages) (λ found e0.
      Returns-ensure (found == version) _ _ (λ v.
        Returns-ensure (leb header_len (length bytes)) _ _ (λ l.
          let long : header_len ≤ length bytes = ground arith in
          Returns->>= _ _ (Returns-read_uint bytes 1 9 (omega arith) (omega arith)) (λ id e1.
            Returns->>= _ _ (Returns-read_uint bytes 9 17 (omega arith) (omega arith)) (λ schema e2.
              Returns->>= _ _ (Returns-slice bytes 17 34 (omega arith) (omega arith)) (λ begin e3.
                Returns->>= _ _ (Returns-decode_stored_order begin) (λ order e4.
                  Returns->>= _ _ (Returns-byte_at bytes 34 (omega arith)) (λ marker e5.
                    Returns->>= _ _
                      (Returns-if (marker == 0) _ _ (λ _. tt)
                        (λ _.
                          Returns-if (marker == 1) _ _
                            (λ _.
                              Returns->>= _ _
                                (Returns-slice bytes 35 52 (omega arith) (omega arith))
                                (λ s e6.
                                  Returns->>= _ _ (Returns-decode_stored_order s) (λ o e7. tt)))
                            (λ _. tt)))
                      (λ end e8. tt)))))))))

decode_header-long :
    (messages : HeaderMessages) (version : ℕ) (bytes : Bytes) (header : ObjectHeader)
    → decode_header messages version bytes ≡ ok header
    → header_len ≤ length bytes
unfolding decode_header
decode_header-long messages version bytes header e = elim (Option-cases (first? bytes)) [
  | inl n ↦ let q = rw n at e in cc
  | inr (found, f) ↦ elim (Bool-cases (found == version)) [
    | inr n ↦ let q = rw (f, n) at e in cc
    | inl v ↦ elim (Bool-cases (leb header_len (length bytes))) [
      | inr n ↦ let q = rw (f, v, n) at e in cc
      | inl l ↦ ground arith
    ]
  ]
]

-- A value or an error; a panic only for the reason given.
abbrev pub ReturnsUnless : {A : Type 0} → Type 0 → CatalogResult A → Type 0
ReturnsUnless reason (ok a) = Unit
ReturnsUnless reason (err e) = Unit
ReturnsUnless reason panic = reason

ReturnsUnless->>= :
    {A B : Type 0} (reason : Type 0) (m : CatalogResult A) (f : A → CatalogResult B)
    → Returns m
    → ((a : A) → m ≡ ok a → ReturnsUnless reason (f a))
    → ReturnsUnless reason (m >>= f)
ReturnsUnless->>= reason (ok a) f r h = h a refl
ReturnsUnless->>= reason (err e) f r h = tt
ReturnsUnless->>= reason panic f r h = elim r [ ]

Stays-ReturnsUnless :
    {A : Type 0} (reason : Type 0) (bound : ℕ) (m : CatalogResult (A × ℕ))
    → Stays reason bound m
    → ReturnsUnless reason (m >>= λ r. ok r.0)
Stays-ReturnsUnless reason bound (ok r) h = tt
Stays-ReturnsUnless reason bound (err e) h = tt
Stays-ReturnsUnless reason bound panic h = h

framed-ReturnsUnless :
    {A : Type 0} (allocates : Allocator) (messages : HeaderMessages) (version : ℕ)
    (parts : ObjectHeader → Decoder A) (bytes : Bytes)
    → ((header : ObjectHeader) → IsTotal allocates (parts header))
    → length bytes ≤ u64_max
    → ReturnsUnless
        (Refused allocates bytes)
        (decode_header messages version bytes >>= λ h. parts h bytes header_len >>= λ r. ok r.0)
framed-ReturnsUnless allocates messages version parts bytes total fits =
    ReturnsUnless->>= _ _ _ (Returns-decode_header messages version bytes) (λ header e.
      Stays-ReturnsUnless (Refused allocates bytes) (length bytes) (parts header bytes header_len) (
        (total header).stays bytes header_len fits
          (decode_header-long messages version bytes header e)))

-- On every input whose length 64 bits hold the decoders of the rows of tables, views and macros
-- return a row or an error, unless the allocator has no room for a vector of as many elements as at
-- most four bytes of the input say: no slice and no index is out of bounds.
pub objects-ReturnsUnless :
    (allocates : Allocator) (bytes : Bytes)
    → length bytes ≤ u64_max
    → ReturnsUnless (Refused allocates bytes) (decode_table allocates bytes)
      × ReturnsUnless (Refused allocates bytes) (decode_view allocates bytes)
      × ReturnsUnless (Refused allocates bytes) (decode_macro allocates bytes)
unfolding decode_table decode_view decode_macro
objects-ReturnsUnless allocates bytes fits = (
  framed-ReturnsUnless allocates table_messages 8 (decode_table_parts allocates) bytes
      (IsTotal-table_parts allocates) fits,
  framed-ReturnsUnless allocates view_messages 1 (decode_view_parts allocates) bytes
      (IsTotal-view_parts allocates) fits,
  framed-ReturnsUnless allocates macro_messages 1 (decode_macro_parts allocates) bytes
      (IsTotal-macro_parts allocates) fits,
)
