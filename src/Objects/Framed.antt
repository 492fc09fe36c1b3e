-- ===== src/Objects/Framed.antt =====
-- A header and what follows it, read back together.
use aux_ducklake.Base.{ℕ, ◌≤◌, ◌≡◌, refl, [], ◌++◌, length, drop, append-nil, length-append, arith}
use mathlib.Core.Path.{sym, ap, ◌∙◌}
use aux_ducklake.Bytes.{Bytes}
use aux_ducklake.Error.{ok, ◌>>=◌}
use aux_ducklake.Ids.{u64_max}
use aux_ducklake.Objects.Cursor.{Decoder}
use aux_ducklake.Objects.Cursor.ReadsBack.{ReadsBack, drop-append_left}
use aux_ducklake.Objects.Header.{
  ObjectHeader, HeaderMessages, encode_header, decode_header, header_len,
}
use aux_ducklake.Objects.Header.RoundTrip.{
  IsObjectHeader, decode_header-encode_header, length-encode_header,
}

pub framed_lem :
    {A : Type 0} (messages : HeaderMessages) (version : ℕ) (header : ObjectHeader)
    (parts : ObjectHeader → Decoder A) (text : Bytes) (row : A)
    → IsObjectHeader header
    → ReadsBack (parts header) text row
    → length (encode_header version header ++ text) ≤ u64_max
    → decode_header messages version (encode_header version header ++ text)
        >>= (λ h. parts h (encode_header version header ++ text) header_len >>= λ r. ok r.0)
      ≡ ok row
framed_lem messages version header parts text row valid back fits =
    let bytes = encode_header version header ++ text in
    let sized = length-encode_header version header valid in
    let long : header_len ≤ length bytes =
      omega (arith, length-append (encode_header version header) text, sized) in
    let behind : drop header_len bytes ≡ text ++ [] =
      ap (λ n. drop n bytes) (sym sized)
      ∙ drop-append_left (encode_header version header) text
      ∙ sym (append-nil text) in
    rw
      (
        decode_header-encode_header messages version header text valid,
        back.reads bytes [] header_len fits long behind,
      )
      refl
