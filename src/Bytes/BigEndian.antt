-- ===== src/Bytes/BigEndian.antt =====
-- Big-endian integers: length, round trips, and agreement of the byte order with the number order.
use native.Mathlib.Nat.{
  pow-suc, div-add-mod, mod-lt, mul-le-mul_left, mul-add-div_right, mul-add-mod_self_right,
  mod-eq_of_lt, div-eq_of_lt, add-zero,
}
use aux_ducklake.Base.{
  ℕ, zero, suc, ◌*◌, ◌/◌, ◌%◌, ◌^◌, ◌<◌, ◌≡◌, refl, ap, [], ◌∷◌, true, false, ltb, if◌then◌else◌,
  length, arith,
}
use aux_ducklake.Bytes.{Bytes, AreBytes, ltb_bytes, to_be_bytes, from_be_bytes}

pub length-to_be_bytes : (w v : ℕ) → length (to_be_bytes w v) ≡ w
unfolding to_be_bytes
length-to_be_bytes zero v = refl
length-to_be_bytes (suc w) v = ap suc (length-to_be_bytes w (v % 256 ^ w))

pow-pos : (w : ℕ) → 0 < 256 ^ w
pow-pos zero = omega arith
pow-pos (suc w) = rw pow-suc (omega (arith, pow-pos w))

-- The leading digit and the rest, at the weight `P` of the leading digit.
module _ (P : ℕ) (pos : 0 < P) where
  digit_lt : (v : ℕ) → v < P * 256 → v / P < 256
  digit_lt v h = grind (arith, div-add-mod v P)

  lt_of_quotient : (a b : ℕ) → a / P < b / P → a < b
  lt_of_quotient a b h =
      omega (arith, div-add-mod a P, div-add-mod b P, mod-lt a pos, mul-le-mul_left P h)

  ltb_digits :
      (a b : ℕ)
      → (if ltb (a / P) (b / P)
          then true
          else if ltb (b / P) (a / P)
          then false
          else ltb (a % P) (b % P))
        ≡ ltb a b
  ltb_digits a b = ground (
    arith,
    lt_of_quotient a b,
    lt_of_quotient b a,
    div-add-mod a P,
    div-add-mod b P,
    ap (λ (t : ℕ). P * t) {x = a / P} {y = b / P},
  )

rest_lt : (w v : ℕ) → v % 256 ^ w < 256 ^ w
rest_lt w v = omega (arith, pow-pos w)

pub to_be_bytes-AreBytes : (w v : ℕ) → v < 256 ^ w → AreBytes (to_be_bytes w v)
unfolding to_be_bytes
to_be_bytes-AreBytes zero v h = tt
to_be_bytes-AreBytes (suc w) v h = (
  digit_lt (256 ^ w) (pow-pos w) v (rw pow-suc at h),
  to_be_bytes-AreBytes w (v % 256 ^ w) (rest_lt w v),
)

pub from_be_bytes-to_be_bytes : (w v : ℕ) → v < 256 ^ w → from_be_bytes (to_be_bytes w v) ≡ v
unfolding to_be_bytes from_be_bytes
from_be_bytes-to_be_bytes zero v h = omega arith
from_be_bytes-to_be_bytes (suc w) v h =
    rw (length-to_be_bytes w (v % 256 ^ w), from_be_bytes-to_be_bytes w _ (rest_lt w v))
      (omega (arith, div-add-mod v (256 ^ w)))

-- Equally wide encodings compare as their numbers.
pub ltb_bytes-to_be_bytes :
    (w a b : ℕ)
    → a < 256 ^ w
    → b < 256 ^ w
    → ltb_bytes (to_be_bytes w a) (to_be_bytes w b) ≡ ltb a b
unfolding to_be_bytes ltb_bytes
ltb_bytes-to_be_bytes zero a b ha hb = ground arith
ltb_bytes-to_be_bytes (suc w) a b ha hb =
    rw (ltb_bytes-to_be_bytes w _ _ (rest_lt w a) (rest_lt w b))
      (ltb_digits (256 ^ w) (pow-pos w) a b)

pub to_be_bytes_injective :
    (w a b : ℕ) → a < 256 ^ w → b < 256 ^ w → to_be_bytes w a ≡ to_be_bytes w b → a ≡ b
to_be_bytes_injective w a b ha hb e =
    cc (from_be_bytes-to_be_bytes w a ha, from_be_bytes-to_be_bytes w b hb)

pub from_be_bytes-lt : (bs : Bytes) → AreBytes bs → from_be_bytes bs < 256 ^ length bs
unfolding from_be_bytes
from_be_bytes-lt [] h = omega arith
from_be_bytes-lt (b ∷ bs) (hb, hbs) =
    rw pow-suc (omega (arith, from_be_bytes-lt bs hbs, mul-le-mul_left (256 ^ length bs) hb))

-- Bytes are read and written back unchanged.
pub to_be_bytes-from_be_bytes :
    (bs : Bytes) → AreBytes bs → to_be_bytes (length bs) (from_be_bytes bs) ≡ bs
unfolding to_be_bytes from_be_bytes
to_be_bytes-from_be_bytes [] h = refl
to_be_bytes-from_be_bytes (b ∷ bs) (hb, hbs) =
    let low = from_be_bytes-lt bs hbs in
    rw (
      mul-add-div_right (pow-pos (length bs)),
      div-eq_of_lt low,
      add-zero,
      mul-add-mod_self_right,
      mod-eq_of_lt low,
      to_be_bytes-from_be_bytes bs hbs,
    )
