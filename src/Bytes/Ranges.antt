-- ===== src/Bytes/Ranges.antt =====
-- Where a byte string with a given prefix lies between the ends of a scan.
use aux_ducklake.Base.{
  ◌≡◌, refl, sym, ◌∙◌, ap, true, false, not, some, [], ◌∷◌, ◌++◌, append-nil, if◌then◌else◌,
  Bool-cases, inl, inr, length, arith,
}
use aux_ducklake.Bytes.{Bytes, ltb_bytes, leb_bytes, eq_bytes, strip_prefix}
use aux_ducklake.Bytes.Order.{
  ltb_bytes_irrefl, ltb_bytes_asymm, ltb_bytes_total, ltb_bytes-append_left, ltb_bytes-append,
  eq_bytes→eq, eq_bytes_refl,
}

-- What begins with `p` is not below `p`.
pub ltb_bytes-append_self : (p x : Bytes) → ltb_bytes (p ++ x) p ≡ false
unfolding ltb_bytes
ltb_bytes-append_self [] [] = refl
ltb_bytes-append_self [] (b ∷ x) = refl
ltb_bytes-append_self (b ∷ p) x = ground (arith, ltb_bytes-append_self p x)

-- What lies from `p` on and below an extension of `p` begins with `p`.
pub prefix_of_between :
    (p z k : Bytes)
    → ltb_bytes k p ≡ false
    → ltb_bytes k (p ++ z) ≡ true
    → (x : Bytes) × (strip_prefix p k ≡ some x)
unfolding ltb_bytes strip_prefix
prefix_of_between [] z k h l = (k, refl)
prefix_of_between (b ∷ p) z [] h l = cc
prefix_of_between (b ∷ p) z (c ∷ k) h l =
    let (x, e) = prefix_of_between p z k (ground arith) (ground arith) in (x, ground arith)

not-ltb_bytes : (a b : Bytes) → (if eq_bytes a b then true else ltb_bytes a b) ≡ not (ltb_bytes b a)
not-ltb_bytes a b = elim (Bool-cases (eq_bytes a b)) [
  | inl e ↦ ground (arith, eq_bytes→eq a b e, ltb_bytes_irrefl a)
  | inr n ↦ ground (arith, ltb_bytes_asymm a b, ltb_bytes_total a b, eq_bytes_refl a)
]

tail_above_nil :
    (o s t : Bytes) → (if eq_bytes o s then ltb_bytes t [] else ltb_bytes o s) ≡ ltb_bytes o s
unfolding ltb_bytes
tail_above_nil o s [] = elim (Bool-cases (eq_bytes o s)) [
  | inl e ↦ ground (arith, eq_bytes→eq o s e, ltb_bytes_irrefl o)
  | inr n ↦ rw n
]
tail_above_nil o s (b ∷ t) = elim (Bool-cases (eq_bytes o s)) [
  | inl e ↦ ground (arith, eq_bytes→eq o s e, ltb_bytes_irrefl o)
  | inr n ↦ rw n
]

module _ (p o s t : Bytes) (sized : length o ≡ length s) where
  -- A scan's end `s 0xff` takes in every key of the order `s`.
  pub below_scan_end :
      ltb_bytes t (0xff ∷ []) ≡ true
      → ltb_bytes (p ++ (o ++ t)) (p ++ (s ++ (0xff ∷ []))) ≡ leb_bytes o s
  below_scan_end low =
      ltb_bytes-append_left p _ _ ∙ ltb_bytes-append o s t _ sized ∙ rw low (not-ltb_bytes o s)

  -- A scan's start `s` takes in every key of the order `s`.
  pub below_scan_start : ltb_bytes (p ++ (o ++ t)) (p ++ s) ≡ ltb_bytes o s
  below_scan_start =
      ltb_bytes-append_left p _ _
      ∙ ap (λ r. ltb_bytes (o ++ t) r) (sym (append-nil s))
      ∙ ltb_bytes-append o s t [] sized
      ∙ tail_above_nil o s t
