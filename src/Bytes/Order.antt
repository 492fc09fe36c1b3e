-- ===== src/Bytes/Order.antt =====
-- The order of slices is a strict total order, and a common prefix does not count.
use aux_ducklake.Base.{◌≡◌, refl, true, false, [], ◌∷◌, ◌++◌, if◌then◌else◌, length, arith}
use aux_ducklake.Bytes.{Bytes, ltb_bytes, eq_bytes}

pub ltb_bytes_irrefl : (a : Bytes) → ltb_bytes a a ≡ false
unfolding ltb_bytes
ltb_bytes_irrefl [] = refl
ltb_bytes_irrefl (x ∷ xs) = ground (arith, ltb_bytes_irrefl xs)

pub ltb_bytes_asymm : (a b : Bytes) → ltb_bytes a b ≡ true → ltb_bytes b a ≡ false
unfolding ltb_bytes
ltb_bytes_asymm [] [] h = refl
ltb_bytes_asymm [] (y ∷ ys) h = refl
ltb_bytes_asymm (x ∷ xs) [] h = cc
ltb_bytes_asymm (x ∷ xs) (y ∷ ys) h = ground (arith, ltb_bytes_asymm xs ys)

pub ltb_bytes_trans :
    (a b c : Bytes) → ltb_bytes a b ≡ true → ltb_bytes b c ≡ true → ltb_bytes a c ≡ true
unfolding ltb_bytes
ltb_bytes_trans [] [] c h k = cc
ltb_bytes_trans [] (y ∷ ys) [] h k = cc
ltb_bytes_trans [] (y ∷ ys) (z ∷ zs) h k = refl
ltb_bytes_trans (x ∷ xs) [] c h k = cc
ltb_bytes_trans (x ∷ xs) (y ∷ ys) [] h k = cc
ltb_bytes_trans (x ∷ xs) (y ∷ ys) (z ∷ zs) h k = ground (arith, ltb_bytes_trans xs ys zs)

pub ltb_bytes_total : (a b : Bytes) → ltb_bytes a b ≡ false → ltb_bytes b a ≡ false → a ≡ b
unfolding ltb_bytes
ltb_bytes_total [] [] h k = refl
ltb_bytes_total [] (y ∷ ys) h k = cc
ltb_bytes_total (x ∷ xs) [] h k = cc
ltb_bytes_total (x ∷ xs) (y ∷ ys) h k = ground (arith, ltb_bytes_total xs ys)

-- The mixed transitivities: `a <= b < c` and `a < b <= c`.
pub leb-ltb_bytes_trans :
    (a b c : Bytes) → ltb_bytes b a ≡ false → ltb_bytes b c ≡ true → ltb_bytes a c ≡ true
unfolding ltb_bytes
leb-ltb_bytes_trans [] [] c h k = k
leb-ltb_bytes_trans [] (y ∷ ys) [] h k = cc
leb-ltb_bytes_trans [] (y ∷ ys) (z ∷ zs) h k = refl
leb-ltb_bytes_trans (x ∷ xs) [] c h k = cc
leb-ltb_bytes_trans (x ∷ xs) (y ∷ ys) [] h k = cc
leb-ltb_bytes_trans (x ∷ xs) (y ∷ ys) (z ∷ zs) h k = ground (arith, leb-ltb_bytes_trans xs ys zs)

pub ltb-leb_bytes_trans :
    (a b c : Bytes) → ltb_bytes a b ≡ true → ltb_bytes c b ≡ false → ltb_bytes a c ≡ true
unfolding ltb_bytes
ltb-leb_bytes_trans a [] c h k = ground (arith, ltb_bytes_asymm [] a)
ltb-leb_bytes_trans [] (y ∷ ys) [] h k = cc
ltb-leb_bytes_trans [] (y ∷ ys) (z ∷ zs) h k = refl
ltb-leb_bytes_trans (x ∷ xs) (y ∷ ys) [] h k = cc
ltb-leb_bytes_trans (x ∷ xs) (y ∷ ys) (z ∷ zs) h k = ground (arith, ltb-leb_bytes_trans xs ys zs)

pub eq_bytes_refl : (a : Bytes) → eq_bytes a a ≡ true
unfolding eq_bytes
eq_bytes_refl [] = refl
eq_bytes_refl (x ∷ xs) = ground (arith, eq_bytes_refl xs)

pub eq_bytes→eq : (a b : Bytes) → eq_bytes a b ≡ true → a ≡ b
unfolding eq_bytes
eq_bytes→eq [] [] h = refl
eq_bytes→eq [] (y ∷ ys) h = cc
eq_bytes→eq (x ∷ xs) [] h = cc
eq_bytes→eq (x ∷ xs) (y ∷ ys) h = ground (arith, eq_bytes→eq xs ys)

pub ltb_bytes-append_left : (p a b : Bytes) → ltb_bytes (p ++ a) (p ++ b) ≡ ltb_bytes a b
unfolding ltb_bytes
ltb_bytes-append_left [] a b = refl
ltb_bytes-append_left (x ∷ xs) a b = ground (arith, ltb_bytes-append_left xs a b)

-- After equally long heads the tails decide only where the heads are equal.
pub ltb_bytes-append :
    (a b x y : Bytes)
    → length a ≡ length b
    → ltb_bytes (a ++ x) (b ++ y) ≡ (if eq_bytes a b then ltb_bytes x y else ltb_bytes a b)
unfolding ltb_bytes eq_bytes
ltb_bytes-append [] [] x y h = refl
ltb_bytes-append [] (b ∷ bs) x y h = absurd (omega arith)
ltb_bytes-append (a ∷ as') [] x y h = absurd (omega arith)
ltb_bytes-append (a ∷ as') (b ∷ bs) x y h =
    ground (arith, ltb_bytes-append as' bs x y (omega arith))

-- The same, by the order alone.
pub ltb_bytes-append_by_order :
    (a b x y : Bytes)
    → length a ≡ length b
    → ltb_bytes (a ++ x) (b ++ y)
      ≡ (if ltb_bytes a b then true else if ltb_bytes b a then false else ltb_bytes x y)
unfolding ltb_bytes
ltb_bytes-append_by_order [] [] x y h = refl
ltb_bytes-append_by_order [] (b ∷ bs) x y h = absurd (omega arith)
ltb_bytes-append_by_order (a ∷ as') [] x y h = absurd (omega arith)
ltb_bytes-append_by_order (a ∷ as') (b ∷ bs) x y h =
    ground (arith, ltb_bytes-append_by_order as' bs x y (omega arith))
