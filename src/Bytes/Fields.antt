-- ===== src/Bytes/Fields.antt =====
-- The slices of a row that is made of fields, at the ends of these fields.
use aux_ducklake.Base.{
  true, get_elem?-append_add, drop-append_add, ℕ, zero, suc, ◌+◌, ◌-◌, ◌≡◌, refl, sym, ap, ◌∙◌,
  List, [], ◌∷◌, ◌++◌, append-nil, map, some, length, length-append, get_elem?, take, take-append,
  arith, leb, ◌&&◌,
}
use aux_ducklake.Bytes.{Bytes}
use aux_ducklake.Bytes.Slices.{slice, byte_at}
use aux_ducklake.Error.{ok}
use aux_ducklake.Keys.{concat}

abbrev pub sum : List ℕ → ℕ
sum [] = 0
sum (x ∷ xs) = x + sum xs

pub concat_cons : (x : Bytes) (xs : List Bytes) → concat (x ∷ xs) ≡ x ++ concat xs
concat_cons x [] = sym (append-nil x)
concat_cons x (y ∷ ys) = refl

pub length-concat : (xs : List Bytes) → length (concat xs) ≡ sum (map length xs)
length-concat [] = refl
length-concat (x ∷ xs) = rw (concat_cons x xs, length-append, length-concat xs)

slice-append_left : (x y : Bytes) → slice (x ++ y) 0 (length x) ≡ ok x
unfolding slice
slice-append_left x y =
    let fits : (leb 0 (length x) && leb (length x) (length (x ++ y))) ≡ true =
      rw length-append (ground arith) in
    rw (fits) (ap ok (take-append (length x - 0) x y (omega arith)))

slice-append_right :
    (x y : Bytes) (a b : ℕ) → slice (x ++ y) (length x + a) (length x + b) ≡ slice y a b
unfolding slice
slice-append_right x y a b =
    let fits : (leb (length x + a) (length x + b) && leb (length x + b) (length (x ++ y)))
        ≡ (leb a b && leb b (length y)) =
      rw length-append (ground arith) in
    let width : (length x + b) - (length x + a) ≡ b - a = omega arith in
    rw (fits, width, drop-append_add x y a)

-- The slice between two ends of fields is the field between them.
pub slice-concat :
    (xs : List Bytes) (k : ℕ) (x : Bytes)
    → get_elem? xs k ≡ some x
    → slice (concat xs) (sum (take k (map length xs))) (sum (take (suc k) (map length xs))) ≡ ok x
slice-concat [] k x h = cc
slice-concat (y ∷ xs) zero x h =
    let same : y ≡ x = cc h in
    let end : length y + 0 ≡ length y = omega arith in
    rw (concat_cons y xs, end, slice-append_left y (concat xs)) (ap ok same)
slice-concat (y ∷ xs) (suc k) x h =
    rw (concat_cons y xs) (slice-append_right y (concat xs) _ _ ∙ slice-concat xs k x h)

byte_at-append : (x y : Bytes) (n : ℕ) → byte_at (x ++ y) (length x + n) ≡ byte_at y n
unfolding byte_at
byte_at-append x y n = rw (byte_at, get_elem?-append_add x y n)

-- The byte at the end of a field is the next field, where this is one byte.
pub byte_at-concat :
    (xs : List Bytes) (k : ℕ) (b : ℕ)
    → get_elem? xs k ≡ some (b ∷ [])
    → byte_at (concat xs) (sum (take k (map length xs))) ≡ ok b
byte_at-concat [] k b h = cc
byte_at-concat (y ∷ xs) zero b h =
    let same : y ≡ b ∷ [] = cc h in rw (concat_cons y xs, same) (unfold byte_at in refl)
byte_at-concat (y ∷ xs) (suc k) b h =
    rw (concat_cons y xs) (byte_at-append y (concat xs) _ ∙ byte_at-concat xs k b h)

-- The same, with the ends given as numbers.
pub slice_field :
    (xs : List Bytes) (k : ℕ) (x : Bytes) (start end : ℕ)
    → get_elem? xs k ≡ some x
    → sum (take k (map length xs)) ≡ start
    → sum (take (suc k) (map length xs)) ≡ end
    → slice (concat xs) start end ≡ ok x
slice_field xs k x start end h s e = rw (sym s, sym e) (slice-concat xs k x h)

pub byte_field :
    (xs : List Bytes) (k b start : ℕ)
    → get_elem? xs k ≡ some (b ∷ [])
    → sum (take k (map length xs)) ≡ start
    → byte_at (concat xs) start ≡ ok b
byte_field xs k b start h s = rw (sym s) (byte_at-concat xs k b h)
