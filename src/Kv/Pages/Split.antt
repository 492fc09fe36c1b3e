-- ===== src/Kv/Pages/Split.antt =====
-- A sorted range is cut at one of its rows into the rows before it and the rows after it.
use aux_ducklake.Base.{
  split_take, append_assoc, drop, some, take, last?, ℕ, map, List, inr, inl, Bool-cases, true,
  false, All, ◌≡◌, refl, [], ◌∷◌, ◌++◌, arith,
}
use mathlib.Core.List
use mathlib.Core.List.{map-append}
use aux_ducklake.Kv.Ranges.{range_lem, within-Above, within}
use aux_ducklake.Kv.{range, item, RangeItem, Items}
use aux_ducklake.Bytes.Order.{
  ltb_bytes_asymm, ltb_bytes_irrefl, ltb_bytes_trans, ltb-leb_bytes_trans, leb-ltb_bytes_trans,
}
use aux_ducklake.BTreeMap.Sorted.{retain-IsSorted}
use mathlib.Core.Path.{sym, ap, ◌∙◌}
use aux_ducklake.BTreeMap.{IsSorted, bytes_ord, retain, Above}
use aux_ducklake.Bytes.{Bytes, ltb_bytes}
use aux_ducklake.Keys.{in_range}
use aux_ducklake.Kv.Pages.{key_after_scan_item}

lt-key_after : (k : Bytes) → ltb_bytes k (key_after_scan_item k) ≡ true
unfolding key_after_scan_item ltb_bytes
lt-key_after [] = refl
lt-key_after (x ∷ k) = ground (arith, lt-key_after k)

-- Nothing lies between a key and the key after it.
key_after-le : (k j : Bytes) → ltb_bytes k j ≡ true → ltb_bytes j (key_after_scan_item k) ≡ false
unfolding key_after_scan_item ltb_bytes
key_after-le [] [] h = cc
key_after-le [] (y ∷ []) h = ground arith
key_after-le [] (y ∷ z ∷ j) h = ground arith
key_after-le (x ∷ k) [] h = cc
key_after-le (x ∷ k) (y ∷ j) h = ground (arith, key_after-le k j)

-- A range within a range.
within-within :
    (a b c d : Bytes) (m : Items)
    → ltb_bytes b a ≡ false
    → ltb_bytes c d ≡ false
    → within b d (within a c m) ≡ within b d m
unfolding within retain
within-within a b c d [] h k = refl
within-within a b c d ((j, v) ∷ m) h k = ground (
  arith,
  within-within a b c d m h k,
  leb-ltb_bytes_trans j b a,
  leb-ltb_bytes_trans b a j,
  ltb-leb_bytes_trans j a b,
  ltb-leb_bytes_trans j d c,
  leb-ltb_bytes_trans a b j,
  ltb_bytes_trans j a b,
)

within_same : (a b : Bytes) (m : Items) → All (λ e. in_range a b e.0 ≡ true) m → within a b m ≡ m
unfolding within retain
within_same a b [] h = refl
within_same a b ((j, v) ∷ m) (h, hs) = rw (h, within_same a b m hs)

Above-middle :
    (j : Bytes) (xs : Items) (k v : Bytes) (ys : Items)
    → Above j (xs ++ (k, v) ∷ ys)
    → ltb_bytes j k ≡ true
Above-middle j [] k v ys (h, hs) = h
Above-middle j (x ∷ xs) k v ys (h, hs) = Above-middle j xs k v ys hs

-- Sorted rows that are cut by a range below one of their keys, and by a range above it.
within_before :
    (a c : Bytes) (xs : Items) (k v : Bytes) (ys : Items)
    → IsSorted (xs ++ (k, v) ∷ ys)
    → All (λ e. in_range a c e.0 ≡ true) (xs ++ (k, v) ∷ ys)
    → within a k (xs ++ (k, v) ∷ ys) ≡ xs
unfolding within retain
within_before a c [] k v ys (s, ss) (h, hs) =
    ground (arith, ltb_bytes_irrefl k, within-Above a k k ys (ltb_bytes_irrefl k) s)
within_before a c ((j, w) ∷ xs) k v ys (s, ss) (h, hs) =
    ground (arith, within_before a c xs k v ys ss hs, Above-middle j xs k v ys s)

after-All :
    (a c k : Bytes) (ys : Items)
    → Above k ys
    → All (λ e. in_range a c e.0 ≡ true) ys
    → All (λ e. in_range (key_after_scan_item k) c e.0 ≡ true) ys
after-All a c k [] s h = tt
after-All a c k ((j, v) ∷ ys) (s, ss) (h, hs) =
    (ground (arith, key_after-le k j s), after-All a c k ys ss hs)

within_after :
    (a c : Bytes) (xs : Items) (k v : Bytes) (ys : Items)
    → IsSorted (xs ++ (k, v) ∷ ys)
    → All (λ e. in_range a c e.0 ≡ true) (xs ++ (k, v) ∷ ys)
    → within (key_after_scan_item k) c (xs ++ (k, v) ∷ ys) ≡ ys
unfolding within retain
within_after a c [] k v ys (s, ss) (h, hs) =
    ground
      (arith, lt-key_after k, within_same (key_after_scan_item k) c ys (after-All a c k ys s hs))
within_after a c ((j, w) ∷ xs) k v ys (s, ss) (h, hs) = ground (
  arith,
  within_after a c xs k v ys ss hs,
  Above-middle j xs k v ys s,
  lt-key_after k,
  ltb_bytes_trans j k (key_after_scan_item k),
)

All-middle :
    (a c : Bytes) (xs : Items) (k v : Bytes) (ys : Items)
    → All (λ e. in_range a c e.0 ≡ true) (xs ++ (k, v) ∷ ys)
    → in_range a c k ≡ true
All-middle a c [] k v ys (h, hs) = h
All-middle a c (x ∷ xs) k v ys (h, hs) = All-middle a c xs k v ys hs

All-in_range : (a c : Bytes) (m : Items) → All (λ e. in_range a c e.0 ≡ true) (within a c m)
unfolding within retain
All-in_range a c [] = tt
All-in_range a c ((j, v) ∷ m) = elim (Bool-cases (in_range a c j)) [
  | inl e ↦ rw e (e, All-in_range a c m)
  | inr n ↦ rw n (All-in_range a c m)
]

pub within-IsSorted : (a c : Bytes) (m : Items) → IsSorted m → IsSorted (within a c m)
unfolding within
within-IsSorted a c m s = retain-IsSorted (λ key _. in_range a c key) m s

-- A range of a sorted store cut at one of its rows.
pub record Cut (a c k : Bytes) (m xs ys : Items) : Type 0 where
  pub low : ltb_bytes k a ≡ false
  pub high : ltb_bytes c (key_after_scan_item k) ≡ false
  pub before : within a k m ≡ xs
  pub after : within (key_after_scan_item k) c m ≡ ys

pub within-Cut :
    (a c : Bytes) (m xs : Items) (k v : Bytes) (ys : Items)
    → IsSorted m
    → within a c m ≡ xs ++ (k, v) ∷ ys
    → Cut a c k m xs ys
within-Cut a c m xs k v ys s e =
    let all = rw e at (All-in_range a c m) in
    let sorted = rw e at (within-IsSorted a c m s) in
    let mid = All-middle a c xs k v ys all in
    let above : ltb_bytes k a ≡ false = ground arith in
    let below : ltb_bytes k c ≡ true = ground arith in
    let upper = key_after-le k c below in
    let from_a : ltb_bytes (key_after_scan_item k) a ≡ false =
      ground (arith, lt-key_after k, ltb_bytes_trans k (key_after_scan_item k) a) in
    record {
      low = above;
      high = upper;
      before =
          sym (within-within a a c k m (ltb_bytes_irrefl a) (ltb_bytes_asymm k c below))
          ∙ ap (within a k) e
          ∙ within_before a c xs k v ys sorted all;
      after =
          sym (within-within a (key_after_scan_item k) c c m from_a (ltb_bytes_irrefl c))
          ∙ ap (within (key_after_scan_item k) c) e
          ∙ within_after a c xs k v ys sorted all;
    }

pair : RangeItem → Bytes × Bytes
pair row = (row.key, row.value)

map-pair : (rows : List RangeItem) → map item (map pair rows) ≡ rows
unfolding pair
map-pair [] = refl
map-pair (row ∷ rows) = ap (λ r. row ∷ r) (map-pair rows)

map-item : (m : Items) → map pair (map item m) ≡ m
unfolding pair
map-item [] = refl
map-item (e ∷ m) = ap (λ r. e ∷ r) (map-item m)

range-Cut :
    (a c : Bytes) (m : Items) (xs : List RangeItem) (l : RangeItem) (ys : List RangeItem)
    → IsSorted m
    → range a c m ≡ xs ++ l ∷ ys
    → Cut a c l.key m (map pair xs) (map pair ys)
unfolding pair
range-Cut a c m xs l ys s e = within-Cut a c m (map pair xs) l.key l.value (map pair ys) s (
    sym (map-item (within a c m))
    ∙ ap (map pair) (sym (range_lem a c m) ∙ e)
    ∙ map-append pair xs (l ∷ ys))

-- The range after the last of the first rows has the rows that are left.
pub range-after :
    (a c : Bytes) (m : Items) (n : ℕ) (l : RangeItem)
    → IsSorted m
    → last? (take n (range a c m)) ≡ some l
    → (ltb_bytes c (key_after_scan_item l.key) ≡ false)
      × (range (key_after_scan_item l.key) c m ≡ drop n (range a c m))
range-after a c m n l s e =
    let (xs, q) = split_take n (range a c m) l e in
    let cut = range-Cut a c m xs l (drop n (range a c m)) s q in
    (
      cut.high,
      range_lem (key_after_scan_item l.key) c m
          ∙ ap (map item) cut.after
          ∙ map-pair (drop n (range a c m)),
    )

reverse-middle :
    (xs : List RangeItem) (l : RangeItem) (ys : List RangeItem)
    → List.reverse (xs ++ l ∷ ys) ≡ List.reverse ys ++ l ∷ List.reverse xs
reverse-middle xs l ys =
    List.reverse-append xs (l ∷ ys)
    ∙ ap (λ r. r ++ List.reverse xs) (List.reverse-cons l ys)
    ∙ append_assoc (List.reverse ys) (l ∷ []) (List.reverse xs)

-- The range before the last of the first rows in the reverse order has the rows that are left.
pub range-before :
    (a c : Bytes) (m : Items) (n : ℕ) (l : RangeItem)
    → IsSorted m
    → last? (take n (List.reverse (range a c m))) ≡ some l
    → (ltb_bytes l.key a ≡ false)
      × (List.reverse (range a l.key m) ≡ drop n (List.reverse (range a c m)))
range-before a c m n l s e =
    let (xs, q) = split_take n (List.reverse (range a c m)) l e in
    let rest = drop n (List.reverse (range a c m)) in
    let forwards =
      sym (List.reverse-reverse (range a c m)) ∙ ap List.reverse q ∙ reverse-middle xs l rest in
    let cut = range-Cut a c m (List.reverse rest) l (List.reverse xs) s forwards in
    (
      cut.low,
      ap List.reverse
            (range_lem a l.key m ∙ ap (map item) cut.before ∙ map-pair (List.reverse rest))
          ∙ List.reverse-reverse rest,
    )
