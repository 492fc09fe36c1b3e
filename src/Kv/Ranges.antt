-- ===== src/Kv/Ranges.antt =====
-- Ranges of rows that are in the order of their keys.
use aux_ducklake.Base.{
  true, All, length, ◌≤◌, ◌≡◌, refl, false, [], ◌∷◌, ◌++◌, map, arith, Bool-cases, inl, inr,
}
use aux_ducklake.Bytes.{Bytes, ltb_bytes}
use aux_ducklake.Bytes.Order.{ltb_bytes_trans, ltb-leb_bytes_trans, leb-ltb_bytes_trans}
use aux_ducklake.BTreeMap.{bytes_ord, retain, IsSorted, Above}
use aux_ducklake.Keys.{in_range}
use aux_ducklake.Kv.{Items, range, item}

-- The rows of a range.
unfoldable pub within : Bytes → Bytes → Items → Items
within start end items = retain (λ key _. in_range start end key) items

pub range_lem : (start end : Bytes) (m : Items) → range start end m ≡ map item (within start end m)
unfolding range within
range_lem start end m = refl

-- Nothing of a range lies above a key from its end on.
pub within-Above :
    (a b k : Bytes) (m : Items) → ltb_bytes k b ≡ false → Above k m → within a b m ≡ []
unfolding within retain
within-Above a b k [] h s = refl
within-Above a b k ((j, v) ∷ m) h (l, s) =
    ground (arith, within-Above a b k m h s, ltb_bytes_trans k j b)

-- A range is cut in two at a key between its ends.
pub within_split :
    (a b c : Bytes) (m : Items)
    → IsSorted m
    → ltb_bytes b a ≡ false
    → ltb_bytes c b ≡ false
    → within a c m ≡ within a b m ++ within b c m
unfolding within retain
within_split a b c [] s h k = refl
within_split a b c ((j, v) ∷ m) (l, s) h k = elim (Bool-cases (ltb_bytes j b)) [
  | inl low ↦ ground (arith, within_split a b c m s h k, ltb-leb_bytes_trans j b c)
  | inr high ↦ ground (
    arith,
    within_split a b c m s h k,
    within-Above a b j m high l,
    leb-ltb_bytes_trans a b j,
    ltb_bytes_trans j a b,
    leb-ltb_bytes_trans b j a,
  )
]

-- What holds of the rows that lie between two keys holds of the range.
pub All-within :
    (P R : Bytes × Bytes → Type 0) (a b : Bytes) (m : Items)
    → ((e : Bytes × Bytes) → P e → in_range a b e.0 ≡ true → R e)
    → All P m
    → All R (within a b m)
unfolding within retain
All-within P R a b [] f h = tt
All-within P R a b ((k, v) ∷ m) f (h, hs) = elim (Bool-cases (in_range a b k)) [
  | inl e ↦ rw e (f (k, v) h e, All-within P R a b m f hs)
  | inr n ↦ rw n (All-within P R a b m f hs)
]

pub length-within : (a b : Bytes) (m : Items) → length (within a b m) ≤ length m
unfolding within retain
length-within a b [] = omega arith
length-within a b ((k, v) ∷ m) = ground (arith, length-within a b m)
