-- ===== src/BTreeMap.antt =====
-- `std::collections::BTreeMap`, as far as the catalog uses it: an association list in the order
-- of its keys. `HashMap` is modelled by it too, where the program never iterates over one.
pub mod Lookup
pub mod Sorted
use aux_ducklake.Base.{
  ℕ, ◌≡◌, Bool, true, false, ◌&&◌, not, Option, none, some, List, [], ◌∷◌, if◌then◌else◌, ltb, All,
  arith,
}
use aux_ducklake.Bytes.{Bytes, ltb_bytes}
use aux_ducklake.Bytes.Order.{ltb_bytes_irrefl, ltb_bytes_trans, ltb_bytes_total}

-- The trait `Ord` of a key type.
pub record Ord (K : Type 0) : Type 0 where
  pub lt : K → K → Bool
  pub lt_irrefl : (a : K) → lt a a ≡ false
  pub lt_trans : (a b c : K) → lt a b ≡ true → lt b c ≡ true → lt a c ≡ true
  pub lt_total : (a b : K) → lt a b ≡ false → lt b a ≡ false → a ≡ b

instance abbrev pub bytes_ord : Ord Bytes
bytes_ord = record {
  lt = ltb_bytes;
  lt_irrefl = ltb_bytes_irrefl;
  lt_trans = ltb_bytes_trans;
  lt_total = ltb_bytes_total;
}

pub ltb_irrefl : (a : ℕ) → ltb a a ≡ false
ltb_irrefl a = ground arith

pub ltb_trans : (a b c : ℕ) → ltb a b ≡ true → ltb b c ≡ true → ltb a c ≡ true
ltb_trans a b c h k = ground arith

pub ltb_total : (a b : ℕ) → ltb a b ≡ false → ltb b a ≡ false → a ≡ b
ltb_total a b h k = ground arith

instance abbrev pub nat_ord : Ord ℕ
nat_ord = record { lt = ltb; lt_irrefl = ltb_irrefl; lt_trans = ltb_trans; lt_total = ltb_total }

abbrev pub Map : Type 0 → Type 0 → Type 0
Map K V = List (K × V)

module _ {K : Type 0} ⦃ord : Ord K⦄ where
  -- Equality of keys, as the order has it.
  abbrev pub same : K → K → Bool
  same a b = not (ord.lt a b) && not (ord.lt b a)

module _ {K V : Type 0} ⦃ord : Ord K⦄ where
  unfoldable pub get : K → Map K V → Option V
  get k [] = none
  get k ((j, v) ∷ m) = let rest = get k m in if same k j then some v else rest

  unfoldable pub insert : K → V → Map K V → Map K V
  insert k v [] = (k, v) ∷ []
  insert k v ((j, w) ∷ m) =
      let rest = insert k v m in
      if ord.lt k j then (k, v) ∷ (j, w) ∷ m else if ord.lt j k then (j, w) ∷ rest else (k, v) ∷ m

  unfoldable pub remove : K → Map K V → Map K V
  remove k [] = []
  remove k ((j, w) ∷ m) = let rest = remove k m in if same k j then rest else (j, w) ∷ rest

  -- `retain`, and `range` with the test of its bounds.
  unfoldable pub retain : (K → V → Bool) → Map K V → Map K V
  retain keep [] = []
  retain keep ((j, w) ∷ m) = let rest = retain keep m in if keep j w then (j, w) ∷ rest else rest

  -- Every key of `m` is above `k`.
  abbrev pub Above : K → Map K V → Type 0
  Above k m = All (λ (e : K × V). ord.lt k e.0 ≡ true) m

  abbrev pub IsSorted : Map K V → Type 0
  IsSorted [] = Unit
  IsSorted ((k, v) ∷ m) = Above k m × IsSorted m
