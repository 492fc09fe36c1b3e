-- ===== src/Error.antt =====
-- crates/ducklake-catalog/src/error.rs: `CatalogError`, and results as values.
-- A message is its fixed text; what a format string inserts into it is left out.
-- `panic` stands for a call that does not return: an `expect` or an index that panics, or an
-- allocation that aborts.
use aux_ducklake.Base.{
  All, map, ◌≡◌, refl, String, List, Option, none, some, [], ◌∷◌, Bool, true, false,
}
use aux_ducklake.Bytes.{Bytes}
use aux_ducklake.Ids.{CommitAttemptId, TableId, CatalogOrderId}
use aux_ducklake.FileListing.{DataFileChange}

pub data CatalogError : Type 0 where
  backend : String → CatalogError
  commit_attempt_order_changed : CommitAttemptId → CatalogError
  conflict_fence_changed : Bytes → CatalogError
  decode : String → CatalogError
  invalid_mutation : String → CatalogError
  invalid_key : String → CatalogError
  logical_conflict : TableId → List DataFileChange → CatalogError
  table_logical_conflict : TableId → CatalogOrderId → CatalogError
  table_schema_conflict : TableId → CatalogOrderId → CatalogError
  not_found : String → CatalogError

pub data CatalogResult {ℓ} (A : Type ℓ) : Type ℓ where
  ok : A → CatalogResult A
  err : CatalogError → CatalogResult A
  panic : CatalogResult A

-- An early `return Err(error)` unless the test holds.
abbrev pub ensure : Bool → CatalogError → CatalogResult (Unit {0})
ensure false error = err error
ensure true error = ok tt

-- The operator `?`: the rest runs on a value, and an error or a panic ends the function.
module _ {ℓ κ} {A : Type ℓ} {B : Type κ} where
  infixl 5 ◌>>=◌
  abbrev pub ◌>>=◌ : CatalogResult A → (A → CatalogResult B) → CatalogResult B
  panic >>= rest = panic
  err error >>= rest = err error
  ok value >>= rest = rest value

module _ {ℓ} {B : Type ℓ} where
  infixl 5 ◌>>◌
  abbrev pub ◌>>◌ : CatalogResult (Unit {0}) → CatalogResult B → CatalogResult B
  first >> rest = first >>= (λ _. rest)

-- `Option::ok_or`.
abbrev pub ok_or {ℓ} : {A : Type ℓ} → Option A → CatalogError → CatalogResult A
ok_or none e = err e
ok_or (some a) e = ok a

-- `option.map(f).transpose()`.
abbrev pub transpose_map {ℓ κ} :
    {A : Type ℓ} {B : Type κ} → Option A → (A → CatalogResult B) → CatalogResult (Option B)
transpose_map none f = ok none
transpose_map (some a) f = f a >>= λ b. ok (some b)

-- `iter().map(f).collect::<CatalogResult<Vec<_>>>()`.
module _ {ℓ κ} {A : Type ℓ} {B : Type κ} where
  unfoldable pub collect_map : (A → CatalogResult B) → List A → CatalogResult (List B)
  collect_map f [] = ok []
  collect_map f (x ∷ xs) = let rest = collect_map f xs in f x >>= λ y. rest >>= λ ys. ok (y ∷ ys)

  pub collect_map_ok :
      (f : A → CatalogResult B) (g : A → B) (xs : List A)
      → All (λ x. f x ≡ ok (g x)) xs
      → collect_map f xs ≡ ok (map g xs)
  unfolding collect_map
  collect_map_ok f g [] h = refl
  collect_map_ok f g (x ∷ xs) (h, hs) = rw (h, collect_map_ok f g xs hs)

  -- Where a chain succeeds its first step did, and the rest on its value.
  pub >>=-eq-ok :
      (first : CatalogResult A) (rest : A → CatalogResult B) {result : B}
      → (first >>= rest) ≡ ok result
      → (value : A) × (first ≡ ok value) × (rest value ≡ ok result)
  >>=-eq-ok panic rest h = cc
  >>=-eq-ok (err error) rest h = cc
  >>=-eq-ok (ok value) rest h = (value, refl, h)

  pub collect_map_congr :
      (f g : A → CatalogResult B) (xs : List A)
      → All (λ x. f x ≡ g x) xs
      → collect_map f xs ≡ collect_map g xs
  unfolding collect_map
  collect_map_congr f g [] h = refl
  collect_map_congr f g (x ∷ xs) (h, hs) = rw (h, collect_map_congr f g xs hs)

module _ {ℓ κ μ} {A : Type ℓ} {B : Type κ} {C : Type μ} where
  pub >>=_assoc :
      (m : CatalogResult A) (f : A → CatalogResult B) (g : B → CatalogResult C)
      → m >>= f >>= g ≡ m >>= (λ a. f a >>= g)
  >>=_assoc (ok a) f g = refl
  >>=_assoc (err e) f g = refl
  >>=_assoc panic f g = refl

module _ {ℓ κ} {A : Type ℓ} {B : Type κ} where
  pub >>=_congr :
      (m : CatalogResult A) (f g : A → CatalogResult B) → ((a : A) → f a ≡ g a) → m >>= f ≡ m >>= g
  >>=_congr (ok a) f g h = h a
  >>=_congr (err e) f g h = refl
  >>=_congr panic f g h = refl
