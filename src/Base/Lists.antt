-- ===== src/Base/Lists.antt =====
-- Lists measured and cut by native numbers, under the library's names.
use mathlib.Core.List.{append_assoc, List, [], ◌∷◌, ◌++◌, map}
use mathlib.Core.Path.{sym, ◌≡◌, refl, ap, ◌∙◌, subst}
use mathlib.Core.Bool.{Bool}
use aux_ducklake.Base.Tests.{if◌then◌else◌, Option-cases}
use mathlib.Core.Logic.{inl, inr}
use Prim.Native.Nat.{ℕ, zero, suc, ◌+◌, ◌≤◌, ◌<◌}
use mathlib.Core.List
use mathlib.Core.Option
use mathlib.Core.Option.{Option, none, some}
use native.Mathlib.Omega.{arith}

module _ {ℓ} {A : Type ℓ} where
  abbrev pub length : List A → ℕ
  length [] = 0
  length (x ∷ xs) = suc (length xs)

  abbrev pub get_elem? : List A → ℕ → Option A
  get_elem? [] i = none
  get_elem? (x ∷ xs) zero = some x
  get_elem? (x ∷ xs) (suc i) = get_elem? xs i

  abbrev pub take : ℕ → List A → List A
  take zero xs = []
  take (suc n) [] = []
  take (suc n) (x ∷ xs) = x ∷ take n xs

  abbrev pub drop : ℕ → List A → List A
  drop zero xs = xs
  drop (suc n) [] = []
  drop (suc n) (x ∷ xs) = drop n xs

  abbrev pub All {κ} : (A → Type κ) → List A → Type κ
  All P [] = Unit {κ}
  All P (x ∷ xs) = P x × All P xs

  pub length-append : (xs ys : List A) → length (xs ++ ys) ≡ length xs + length ys
  length-append [] ys = omega arith
  length-append (x ∷ xs) ys = omega (arith, length-append xs ys)

  pub take_all : (n : ℕ) (xs : List A) → length xs ≤ n → take n xs ≡ xs
  take_all zero [] h = refl
  take_all zero (x ∷ xs) h = absurd (omega arith)
  take_all (suc n) [] h = refl
  take_all (suc n) (x ∷ xs) h = ap (λ r. x ∷ r) (take_all n xs (omega arith))

  pub take-append : (n : ℕ) (xs ys : List A) → length xs ≡ n → take n (xs ++ ys) ≡ xs
  take-append zero [] ys h = refl
  take-append zero (x ∷ xs) ys h = absurd (omega arith)
  take-append (suc n) [] ys h = absurd (omega arith)
  take-append (suc n) (x ∷ xs) ys h = ap (λ r. x ∷ r) (take-append n xs ys (omega arith))

  pub drop-append : (n : ℕ) (xs ys : List A) → length xs ≡ n → drop n (xs ++ ys) ≡ ys
  drop-append zero [] ys h = refl
  drop-append zero (x ∷ xs) ys h = absurd (omega arith)
  drop-append (suc n) [] ys h = absurd (omega arith)
  drop-append (suc n) (x ∷ xs) ys h = drop-append n xs ys (omega arith)

module _ {ℓ} {A : Type ℓ} where
  pub get_elem?-append_length :
      (n : ℕ) (xs : List A) (y : A) (ys : List A)
      → length xs ≡ n
      → get_elem? (xs ++ (y ∷ ys)) n ≡ some y
  get_elem?-append_length zero [] y ys h = refl
  get_elem?-append_length zero (x ∷ xs) y ys h = absurd (omega arith)
  get_elem?-append_length (suc n) [] y ys h = absurd (omega arith)
  get_elem?-append_length (suc n) (x ∷ xs) y ys h = get_elem?-append_length n xs y ys (omega arith)

  pub drop-append_add : (xs ys : List A) (n : ℕ) → drop (length xs + n) (xs ++ ys) ≡ drop n ys
  drop-append_add [] ys n = let e : 0 + n ≡ n = omega arith in rw e
  drop-append_add (x ∷ xs) ys n =
      let e : suc (length xs) + n ≡ suc (length xs + n) = omega arith in
      rw e (drop-append_add xs ys n)

  pub get_elem?-append_add :
      (xs ys : List A) (n : ℕ) → get_elem? (xs ++ ys) (length xs + n) ≡ get_elem? ys n
  get_elem?-append_add [] ys n = let e : 0 + n ≡ n = omega arith in rw e
  get_elem?-append_add (x ∷ xs) ys n =
      let e : suc (length xs) + n ≡ suc (length xs + n) = omega arith in
      rw e (get_elem?-append_add xs ys n)

  pub drop-append_suc :
      (n : ℕ) (xs : List A) (y : A) (ys : List A)
      → length xs ≡ n
      → drop (suc n) (xs ++ (y ∷ ys)) ≡ ys
  drop-append_suc zero [] y ys h = refl
  drop-append_suc zero (x ∷ xs) y ys h = absurd (omega arith)
  drop-append_suc (suc n) [] y ys h = absurd (omega arith)
  drop-append_suc (suc n) (x ∷ xs) y ys h = drop-append_suc n xs y ys (omega arith)

pub All-append {ℓ κ} :
    {A : Type ℓ} (P : A → Type κ) (xs ys : List A) → All P xs → All P ys → All P (xs ++ ys)
All-append P [] ys h k = k
All-append P (x ∷ xs) ys (hx, hxs) k = (hx, All-append P xs ys hxs k)

module _ {ℓ} {A : Type ℓ} where
  -- `.into_iter().next()`.
  abbrev pub first? : List A → Option A
  first? [] = none
  first? (x ∷ xs) = some x

  abbrev pub last? : List A → Option A
  last? [] = none
  last? (x ∷ xs) = elim (last? xs) [ none ↦ some x | some y ↦ some y ]

  pub last?-append :
      (xs ys : List A) → last? (xs ++ ys) ≡ elim (last? ys) [ none ↦ last? xs | some y ↦ some y ]
  last?-append [] ys = ground arith
  last?-append (x ∷ xs) ys = ground (arith, last?-append xs ys)

  first?-append :
      (xs ys : List A) → first? (xs ++ ys) ≡ elim (first? xs) [ none ↦ first? ys | some y ↦ some y ]
  first?-append [] ys = refl
  first?-append (x ∷ xs) ys = refl

  pub first?-reverse : (xs : List A) → first? (List.reverse xs) ≡ last? xs
  first?-reverse [] = refl
  first?-reverse (x ∷ xs) =
      ap first? (List.reverse-cons x xs)
      ∙ first?-append (List.reverse xs) (x ∷ [])
      ∙ ground (arith, first?-reverse xs)

  pub first?-take_one : (n : ℕ) (xs : List A) → first? (take (suc n) xs) ≡ first? xs
  first?-take_one n [] = refl
  first?-take_one n (x ∷ xs) = refl

module _ {ℓ κ} {A : Type ℓ} {B : Type κ} where
  pub length-map : (f : A → B) (xs : List A) → length (map f xs) ≡ length xs
  length-map f [] = refl
  length-map f (x ∷ xs) = ap suc (length-map f xs)

  pub last?-map : (f : A → B) (xs : List A) → last? (map f xs) ≡ Option.map f (last? xs)
  last?-map f [] = refl
  last?-map f (x ∷ xs) = ground (arith, last?-map f xs)

pub All-last? {ℓ κ} :
    {A : Type ℓ} (P : A → Type κ) (xs : List A) (x : A) → All P xs → last? xs ≡ some x → P x
All-last? P [] x h e = cc
All-last? {A} P (y ∷ xs) x (h, hs) e = go (last? xs) (λ q. All-last? P xs x hs q) e
  where
    go :
        (l : Option A)
        → (l ≡ some x → P x)
        → elim l [ none ↦ some y | some z ↦ some z ] ≡ some x
        → P x
    go none f r = let q : y ≡ x = cc r in subst P q h
    go (some z) f r = f r

pub All-map {ℓ κ μ ν} :
    {A : Type ℓ} {B : Type κ} (P : A → Type μ) (Q : B → Type ν) (f : A → B) (xs : List A)
    → ((x : A) → P x → Q (f x))
    → All P xs
    → All Q (map f xs)
All-map P Q f [] h a = tt
All-map P Q f (x ∷ xs) h (a, as') = (h x a, All-map P Q f xs h as')

pub All-imp {ℓ κ μ} :
    {A : Type ℓ} {P : A → Type κ} {Q : A → Type μ}
    → ((x : A) → P x → Q x)
    → (xs : List A) → All P xs
    → All Q xs
All-imp h [] a = tt
All-imp h (x ∷ xs) (a, ls) = (h x a, All-imp h xs ls)

-- `filter` by a Boolean test.
abbrev pub filter {ℓ} : {A : Type ℓ} → (A → Bool) → List A → List A
filter p [] = []
filter p (x ∷ xs) = let rest = filter p xs in if p x then x ∷ rest else rest

module _ {ℓ} {A : Type ℓ} where
  pub take-append-drop : (n : ℕ) (xs : List A) → take n xs ++ drop n xs ≡ xs
  take-append-drop zero xs = refl
  take-append-drop (suc n) [] = refl
  take-append-drop (suc n) (x ∷ xs) = ap (λ r. x ∷ r) (take-append-drop n xs)

  pub last?-none : (xs : List A) → last? xs ≡ none → xs ≡ []
  last?-none [] e = refl
  last?-none (x ∷ xs) e = elim (Option-cases (last? xs)) [
    | inl n ↦ (let q = rw n at e in cc q)
    | inr (y, s) ↦ (let q = rw s at e in cc q)
  ]

  pub split_last :
      (xs : List A) (l : A) → last? xs ≡ some l → (init : List A) × (xs ≡ init ++ l ∷ [])
  split_last [] l e = cc
  split_last (x ∷ xs) l e = elim (Option-cases (last? xs)) [
    | inl n ↦ let q = rw n at e in ([], rw (last?-none xs n) (cc q))
    | inr (y, s) ↦
        let (init, q) = split_last xs y s in (let t = rw s at e in (x ∷ init, rw q (cc t)))
  ]

  pub length-last? : (xs : List A) (l : A) → last? xs ≡ some l → 0 < length xs
  length-last? [] l e = cc
  length-last? (x ∷ xs) l e = omega arith

  -- Rows cut after their last one.
  pub split_take :
      (n : ℕ) (xs : List A) (l : A)
      → last? (take n xs) ≡ some l
      → (init : List A) × (xs ≡ init ++ l ∷ drop n xs)
  split_take n xs l e =
      let (init, s) = split_last (take n xs) l e in
      (
        init,
        sym (take-append-drop n xs)
            ∙ ap (λ r. r ++ drop n xs) s
            ∙ append_assoc init (l ∷ []) (drop n xs),
      )
