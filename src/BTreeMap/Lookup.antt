-- ===== src/BTreeMap/Lookup.antt =====
-- What `get` returns after `insert`, `remove` and `retain`.
use aux_ducklake.Base.{
  Option-cases, suc, Bool, Bool-cases, inl, inr, length, ◌≤◌, ◌+◌, ◌≡◌, refl, true, false, none,
  some, [], ◌∷◌, if◌then◌else◌, arith,
}
use mathlib.Core.Path.{◌∙◌, subst, sym, ap}
use aux_ducklake.BTreeMap.Sorted.{Above-trans}
use aux_ducklake.BTreeMap.{Above, IsSorted, retain, Ord, Map, same, get, insert, remove}

module _ {K : Type 0} ⦃ord : Ord K⦄ where
  pub same_refl : (a : K) → same a a ≡ true
  same_refl a = rw (ord.lt_irrefl a)

  pub same→eq : (a b : K) → same a b ≡ true → a ≡ b
  same→eq a b h = ord.lt_total a b (ground arith) (ground arith)

  pub same_of_lt : (a b : K) → ord.lt a b ≡ true → same a b ≡ false
  same_of_lt a b h = rw h

module _ {K V : Type 0} ⦃ord : Ord K⦄ where
  pub get-insert :
      (i k : K) (v : V) (m : Map K V)
      → get i (insert k v m) ≡ (if same i k then some v else get i m)
  unfolding get insert
  get-insert i k v [] = refl
  get-insert i k v ((j, w) ∷ m) = ground (
    arith,
    get-insert i k v m,
    ord.lt_total k j,
    ord.lt_total i k,
    ord.lt_total i j,
    ord.lt_irrefl i,
    ord.lt_irrefl k,
    ord.lt_irrefl j,
  )

  pub get-remove :
      (i k : K) (m : Map K V) → get i (remove k m) ≡ (if same i k then none else get i m)
  unfolding get remove
  get-remove i k [] = ground arith
  get-remove i k ((j, w) ∷ m) = ground (
    arith,
    get-remove i k m,
    ord.lt_total k j,
    ord.lt_total i k,
    ord.lt_total i j,
    ord.lt_irrefl i,
    ord.lt_irrefl k,
    ord.lt_irrefl j,
  )

  -- A key below all others is not there.
  pub get-Above : (k : K) (m : Map K V) → Above k m → get k m ≡ none
  unfolding get
  get-Above k [] a = refl
  get-Above k ((j, w) ∷ m) (a, as') = ground (arith, get-Above k m as')

  pub get-retain :
      (k : K) (keep : K → V → Bool) (m : Map K V)
      → IsSorted m
      → get k (retain keep m)
        ≡ elim (get k m) [ none ↦ none | some v ↦ if keep k v then some v else none ]
  unfolding get retain
  get-retain k keep [] s = refl
  get-retain k keep ((j, w) ∷ m) (a, s) = elim (Bool-cases (same k j)) [
    | inl e ↦
        let q = same→eq k j e in
        let absent : get k m ≡ none = get-Above k m (subst (λ i. Above i m) (sym q) a) in
        elim (Bool-cases (keep j w)) [
          | inl p ↦
              let kept : keep k w ≡ true = subst (λ i. keep i w ≡ true) (sym q) p in
              rw (p, e, kept) refl
          | inr p ↦
              let dropped : keep k w ≡ false = subst (λ i. keep i w ≡ false) (sym q) p in
              rw (p, e, dropped, get-retain k keep m s, absent) refl
        ]
    | inr n ↦ rw n (ground (arith, get-retain k keep m s))
  ]

  pub get-retain_kept :
      (k : K) (keep : K → V → Bool) (v : V) (m : Map K V)
      → IsSorted m
      → get k m ≡ some v
      → keep k v ≡ true
      → get k (retain keep m) ≡ some v
  get-retain_kept k keep v m s e h = rw (get-retain k keep m s, e, h) refl

  pub get-retain_inv :
      (k : K) (keep : K → V → Bool) (v : V) (m : Map K V)
      → IsSorted m
      → get k (retain keep m) ≡ some v
      → (get k m ≡ some v) × (keep k v ≡ true)
  get-retain_inv k keep v m s e = elim (Option-cases (get k m)) [
    | inl n ↦ let q = rw (get-retain k keep m s, n) at e in cc
    | inr (w, r) ↦ elim (Bool-cases (keep k w)) [
      | inl h ↦
          let q = rw (get-retain k keep m s, r, h) at e in
          let u : w ≡ v = cc in (r ∙ ap some u, ap (keep k) (sym u) ∙ h)
      | inr h ↦ let q = rw (get-retain k keep m s, r, h) at e in cc
    ]
  ]

  pub length-remove : (k : K) (m : Map K V) → length (remove k m) ≤ length m
  unfolding remove
  length-remove k [] = omega arith
  length-remove k ((j, w) ∷ m) = ground (arith, length-remove k m)

  pub length-retain : (keep : K → V → Bool) (m : Map K V) → length (retain keep m) ≤ length m
  unfolding retain
  length-retain keep [] = omega arith
  length-retain keep ((j, w) ∷ m) = ground (arith, length-retain keep m)

  pub length-insert : (k : K) (v : V) (m : Map K V) → length (insert k v m) ≤ length m + 1
  unfolding insert
  length-insert k v [] = omega arith
  length-insert k v ((j, w) ∷ m) = ground (arith, length-insert k v m)

  -- A key that is there is replaced.
  pub length-insert_again :
      (k : K) (v : V) (m : Map K V) {w : V}
      → IsSorted m
      → get k m ≡ some w
      → length (insert k v m) ≡ length m
  unfolding insert get
  length-insert_again k v [] s e = cc
  length-insert_again k v ((j, w) ∷ m) (a, s) e = elim (Bool-cases (ord.lt k j)) [
    | inl l ↦
        let absent = get-Above k m (Above-trans k j m l a) in
        let q = rw (same_of_lt k j l, absent) at e in cc q
    | inr n ↦ elim (Bool-cases (ord.lt j k)) [
      | inl g ↦ let q = rw (n, g) at e in rw (n, g) (ap suc (length-insert_again k v m s q))
      | inr e ↦ rw (n, e) refl
    ]
  ]
