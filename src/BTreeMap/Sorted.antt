-- ===== src/BTreeMap/Sorted.antt =====
-- The operations keep the keys in order.
use aux_ducklake.Base.{◌≡◌, Bool, true, [], ◌∷◌, arith, Bool-cases, inl, inr}
use mathlib.Core.Path.{subst}
use aux_ducklake.BTreeMap.{Ord, Map, Above, IsSorted, insert, remove, retain}

module _ {K V : Type 0} ⦃ord : Ord K⦄ where
  pub Above-trans : (k j : K) (m : Map K V) → ord.lt k j ≡ true → Above j m → Above k m
  Above-trans k j [] h a = tt
  Above-trans k j ((i, v) ∷ m) h (a, as') = (ord.lt_trans k j i h a, Above-trans k j m h as')

  insert-Above :
      (i k : K) (v : V) (m : Map K V) → ord.lt i k ≡ true → Above i m → Above i (insert k v m)
  unfolding insert
  insert-Above i k v [] h a = (h, tt)
  insert-Above i k v ((j, w) ∷ m) h (a, as') = ground (arith, insert-Above i k v m h as')

  pub insert-IsSorted : (k : K) (v : V) (m : Map K V) → IsSorted m → IsSorted (insert k v m)
  unfolding insert
  insert-IsSorted k v [] s = (tt, tt)
  insert-IsSorted k v ((j, w) ∷ m) (a, s) = elim (Bool-cases (ord.lt k j)) [
    | inl l ↦ rw l ((l, Above-trans k j m l a), (a, s))
    | inr n ↦ elim (Bool-cases (ord.lt j k)) [
      | inl g ↦ rw (n, g) (insert-Above j k v m g a, insert-IsSorted k v m s)
      | inr e ↦ rw (n, e) (subst (λ i. Above i m) (ord.lt_total j k e n) a, s)
    ]
  ]

  remove-Above : (i k : K) (m : Map K V) → Above i m → Above i (remove k m)
  unfolding remove
  remove-Above i k [] a = tt
  remove-Above i k ((j, w) ∷ m) (a, as') = ground (arith, remove-Above i k m as')

  pub remove-IsSorted : (k : K) (m : Map K V) → IsSorted m → IsSorted (remove k m)
  unfolding remove
  remove-IsSorted k [] s = tt
  remove-IsSorted k ((j, w) ∷ m) (a, s) =
      ground (arith, remove-IsSorted k m s, remove-Above j k m a)

  retain-Above : (i : K) (keep : K → V → Bool) (m : Map K V) → Above i m → Above i (retain keep m)
  unfolding retain
  retain-Above i keep [] a = tt
  retain-Above i keep ((j, w) ∷ m) (a, as') = ground (arith, retain-Above i keep m as')

  pub retain-IsSorted : (keep : K → V → Bool) (m : Map K V) → IsSorted m → IsSorted (retain keep m)
  unfolding retain
  retain-IsSorted keep [] s = tt
  retain-IsSorted keep ((j, w) ∷ m) (a, s) =
      ground (arith, retain-IsSorted keep m s, retain-Above j keep m a)
