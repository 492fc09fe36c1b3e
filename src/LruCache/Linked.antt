-- ===== src/LruCache/Linked.antt =====
-- The two maps of the cache refer to each other: the entries by key and the keys by sequence.
use mathlib.Core.Bool.{true≢false}
use aux_ducklake.Base.{◌⊎◌, ℕ, ◌≡◌, refl, true, false, none, some, Bool-cases, inl, inr}
use mathlib.Core.Path.{sym, ap, ◌∙◌}
use aux_ducklake.BTreeMap.{Map, Ord, nat_ord, same, get, insert, remove, IsSorted}
use aux_ducklake.BTreeMap.Lookup.{same_refl, same→eq, get-insert, get-remove}
use aux_ducklake.BTreeMap.Sorted.{insert-IsSorted, remove-IsSorted}
use aux_ducklake.LruCache.{LruCacheEntry}

pub absurd_same {ℓ} :
    {K : Type 0} ⦃ord : Ord K⦄ {A : Type ℓ} (i k : K) → i ≡ k → same i k ≡ false → A
absurd_same i k u n =
    let t : same i k ≡ true = ap (same i) (sym u) ∙ same_refl i in absurd (true≢false (sym t ∙ n))

module _ {K V : Type 0} ⦃ord : Ord K⦄ where
  -- What `get` finds after an insertion or a removal, by cases.
  pub get-insert_inv :
      (i k : K) (v w : V) (m : Map K V)
      → get i (insert k v m) ≡ some w
      → ((i ≡ k) × (v ≡ w)) ⊎ ((same i k ≡ false) × (get i m ≡ some w))
  get-insert_inv i k v w m e = elim (Bool-cases (same i k)) [
    | inl q ↦ let r = rw (get-insert i k v m, q) at e in inl (same→eq i k q, cc)
    | inr n ↦ inr (n, rw (get-insert i k v m, n) at e)
  ]

  pub get-insert_here : (k : K) (v : V) (m : Map K V) → get k (insert k v m) ≡ some v
  get-insert_here k v m = rw (get-insert k k v m, same_refl k) refl

  pub get-remove_inv :
      (i k : K) (w : V) (m : Map K V)
      → get i (remove k m) ≡ some w
      → (same i k ≡ false) × (get i m ≡ some w)
  get-remove_inv i k w m e = elim (Bool-cases (same i k)) [
    | inl q ↦ let r = rw (get-remove i k m, q) at e in cc
    | inr n ↦ (n, rw (get-remove i k m, n) at e)
  ]

  pub get-remove_other : (i k : K) (m : Map K V) → same i k ≡ false → get i (remove k m) ≡ get i m
  get-remove_other i k m n = rw (get-remove i k m, n) refl

  pub get-insert_other :
      (i k : K) (v : V) (m : Map K V) → same i k ≡ false → get i (insert k v m) ≡ get i m
  get-insert_other i k v m n = rw (get-insert i k v m, n) refl

module _ {K V : Type 0} ⦃ord : Ord K⦄ where
  pub record Linked (entries : Map K (LruCacheEntry V)) (recency : Map ℕ K) : Type 0 where
    pub entries_sorted : IsSorted entries
    pub recency_sorted : IsSorted recency
    pub forth :
        (k : K) (e : LruCacheEntry V) → get k entries ≡ some e → get e.sequence recency ≡ some k
    pub back :
        (n : ℕ) (k : K)
        → get n recency ≡ some k
        → (e : LruCacheEntry V) × (get k entries ≡ some e) × (e.sequence ≡ n)

  -- An entry is taken out of both maps.
  pub Linked-remove :
      (entries : Map K (LruCacheEntry V)) (recency : Map ℕ K) (k : K) (e : LruCacheEntry V)
      → Linked entries recency
      → get k entries ≡ some e
      → Linked (remove k entries) (remove e.sequence recency)
  Linked-remove entries recency k e l h = record {
    entries_sorted = remove-IsSorted k entries l.entries_sorted;
    recency_sorted = remove-IsSorted e.sequence recency l.recency_sorted;
    forth = λ j d q.
        let (other, found) = get-remove_inv j k d entries q in
        let r = l.forth j d found in
        elim (Bool-cases (same d.sequence e.sequence)) [
          | inl s ↦
              let t = ap (λ n. get n recency) (same→eq d.sequence e.sequence s) in
              let u : j ≡ k = (let w = sym r ∙ t ∙ l.forth k e h in cc) in absurd_same j k u other
          | inr n ↦ get-remove_other d.sequence e.sequence recency n ∙ r
        ];
    back = λ n j q.
        let (other, found) = get-remove_inv n e.sequence j recency q in
        let (x, held, at_n) = l.back n j found in
        elim (Bool-cases (same j k)) [
          | inl s ↦
              let t = ap (λ i. get i entries) (same→eq j k s) in
              let u : x ≡ e = (let w = sym held ∙ t ∙ h in cc) in
              absurd_same n e.sequence (sym at_n ∙ ap (λ y. y.sequence) u) other
          | inr m ↦ (x, get-remove_other j k entries m ∙ held, at_n)
        ];
  }

  -- An entry with a new sequence is put into both maps.
  pub Linked-insert :
      (entries : Map K (LruCacheEntry V)) (recency : Map ℕ K) (k : K) (d : LruCacheEntry V)
      → Linked (remove k entries) recency
      → IsSorted entries
      → get d.sequence recency ≡ none
      → Linked (insert k d entries) (insert d.sequence k recency)
  Linked-insert entries recency k d l s h = record {
    entries_sorted = insert-IsSorted k d entries s;
    recency_sorted = insert-IsSorted d.sequence k recency l.recency_sorted;
    forth = λ j e q. elim (get-insert_inv j k d e entries q) [
      | inl (u, t) ↦
          ap (λ n. get n (insert d.sequence k recency)) (sym (ap (λ y. y.sequence) t))
          ∙ get-insert_here d.sequence k recency
          ∙ ap some (sym u)
      | inr (n, found) ↦
          let r = l.forth j e (get-remove_other j k entries n ∙ found) in
          elim (Bool-cases (same e.sequence d.sequence)) [
            | inl s ↦
                let t = ap (λ n. get n recency) (same→eq e.sequence d.sequence s) in
                let u : none ≡ some j = sym h ∙ sym t ∙ r in cc
            | inr m ↦ get-insert_other e.sequence d.sequence k recency m ∙ r
          ]
    ];
    back = λ n j q. elim (get-insert_inv n d.sequence k j recency q) [
      | inl (u, t) ↦
          (d, ap (λ i. get i (insert k d entries)) (sym t) ∙ get-insert_here k d entries, sym u)
      | inr (m, found) ↦
          let (x, held, at_n) = l.back n j found in
          let (other, there) = get-remove_inv j k x entries held in
          (x, get-insert_other j k d entries other ∙ there, at_n)
    ];
  }

  -- Without an entry there is nothing to take out.
  pub Linked-absent :
      (entries : Map K (LruCacheEntry V)) (recency : Map ℕ K) (k : K)
      → Linked entries recency
      → get k entries ≡ none
      → Linked (remove k entries) recency
  Linked-absent entries recency k l h = record {
    entries_sorted = remove-IsSorted k entries l.entries_sorted;
    recency_sorted = l.recency_sorted;
    forth = λ j d q. let (other, found) = get-remove_inv j k d entries q in l.forth j d found;
    back = λ n j q.
        let (x, held, at_n) = l.back n j q in
        elim (Bool-cases (same j k)) [
          | inl s ↦
              let t : none ≡ some x =
                sym h ∙ sym (ap (λ i. get i entries) (same→eq j k s)) ∙ held in
              cc
          | inr m ↦ (x, get-remove_other j k entries m ∙ held, at_n)
        ];
  }
