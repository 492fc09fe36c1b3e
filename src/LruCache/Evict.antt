-- ===== src/LruCache/Evict.antt =====
-- The loop that drops the oldest entries while there are too many.
use aux_ducklake.Base.{
  ℕ, ◌+◌, ◌≤◌, ◌<◌, ◌≡◌, refl, true, none, some, [], ◌∷◌, Bool-cases, inl, inr, arith, length, leb,
  min,
}
use mathlib.Core.Path.{sym, ap, ◌∙◌, subst}
use aux_ducklake.Error.{ok}
use aux_ducklake.BTreeMap.{Map, Ord, nat_ord, same, get, remove, IsSorted, Above}
use aux_ducklake.BTreeMap.Lookup.{same_refl, same→eq}
use aux_ducklake.LruCache.{LruCacheEntry, evict}
use aux_ducklake.LruCache.Linked.{Linked, Linked-remove, get-remove_inv, get-remove_other}

module _ {K V : Type 0} ⦃ord : Ord K⦄ where
  remove-Above_same : (k : K) (m : Map K V) → Above k m → remove k m ≡ m
  unfolding remove
  remove-Above_same k [] a = refl
  remove-Above_same k ((j, w) ∷ m) (a, as') = ground (arith, remove-Above_same k m as')

  Above-get : (k j : K) (v : V) (m : Map K V) → Above k m → get j m ≡ some v → ord.lt k j ≡ true
  unfolding get
  Above-get k j v [] a e = cc
  Above-get k j v ((i, w) ∷ m) (a, as') e = elim (Bool-cases (same j i)) [
    | inl s ↦ subst (λ x. ord.lt k x ≡ true) (sym (same→eq j i s)) a
    | inr n ↦ Above-get k j v m as' (rw n at e)
  ]

  length-remove_present :
      (k : K) (m : Map K V) {v : V}
      → IsSorted m
      → get k m ≡ some v
      → length (remove k m) + 1 ≡ length m
  unfolding get remove
  length-remove_present k [] s e = cc
  length-remove_present k ((j, w) ∷ m) {v} (a, s) e = elim (Bool-cases (same k j)) [
    | inl q ↦
        let absent = remove-Above_same k m (subst (λ i. Above i m) (sym (same→eq k j q)) a) in
        rw (q, absent) (omega arith)
    | inr n ↦ let f = rw n at e in rw n (omega (arith, length-remove_present k m {v = v} s f))
  ]

module _ {K V : Type 0} ⦃ord : Ord K⦄ where
  pub get-head : (k : K) (v : V) (m : Map K V) → get k ((k, v) ∷ m) ≡ some v
  unfolding get
  get-head k v m = rw (same_refl k) refl

  get-tail : (k j : K) (v : V) (m : Map K V) → ord.lt k j ≡ true → get j ((k, v) ∷ m) ≡ get j m
  unfolding get
  get-tail k j v m h = ground arith

  remove-head : (k : K) (v : V) (m : Map K V) → Above k m → remove k ((k, v) ∷ m) ≡ m
  unfolding remove
  remove-head k v m a = rw (same_refl k) (remove-Above_same k m a)

module _ {K V : Type 0} ⦃ord : Ord K⦄ where
  -- What the loop makes of the two maps.
  pub record Evicted (capacity : ℕ) (entries : Map K (LruCacheEntry V)) (recency : Map ℕ K)
      (kept : Map K (LruCacheEntry V)) (kept_recency : Map ℕ K) : Type 0 where
    pub linked : Linked kept kept_recency
    pub fits : length kept ≤ capacity
    pub full : min capacity (length entries) ≤ length kept
    pub from_entries : (k : K) (e : LruCacheEntry V) → get k kept ≡ some e → get k entries ≡ some e
    pub from_recency : (n : ℕ) (k : K) → get n kept_recency ≡ some k → get n recency ≡ some k
    pub oldest_first :
        (j i : K) (e d : LruCacheEntry V)
        → get j entries ≡ some e
        → get j kept ≡ none
        → get i kept ≡ some d
        → e.sequence < d.sequence

  Evicted-none :
      (capacity : ℕ) (entries : Map K (LruCacheEntry V)) (recency : Map ℕ K)
      → Linked entries recency
      → length entries ≤ capacity
      → Evicted capacity entries recency entries recency
  Evicted-none capacity entries recency l h = record {
    linked = l;
    fits = h;
    full = omega arith;
    from_entries = λ k e q. q;
    from_recency = λ n k q. q;
    oldest_first = λ j i e d q r s. let u : none ≡ some e = sym r ∙ q in cc;
  }

  Linked-nil : (entries : Map K (LruCacheEntry V)) → Linked entries [] → entries ≡ []
  unfolding get
  Linked-nil [] l = refl
  Linked-nil ((k, e) ∷ entries) l = let q = l.forth k e (get-head k e entries) in cc

  Evicted-cons :
      (capacity : ℕ) (entries : Map K (LruCacheEntry V)) (n : ℕ) (oldest : K) (recency : Map ℕ K)
      (kept : Map K (LruCacheEntry V)) (kept_recency : Map ℕ K)
      → Linked entries ((n, oldest) ∷ recency)
      → capacity < length entries
      → Evicted capacity (remove oldest entries) recency kept kept_recency
      → Evicted capacity entries ((n, oldest) ∷ recency) kept kept_recency
  Evicted-cons capacity entries n oldest recency kept kept_recency l h r =
      let (above, rest) = l.recency_sorted in
      let (e, held, at_n) = l.back n oldest (get-head n oldest recency) in
      record {
        linked = r.linked;
        fits = r.fits;
        full =
            omega
              (arith, r.full, length-remove_present oldest entries {v = e} l.entries_sorted held);
        from_entries = λ k d q.
            let (_, found) = get-remove_inv k oldest d entries (r.from_entries k d q) in found;
        from_recency = λ m k q.
            let found = r.from_recency m k q in
            let lower = Above-get n m k recency above found in
            get-tail n m oldest recency lower ∙ found;
        oldest_first = λ j i d x q g s. elim (Bool-cases (same j oldest)) [
          | inl u ↦
              let w : d ≡ e =
                (let t = sym q ∙ ap (λ y. get y entries) (same→eq j oldest u) ∙ held in cc) in
              let later =
                Above-get n x.sequence i recency above
                  (r.from_recency x.sequence i (r.linked.forth i x s)) in
              let at_d : d.sequence ≡ n = ap (λ y. y.sequence) w ∙ at_n in ground arith
          | inr m ↦ r.oldest_first j i d x (get-remove_other j oldest entries m ∙ q) g s
        ];
      }

  Linked-tail :
      (entries : Map K (LruCacheEntry V)) (n : ℕ) (oldest : K) (recency : Map ℕ K)
      → Linked entries ((n, oldest) ∷ recency)
      → Linked (remove oldest entries) recency
  Linked-tail entries n oldest recency l =
      let (e, held, at_n) = l.back n oldest (get-head n oldest recency) in
      let (above, rest) = l.recency_sorted in
      subst (λ r. Linked (remove oldest entries) r)
        (ap (λ m. remove m ((n, oldest) ∷ recency)) at_n ∙ remove-head n oldest recency above)
        (Linked-remove entries ((n, oldest) ∷ recency) oldest e l held)

  pub evict-Evicted :
      (capacity : ℕ) (entries : Map K (LruCacheEntry V)) (recency : Map ℕ K)
      → Linked entries recency
      → (kept : Map K (LruCacheEntry V)) × (kept_recency : Map ℕ K) × (evict capacity entries
            recency
          ≡ ok (kept, kept_recency))
        × Evicted capacity entries recency kept kept_recency
  unfolding evict
  evict-Evicted capacity entries [] l =
      let none_left = Linked-nil entries l in
      let few : length entries ≤ capacity = rw none_left (omega arith) in
      let small : leb (length entries) capacity ≡ true = ground arith in
      (entries, [], rw small refl, Evicted-none capacity entries [] l few)
  evict-Evicted capacity entries ((n, oldest) ∷ recency) l =
      elim (Bool-cases (leb (length entries) capacity)) [
        | inl h ↦ (
          entries,
          (n, oldest) ∷ recency,
          rw h refl,
          Evicted-none capacity entries ((n, oldest) ∷ recency) l (ground arith),
        )
        | inr h ↦
            let (kept, kept_recency, e, r) =
              evict-Evicted capacity (remove oldest entries) recency
                (Linked-tail entries n oldest recency l) in
            (
              kept,
              kept_recency,
              rw h e,
              Evicted-cons capacity entries n oldest recency kept kept_recency l (ground arith) r,
            )
      ]
