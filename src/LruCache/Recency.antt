-- ===== src/LruCache/Recency.antt =====
-- Which entry of a coherent cache is dropped: the one used longest ago.
use aux_ducklake.Base.{
  All-last?, last?-none, ℕ, ◌≤◌, ◌<◌, ◌≡◌, refl, true, none, some, [], ◌∷◌, if◌then◌else◌,
  Bool-cases, Option-cases, inl, inr, arith, length, ltb, last?, ◌==◌,
}
use aux_ducklake.LruCache.Operations.{get_value-none, get_value-some, touch-some}
use aux_ducklake.LruCache.Invariant.{
  insert_zero, IsCoherent, without, renewed-Linked, renewed-fresh, insert_value-Evicted,
}
use aux_ducklake.BTreeMap.Lookup.{same→eq}
use aux_ducklake.LruCache.{
  is_latest, LruCache, LruCacheEntry, touch, get_value, insert_value, wrapping_next,
}
use mathlib.Core.Path.{sym, ap, ◌∙◌, subst}
use aux_ducklake.Error.{ok}
use aux_ducklake.BTreeMap.{Map, Ord, nat_ord, same, get, insert, IsSorted}
use aux_ducklake.LruCache.Linked.{get-insert_inv, get-insert_here, get-insert_other}
use aux_ducklake.LruCache.Evict.{Evicted, get-head}

module _ {K : Type 0} where
  last-greatest :
      (m : Map ℕ K) (e : ℕ × K) (n : ℕ) (k : K)
      → IsSorted m
      → last? m ≡ some e
      → get n m ≡ some k
      → n ≤ e.0
  unfolding get
  last-greatest [] e n k s l q = cc
  last-greatest (x ∷ m) e n k (a, s) l q = elim (Option-cases (last? m)) [
    | inl none_left ↦
        let u : x ≡ e = (let t = rw none_left at l in cc) in
        elim (Bool-cases (same n x.0)) [
          | inl h ↦ let at_x = same→eq n x.0 h in subst (λ (d : ℕ × K). n ≤ d.0) u (omega arith)
          | inr h ↦ let t = sym (ap (get n) (last?-none m none_left)) ∙ rw h at q in cc
        ]
    | inr (y, f) ↦
        let u : y ≡ e = (let t = rw f at l in cc) in
        let above = All-last? (λ (d : ℕ × K). ltb x.0 d.0 ≡ true) m y a f in
        elim (Bool-cases (same n x.0)) [
          | inl h ↦
              let at_x = same→eq n x.0 h in
              let below : x.0 < y.0 = ground arith in subst (λ (d : ℕ × K). n ≤ d.0) u (omega arith)
          | inr h ↦ last-greatest m e n k s (f ∙ ap some u) (rw h at q)
        ]
  ]

module _ {K V : Type 0} ⦃ord : Ord K⦄ where
  -- The entry that an insertion adds.
  abbrev added : LruCache K V → V → LruCacheEntry V
  added cache value = record { value = value; sequence = cache.next_sequence }

  insert-length : (k : K) (v : V) (m : Map K V) → 0 < length (insert k v m)
  unfolding insert
  insert-length k v [] = omega arith
  insert-length k v ((j, w) ∷ m) = ground arith

  first-get : (m : Map K V) → 0 < length m → (i : K) × (d : V) × (get i m ≡ some d)
  first-get [] h = absurd (omega arith)
  first-get ((i, d) ∷ m) h = (i, d, get-head i d m)

module _ {K V : Type 0} ⦃ord : Ord K⦄ where
  kept-newest :
      (cache : LruCache K V) (key : K) (value : V) (kept : Map K (LruCacheEntry V))
      (kept_recency : Map ℕ K)
      → IsCoherent cache
      → 0 < cache.capacity
      → Evicted cache.capacity
          (insert key (added cache value) cache.entries)
          (insert cache.next_sequence key (without cache key))
          kept
          kept_recency
      → get key kept ≡ some (added cache value)
  kept-newest cache key value kept kept_recency c h r = elim (Option-cases (get key kept)) [
    | inl e ↦
        let present : 0 < length kept =
          omega (arith, r.full, insert-length key (added cache value) cache.entries) in
        let (i, d, first) = first-get kept present in
        let later =
          r.oldest_first key i (added cache value) d
            (get-insert_here key (added cache value) cache.entries) e first in
        let linked = renewed-Linked cache key value c in
        let found = linked.forth i d (r.from_entries i d first) in
        absurd (omega (arith, later, renewed-fresh cache key d.sequence i c found))
    | inr (x, e) ↦
        let there = r.from_entries key x e in
        let u : x ≡ added cache value =
          (let t = sym there ∙ get-insert_here key (added cache value) cache.entries in cc) in
        e ∙ ap some u
  ]

  inserted-Evicted :
      (cache after : LruCache K V) (key : K) (value : V)
      → IsCoherent cache
      → 0 < cache.capacity
      → insert_value cache key value ≡ ok after
      → Evicted cache.capacity
          (insert key (added cache value) cache.entries)
          (insert cache.next_sequence key (without cache key))
          after.entries
          after.recency
  inserted-Evicted cache after key value c h e =
      let (kept, kept_recency, q, r) = insert_value-Evicted cache key value c h in
      let u : record {
        capacity = cache.capacity;
        entries = kept;
        recency = kept_recency;
        next_sequence = wrapping_next cache.next_sequence;
      }
          ≡ after =
        (let t = sym q ∙ e in cc) in
      subst
        (λ (d : LruCache K V).
          Evicted cache.capacity (insert key (added cache value) cache.entries)
            (insert cache.next_sequence key (without cache key)) d.entries d.recency)
        u r

  -- What was inserted into a coherent cache of a capacity above 0 is found.
  pub insert_value-get :
      (cache after : LruCache K V) (key : K) (value : V)
      → IsCoherent cache
      → 0 < cache.capacity
      → insert_value cache key value ≡ ok after
      → (get_value after key).0 ≡ some value
  insert_value-get cache after key value c h e =
      let found =
        kept-newest cache key value after.entries after.recency c h
          (inserted-Evicted cache after key value c h e) in
      rw (get_value-some after key (added cache value) found) refl

  -- An entry that an insertion drops was used before every entry that stays.
  pub insert_value-drops_oldest :
      (cache after : LruCache K V) (key : K) (value : V) (dropped stays : K)
      (old young : LruCacheEntry V)
      → IsCoherent cache
      → insert_value cache key value ≡ ok after
      → get dropped cache.entries ≡ some old
      → get dropped after.entries ≡ none
      → get stays after.entries ≡ some young
      → old.sequence < young.sequence
  insert_value-drops_oldest cache after key value dropped stays old young c e held gone there =
      elim (Bool-cases (cache.capacity == 0)) [
        | inl z ↦
            let same_cache : cache ≡ after =
              (let t = sym (insert_zero cache key value z) ∙ e in cc) in
            let u : none ≡ some old =
              sym gone ∙ ap (λ (d : LruCache K V). get dropped d.entries) (sym same_cache) ∙ held in
            cc
        | inr n ↦
            let r = inserted-Evicted cache after key value c (ground arith) e in
            elim (Bool-cases (same dropped key)) [
              | inl s ↦
                  let newest =
                    kept-newest cache key value after.entries after.recency c (ground arith) r in
                  let u : none ≡ some (added cache value) =
                    sym gone ∙ ap (λ i. get i after.entries) (same→eq dropped key s) ∙ newest in
                  cc
              | inr m ↦
                  r.oldest_first dropped stays old young
                    (get-insert_other dropped key (added cache value) cache.entries m ∙ held) gone
                    there
            ]
      ]

  latest_greatest :
      (cache : LruCache K V) (x : LruCacheEntry V) (n : ℕ) (k : K)
      → IsCoherent cache
      → is_latest cache x ≡ true
      → get n cache.recency ≡ some k
      → n ≤ x.sequence
  latest_greatest cache x n k c h q = elim (Option-cases (last? cache.recency)) [
    | inl none_left ↦ let t = rw (is_latest, none_left) at h in cc
    | inr (e, l) ↦
        let t = rw (is_latest, l) at h in
        ground (arith, t, last-greatest cache.recency e n k c.linked.recency_sorted l q)
  ]

  newest_read :
      (cache : LruCache K V) (key other : K) (x read entry : LruCacheEntry V)
      → IsCoherent cache
      → get key cache.entries ≡ some x
      → get key (if is_latest cache x then cache else touch cache key).entries ≡ some read
      → get other (if is_latest cache x then cache else touch cache key).entries ≡ some entry
      → entry.sequence ≤ read.sequence
  newest_read cache key other x read entry c e q r = elim (Bool-cases (is_latest cache x)) [
    | inl latest ↦
        let q' = rw latest at q in
        let r' = rw latest at r in
        let u : x ≡ read = (let t = sym e ∙ q' in cc) in
        subst (λ (d : LruCacheEntry V). entry.sequence ≤ d.sequence) u
          (latest_greatest cache x entry.sequence other c latest (c.linked.forth other entry r'))
    | inr older ↦
        let q' = rw (older, touch-some cache key x e) at q in
        let r' = rw (older, touch-some cache key x e) at r in
        let u : added cache x.value ≡ read =
          (let t = sym (get-insert_here key (added cache x.value) cache.entries) ∙ q' in cc) in
        subst (λ (d : LruCacheEntry V). entry.sequence ≤ d.sequence) u
          (elim (get-insert_inv other key (added cache x.value) entry cache.entries r') [
            | inl (_, v) ↦ let w = ap (λ (d : LruCacheEntry V). d.sequence) v in omega arith
            | inr (_, found) ↦
                omega (arith, c.fresh entry.sequence other (c.linked.forth other entry found))
          ])
  ]

  -- The entry that a read of a coherent cache finds is then the one used last.
  pub get_value-newest :
      (cache : LruCache K V) (key other : K) (read entry : LruCacheEntry V)
      → IsCoherent cache
      → get key (get_value cache key).1.entries ≡ some read
      → get other (get_value cache key).1.entries ≡ some entry
      → entry.sequence ≤ read.sequence
  get_value-newest cache key other read entry c q r = elim (Option-cases (get key cache.entries)) [
    | inl e ↦
        let t = rw (get_value-none cache key e) at q in let u : none ≡ some read = sym e ∙ t in cc
    | inr (x, e) ↦
        newest_read cache key other x read entry c e (rw (get_value-some cache key x e) at q)
          (rw (get_value-some cache key x e) at r)
  ]
