-- ===== src/LruCache/Invariant.antt =====
-- The operations on a cache whose two maps refer to each other and which holds no more entries than
-- its capacity.
use aux_ducklake.Base.{
  ℕ, ◌+◌, ◌^◌, ◌≤◌, ◌<◌, ◌≡◌, refl, true, false, none, some, Bool-cases, Option-cases, inl, inr,
  arith, length, ◌==◌,
}
use mathlib.Core.Path.{sym, ◌∙◌, subst}
use aux_ducklake.Error.{ok}
use aux_ducklake.BTreeMap.{Map, Ord, nat_ord, get, insert, remove}
use aux_ducklake.LruCache.{
  LruCache, LruCacheEntry, next_recency_sequence, insert_value, wrapping_next,
}
use aux_ducklake.LruCache.Linked.{
  Linked, Linked-remove, Linked-insert, Linked-absent, get-remove_inv, get-insert_inv,
}
use aux_ducklake.LruCache.Evict.{Evicted, evict-Evicted}

pub wrapping_next_lem : (n : ℕ) → n + 1 < 2 ^ 64 → wrapping_next n ≡ n + 1
unfolding wrapping_next
wrapping_next_lem n h = omega arith

module _ {K V : Type 0} ⦃ord : Ord K⦄ where
  pub record IsCoherent (cache : LruCache K V) : Type 0 where
    pub linked : Linked cache.entries cache.recency
    pub fresh : (n : ℕ) (k : K) → get n cache.recency ≡ some k → n < cache.next_sequence
    pub fits : length cache.entries ≤ cache.capacity

  -- A sequence that was not given out yet is not in the map.
  next-absent :
      (cache : LruCache K V) → IsCoherent cache → get cache.next_sequence cache.recency ≡ none
  next-absent cache c = elim (Option-cases (get cache.next_sequence cache.recency)) [
    | inl e ↦ e
    | inr (k, e) ↦ absurd (omega (arith, c.fresh cache.next_sequence k e))
  ]

  -- The keys by sequence without the one of a key that is inserted again.
  abbrev pub without : LruCache K V → K → Map ℕ K
  without cache key = elim (get key cache.entries) [
    | none ↦ cache.recency
    | some previous ↦ remove previous.sequence cache.recency
  ]

  without-Linked :
      (cache : LruCache K V) (key : K)
      → IsCoherent cache
      → Linked (remove key cache.entries) (without cache key)
  without-Linked cache key c = elim (Option-cases (get key cache.entries)) [
    | inl e ↦ rw (without, e) (Linked-absent cache.entries cache.recency key c.linked e)
    | inr (p, e) ↦ rw (without, e) (Linked-remove cache.entries cache.recency key p c.linked e)
  ]

  pub without-recency :
      (cache : LruCache K V) (key : K) (n : ℕ) (k : K)
      → get n (without cache key) ≡ some k
      → get n cache.recency ≡ some k
  without-recency cache key n k q = elim (Option-cases (get key cache.entries)) [
    | inl e ↦ rw (without, e) at q
    | inr (p, e) ↦
        let (_, found) = get-remove_inv n p.sequence k cache.recency (rw (without, e) at q) in found
  ]

  without-absent :
      (cache : LruCache K V) (key : K)
      → IsCoherent cache
      → get cache.next_sequence (without cache key) ≡ none
  without-absent cache key c = elim (Option-cases (get cache.next_sequence (without cache key))) [
    | inl e ↦ e
    | inr (k, e) ↦ absurd (
        omega (
          arith,
          c.fresh cache.next_sequence k (without-recency cache key cache.next_sequence k e),
        ))
  ]

  -- The newest entry of a key put into both maps.
  pub renewed-Linked :
      (cache : LruCache K V) (key : K) (value : V)
      → IsCoherent cache
      → Linked
          (insert key (record { value = value; sequence = cache.next_sequence }) cache.entries)
          (insert cache.next_sequence key (without cache key))
  renewed-Linked cache key value c =
      Linked-insert cache.entries (without cache key) key
        (record { value = value; sequence = cache.next_sequence }) (without-Linked cache key c)
        c.linked.entries_sorted (without-absent cache key c)

  pub renewed-fresh :
      (cache : LruCache K V) (key : K) (n : ℕ) (k : K)
      → IsCoherent cache
      → get n (insert cache.next_sequence key (without cache key)) ≡ some k
      → n < cache.next_sequence + 1
  renewed-fresh cache key n k c q =
      elim (get-insert_inv n cache.next_sequence key k (without cache key) q) [
        | inl (u, t) ↦ omega arith
        | inr (m, found) ↦ omega (arith, c.fresh n k (without-recency cache key n k found))
      ]

  -- An insertion is the loop on the two maps with the new entry.
  pub insert_value-Evicted :
      (cache : LruCache K V) (key : K) (value : V)
      → IsCoherent cache
      → 0 < cache.capacity
      → (kept : Map K (LruCacheEntry V)) × (kept_recency : Map ℕ K) × (insert_value cache key value
          ≡ ok (record {
            capacity = cache.capacity;
            entries = kept;
            recency = kept_recency;
            next_sequence = wrapping_next cache.next_sequence;
          }))
        × Evicted cache.capacity
            (insert key (record { value = value; sequence = cache.next_sequence }) cache.entries)
            (insert cache.next_sequence key (without cache key))
            kept
            kept_recency
  unfolding insert_value next_recency_sequence
  insert_value-Evicted cache key value c h =
      let (kept, kept_recency, e, r) =
        evict-Evicted cache.capacity
          (insert key (record { value = value; sequence = cache.next_sequence }) cache.entries)
          (insert cache.next_sequence key (without cache key)) (renewed-Linked cache key value c) in
      let positive : (cache.capacity == 0) ≡ false = ground arith in
      (kept, kept_recency, rw (positive, e) refl, r)

  pub insert_zero :
      (cache : LruCache K V) (key : K) (value : V)
      → (cache.capacity == 0) ≡ true
      → insert_value cache key value ≡ ok cache
  unfolding insert_value
  insert_zero cache key value h = rw h refl

  -- On a coherent cache whose counter does not wrap an insertion does not panic, and it leaves a
  -- coherent cache, so that its entries stay within the capacity.
  pub insert_value-IsCoherent :
      (cache : LruCache K V) (key : K) (value : V)
      → IsCoherent cache
      → cache.next_sequence + 1 < 2 ^ 64
      → (after : LruCache K V) × (insert_value cache key value ≡ ok after) × IsCoherent after
  insert_value-IsCoherent cache key value c h = elim (Bool-cases (cache.capacity == 0)) [
    | inl z ↦ (cache, insert_zero cache key value z, c)
    | inr n ↦
        let (kept, kept_recency, e, r) = insert_value-Evicted cache key value c (ground arith) in
        (
          _,
          e,
          record {
            linked = r.linked;
            fresh = λ m k q.
                rw (wrapping_next_lem cache.next_sequence h)
                  (renewed-fresh cache key m k c (r.from_recency m k q));
            fits = r.fits;
          },
        )
  ]

  pub inserted-IsCoherent :
      (cache after : LruCache K V) (key : K) (value : V)
      → IsCoherent cache
      → cache.next_sequence + 1 < 2 ^ 64
      → insert_value cache key value ≡ ok after
      → IsCoherent after
  inserted-IsCoherent cache after key value c h e =
      let (found, q, d) = insert_value-IsCoherent cache key value c h in
      let u : found ≡ after = (let t = sym q ∙ e in cc) in subst (λ x. IsCoherent x) u d
