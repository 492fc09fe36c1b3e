-- ===== src/LruCache/Operations.antt =====
-- Reads, removals and filters of a coherent cache.
use aux_ducklake.BTreeMap.Lookup.{
  get-retain_kept, get-retain_inv, length-remove, length-retain, length-insert_again,
}
use aux_ducklake.LruCache.{
  is_latest, LruCache, LruCacheEntry, new, next_recency_sequence, touch, get_value, remove_value,
  retain_values, wrapping_next,
}
use aux_ducklake.Base.{
  ℕ, ◌+◌, ◌^◌, ◌<◌, ◌≡◌, refl, true, false, Bool, none, some, if◌then◌else◌, Option-cases, inl, inr,
  arith,
}
use mathlib.Core.Path.{sym, ap, ◌∙◌, subst}
use aux_ducklake.BTreeMap.{Map, Ord, nat_ord, get, insert, remove, retain}
use aux_ducklake.BTreeMap.Sorted.{retain-IsSorted}
use aux_ducklake.LruCache.Linked.{Linked-remove, get-remove_inv}
use aux_ducklake.LruCache.Invariant.{
  IsCoherent, without, renewed-Linked, renewed-fresh, wrapping_next_lem,
}

module _ {K V : Type 0} ⦃ord : Ord K⦄ where
  pub new-IsCoherent : (capacity : ℕ) → IsCoherent (new {K = K} {V = V} capacity)
  unfolding new get
  new-IsCoherent capacity = record {
    linked = record {
      entries_sorted = tt;
      recency_sorted = tt;
      forth = λ k e q. cc;
      back = λ n k q. cc;
    };
    fresh = λ n k q. cc;
    fits = omega arith;
  }

  pub touch-some :
      (cache : LruCache K V) (key : K) (x : LruCacheEntry V)
      → get key cache.entries ≡ some x
      → touch cache key ≡ record {
        capacity = cache.capacity;
        entries =
            insert key (record { value = x.value; sequence = cache.next_sequence }) cache.entries;
        recency = insert cache.next_sequence key (without cache key);
        next_sequence = wrapping_next cache.next_sequence;
      }
  unfolding touch next_recency_sequence
  touch-some cache key x e = rw (touch, without, e) refl

  touch-IsCoherent :
      (cache : LruCache K V) (key : K) (x : LruCacheEntry V)
      → IsCoherent cache
      → cache.next_sequence + 1 < 2 ^ 64
      → get key cache.entries ≡ some x
      → IsCoherent (touch cache key)
  touch-IsCoherent cache key x c h e =
      subst (λ d. IsCoherent d) (sym (touch-some cache key x e))
        (record {
          linked = renewed-Linked cache key x.value c;
          fresh = λ n k q.
              rw (wrapping_next_lem cache.next_sequence h) (renewed-fresh cache key n k c q);
          fits =
              rw
                (length-insert_again key
                  (record { value = x.value; sequence = cache.next_sequence }) cache.entries {w = x}
                  c.linked.entries_sorted e)
                c.fits;
        })

  pub get_value-none :
      (cache : LruCache K V) (key : K)
      → get key cache.entries ≡ none
      → get_value cache key ≡ (none, cache)
  unfolding get_value
  get_value-none cache key e = rw (get_value, e) refl

  pub get_value-some :
      (cache : LruCache K V) (key : K) (x : LruCacheEntry V)
      → get key cache.entries ≡ some x
      → get_value cache key ≡ (some x.value, if is_latest cache x then cache else touch cache key)
  unfolding get_value
  get_value-some cache key x e = rw (get_value, e) refl

  get_value-IsCoherent :
      (cache : LruCache K V) (key : K)
      → IsCoherent cache
      → cache.next_sequence + 1 < 2 ^ 64
      → IsCoherent ((get_value cache key).1)
  get_value-IsCoherent cache key c h = elim (Option-cases (get key cache.entries)) [
    | inl e ↦ rw (get_value-none cache key e) c
    | inr (x, e) ↦
        rw (get_value-some cache key x e)
          (elim (is_latest cache x) as (λ b. IsCoherent (if b then cache else touch cache key)) [
            | true ↦ c
            | false ↦ touch-IsCoherent cache key x c h e
          ])
  ]

  remove_value-none :
      (cache : LruCache K V) (key : K)
      → get key cache.entries ≡ none
      → remove_value cache key ≡ cache
  unfolding remove_value
  remove_value-none cache key e = rw (remove_value, e) refl

  remove_value-some :
      (cache : LruCache K V) (key : K) (x : LruCacheEntry V)
      → get key cache.entries ≡ some x
      → remove_value cache key ≡ record cache {
        entries = remove key cache.entries;
        recency = remove x.sequence cache.recency;
      }
  unfolding remove_value
  remove_value-some cache key x e = rw (remove_value, e) refl

  remove_value-IsCoherent :
      (cache : LruCache K V) (key : K) → IsCoherent cache → IsCoherent (remove_value cache key)
  remove_value-IsCoherent cache key c = elim (Option-cases (get key cache.entries)) [
    | inl e ↦ rw (remove_value-none cache key e) c
    | inr (x, e) ↦
        subst (λ d. IsCoherent d) (sym (remove_value-some cache key x e))
          (record {
            linked = Linked-remove cache.entries cache.recency key x c.linked e;
            fresh = λ n k q.
                let (_, found) = get-remove_inv n x.sequence k cache.recency q in c.fresh n k found;
            fits = omega (arith, length-remove key cache.entries, c.fits);
          })
  ]

  is_kept : Map K (LruCacheEntry V) → ℕ → K → Bool
  is_kept kept n k = elim (get k kept) [ none ↦ false | some _ ↦ true ]

  is_kept_inv :
      (kept : Map K (LruCacheEntry V)) (n : ℕ) (k : K)
      → is_kept kept n k ≡ true
      → (x : LruCacheEntry V) × (get k kept ≡ some x)
  unfolding is_kept
  is_kept_inv kept n k h = elim (Option-cases (get k kept)) [
    | inl e ↦ let q = rw (is_kept, e) at h in cc
    | inr r ↦ r
  ]

  retain_values-IsCoherent :
      (cache : LruCache K V) (keep : K → V → Bool)
      → IsCoherent cache
      → IsCoherent (retain_values cache keep)
  unfolding retain_values is_kept
  retain_values-IsCoherent cache keep c =
      let test : K → LruCacheEntry V → Bool = λ k entry. keep k entry.value in
      let kept = retain test cache.entries in
      record {
        linked = record {
          entries_sorted = retain-IsSorted test cache.entries c.linked.entries_sorted;
          recency_sorted = retain-IsSorted (is_kept kept) cache.recency c.linked.recency_sorted;
          forth = λ k e q.
              let (found, _) = get-retain_inv k test e cache.entries c.linked.entries_sorted q in
              get-retain_kept e.sequence (is_kept kept) k cache.recency c.linked.recency_sorted
                (c.linked.forth k e found) (rw (is_kept, q) refl);
          back = λ n k q.
              let (found, there) =
                get-retain_inv n (is_kept kept) k cache.recency c.linked.recency_sorted q in
              let (x, held, at_n) = c.linked.back n k found in
              let (y, here) = is_kept_inv kept n k there in
              let (again, _) = get-retain_inv k test y cache.entries c.linked.entries_sorted here in
              let u : y ≡ x = (let t = sym again ∙ held in cc) in
              (y, here, ap (λ z. z.sequence) u ∙ at_n);
        };
        fresh = λ n k q.
            let (found, _) =
              get-retain_inv n (is_kept kept) k cache.recency c.linked.recency_sorted q in
            c.fresh n k found;
        fits = omega (arith, length-retain test cache.entries, c.fits);
      }

  -- Reads, removals and filters keep a cache coherent, and a new one is: a read while the counter
  -- does not wrap.
  pub operations-IsCoherent :
      (cache : LruCache K V) (key : K) (keep : K → V → Bool) (capacity : ℕ)
      → IsCoherent cache
      → cache.next_sequence + 1 < 2 ^ 64
      → IsCoherent (new {K = K} {V = V} capacity)
        × IsCoherent ((get_value cache key).1)
        × IsCoherent (remove_value cache key)
        × IsCoherent (retain_values cache keep)
  operations-IsCoherent cache key keep capacity c h = (
    new-IsCoherent capacity,
    get_value-IsCoherent cache key c h,
    remove_value-IsCoherent cache key c,
    retain_values-IsCoherent cache keep c,
  )
