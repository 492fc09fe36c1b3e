-- ===== src/LruCache.antt =====
-- crates/ducklake-catalog/src/lru_cache.rs: a cache that drops the entry used longest ago.
-- The sequence numbers are those of an unsigned 64-bit counter that wraps.
pub mod Linked
pub mod Evict
pub mod Invariant
pub mod Operations
pub mod Recency
pub mod Bounded
use aux_ducklake.Base.{
  true, false, ℕ, ◌+◌, ◌%◌, ◌^◌, Bool, Option, none, some, [], ◌∷◌, if◌then◌else◌, ◌==◌, leb,
  length, last?,
}
use aux_ducklake.BTreeMap.{Map, Ord, nat_ord, get, insert, remove, retain}
use aux_ducklake.Error.{CatalogResult, ok, panic, ◌>>=◌}

pub record LruCacheEntry (V : Type 0) : Type 0 where
  pub value : V
  pub sequence : ℕ

pub record LruCache (K V : Type 0) : Type 0 where
  pub capacity : ℕ
  pub entries : Map K (LruCacheEntry V)
  pub recency : Map ℕ K
  pub next_sequence : ℕ

-- `wrapping_add(1)`.
unfoldable pub wrapping_next : ℕ → ℕ
wrapping_next sequence = (sequence + 1) % 2 ^ 64

module _ {K V : Type 0} ⦃ord : Ord K⦄ where
  unfoldable pub new : ℕ → LruCache K V
  new capacity = record { capacity = capacity; entries = []; recency = []; next_sequence = 0 }

  unfoldable pub next_recency_sequence : LruCache K V → ℕ × LruCache K V
  next_recency_sequence cache =
      (cache.next_sequence, record cache { next_sequence = wrapping_next cache.next_sequence })

  unfoldable pub touch : LruCache K V → K → LruCache K V
  unfolding next_recency_sequence
  touch cache key =
      let (sequence, c) = next_recency_sequence cache in
      elim (get key c.entries) [
        | none ↦ c
        | some entry ↦ record c {
          recency = insert sequence key (remove entry.sequence c.recency);
          entries = insert key (record entry { sequence = sequence }) c.entries;
        }
      ]

  abbrev pub is_latest : LruCache K V → LruCacheEntry V → Bool
  is_latest cache entry = elim (last? cache.recency) [
    | none ↦ false
    | some e ↦ e.0 == entry.sequence
  ]

  -- Named `get_value`, since `get` is the map's.
  unfoldable pub get_value : LruCache K V → K → Option V × LruCache K V
  unfolding touch
  get_value cache key = elim (get key cache.entries) [
    | none ↦ (none, cache)
    | some entry ↦ (some entry.value, if is_latest cache entry then cache else touch cache key)
  ]

  -- The loop of `insert`: as long as there are too many entries the first key of the recency map is
  -- dropped, and the map without it is what the loop goes on with. Without a key the `expect` panics.
  unfoldable pub evict :
      ℕ → Map K (LruCacheEntry V) → Map ℕ K → CatalogResult (Map K (LruCacheEntry V) × Map ℕ K)
  evict capacity entries [] = if leb (length entries) capacity then ok (entries, []) else panic
  evict capacity entries ((sequence, oldest) ∷ recency) =
      let rest = evict capacity (remove oldest entries) recency in
      if leb (length entries) capacity then ok (entries, (sequence, oldest) ∷ recency) else rest

  unfoldable pub insert_value : LruCache K V → K → V → CatalogResult (LruCache K V)
  unfolding next_recency_sequence evict
  insert_value cache key value =
      if cache.capacity == 0
      then ok cache
      else (let (sequence, c) = next_recency_sequence cache in
          let entries : Map K (LruCacheEntry V) =
            insert key (record { value = value; sequence = sequence }) c.entries in
          let recency : Map ℕ K = elim (get key c.entries) [
            | none ↦ c.recency
            | some previous ↦ remove previous.sequence c.recency
          ] in
          evict c.capacity entries (insert sequence key recency) >>= λ r.
          ok (record c { entries = r.0; recency = r.1 }))

  unfoldable pub remove_value : LruCache K V → K → LruCache K V
  remove_value cache key = elim (get key cache.entries) [
    | none ↦ cache
    | some entry ↦ record cache {
      entries = remove key cache.entries;
      recency = remove entry.sequence cache.recency;
    }
  ]

  unfoldable pub retain_values : LruCache K V → (K → V → Bool) → LruCache K V
  retain_values cache keep =
      let kept = retain (λ k (entry : LruCacheEntry V). keep k entry.value) cache.entries in
      record cache {
        entries = kept;
        recency = retain (λ _ k. elim (get k kept) [ none ↦ false | some _ ↦ true ]) cache.recency;
      }
