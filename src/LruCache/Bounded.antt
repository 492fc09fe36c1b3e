-- ===== src/LruCache/Bounded.antt =====
-- crates/ducklake-catalog/src/bounded_cache.rs: the cache behind a mutex. A poisoned mutex, on which
-- `lock` fails, is the flag `poisoned`; a panic while it is held is the panic of the operation.
use aux_ducklake.Base.{ℕ, Bool, false, Option, none, some, if◌then◌else◌}
use aux_ducklake.BTreeMap.{Ord}
use aux_ducklake.Error.{CatalogResult, ok, ◌>>=◌}
use aux_ducklake.LruCache.{LruCache, new, get_value, insert_value, retain_values}

pub record BoundedCache (K V : Type 0) : Type 0 where
  pub entries : LruCache K V
  pub poisoned : Bool

module _ {K V : Type 0} ⦃ord : Ord K⦄ where
  unfoldable pub new_bounded : ℕ → BoundedCache K V
  new_bounded capacity = record { entries = new capacity; poisoned = false }

  unfoldable pub get_ref : BoundedCache K V → K → Option V × BoundedCache K V
  get_ref cache key =
      if cache.poisoned
      then (none, cache)
      else (let (value, entries) = get_value cache.entries key in
          (value, record cache { entries = entries }))

  unfoldable pub insert_bounded : BoundedCache K V → K → V → CatalogResult (BoundedCache K V)
  insert_bounded cache key value =
      if cache.poisoned
      then ok cache
      else insert_value cache.entries key value >>= λ entries.
          ok (record cache { entries = entries })

  unfoldable pub retain_bounded : BoundedCache K V → (K → V → Bool) → BoundedCache K V
  retain_bounded cache keep =
      if cache.poisoned then cache else record cache { entries = retain_values cache.entries keep }

  -- `OnceLock::get_or_init` on the cell of a static cache.
  unfoldable pub static_bounded_cache : Option (BoundedCache K V) → ℕ → BoundedCache K V
  static_bounded_cache none capacity = new_bounded capacity
  static_bounded_cache (some cache) capacity = cache
