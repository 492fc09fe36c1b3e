-- ===== src/Tests/Caches.antt =====
-- A cache of two entries, into which a third one is inserted.
use aux_ducklake.LruCache.Operations.{new-IsCoherent, operations-IsCoherent}
use aux_ducklake.Base.{ℕ, ◌≤◌, ◌<◌, ◌≡◌, refl, [], ◌∷◌, some, arith, true}
use aux_ducklake.Error.{ok}
use aux_ducklake.BTreeMap.{nat_ord, get, insert, remove}
use aux_ducklake.LruCache.{
  LruCache, LruCacheEntry, new, evict, insert_value, get_value, remove_value, retain_values, touch,
  next_recency_sequence, wrapping_next,
}
use aux_ducklake.LruCache.Invariant.{IsCoherent, insert_value-IsCoherent, inserted-IsCoherent}
use aux_ducklake.LruCache.Recency.{insert_value-get, insert_value-drops_oldest, get_value-newest}

abbrev entry : ℕ → ℕ → LruCacheEntry ℕ
entry value sequence = record { value = value; sequence = sequence }

abbrev one : LruCache ℕ ℕ
one = record {
  capacity = 2;
  entries = (1, entry 10 0) ∷ [];
  recency = (0, 1) ∷ [];
  next_sequence = 1;
}

abbrev two : LruCache ℕ ℕ
two = record {
  capacity = 2;
  entries = (1, entry 10 0) ∷ (2, entry 20 1) ∷ [];
  recency = (0, 1) ∷ (1, 2) ∷ [];
  next_sequence = 2;
}

-- The entry 1 is read before the entry 3 is inserted, so that the entry 2 is dropped.
abbrev read : LruCache ℕ ℕ
read = record {
  capacity = 2;
  entries = (1, entry 10 2) ∷ (2, entry 20 1) ∷ [];
  recency = (1, 2) ∷ (2, 1) ∷ [];
  next_sequence = 3;
}

abbrev three : LruCache ℕ ℕ
three = record {
  capacity = 2;
  entries = (1, entry 10 2) ∷ (3, entry 30 3) ∷ [];
  recency = (2, 1) ∷ (3, 3) ∷ [];
  next_sequence = 4;
}

first_inserted : insert_value (new {K = ℕ} {V = ℕ} 2) 1 10 ≡ ok one
unfolding insert_value new get insert remove evict next_recency_sequence wrapping_next
first_inserted = refl

second_inserted : insert_value one 2 20 ≡ ok two
unfolding insert_value get insert remove evict next_recency_sequence wrapping_next
second_inserted = refl

first_read : get_value two 1 ≡ (some 10, read)
unfolding get_value touch get insert remove next_recency_sequence wrapping_next
first_read = refl

third_inserted : insert_value read 3 30 ≡ ok three
unfolding insert_value get insert remove evict next_recency_sequence wrapping_next
third_inserted = refl

empty-IsCoherent : IsCoherent (new {K = ℕ} {V = ℕ} 2)
empty-IsCoherent = new-IsCoherent 2

two-IsCoherent : IsCoherent two
unfolding new
two-IsCoherent =
    inserted-IsCoherent one two 2 20
      (inserted-IsCoherent (new 2) one 1 10 empty-IsCoherent (omega arith) first_inserted)
      (omega arith) second_inserted

operations-IsCoherent_example :
    IsCoherent (new {K = ℕ} {V = ℕ} 5)
    × IsCoherent ((get_value two 1).1)
    × IsCoherent (remove_value two 1)
    × IsCoherent (retain_values two (λ k v. true))
operations-IsCoherent_example =
    operations-IsCoherent two 1 (λ k v. true) 5 two-IsCoherent (omega arith)

read-IsCoherent : IsCoherent read
unfolding get_value touch get insert remove next_recency_sequence wrapping_next
read-IsCoherent = (operations-IsCoherent two 1 (λ k v. true) 5 two-IsCoherent (omega arith)).1

insert_value-IsCoherent_example :
    (after : LruCache ℕ ℕ) × (insert_value read 3 30 ≡ ok after) × IsCoherent after
insert_value-IsCoherent_example = insert_value-IsCoherent read 3 30 read-IsCoherent (omega arith)

insert_value-get_example : (get_value three 3).0 ≡ some 30
insert_value-get_example =
    insert_value-get read three 3 30 read-IsCoherent (omega arith) third_inserted

insert_value-drops_oldest_example : 1 < 2
unfolding get
insert_value-drops_oldest_example =
    insert_value-drops_oldest read three 3 30 2 1 (entry 20 1) (entry 10 2) read-IsCoherent
      third_inserted refl refl refl

get_value-newest_example : 1 ≤ 2
unfolding get get_value touch insert remove next_recency_sequence wrapping_next
get_value-newest_example =
    get_value-newest two 1 2 (entry 10 2) (entry 20 1) two-IsCoherent refl refl
