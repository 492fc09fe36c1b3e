-- ===== src/Conflict/Monotone.antt =====
-- What staging a watermark leaves in the batch, and in the store after a commit.
use mathlib.Core.Path.{subst}
use aux_ducklake.Error.{err, panic, CatalogResult, ok, >>=-eq-ok, ◌>>=◌}
use aux_ducklake.Kv.{OrderedCatalogKv}
use mathlib.Core.Option
use aux_ducklake.Base.{
  ℕ, ◌≤◌, ◌≡◌, refl, sym, ap, ◌∙◌, Option, none, some, List, [], ◌∷◌, true, false, ◌==◌, max,
  length, map, Bool-cases, inl, inr, arith,
}
use aux_ducklake.Bytes.{Bytes, eq_bytes, to_be_bytes, from_be_bytes}
use aux_ducklake.Bytes.Order.{eq_bytes_refl, eq_bytes→eq}
use aux_ducklake.BTreeMap.{bytes_ord, same, get}
use aux_ducklake.BTreeMap.Lookup.{same_refl, same→eq}
use aux_ducklake.Kv.Batch.{KvBatch, put_max_u64, put_max_writes}
use aux_ducklake.Kv.Commit.{commit_rows, row_after, last_write, times_listed}
use aux_ducklake.Kv.Fake.{FakeOrderedCatalogKv, ordered_kv, commit}
use aux_ducklake.Conflict.Watermarks.{stage_max_u64, load_u64}

-- A value raised to one that may be there.
abbrev pub raised : Option ℕ → ℕ → ℕ
raised none v = v
raised (some s) v = max s v

-- How often a batch writes a key.
abbrev pub times_written : Bytes → List (Bytes × Bytes) → ℕ
times_written key writes = times_listed key (map (λ (w : Bytes × Bytes). w.0) writes)

same-eq_bytes : (k key : Bytes) → same key k ≡ eq_bytes k key
same-eq_bytes k key = elim (Bool-cases (eq_bytes k key)) [
  | inl e ↦ rw (eq_bytes→eq k key e) (same_refl key ∙ sym (eq_bytes_refl key))
  | inr n ↦ elim (Bool-cases (same key k)) [
    | inl e ↦
        let q : key ≡ k = same→eq key k e in
        absurd (cc (n, ap (λ x. eq_bytes k x) q, eq_bytes_refl k))
    | inr m ↦ m ∙ sym n
  ]
]

-- The value that the batch stages for a key, when it stages one.
abbrev pub staged_u64 : Bytes → List (Bytes × Bytes) → Option ℕ
staged_u64 key writes = Option.map from_be_bytes (last_write key writes)

never_written :
    (key : Bytes) (writes : List (Bytes × Bytes))
    → times_written key writes ≡ 0
    → last_write key writes ≡ none
never_written key [] h = refl
never_written key ((k, v) ∷ writes) h = ground (arith, never_written key writes)

last_write-later :
    (key k x : Bytes) (writes : List (Bytes × Bytes))
    → same key k ≡ false
    → last_write key ((k, x) ∷ writes) ≡ last_write key writes
last_write-later key k x writes n = ground arith

-- What raising a key in the staged writes leaves of them.
record Raises (key : Bytes) (w : ℕ) (writes writes' : List (Bytes × Bytes)) : Type 0 where
  value : last_write key writes' ≡ some (to_be_bytes 8 (raised (staged_u64 key writes) w))
  once : times_written key writes' ≡ 1
  others : (k : Bytes) → same k key ≡ false → last_write k writes' ≡ last_write k writes

-- What is staged, if the value that was staged before can be read.
abbrev RaisesIfOk : Bytes → ℕ → List (Bytes × Bytes) → CatalogResult (List (Bytes × Bytes)) → Type 0
RaisesIfOk key w writes (ok writes') = Raises key w writes writes'
RaisesIfOk key w writes (err e) = Unit
RaisesIfOk key w writes panic = Unit

-- The key is written first.
Raises-here :
    (key : Bytes) (w : ℕ) (x : Bytes) (writes : List (Bytes × Bytes))
    → times_written key writes ≡ 0
    → Raises key w ((key, x) ∷ writes) ((key, to_be_bytes 8 (max (from_be_bytes x) w)) ∷ writes)
Raises-here key w x writes o =
    let unwritten = never_written key writes o in
    record {
      value = rw (unwritten, same_refl key) refl;
      once = rw (same_refl key, o) refl;
      others = λ j n.
          last_write-later j key (to_be_bytes 8 (max (from_be_bytes x) w)) writes n
          ∙ sym (last_write-later j key x writes n);
    }

-- Another key is written first.
Raises-later :
    (key : Bytes) (w : ℕ) (k x : Bytes) (writes : List (Bytes × Bytes))
    (result : CatalogResult (List (Bytes × Bytes)))
    → same key k ≡ false
    → RaisesIfOk key w writes result
    → RaisesIfOk key w ((k, x) ∷ writes) (result >>= λ ws. ok ((k, x) ∷ ws))
Raises-later key w k x writes (ok ws) n r = record {
  value =
      last_write-later key k x ws n
      ∙ r.value
      ∙ ap (λ v. some (to_be_bytes 8 (raised (Option.map from_be_bytes v) w)))
          (sym (last_write-later key k x writes n));
  once = rw (n, r.once) refl;
  others = λ j m. rw (r.others j m) refl;
}
Raises-later key w k x writes (err e) n r = tt
Raises-later key w k x writes panic n r = tt

put_max_writes-Raises :
    (key : Bytes) (w : ℕ) (writes : List (Bytes × Bytes))
    → times_written key writes ≤ 1
    → RaisesIfOk key w writes (put_max_writes key w writes)
unfolding put_max_writes
put_max_writes-Raises key w [] o = record {
  value = rw (same_refl key) refl;
  once = rw (same_refl key) refl;
  others = λ j n. rw n refl;
}
put_max_writes-Raises key w ((k, x) ∷ writes) o = elim (Bool-cases (eq_bytes k key)) [
  | inl e ↦
      let q : k ≡ key = eq_bytes→eq k key e in
      let here : same key k ≡ true = same-eq_bytes k key ∙ e in
      elim (Bool-cases (length x == 8)) [
        | inl l ↦
            rw (e, l)
              (subst
                (λ j.
                  Raises key w ((j, x) ∷ writes)
                    ((j, to_be_bytes 8 (max (from_be_bytes x) w)) ∷ writes))
                (sym q) (Raises-here key w x writes (ground (arith, here))))
        | inr l ↦ rw (e, l) tt
      ]
  | inr n ↦
      let apart : same key k ≡ false = same-eq_bytes k key ∙ n in
      rw n (
        Raises-later key w k x writes (put_max_writes key w writes) apart
          (put_max_writes-Raises key w writes (ground (arith, apart))))
]

put_max_u64-Raises :
    (batch batch' : KvBatch) (key : Bytes) (w : ℕ)
    → times_written key batch.writes ≤ 1
    → put_max_u64 batch key w ≡ ok batch'
    → (writes : List (Bytes × Bytes)) × Raises key w batch.writes writes
      × (record batch { writes = writes } ≡ batch')
unfolding put_max_u64
put_max_u64-Raises batch batch' key w o h =
    let (writes, p, q) = >>=-eq-ok (put_max_writes key w batch.writes) _ h in
    (writes, rw p at (put_max_writes-Raises key w batch.writes o), cc q)

staged_max :
    (kv : OrderedCatalogKv) (batch : KvBatch) (key : Bytes) (candidate : ℕ) (current : Option ℕ)
    → load_u64 kv key ≡ ok current
    → stage_max_u64 kv batch key candidate ≡ put_max_u64 batch key (raised current candidate)
unfolding stage_max_u64
staged_max kv batch key candidate none l = rw l refl
staged_max kv batch key candidate (some s) l = rw l refl

-- After the commit of a batch that staged a watermark, the key holds the largest of the candidate,
-- the value that was stored and the value that the batch had staged for the key, and every other key
-- holds what the batch without the watermark leaves there; this for a batch that writes the key at
-- most once, and then the batch with the watermark writes it once.
pub stage_max_u64_lem :
    (kv kv' : FakeOrderedCatalogKv) (batch batch' : KvBatch) (key other : Bytes) (candidate : ℕ)
    (current : Option ℕ)
    → load_u64 (ordered_kv kv) key ≡ ok current
    → times_written key batch.writes ≤ 1
    → stage_max_u64 (ordered_kv kv) batch key candidate ≡ ok batch'
    → commit kv batch' ≡ ok kv'
    → same other key ≡ false
    → (get key kv'.items
        ≡ some (to_be_bytes 8 (raised (staged_u64 key batch.writes) (raised current candidate))))
      × (get other kv'.items ≡ row_after batch kv.items other)
      × (times_written key batch'.writes ≡ 1)
stage_max_u64_lem kv kv' batch batch' key other candidate current l o h c n =
    let (writes, r, q) =
      put_max_u64-Raises batch batch' key (raised current candidate) o
        (sym (staged_max (ordered_kv kv) batch key candidate current l) ∙ h) in
    let c' : commit kv (record batch { writes = writes }) ≡ ok kv' = ap (commit kv) q ∙ c in
    (
      commit_rows kv kv' (record batch { writes = writes }) key c' ∙ rw (row_after, r.value) refl,
      commit_rows kv kv' (record batch { writes = writes }) other c'
          ∙ rw (row_after, r.others other n) refl,
      ap (λ (b : KvBatch). times_written key b.writes) (sym q) ∙ r.once,
    )
