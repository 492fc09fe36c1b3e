-- ===== src/Keys/PrefixEnd.antt =====
-- `prefix_end` of keys.rs against the keys that begin with the prefix.
use aux_ducklake.Bytes.Order.{ltb_bytes-append_left}
use aux_ducklake.Base.{
  append_assoc, sym, ℕ, ◌+◌, ◌≤◌, ◌<◌, ◌≡◌, refl, false, not, none, some, [], ◌∷◌, ◌++◌, map,
  Option-cases, inl, inr, length, arith,
}
use aux_ducklake.Keys.{
  code, catalog_prefix, KeyFamily, CatalogId, family_prefix, in_range, raise_last, prefix_end,
}
use aux_ducklake.Keys.Family.{KeyFamily}
use aux_ducklake.Bytes.{Bytes, AreBytes, ltb_bytes, strip_prefix, starts_with}

zeros : Bytes → Bytes
zeros = map (λ _. 0)

zeros_least : (p k : Bytes) → length p ≤ length k → ltb_bytes k (zeros p) ≡ false
unfolding zeros ltb_bytes
zeros_least [] [] h = refl
zeros_least [] (c ∷ k) h = refl
zeros_least (b ∷ p) [] h = absurd (omega arith)
zeros_least (b ∷ p) (c ∷ k) h = ground (arith, zeros_least p k)

-- Where every byte is 0xff, no longer byte string is below what begins with them.
all_max :
    (p k : Bytes)
    → raise_last p ≡ none
    → AreBytes p
    → AreBytes k
    → length p ≤ length k
    → not (ltb_bytes k p) ≡ starts_with p k
unfolding raise_last ltb_bytes starts_with strip_prefix
all_max [] [] e hp hk h = refl
all_max [] (c ∷ k) e hp hk h = refl
all_max (b ∷ p) [] e hp hk h = absurd (omega arith)
all_max (b ∷ p) (c ∷ k) e (hb, hp) (hc, hk) h = ground (arith, all_max p k)

-- The last byte below 0xff is raised, and what follows it is zeroed.
between_at_last :
    (b c : ℕ) (p k : Bytes)
    → length p ≤ length k
    → not (ltb_bytes k p) ≡ starts_with p k
    → in_range (b ∷ p) ((b + 1) ∷ zeros p) (c ∷ k) ≡ starts_with (b ∷ p) (c ∷ k)
unfolding ltb_bytes starts_with strip_prefix
between_at_last b c p k h e = ground (arith, zeros_least p k)

between_deeper :
    (b c : ℕ) (p q k : Bytes)
    → in_range p q k ≡ starts_with p k
    → in_range (b ∷ p) (b ∷ q) (c ∷ k) ≡ starts_with (b ∷ p) (c ∷ k)
unfolding ltb_bytes starts_with strip_prefix
between_deeper b c p q k e = ground arith

raised_at_last :
    (b : ℕ) (p e : Bytes)
    → raise_last p ≡ none
    → raise_last (b ∷ p) ≡ some e
    → (b + 1) ∷ zeros p ≡ e
unfolding raise_last zeros
raised_at_last b p e n r = ground arith

raised_deeper :
    (b : ℕ) (p q e : Bytes) → raise_last p ≡ some q → raise_last (b ∷ p) ≡ some e → b ∷ q ≡ e
unfolding raise_last
raised_deeper b p q e s r = ground arith

prefix_end_of_raised : (p e : Bytes) → raise_last p ≡ some e → prefix_end p ≡ e
unfolding prefix_end
prefix_end_of_raised p e r = ground arith

between_raised :
    (p e k : Bytes)
    → raise_last p ≡ some e
    → AreBytes p
    → AreBytes k
    → length p ≤ length k
    → in_range p e k ≡ starts_with p k
between_raised [] e k r hp hk h = unfold raise_last in cc
between_raised (b ∷ p) e [] r hp hk h = absurd (omega arith)
between_raised (b ∷ p) e (c ∷ k) r (hb, hp) (hc, hk) h = elim (Option-cases (raise_last p)) [
  | inl n ↦
      rw (← (raised_at_last b p e n r))
        (between_at_last b c p k (omega arith) (all_max p k n hp hk (omega arith)))
  | inr (q, s) ↦
      rw (← (raised_deeper b p q e s r))
        (between_deeper b c p q k (between_raised p q k s hp hk (omega arith)))
]

-- A prefix with a byte below 0xff, such as every prefix of a catalog, has such a byte to raise.
raise_last_of_room :
    (front rest : Bytes) (b : ℕ)
    → b < 255
    → (e : Bytes) × (raise_last (front ++ (b ∷ rest)) ≡ some e)
unfolding raise_last
raise_last_of_room [] rest b h = elim (Option-cases (raise_last rest)) [
  | inl n ↦ ((b + 1) ∷ map (λ _. 0) rest, ground arith)
  | inr (q, s) ↦ (b ∷ q, ground arith)
]
raise_last_of_room (a ∷ front) rest b h =
    let (q, s) = raise_last_of_room front rest b h in (a ∷ q, rw s)

-- The range from a prefix to its `prefix_end` is exactly the keys that begin with the prefix, of
-- the keys that are at least as long as it: for a prefix of bytes of which one is below 0xff.
pub in_range-prefix_end :
    (front rest k : Bytes) (b : ℕ)
    → b < 255
    → AreBytes (front ++ (b ∷ rest))
    → AreBytes k
    → length (front ++ (b ∷ rest)) ≤ length k
    → in_range (front ++ (b ∷ rest)) (prefix_end (front ++ (b ∷ rest))) k
      ≡ starts_with (front ++ (b ∷ rest)) k
in_range-prefix_end front rest k b hb hp hk h =
    let (e, r) = raise_last_of_room front rest b hb in
    rw (prefix_end_of_raised _ e r) (between_raised _ e k r hp hk h)

raise_last_slash : (front : Bytes) → raise_last (front ++ b'/' ∷ []) ≡ some (front ++ 48 ∷ [])
unfolding raise_last
raise_last_slash [] = refl
raise_last_slash (a ∷ front) = rw (raise_last_slash front) refl

-- The range of a family of keys is not inverted.
pub prefix_end-family_prefix :
    (catalog : CatalogId) (family : KeyFamily)
    → ltb_bytes (prefix_end (family_prefix catalog family)) (family_prefix catalog family) ≡ false
unfolding family_prefix
prefix_end-family_prefix catalog family =
    let front = catalog_prefix catalog ++ code family ∷ [] in
    rw
      (
        sym (append_assoc (catalog_prefix catalog) (code family ∷ []) (b'/' ∷ [])),
        prefix_end_of_raised (front ++ b'/' ∷ []) (front ++ 48 ∷ []) (raise_last_slash front),
        ltb_bytes-append_left front (48 ∷ []) (b'/' ∷ []),
      )
      (unfold ltb_bytes in refl)
