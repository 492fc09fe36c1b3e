-- ===== src/Rows/Total.antt =====
-- Decoding of snapshot rows and of stored orders on inputs of every form.
use aux_ducklake.Base.{
  ℕ, ◌+◌, ◌≤◌, ◌<◌, ◌≡◌, refl, Bool, true, false, ◌&&◌, ◌||◌, some, [], ◌∷◌, if◌then◌else◌, ◌==◌,
  leb, length, get_elem?, Bool-cases, inl, inr, arith, zero, suc, String,
}
use aux_ducklake.Bytes.{Bytes}
use aux_ducklake.Bytes.Slices.{slice, byte_at, from_utf8, is_utf8}
use aux_ducklake.Error.{CatalogResult, CatalogError, ok, err, panic, ensure, ◌>>=◌, ◌>>◌}
use aux_ducklake.Rows.Snapshot.{
  decode_snapshot, decode_snapshot_texts, decode_optional_snapshot_string,
}
use aux_ducklake.Rows.{read_uint, decode_stored_order}

module _ {ℓ} {A : Type ℓ} where
  -- A value or an error, and no panic.
  abbrev pub Returns : CatalogResult A → Type 0
  Returns (ok a) = Unit
  Returns (err e) = Unit
  Returns panic = ⊥

  pub Returns-ensure :
      (b : Bool) (e : CatalogError) (m : CatalogResult A)
      → (b ≡ true → Returns m)
      → Returns (ensure b e >> m)
  Returns-ensure true e m h = h refl
  Returns-ensure false e m h = tt

  pub Returns-if :
      (b : Bool) (m n : CatalogResult A)
      → (b ≡ true → Returns m)
      → (b ≡ false → Returns n)
      → Returns (if b then m else n)
  Returns-if true m n h k = h refl
  Returns-if false m n h k = k refl

module _ {ℓ κ} {A : Type ℓ} {B : Type κ} where
  pub Returns->>= :
      (m : CatalogResult A) (f : A → CatalogResult B)
      → Returns m
      → ((a : A) → m ≡ ok a → Returns (f a))
      → Returns (m >>= f)
  Returns->>= (ok a) f r h = h a refl
  Returns->>= (err e) f r h = tt
  Returns->>= panic f r h = elim r [ ]

pub Returns-slice :
    (bytes : Bytes) (start end : ℕ)
    → start ≤ end
    → end ≤ length bytes
    → Returns (slice bytes start end)
unfolding slice
Returns-slice bytes start end h k =
    let fits : (leb start end && leb end (length bytes)) ≡ true = ground arith in rw fits tt

some_elem : (bytes : Bytes) (n : ℕ) → n < length bytes → (b : ℕ) × (get_elem? bytes n ≡ some b)
some_elem [] n h = absurd (omega arith)
some_elem (b ∷ bytes) zero h = (b, refl)
some_elem (b ∷ bytes) (suc n) h = some_elem bytes n (omega arith)

pub Returns-byte_at : (bytes : Bytes) (n : ℕ) → n < length bytes → Returns (byte_at bytes n)
unfolding byte_at
Returns-byte_at bytes n h = let (b, e) = some_elem bytes n h in rw (Returns, e) tt

pub Returns-read_uint :
    (bytes : Bytes) (start end : ℕ)
    → start ≤ end
    → end ≤ length bytes
    → Returns (read_uint bytes start end)
Returns-read_uint bytes start end h k =
    Returns->>= (slice bytes start end) _ (Returns-slice bytes start end h k) (λ s e. tt)

pub Returns-from_utf8 : (bytes : Bytes) (message : String) → Returns (from_utf8 bytes message)
unfolding from_utf8
Returns-from_utf8 bytes message = elim (Bool-cases (is_utf8 bytes)) [
  | inl e ↦ rw e tt
  | inr n ↦ rw n tt
]

pub Returns-decode_stored_order : (bytes : Bytes) → Returns (decode_stored_order bytes)
unfolding decode_stored_order
Returns-decode_stored_order bytes = Returns-ensure (length bytes == 17) _ _ (λ l.
    Returns->>= (byte_at bytes 0) _ (Returns-byte_at bytes 0 (ground arith)) (λ b e.
      Returns->>= _ _
        (Returns-if (b == 1) _ _ (λ _. tt) (λ _. Returns-if (b == 2) _ _ (λ _. tt) (λ _. tt)))
        (λ k f. tt)))

Returns-optional_string :
    (bytes : Bytes) (offset : ℕ) → Returns (decode_optional_snapshot_string bytes offset)
unfolding decode_optional_snapshot_string
Returns-optional_string bytes offset = Returns-ensure (leb (offset + 5) (length bytes)) _ _ (λ l.
    Returns->>= (byte_at bytes offset) _ (Returns-byte_at bytes offset (ground arith)) (λ present e.
      Returns->>= (read_uint bytes (offset + 1) (offset + 1 + 4)) _
        (Returns-read_uint bytes _ _ (omega arith) (ground arith))
        (λ len f. Returns-ensure (leb (offset + 1 + 4 + len) (length bytes)) _ _ (λ k.
          Returns->>= _ _
            (Returns-if (present == 0) _ _ (λ _. Returns-if (len == 0) _ _ (λ _. tt) (λ _. tt))
              (λ _.
                Returns-if (present == 1) _ _
                  (λ _.
                    Returns->>= _ _
                      (Returns-slice bytes (offset + 1 + 4) (offset + 1 + 4 + len) (omega arith)
                        (ground arith))
                      (λ text g.
                        Returns->>= _ _ (Returns-from_utf8 text "is not utf8") (λ v i. tt)))
                  (λ _. tt)))
            (λ value g. tt)))))

Returns-decode_snapshot_texts :
    (bytes : Bytes) (version : ℕ)
    → 33 ≤ length bytes
    → Returns (decode_snapshot_texts bytes version 33)
unfolding decode_snapshot_texts
Returns-decode_snapshot_texts bytes version h =
    Returns-if (version == 2) _ _
      (λ _.
        Returns->>= _ _ (Returns-slice bytes 33 (length bytes) h (omega arith))
          (λ tail e. Returns->>= _ _ (Returns-from_utf8 tail "created_by is not utf8") (λ t f. tt)))
      (λ _. Returns->>= _ _ (Returns-optional_string bytes 33) (λ (a, o1) e.
        Returns->>= _ _ (Returns-optional_string bytes o1) (λ (b, o2) f.
          Returns->>= _ _ (Returns-optional_string bytes o2)
            (λ (c, o3) g. Returns-ensure (o3 == length bytes) _ _ (λ _. tt)))))

-- The decoder of snapshot rows returns a row or an error on every input.
pub Returns-decode_snapshot : (bytes : Bytes) → Returns (decode_snapshot bytes)
unfolding decode_snapshot
Returns-decode_snapshot bytes = Returns-ensure (leb 25 (length bytes)) _ _ (λ l.
    Returns->>= _ _ (Returns-byte_at bytes 0 (ground arith)) (λ version e.
      Returns-ensure (version == 2 || version == 3) _ _ (λ v.
        Returns-ensure (leb 33 (length bytes)) _ _ (λ k.
          let long : 33 ≤ length bytes = ground arith in
          Returns->>= _ _ (Returns-read_uint bytes 1 17 (omega arith) (omega arith)) (λ order f.
            Returns->>= _ _ (Returns-read_uint bytes 17 25 (omega arith) (omega arith))
              (λ sequence g.
                Returns->>= _ _ (Returns-read_uint bytes 25 33 (omega arith) (omega arith))
                  (λ created i.
                    Returns->>= _ _ (Returns-decode_snapshot_texts bytes version long)
                      (λ (a, b, c) j. tt))))))))
