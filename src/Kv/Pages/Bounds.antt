-- ===== src/Kv/Pages/Bounds.antt =====
-- How far `scan_range_pages` goes on a store of which nothing is known.
use aux_ducklake.Base.{
  ◌++◌, length-append, ◌<◌, last?, min, ℕ, zero, suc, ◌+◌, ◌-◌, ◌≤◌, ◌≡◌, Option, some, List, [],
  ◌∷◌, Bool-cases, inl, inr, arith, length, ltb, ◌==◌, if◌then◌else◌, Bool, true, false, refl,
}
use aux_ducklake.Ids.{u64_max, saturating_add}
use mathlib.Core.Path.{◌∙◌}
use aux_ducklake.Bytes.{ltb_bytes, Bytes}
use aux_ducklake.Kv.Pages.{
  page_size, PageCursor, PageTurn, finished, next_page, page_limit, visit_page, advance, next_turn,
  page_turn, page_loop, after_turn, scan_range_pages,
}
use aux_ducklake.Error.{CatalogResult, ok, err, panic, ok_or, ◌>>=◌, >>=-eq-ok}
use aux_ducklake.Kv.{OrderedCatalogKv, RangeItem, RangeDirection, forward, reverse}

-- What holds of the value, if there is one.
module _ {ℓ} {A : Type ℓ} where
  abbrev pub IfOk : (A → Type 0) → CatalogResult A → Type 0
  IfOk P (ok a) = P a
  IfOk P (err e) = Unit
  IfOk P panic = Unit

  IfOk-any : (m : CatalogResult A) → IfOk (λ _. Unit) m
  IfOk-any (ok a) = tt
  IfOk-any (err e) = tt
  IfOk-any panic = tt

  IfOk-imp : (P Q : A → Type 0) (m : CatalogResult A) → ((a : A) → P a → Q a) → IfOk P m → IfOk Q m
  IfOk-imp P Q (ok a) f h = f a h
  IfOk-imp P Q (err e) f h = tt
  IfOk-imp P Q panic f h = tt

  IfOk-if :
      (P : A → Type 0) (b : Bool) (m n : CatalogResult A)
      → (b ≡ true → IfOk P m)
      → (b ≡ false → IfOk P n)
      → IfOk P (if b then m else n)
  IfOk-if P true m n h k = h refl
  IfOk-if P false m n h k = k refl

module _ {A : Type 0} where
  IfOk-self : (m : CatalogResult A) → IfOk (λ a. m ≡ ok a) m
  IfOk-self (ok a) = refl
  IfOk-self (err e) = tt
  IfOk-self panic = tt

module _ {ℓ κ} {A : Type ℓ} {B : Type κ} where
  IfOk->>= :
      (P : A → Type 0) (Q : B → Type 0) (m : CatalogResult A) (f : A → CatalogResult B)
      → IfOk P m
      → ((a : A) → P a → IfOk Q (f a))
      → IfOk Q (m >>= f)
  IfOk->>= P Q (ok a) f h k = k a h
  IfOk->>= P Q (err e) f h k = tt
  IfOk->>= P Q panic f h k = tt

module _ {S : Type 0} where
  -- Calls of a visitor on one row after the other.
  abbrev pub visit_all : (S → RangeItem → CatalogResult S) → List RangeItem → S → CatalogResult S
  visit_all visit [] s = ok s
  visit_all visit (row ∷ rows) s = visit s row >>= λ t. visit_all visit rows t

  -- The rows that were visited, of which there are as many as were counted.
  abbrev pub Visited : (S → RangeItem → CatalogResult S) → S → ℕ × S → Type 0
  Visited visit s r =
      (rows : List RangeItem) × (visit_all visit rows s ≡ ok r.1) × (r.0 ≡ length rows)

module _ {S : Type 0} (visit : S → RangeItem → CatalogResult S) where
  visit_all-append :
      (xs ys : List RangeItem) (s : S) {t : S}
      → visit_all visit xs s ≡ ok t
      → visit_all visit (xs ++ ys) s ≡ visit_all visit ys t
  visit_all-append [] ys s h = let e = h in cc
  visit_all-append (x ∷ xs) ys s h =
      let (t, first, rest) = >>=-eq-ok (visit s x) (λ t. visit_all visit xs t) h in
      rw first (visit_all-append xs ys t rest)

  visit_page-count :
      (page : List RangeItem) (visited : ℕ) (s : S)
      → visited + length page ≤ u64_max
      → IfOk
          (λ r. (visit_all visit page s ≡ ok r.1) × (r.0 ≡ visited + length page))
          (visit_page visit page visited s)
  unfolding visit_page
  visit_page-count [] visited s h = (refl, omega arith)
  visit_page-count (row ∷ page) visited s h =
      IfOk->>= (λ t. visit s row ≡ ok t) _ (visit s row) _ (IfOk-self (visit s row))
        (λ t e.
          IfOk-imp _ _ (visit_page visit page (saturating_add visited 1) t)
            (λ r k. (rw e k.0, omega (arith, k.1)))
            (visit_page-count page (saturating_add visited 1) t (omega arith)))

  more-Visited :
      (s : S) (before : ℕ × S) (page : List RangeItem) (r : ℕ × S)
      → Visited visit s before
      → visit_all visit page before.1 ≡ ok r.1
      → r.0 ≡ before.0 + length page
      → Visited visit s r
  more-Visited s before page r (rows, v, n) w m =
      (rows ++ page, visit_all-append rows page s v ∙ w, omega (arith, length-append rows page))

  -- The rows that the turns after this one may still visit are within the bound, and fewer than
  -- those that this one might.
  InBound : S → ℕ → ℕ → PageTurn S → Type 0
  InBound s bound before (finished visited t) = Visited visit s (visited, t) × (visited ≤ bound)
  InBound s bound before (next_page cursor) =
      Visited visit s (cursor.visited, cursor.state)
      × (remaining : ℕ) × (cursor.remaining_probe ≡ some remaining)
      × (cursor.visited + remaining ≤ bound)
      × (remaining < before)

  next_turn-InBound :
      (s : S) (direction : RangeDirection) (remaining bound : ℕ) (cursor : PageCursor S) (len : ℕ)
      (key : Bytes) (visited : ℕ) (t : S)
      → Visited visit s (visited, t)
      → 0 < len
      → len ≤ remaining
      → visited + remaining ≤ bound + len
      → InBound s bound remaining (next_turn direction (some remaining) cursor len key visited t)
  unfolding next_turn InBound advance
  next_turn-InBound s direction remaining bound cursor len key visited t v p h k =
      let z_le : visited ≤ bound = omega arith in
      elim (Bool-cases ((remaining - len) == 0)) [
        | inl z ↦ rw z (v, z_le)
        | inr n ↦
            rw n
              (elim direction
                as (λ d.
                  InBound s bound remaining
                    (next_page (advance d cursor key (some (remaining - len)) visited t))) [
                      | forward ↦ (v, remaining - len, refl, omega arith, omega arith)
                      | reverse ↦ (v, remaining - len, refl, omega arith, omega arith)
                    ])
      ]

  page_turn-InBound :
      (s : S) (kv : OrderedCatalogKv) (direction : RangeDirection) (cursor : PageCursor S)
      (remaining bound : ℕ)
      → bound ≤ u64_max
      → Visited visit s (cursor.visited, cursor.state)
      → cursor.remaining_probe ≡ some remaining
      → cursor.visited + remaining ≤ bound
      → IfOk (InBound s bound remaining) (page_turn kv direction visit cursor)
  unfolding page_turn InBound page_limit
  page_turn-InBound s kv direction cursor remaining bound b v e h = rw e (
      IfOk-if _ (min remaining page_size == 0) _ _ (λ z. (v, omega arith))
        (λ n.
          IfOk->>= (λ _. Unit) _ (kv.scan_range _ _ direction _) _ (IfOk-any _)
            (λ page u.
              IfOk-if _ (length page == 0) _ _ (λ z. (v, omega arith))
                (λ n'.
                  IfOk-if _ (ltb (min remaining page_size) (length page)) _ _ (λ z. tt)
                    (λ fits.
                      let short : length page ≤ remaining = ground arith in
                      let some_rows : 0 < length page = ground arith in
                      IfOk->>= (λ _. Unit) _ (ok_or (last? page) _) _ (IfOk-any _)
                        (λ last u'.
                          IfOk->>=
                            (λ r.
                              (visit_all visit page cursor.state ≡ ok r.1)
                              × (r.0 ≡ cursor.visited + length page))
                            _ (visit_page visit page cursor.visited cursor.state) _
                            (visit_page-count page cursor.visited cursor.state (omega arith))
                            (λ r c.
                              next_turn-InBound s direction remaining bound _ (length page) last.key
                                r.0 r.1
                                (more-Visited s (cursor.visited, cursor.state) page r v c.0 c.1)
                                some_rows short (omega arith))))))))

  -- The scan ends, and what it counted was visited.
  Ends : S → ℕ → Option (CatalogResult (ℕ × S)) → Type 0
  Ends s bound scan =
      (result : CatalogResult (ℕ × S)) × (scan ≡ some result)
      × IfOk (λ r. Visited visit s r × (r.0 ≤ bound)) result

  after_turn-Ends :
      (s : S) (bound before : ℕ) (m : CatalogResult (PageTurn S))
      (loop : PageCursor S → Option (CatalogResult (ℕ × S)))
      → IfOk (InBound s bound before) m
      → ((cursor : PageCursor S)
          → InBound s bound before (next_page cursor)
          → Ends s bound (loop cursor))
      → Ends s bound (after_turn m loop)
  unfolding InBound Ends
  after_turn-Ends s bound before (ok (finished v t)) loop h rest = (ok (v, t), refl, h)
  after_turn-Ends s bound before (ok (next_page cursor)) loop h rest = rest cursor h
  after_turn-Ends s bound before (err error) loop h rest = (err error, refl, tt)
  after_turn-Ends s bound before panic loop h rest = (panic, refl, tt)

  page_loop-Ends :
      (s : S) (fuel : ℕ) (kv : OrderedCatalogKv) (direction : RangeDirection)
      (cursor : PageCursor S) (remaining bound : ℕ)
      → bound ≤ u64_max
      → Visited visit s (cursor.visited, cursor.state)
      → cursor.remaining_probe ≡ some remaining
      → cursor.visited + remaining ≤ bound
      → remaining < fuel
      → Ends s bound (page_loop fuel kv direction visit cursor)
  unfolding page_loop InBound
  page_loop-Ends s zero kv direction cursor remaining bound b v e h f = absurd (omega arith)
  page_loop-Ends s (suc fuel) kv direction cursor remaining bound b v e h f =
      after_turn-Ends s bound remaining (page_turn kv direction visit cursor)
        (page_loop fuel kv direction visit)
        (page_turn-InBound s kv direction cursor remaining bound b v e h)
        (λ c (v', r, e', h', lower).
          page_loop-Ends s fuel kv direction c r bound b v' e' h' (omega arith))

-- Whatever the store returns, a scan by pages with a limit ends when its fuel is above the limit and
-- one; where it returns a count, the visitor was called on that many rows, one after the other, with
-- the state that is returned, and the count is at most one above the limit.
pub scan_range_pages-bounded :
    {S : Type 0} (fuel : ℕ) (kv : OrderedCatalogKv) (start end : Bytes) (direction : RangeDirection)
    (limit : ℕ) (visit : S → RangeItem → CatalogResult S) (s : S)
    → limit + 1 < fuel
    → (result : CatalogResult (ℕ × S)) × (scan_range_pages fuel kv start end direction
          (some limit)
          visit
          s
        ≡ some result)
      × IfOk (λ r. Visited visit s r × (r.0 ≤ limit + 1)) result
unfolding scan_range_pages Ends
scan_range_pages-bounded {S} fuel kv start end direction limit visit s f =
    elim (Bool-cases (ltb_bytes start end)) [
      | inl below ↦
          let (result, e, p) =
            page_loop-Ends visit s fuel kv direction
              (record {
                page_start = start;
                page_end = end;
                remaining_probe = some (saturating_add limit 1);
                visited = 0;
                state = s;
              })
              (saturating_add limit 1) (saturating_add limit 1) (omega arith) ([], refl, refl) refl
              (omega arith) (omega arith) in
          (result, rw below e, IfOk-imp _ _ result (λ r k. (k.0, omega arith)) p)
      | inr n ↦ (ok (0, s), rw n refl, (([], refl, refl), omega arith))
    ]
