-- ===== src/Kv/Pages/Budget.antt =====
-- The rows that a budget allows, cut into pages.
use aux_ducklake.Error.{panic, err, ok, CatalogResult, ◌>>=◌, >>=_assoc, >>=_congr}
use aux_ducklake.Kv.Pages.{PageTurn, after_turn, page_limit, PageCursor, visit_page, advance}
use aux_ducklake.Bytes.{ltb_bytes}
use aux_ducklake.Base.{
  true, ◌<◌, ◌==◌, last?-none, take-append-drop, ℕ, zero, suc, ◌-◌, ◌≤◌, ◌≡◌, refl, false, Option,
  none, some, List, [], ◌∷◌, ◌++◌, length, take, drop, last?, arith,
}
use mathlib.Core.Option
use aux_ducklake.Kv.{RangeItem, RangeDirection, forward, reverse, Items, range, directed}
use mathlib.Core.Path.{sym, ap, ◌∙◌}
use aux_ducklake.BTreeMap.{IsSorted, bytes_ord}
use aux_ducklake.Ids.{saturating_add}
use aux_ducklake.Kv.Pages.Split.{range-after, range-before}

module _ {S : Type 0} (visit : S → RangeItem → CatalogResult S) where
  pub visit_page-append :
      (xs ys : List RangeItem) (visited : ℕ) (s : S)
      → visit_page visit (xs ++ ys) visited s
        ≡ visit_page visit xs visited s >>= λ r. visit_page visit ys r.0 r.1
  unfolding visit_page
  visit_page-append [] ys visited s = refl
  visit_page-append (row ∷ xs) ys visited s =
      >>=_congr (visit s row) _ _ (λ t. visit_page-append xs ys (saturating_add visited 1) t)
      ∙ sym (
          >>=_assoc (visit s row) (λ t. visit_page visit xs (saturating_add visited 1) t)
            (λ r. visit_page visit ys r.0 r.1))

-- The rows that the rest of the budget allows.
abbrev pub budget : Option ℕ → List RangeItem → List RangeItem
budget none rows = rows
budget (some remaining) rows = take remaining rows

pub take_nil : (n : ℕ) → take {A = RangeItem} n [] ≡ []
take_nil zero = refl
take_nil (suc n) = refl

pub take_split :
    (p r : ℕ) (rows : List RangeItem)
    → p ≤ r
    → take r rows ≡ take p rows ++ take (r - length (take p rows)) (drop p rows)
take_split zero r rows h = let e : r - 0 ≡ r = omega arith in rw e
take_split (suc p) zero rows h = absurd (omega arith)
take_split (suc p) (suc r) [] h = sym (take_nil (suc r - 0))
take_split (suc p) (suc r) (row ∷ rows) h =
    let e : suc r - suc (length (take p rows)) ≡ r - length (take p rows) = omega arith in
    rw e (ap (λ rest. row ∷ rest) (take_split p r rows (omega arith)))

module _ {S : Type 0} (items : Items) where
  -- The rows that are still to be visited.
  unfoldable pub rows_left : RangeDirection → PageCursor S → List RangeItem
  rows_left direction cursor = directed direction (range cursor.page_start cursor.page_end items)

  pub advance-rows_left :
      (direction : RangeDirection) (cursor : PageCursor S) (n : ℕ) (l : RangeItem)
      (remaining : Option ℕ) (visited : ℕ) (s : S)
      → IsSorted ⦃ord = bytes_ord⦄ items
      → last? (take n (rows_left direction cursor)) ≡ some l
      → (ltb_bytes
            (advance direction cursor l.key remaining visited s).page_end
            (advance direction cursor l.key remaining visited s).page_start
          ≡ false)
        × (rows_left direction (advance direction cursor l.key remaining visited s)
            ≡ drop n (rows_left direction cursor))
  unfolding advance rows_left
  advance-rows_left forward cursor n l remaining visited s sorted e =
      range-after cursor.page_start cursor.page_end items n l sorted e
  advance-rows_left reverse cursor n l remaining visited s sorted e =
      range-before cursor.page_start cursor.page_end items n l sorted e

-- The budget after a page.
abbrev pub left : Option ℕ → ℕ → Option ℕ
left remaining page_len = Option.map (λ r. r - page_len) remaining

pub budget_split :
    (remaining : Option ℕ) (p : ℕ) (rows : List RangeItem)
    → p ≤ page_limit remaining
    → budget remaining rows
      ≡ take p rows ++ budget (left remaining (length (take p rows))) (drop p rows)
unfolding page_limit
budget_split none p rows h = sym (take-append-drop p rows)
budget_split (some r) p rows h = take_split p r rows (ground arith)

pub budget_zero :
    (remaining : Option ℕ) (rows : List RangeItem)
    → (page_limit remaining == 0) ≡ true
    → budget remaining rows ≡ []
unfolding page_limit
budget_zero none rows h = cc
budget_zero (some zero) rows h = refl
budget_zero (some (suc r)) rows h = absurd (ground arith)

pub take-none : (p : ℕ) (rows : List RangeItem) → 0 < p → last? (take p rows) ≡ none → rows ≡ []
take-none zero rows h e = absurd (omega arith)
take-none (suc p) [] h e = refl
take-none (suc p) (row ∷ rows) h e = let q = last?-none (take (suc p) (row ∷ rows)) e in cc q

module _ {S : Type 0} where
  pub after_turn->>= :
      (loop : PageCursor S → Option (CatalogResult (ℕ × S))) (m : CatalogResult (ℕ × S))
      (f : ℕ × S → PageTurn S) (g : ℕ × S → CatalogResult (ℕ × S))
      → ((r : ℕ × S) → after_turn (ok (f r)) loop ≡ some (g r))
      → after_turn (m >>= (λ r. ok (f r))) loop ≡ some (m >>= g)
  after_turn->>= loop (ok r) f g h = h r
  after_turn->>= loop (err e) f g h = refl
  after_turn->>= loop panic f g h = refl

pub budget-nil : (remaining : Option ℕ) → budget remaining [] ≡ []
budget-nil none = refl
budget-nil (some r) = take_nil r

pub length-take : (p : ℕ) (rows : List RangeItem) → length (take p rows) ≤ p
length-take zero rows = omega arith
length-take (suc p) [] = omega arith
length-take (suc p) (row ∷ rows) = omega (arith, length-take p rows)

pub length-drop : (p : ℕ) (rows : List RangeItem) → length (drop p rows) ≤ length rows
length-drop zero rows = omega arith
length-drop (suc p) [] = omega arith
length-drop (suc p) (row ∷ rows) = omega (arith, length-drop p rows)

pub length-drop-lt :
    (p : ℕ) (rows : List RangeItem) (l : RangeItem)
    → last? (take p rows) ≡ some l
    → length (drop p rows) < length rows
length-drop-lt zero rows l e = cc
length-drop-lt (suc p) [] l e = cc
length-drop-lt (suc p) (row ∷ rows) l e = omega (arith, length-drop p rows)
