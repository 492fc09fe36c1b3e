-- ===== src/Kv/Pages/Loop.antt =====
-- The turns of the loop of `scan_range_pages` on a store that documents its pages.
use aux_ducklake.Error.{ok, CatalogResult, ◌>>=◌}
use aux_ducklake.Kv.Pages.{
  after_turn, page_loop, next_turn, finished, page_turn, PagedReads, page_limit, PageCursor,
  visit_page, advance,
}
use aux_ducklake.Bytes.{Bytes, ltb_bytes}
use aux_ducklake.Base.{
  true, inr, inl, ◌<◌, ◌==◌, Bool-cases, length-last?, last?-none, ltb, Option-cases, ℕ, zero, suc,
  ◌-◌, ◌≤◌, ◌≡◌, refl, false, Option, none, some, List, [], length, take, drop, last?, arith,
}
use aux_ducklake.Kv.{OrderedCatalogKv, RangeItem, RangeDirection, forward, reverse, Items}
use mathlib.Core.Path.{sym, ap, ◌∙◌}
use aux_ducklake.BTreeMap.{bytes_ord}
use aux_ducklake.Kv.Pages.Budget.{
  visit_page-append, budget, left, rows_left, advance-rows_left, budget_split, budget_zero,
  take-none, after_turn->>=, budget-nil, length-take, length-drop-lt,
}

module _ {S : Type 0} (kv : OrderedCatalogKv) (items : Items) (reads : PagedReads kv items)
    (direction : RangeDirection) (visit : S → RangeItem → CatalogResult S) where
  page : PageCursor S → List RangeItem
  page cursor =
      take
        (reads.page_length cursor.page_start cursor.page_end direction
          (page_limit cursor.remaining_probe))
        (rows_left items direction cursor)

  scan-page :
      (cursor : PageCursor S)
      → ltb_bytes cursor.page_end cursor.page_start ≡ false
      → kv.scan_range cursor.page_start cursor.page_end direction
          (page_limit cursor.remaining_probe)
        ≡ ok (page cursor)
  unfolding page rows_left
  scan-page cursor h =
      reads.scan_lem cursor.page_start cursor.page_end direction (page_limit cursor.remaining_probe)
        h

  length-page : (cursor : PageCursor S) → length (page cursor) ≤ page_limit cursor.remaining_probe
  unfolding page
  length-page cursor =
      let bound =
        reads.page_length-limit cursor.page_start cursor.page_end direction
          (page_limit cursor.remaining_probe) in
      omega (arith, bound, length-take _ (rows_left items direction cursor))

  page_turn_last :
      (cursor : PageCursor S) (l : RangeItem)
      → ltb_bytes cursor.page_end cursor.page_start ≡ false
      → (page_limit cursor.remaining_probe == 0) ≡ false
      → last? (page cursor) ≡ some l
      → page_turn kv direction visit cursor
        ≡ visit_page visit (page cursor) cursor.visited cursor.state >>= λ r.
            ok (
              next_turn direction cursor.remaining_probe cursor
                (length (page cursor))
                l.key
                r.0
                r.1)
  unfolding page_turn
  page_turn_last cursor l h n e =
      let some_rows : (length (page cursor) == 0) ≡ false =
        ground (arith, length-last? (page cursor) l e) in
      let fits : ltb (page_limit cursor.remaining_probe) (length (page cursor)) ≡ false =
        ground (arith, length-page cursor) in
      rw (n, scan-page cursor h, some_rows, fits, e)

  page_turn-none :
      (cursor : PageCursor S)
      → ltb_bytes cursor.page_end cursor.page_start ≡ false
      → last? (page cursor) ≡ none
      → page_turn kv direction visit cursor ≡ ok (finished cursor.visited cursor.state)
  unfolding page_turn
  page_turn-none cursor h e = elim (Bool-cases (page_limit cursor.remaining_probe == 0)) [
    | inl z ↦ rw z
    | inr n ↦
        let no_rows : (length (page cursor) == 0) ≡ true = rw (last?-none (page cursor) e) refl in
        rw (n, scan-page cursor h, no_rows)
  ]

  page_turn_limit :
      (cursor : PageCursor S)
      → (page_limit cursor.remaining_probe == 0) ≡ true
      → page_turn kv direction visit cursor ≡ ok (finished cursor.visited cursor.state)
  unfolding page_turn
  page_turn_limit cursor z = rw z

  -- From a cursor on, the loop visits what is left.
  abbrev Visits : ℕ → Type 0
  Visits fuel =
      (c : PageCursor S)
      → ltb_bytes c.page_end c.page_start ≡ false
      → length (rows_left items direction c) < fuel
      → page_loop fuel kv direction visit c
        ≡ some (
            visit_page visit (budget c.remaining_probe (rows_left items direction c)) c.visited
              c.state)

  advance_held :
      (cursor : PageCursor S) (key : Bytes) (remaining : Option ℕ) (visited : ℕ) (s : S)
      → ((advance direction cursor key remaining visited s).remaining_probe ≡ remaining)
        × ((advance direction cursor key remaining visited s).visited ≡ visited)
        × ((advance direction cursor key remaining visited s).state ≡ s)
  unfolding advance
  advance_held cursor key remaining visited s =
      elim direction
        as (λ d.
          ((advance d cursor key remaining visited s).remaining_probe ≡ remaining)
          × ((advance d cursor key remaining visited s).visited ≡ visited)
          × ((advance d cursor key remaining visited s).state ≡ s)) [
            | forward ↦ (refl, refl, refl)
            | reverse ↦ (refl, refl, refl)
          ]

  page_loop-advance :
      (fuel : ℕ) (cursor : PageCursor S) (p : ℕ) (l : RangeItem)
      → Visits fuel
      → last? (take p (rows_left items direction cursor)) ≡ some l
      → length (rows_left items direction cursor) < suc fuel
      → (remaining : Option ℕ) (visited : ℕ) (s : S)
      → page_loop fuel kv direction visit (advance direction cursor l.key remaining visited s)
        ≡ some (
            visit_page visit
              (budget remaining (drop p (rows_left items direction cursor)))
              visited
              s)
  unfolding advance
  page_loop-advance fuel cursor p l rest e h remaining visited s =
      let (inverted, rows) =
        advance-rows_left items direction cursor p l remaining visited s reads.sorted e in
      let (held, counted, kept) = advance_held cursor l.key remaining visited s in
      let shorter : length (drop p (rows_left items direction cursor)) < fuel =
        omega (arith, length-drop-lt p (rows_left items direction cursor) l e) in
      let r =
        rest (advance direction cursor l.key remaining visited s) inverted (rw rows shorter) in
      rw (rows, held, counted, kept) at r

  -- What the rest of the loop owes after a page.
  after_page :
      (fuel : ℕ) (cursor : PageCursor S) (p : ℕ) (l : RangeItem)
      → Visits fuel
      → last? (take p (rows_left items direction cursor)) ≡ some l
      → length (rows_left items direction cursor) < suc fuel
      → (remaining : Option ℕ) (len visited : ℕ) (s : S)
      → after_turn
          (ok (next_turn direction remaining cursor len l.key visited s))
          (page_loop fuel kv direction visit)
        ≡ some (
            visit_page visit
              (budget (left remaining len) (drop p (rows_left items direction cursor)))
              visited
              s)
  unfolding next_turn visit_page
  after_page fuel cursor p l rest e h none len visited s =
      page_loop-advance fuel cursor p l rest e h none visited s
  after_page fuel cursor p l rest e h (some r) len visited s = elim (Bool-cases ((r - len) == 0)) [
    | inl z ↦ let none_left : r - len ≡ 0 = ground arith in rw none_left refl
    | inr n ↦ rw n (page_loop-advance fuel cursor p l rest e h (some (r - len)) visited s)
  ]

  page_then_rest :
      (fuel : ℕ) (cursor : PageCursor S) (l : RangeItem)
      → (page_limit cursor.remaining_probe == 0) ≡ false
      → ltb_bytes cursor.page_end cursor.page_start ≡ false
      → last? (page cursor) ≡ some l
      → length (rows_left items direction cursor) < suc fuel
      → Visits fuel
      → after_turn (page_turn kv direction visit cursor) (page_loop fuel kv direction visit)
        ≡ some (
            visit_page visit
              (budget cursor.remaining_probe (rows_left items direction cursor))
              cursor.visited
              cursor.state)
  unfolding page
  page_then_rest fuel cursor l n h e f rest =
      let p =
        reads.page_length cursor.page_start cursor.page_end direction
          (page_limit cursor.remaining_probe) in
      let rows = rows_left items direction cursor in
      let split = budget_split cursor.remaining_probe p rows (
        reads.page_length-limit cursor.page_start cursor.page_end direction
          (page_limit cursor.remaining_probe)) in
      ap (λ t. after_turn t (page_loop fuel kv direction visit)) (page_turn_last cursor l h n e)
      ∙ after_turn->>= (page_loop fuel kv direction visit)
          (visit_page visit (page cursor) cursor.visited cursor.state) _ _
          (λ r.
            after_page fuel cursor p l rest e f cursor.remaining_probe (length (page cursor)) r.0
              r.1)
      ∙ ap some (
          sym (
            ap (λ all. visit_page visit all cursor.visited cursor.state) split
            ∙ visit_page-append visit (page cursor) _ cursor.visited cursor.state))

  pub page_loop-visits :
      (fuel : ℕ) (cursor : PageCursor S)
      → ltb_bytes cursor.page_end cursor.page_start ≡ false
      → length (rows_left items direction cursor) < fuel
      → page_loop fuel kv direction visit cursor
        ≡ some (
            visit_page visit
              (budget cursor.remaining_probe (rows_left items direction cursor))
              cursor.visited
              cursor.state)
  unfolding page_loop visit_page page
  page_loop-visits zero cursor h f = absurd (omega arith)
  page_loop-visits (suc fuel) cursor h f =
      elim (Bool-cases (page_limit cursor.remaining_probe == 0)) [
        | inl z ↦
            rw
              (
                page_turn_limit cursor z,
                budget_zero cursor.remaining_probe (rows_left items direction cursor) z,
              )
              refl
        | inr n ↦ elim (Option-cases (last? (page cursor))) [
          | inl e ↦
              let none_left : rows_left items direction cursor ≡ [] =
                take-none _ (rows_left items direction cursor)
                  (reads.page_length-pos cursor.page_start cursor.page_end direction
                    (page_limit cursor.remaining_probe) (ground arith))
                  e in
              rw (page_turn-none cursor h e, none_left, budget-nil cursor.remaining_probe) refl
          | inr (l, e) ↦ page_then_rest fuel cursor l n h e f (page_loop-visits fuel)
        ]
      ]
