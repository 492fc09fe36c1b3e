-- ===== src/Kv/Pages.antt =====
-- `scan_range_pages` of crates/ducklake-catalog/src/kv.rs: a range is visited page by page.
-- The state that the visitor captures is passed through the calls. The loop runs on fuel, and `none`
-- says that the fuel was used up.
pub mod Split
pub mod Budget
pub mod Loop
pub mod Visits
pub mod Bounds
use mathlib.Core.Option
use aux_ducklake.Base.{
  ℕ, zero, suc, ◌-◌, min, Option, none, some, List, [], ◌∷◌, ◌++◌, if◌then◌else◌, ◌==◌, ltb, length,
  last?, ◌≤◌, ◌<◌, ◌≡◌, false, take,
}
use aux_ducklake.Bytes.{Bytes, leb_bytes, ltb_bytes}
use aux_ducklake.BTreeMap.{IsSorted, bytes_ord}
use aux_ducklake.Ids.{saturating_add}
use aux_ducklake.Error.{CatalogResult, ok, err, panic, ok_or, invalid_mutation, ◌>>=◌}
use aux_ducklake.Kv.{
  OrderedCatalogKv, RangeItem, RangeDirection, forward, reverse, Items, range, directed,
}

abbrev pub page_size : ℕ
page_size = 256

unfoldable pub key_after_scan_item : Bytes → Bytes
key_after_scan_item key = key ++ 0 ∷ []

-- The variables of the loop.
pub record PageCursor (S : Type 0) : Type 0 where
  pub page_start : Bytes
  pub page_end : Bytes
  pub remaining_probe : Option ℕ
  pub visited : ℕ
  pub state : S

-- How a turn of the loop ends: with the function's result, or with the next page's cursor.
pub data PageTurn (S : Type 0) : Type 0 where
  finished : ℕ → S → PageTurn S
  next_page : PageCursor S → PageTurn S

unfoldable pub page_limit : Option ℕ → ℕ
page_limit none = page_size
page_limit (some remaining) = min remaining page_size

module _ {S : Type 0} where
  -- The inner loop, over the rows of a page.
  unfoldable pub visit_page :
      (S → RangeItem → CatalogResult S) → List RangeItem → ℕ → S → CatalogResult (ℕ × S)
  visit_page visit [] visited s = ok (visited, s)
  visit_page visit (row ∷ page) visited s =
      visit s row >>= λ t. visit_page visit page (saturating_add visited 1) t

  -- The `match` on the direction, which moves one end of the range behind the page's last row.
  unfoldable pub advance : RangeDirection → PageCursor S → Bytes → Option ℕ → ℕ → S → PageCursor S
  advance forward cursor last_key remaining visited s = record {
    page_start = key_after_scan_item last_key;
    page_end = cursor.page_end;
    remaining_probe = remaining;
    visited = visited;
    state = s;
  }
  advance reverse cursor last_key remaining visited s = record {
    page_start = cursor.page_start;
    page_end = last_key;
    remaining_probe = remaining;
    visited = visited;
    state = s;
  }

  -- What follows the visits of a page that ended with `last_key`: the second argument is what
  -- `remaining_probe` was for the page.
  unfoldable pub next_turn :
      RangeDirection → Option ℕ → PageCursor S → ℕ → Bytes → ℕ → S → PageTurn S
  next_turn direction none cursor page_len last_key visited s =
      next_page (advance direction cursor last_key none visited s)
  next_turn direction (some remaining) cursor page_len last_key visited s =
      let left : ℕ = remaining - page_len in
      if left == 0
      then finished visited s
      else next_page (advance direction cursor last_key (some left) visited s)

  unfoldable pub page_turn :
      OrderedCatalogKv
      → RangeDirection
      → (S → RangeItem → CatalogResult S)
      → PageCursor S
      → CatalogResult (PageTurn S)
  page_turn kv direction visit cursor =
      let limit = page_limit cursor.remaining_probe in
      if limit == 0 then ok (finished cursor.visited cursor.state) else (do
        page ← kv.scan_range cursor.page_start cursor.page_end direction limit
        (if length page == 0
            then ok (finished cursor.visited cursor.state)
            else if ltb limit (length page)
            then err (invalid_mutation "paged catalog scan returned more items than requested")
            else (do
              last ← ok_or (last? page) (invalid_mutation "paged catalog scan page was empty")
              r ← visit_page visit page cursor.visited cursor.state
              ok (
                  next_turn direction cursor.remaining_probe cursor (length page) last.key r.0
                    r.1))))

  abbrev pub after_turn :
      CatalogResult (PageTurn S)
      → (PageCursor S → Option (CatalogResult (ℕ × S)))
      → Option (CatalogResult (ℕ × S))
  after_turn (ok (finished visited s)) go_on = some (ok (visited, s))
  after_turn (ok (next_page cursor)) go_on = go_on cursor
  after_turn (err error) go_on = some (err error)
  after_turn panic go_on = some panic

  unfoldable pub page_loop :
      ℕ
      → OrderedCatalogKv
      → RangeDirection
      → (S → RangeItem → CatalogResult S)
      → PageCursor S
      → Option (CatalogResult (ℕ × S))
  page_loop zero kv direction visit cursor = none
  page_loop (suc fuel) kv direction visit cursor =
      after_turn (page_turn kv direction visit cursor) (page_loop fuel kv direction visit)

  unfoldable pub scan_range_pages :
      ℕ
      → OrderedCatalogKv
      → Bytes
      → Bytes
      → RangeDirection
      → Option ℕ
      → (S → RangeItem → CatalogResult S)
      → S
      → Option (CatalogResult (ℕ × S))
  scan_range_pages fuel kv start end direction max_items visit s =
      if leb_bytes end start
      then some (ok (0, s))
      else page_loop fuel kv direction visit (record {
        page_start = start;
        page_end = end;
        remaining_probe = Option.map (λ limit. saturating_add limit 1) max_items;
        visited = 0;
        state = s;
      })

-- The documented scans of a store that may return fewer rows than asked for: the first `page_length`
-- rows of the range, which is at least one where rows are asked for and at most the limit.
pub record PagedReads (kv : OrderedCatalogKv) (items : Items) : Type 0 where
  pub sorted : IsSorted items
  pub page_length : Bytes → Bytes → RangeDirection → ℕ → ℕ
  pub page_length-pos :
      (start end : Bytes) (direction : RangeDirection) (limit : ℕ)
      → 0 < limit
      → 0 < page_length start end direction limit
  pub page_length-limit :
      (start end : Bytes) (direction : RangeDirection) (limit : ℕ)
      → page_length start end direction limit ≤ limit
  pub scan_lem :
      (start end : Bytes) (direction : RangeDirection) (limit : ℕ)
      → ltb_bytes end start ≡ false
      → kv.scan_range start end direction limit
        ≡ ok (
            take
              (page_length start end direction limit)
              (directed direction (range start end items)))
