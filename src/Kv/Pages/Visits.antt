-- ===== src/Kv/Pages/Visits.antt =====
-- What `scan_range_pages` visits.
use mathlib.Core.List
use aux_ducklake.Bytes.Order.{leb-ltb_bytes_trans, ltb_bytes_asymm}
use aux_ducklake.Kv.Ranges.{range_lem, within, length-within}
use aux_ducklake.Kv.Pages.Budget.{budget-nil, budget, rows_left}
use aux_ducklake.Base.{
  length-append, length-map, arith, Bool-cases, inr, inl, ◌<◌, ℕ, ◌≤◌, ◌≡◌, refl, false, Option,
  some, List, [], ◌∷◌, length,
}
use aux_ducklake.Kv.{
  item, forward, reverse, OrderedCatalogKv, RangeItem, RangeDirection, Items, range, directed,
}
use aux_ducklake.Kv.Pages.{scan_range_pages, PagedReads, visit_page}
use aux_ducklake.BTreeMap.{retain, bytes_ord}
use aux_ducklake.Error.{CatalogResult}
use aux_ducklake.Bytes.{Bytes, ltb_bytes}
use mathlib.Core.Option
use mathlib.Core.Path.{ap, ◌∙◌}
use aux_ducklake.Ids.{saturating_add}
use aux_ducklake.Kv.Pages.Loop.{page_loop-visits}

-- Nothing lies in a range that does not end above its start.
range-nil : (start end : Bytes) (m : Items) → ltb_bytes start end ≡ false → range start end m ≡ []
unfolding range retain
range-nil start end [] h = refl
range-nil start end ((k, v) ∷ m) h =
    ground (arith, range-nil start end m h, leb-ltb_bytes_trans start k end)

length-reverse : (rows : List RangeItem) → length (List.reverse rows) ≡ length rows
length-reverse [] = refl
length-reverse (row ∷ rows) =
    ap length (List.reverse-cons row rows)
    ∙ omega (arith, length-append (List.reverse rows) (row ∷ []), length-reverse rows)

length-directed :
    (direction : RangeDirection) (start end : Bytes) (m : Items)
    → length (directed direction (range start end m)) ≤ length m
length-directed forward start end m =
    rw (range_lem start end m, length-map item (within start end m)) (length-within start end m)
length-directed reverse start end m =
    rw
      (
        length-reverse (range start end m),
        range_lem start end m,
        length-map item (within start end m),
      )
      (length-within start end m)

directed-nil : (direction : RangeDirection) → directed direction [] ≡ []
directed-nil forward = refl
directed-nil reverse = refl

-- With more fuel than the store has rows a scan by pages ends, and it has visited, in order, what
-- one scan of the whole range would return, up to one row more than the limit where there is one,
-- and it ends early with the visitor's error; this on a store that may return fewer rows than asked
-- for, but one at least while there are any.
pub scan_range_pages-visits :
    {S : Type 0} (kv : OrderedCatalogKv) (items : Items) (reads : PagedReads kv items) (fuel : ℕ)
    (start end : Bytes) (direction : RangeDirection) (max_items : Option ℕ)
    (visit : S → RangeItem → CatalogResult S) (s : S)
    → length items < fuel
    → scan_range_pages fuel kv start end direction max_items visit s
      ≡ some (
          visit_page visit
            (budget
              (Option.map (λ limit. saturating_add limit 1) max_items)
              (directed direction (range start end items)))
            0
            s)
unfolding scan_range_pages rows_left visit_page
scan_range_pages-visits kv items reads fuel start end direction max_items visit s h =
    let probe = Option.map (λ limit. saturating_add limit 1) max_items in
    elim (Bool-cases (ltb_bytes start end)) [
      | inl below ↦
          let fits : length (directed direction (range start end items)) < fuel =
            omega (arith, length-directed direction start end items) in
          rw below (
            page_loop-visits kv items reads direction visit fuel
              (record {
                page_start = start;
                page_end = end;
                remaining_probe = probe;
                visited = 0;
                state = s;
              })
              (ltb_bytes_asymm start end below) fits)
      | inr n ↦ rw (n, range-nil start end items n, directed-nil direction, budget-nil probe) refl
    ]
