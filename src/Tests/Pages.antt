-- ===== src/Tests/Pages.antt =====
-- A store that returns at most two rows for a scan, visited page by page.
use aux_ducklake.Base.{
  ℕ, ◌+◌, ◌≤◌, ◌≡◌, refl, min, none, some, List, [], ◌∷◌, ◌++◌, if◌then◌else◌, take, arith,
}
use aux_ducklake.Bytes.{ltb_bytes}
use aux_ducklake.BTreeMap.{bytes_ord, retain}
use aux_ducklake.Error.{CatalogResult, ok, panic}
use aux_ducklake.Kv.{OrderedCatalogKv, RangeItem, forward, reverse, Items, range, directed, item}
use aux_ducklake.Kv.Pages.{
  PagedReads, scan_range_pages, page_loop, page_turn, next_turn, advance, visit_page, page_limit,
}
use aux_ducklake.Kv.Pages.Visits.{scan_range_pages-visits}
use aux_ducklake.Kv.Pages.Bounds.{scan_range_pages-bounded, IfOk, Visited}

abbrev rows : Items
rows =
    (1 ∷ [], 10 ∷ [])
    ∷ (2 ∷ [], 20 ∷ [])
    ∷ (2 ∷ 0 ∷ [], 30 ∷ [])
    ∷ (3 ∷ [], 40 ∷ [])
    ∷ (4 ∷ [], 50 ∷ [])
    ∷ []

abbrev short_pages : OrderedCatalogKv
short_pages = record {
  get_value = λ key. ok none;
  scan_range = λ start end direction limit.
      if ltb_bytes end start
      then panic
      else ok (take (min limit 2) (directed direction (range start end rows)));
  read_conflict_fence = λ key. ok none;
}

short_pages-PagedReads : PagedReads short_pages rows
unfolding ltb_bytes
short_pages-PagedReads = record {
  sorted = (
    (refl, (refl, (refl, (refl, tt)))),
    ((refl, (refl, (refl, tt))), ((refl, (refl, tt)), ((refl, tt), (tt, tt)))),
  );
  page_length = λ start end direction limit. min limit 2;
  page_length-pos = λ start end direction limit h. omega arith;
  page_length-limit = λ start end direction limit. omega arith;
  scan_lem = λ start end direction limit h. rw h refl;
}

abbrev collect : List RangeItem → RangeItem → CatalogResult (List RangeItem)
collect seen row = ok (seen ++ row ∷ [])

-- Three rows for a limit of two, in the reverse order, on two pages.
three_rows :
    scan_range_pages 6 short_pages (1 ∷ []) (4 ∷ []) reverse (some 2) collect []
    ≡ some
        (ok (3, item (3 ∷ [], 40 ∷ []) ∷ item (2 ∷ 0 ∷ [], 30 ∷ []) ∷ item (2 ∷ [], 20 ∷ []) ∷ []))
unfolding scan_range_pages page_loop page_turn next_turn advance visit_page page_limit range retain
    ltb_bytes
three_rows = refl

scan_range_pages-visits_example :
    scan_range_pages 6 short_pages (1 ∷ []) (4 ∷ []) forward none collect []
    ≡ some (visit_page collect (directed forward (range (1 ∷ []) (4 ∷ []) rows)) 0 [])
scan_range_pages-visits_example =
    scan_range_pages-visits short_pages rows short_pages-PagedReads 6 (1 ∷ []) (4 ∷ []) forward none
      collect [] (omega arith)

scan_range_pages-bounded_example :
    (result : CatalogResult (ℕ × List RangeItem)) × (scan_range_pages 6 short_pages
        (1 ∷ [])
        (4 ∷ [])
        reverse
        (some 2)
        collect
        []
      ≡ some result)
    × IfOk (λ r. Visited collect [] r × (r.0 ≤ 2 + 1)) result
scan_range_pages-bounded_example =
    scan_range_pages-bounded 6 short_pages (1 ∷ []) (4 ∷ []) reverse 2 collect [] (omega arith)
