-- ===== src/Admin/Pages/Slices.antt =====
-- The rows that the pages of handleLimits and handleAbuse (internal/admin/admin.go) show, and the
-- page numbers for which slicing the rows panics.
use api_ratelimiter.Base.{
  ℕ, suc, ◌+◌, ◌-◌, ◌*◌, ◌^◌, ◌≤◌, ◌<◌, ◌≡◌, ◌∙◌, ap, Bool, Option, none, some, List, ℤ, pos,
  negsuc, ltb_ℤ, ltb, ◌≤ℤ◌, ◌≢◌, zero, ◌/◌, sym, true, false, Text, length, take, drop, arith,
}
use api_ratelimiter.Counter.Known.{KnownMap}
use api_ratelimiter.Counter.Unknown.{UnknownMap}
use api_ratelimiter.Admin.Top.{top_known, top_unknown, resolve_known_sort, resolve_unknown_sort}
use api_ratelimiter.Admin.Paging.{
  clamp_page, paginate, paginate_lem, paginate_wraps, pages_upto, pages_upto_all,
}
use api_ratelimiter.Store.{LimitEntry, AbuseEntry}
use api_ratelimiter.Admin.Pages.{
  PageResponse, bad_gateway, panicked, rendered, sorted_limits, sorted_abuse, page_response,
  respond, handle_limits, handle_abuse, rows_shown,
}

module _ {Row Top : Type 0} (q : Text) (all : List Row) (top : List Top) (sort : Text) where
  clamp_page-suc : (p : ℕ) → clamp_page (pos (suc p)) ≡ pos (suc p)
  unfolding clamp_page
  clamp_page-suc p = ground arith

  -- The response of a page whose end is an int.
  respond_lem :
      (p : ℕ)
      → suc p * 25 < 2 ^ 63
      → respond q (clamp_page (pos (suc p))) all top sort
        ≡ rendered (record {
          rows = take 25 (drop (p * 25) all);
          page = pos (suc p);
          has_prev = ltb_ℤ (pos 1) (pos (suc p));
          has_next = ltb (p * 25 + 25) (length all);
          q = q;
          total = length all;
          top_rows = top;
          top_sort = sort;
        })
  unfolding respond page_response
  respond_lem p h =
      ap (λ n. respond q n all top sort) (clamp_page-suc p)
      ∙ ap (page_response q (pos (suc p)) (length all) top sort) (paginate_lem p all h)

  respond_rows :
      (p : ℕ)
      → suc p * 25 < 2 ^ 63
      → rows_shown (respond q (clamp_page (pos (suc p))) all top sort) ≡ take 25 (drop (p * 25) all)
  unfolding rows_shown
  respond_rows p h = ap rows_shown (respond_lem p h)

  is_rendered : PageResponse Row Top → Bool
  is_rendered bad_gateway = false
  is_rendered panicked = false
  is_rendered (rendered p) = true

  clamp_page_neg : (n : ℕ) → clamp_page (negsuc n) ≡ clamp_page (pos 1)
  unfolding clamp_page
  clamp_page_neg n = ground arith

  clamp_page_zero : clamp_page (pos 0) ≡ clamp_page (pos 1)
  unfolding clamp_page
  clamp_page_zero = ground arith

  renders :
      (page : ℤ)
      → page ≤ℤ pos ((2 ^ 63 - 1) / 25)
      → is_rendered (respond q (clamp_page page) all top sort) ≡ true
  unfolding is_rendered
  renders (pos zero) h =
      ap (λ k. is_rendered (respond q k all top sort)) clamp_page_zero
      ∙ ap is_rendered (respond_lem 0 (omega arith))
  renders (pos (suc p)) h = ap is_rendered (respond_lem p (omega arith))
  renders (negsuc n) h =
      ap (λ k. is_rendered (respond q k all top sort)) (clamp_page_neg n)
      ∙ ap is_rendered (respond_lem 0 (omega arith))

  respond_renders :
      (page : ℤ)
      → page ≤ℤ pos ((2 ^ 63 - 1) / 25)
      → respond q (clamp_page page) all top sort ≢ panicked
  unfolding is_rendered
  respond_renders page h e = ground (arith, sym (renders page h) ∙ ap is_rendered e)

  respond_panics :
      (page : ℤ)
      → paginate (clamp_page page) all ≡ none
      → respond q (clamp_page page) all top sort ≡ panicked
  unfolding respond page_response
  respond_panics page h = ap (page_response q (clamp_page page) (length all) top sort) h

handle_limits_renders :
    (q topsort : Text) (limits : Option (List LimitEntry)) (known : KnownMap) (page : ℤ)
    → page ≤ℤ pos ((2 ^ 63 - 1) / 25)
    → handle_limits q page topsort limits known ≢ panicked
unfolding handle_limits
handle_limits_renders q topsort none known page h = ground arith
handle_limits_renders q topsort (some limits) known page h =
    respond_renders q (sorted_limits q known limits) (top_known (resolve_known_sort topsort) known)
      (resolve_known_sort topsort) page h

handle_abuse_renders :
    (prefix q topsort : Text) (entries : Option (List AbuseEntry)) (unknown : UnknownMap) (page : ℤ)
    → page ≤ℤ pos ((2 ^ 63 - 1) / 25)
    → handle_abuse prefix q page topsort entries unknown ≢ panicked
unfolding handle_abuse
handle_abuse_renders prefix q topsort none unknown page h = ground arith
handle_abuse_renders prefix q topsort (some entries) unknown page h =
    respond_renders q (sorted_abuse q entries)
      (top_unknown prefix (resolve_unknown_sort topsort) unknown) (resolve_unknown_sort topsort)
      page h

wrapping_page : clamp_page (pos 368934881474191034) ≡ pos 368934881474191034
unfolding clamp_page
wrapping_page = ground arith

-- When the limits and the counters do not change, the pages 1 to n of the table of limits show the
-- sorted rows of the limits that the search text selects, each row once and in order. The n pages of
-- 25 rows must have room for the rows, and n * 25 must be an int.
pub pages_upto-handle_limits :
    (q topsort : Text) (limits : List LimitEntry) (known : KnownMap) (n : ℕ)
    → n * 25 < 2 ^ 63
    → length (sorted_limits q known limits) ≤ n * 25
    → pages_upto (λ page. rows_shown (handle_limits q page topsort (some limits) known)) n
      ≡ sorted_limits q known limits
unfolding handle_limits
pages_upto-handle_limits q topsort limits known n b c =
    pages_upto_all (λ page. rows_shown (handle_limits q page topsort (some limits) known))
      (sorted_limits q known limits)
      (respond_rows q (sorted_limits q known limits) (top_known (resolve_known_sort topsort) known)
        (resolve_known_sort topsort))
      n b c

-- When the entries and the counters do not change, the pages 1 to n of a table of abusers show the
-- sorted rows of the entries that the search text selects, each row once and in order. The n pages
-- of 25 rows must have room for the rows, and n * 25 must be an int.
pub pages_upto-handle_abuse :
    (prefix q topsort : Text) (entries : List AbuseEntry) (unknown : UnknownMap) (n : ℕ)
    → n * 25 < 2 ^ 63
    → length (sorted_abuse q entries) ≤ n * 25
    → pages_upto (λ page. rows_shown (handle_abuse prefix q page topsort (some entries) unknown)) n
      ≡ sorted_abuse q entries
unfolding handle_abuse
pages_upto-handle_abuse prefix q topsort entries unknown n b c =
    pages_upto_all (λ page. rows_shown (handle_abuse prefix q page topsort (some entries) unknown))
      (sorted_abuse q entries)
      (respond_rows q (sorted_abuse q entries)
        (top_unknown prefix (resolve_unknown_sort topsort) unknown) (resolve_unknown_sort topsort))
      n b c

-- For every page number of the query up to (2 ^ 63 - 1) / 25, negative ones included, neither table
-- panics, whatever the entries are and also when the scan fails.
pub handle_page_safe :
    (prefix q topsort : Text) (limits : Option (List LimitEntry))
    (entries : Option (List AbuseEntry)) (known : KnownMap) (unknown : UnknownMap) (page : ℤ)
    → page ≤ℤ pos ((2 ^ 63 - 1) / 25)
    → (handle_limits q page topsort limits known ≢ panicked)
      × (handle_abuse prefix q page topsort entries unknown ≢ panicked)
handle_page_safe prefix q topsort limits entries known unknown page h = (
  handle_limits_renders q topsort limits known page h,
  handle_abuse_renders prefix q topsort entries unknown page h,
)

-- A page number that is an int can make both tables panic whatever the rows are: the start of page
-- 368934881474191034 wraps to a negative number, and slicing the rows panics.
pub handle_page_wraps :
    (prefix q topsort : Text) (limits : List LimitEntry) (entries : List AbuseEntry)
    (known : KnownMap) (unknown : UnknownMap)
    → (handle_limits q (pos 368934881474191034) topsort (some limits) known ≡ panicked)
      × (handle_abuse prefix q (pos 368934881474191034) topsort (some entries) unknown ≡ panicked)
unfolding handle_limits handle_abuse
handle_page_wraps prefix q topsort limits entries known unknown = (
  respond_panics q (sorted_limits q known limits) (top_known (resolve_known_sort topsort) known)
      (resolve_known_sort topsort) (pos 368934881474191034)
      (ap (λ k. paginate k (sorted_limits q known limits)) wrapping_page
        ∙ paginate_wraps (sorted_limits q known limits)),
  respond_panics q (sorted_abuse q entries)
      (top_unknown prefix (resolve_unknown_sort topsort) unknown) (resolve_unknown_sort topsort)
      (pos 368934881474191034)
      (ap (λ k. paginate k (sorted_abuse q entries)) wrapping_page
        ∙ paginate_wraps (sorted_abuse q entries)),
)
