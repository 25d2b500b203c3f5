-- ===== src/Admin/Pages.antt =====
-- handleLimits and handleAbuse of internal/admin/admin.go: the tables of the entries of Redis, page
-- by page. The entries are what the scan of internal/store/redis.go returns, with instants as Unix
-- seconds. The texts of the pages that do not depend on the data are left out.
pub mod Slices
use api_ratelimiter.Base.{
  ℕ, suc, ◌+◌, ◌-◌, ◌*◌, ◌^◌, ◌≤◌, ◌<◌, ◌≡◌, refl, ◌∙◌, ap, Bool, ◌&&◌, not, Option, none, some,
  List, [], ◌∷◌, ℤ, pos, negsuc, ltb_ℤ, ltb, ◌≤ℤ◌, ◌≢◌, zero, ◌/◌, sym, true, false, Text, text_eq,
  text_lt, contains, length, take, drop, arith, if◌then◌else◌,
}
use api_ratelimiter.Counter.Known
use api_ratelimiter.Counter.Known.{KnownCounter, KnownMap}
use api_ratelimiter.Counter.Unknown.{UnknownMap, unknown_key_prefix, unknown_ip_prefix}
use api_ratelimiter.Store.{LimitEntry, AbuseEntry}
use api_ratelimiter.Admin.Sort.{sort_by}
use api_ratelimiter.Admin.Top.{
  KnownTopRow, UnknownTopRow, before, top_known, top_unknown, resolve_known_sort,
  resolve_unknown_sort,
}
use api_ratelimiter.Admin.Paging.{
  Shown, clamp_page, paginate, paginate_lem, paginate_wraps, pages_upto, pages_upto_all,
}

pub record LimitsRow : Type 0 where
  pub api_key : Text
  pub limit : ℤ
  pub created_at : ℤ
  pub total : ℤ
  pub windows_above : ℤ
  pub burst_requests : ℤ

pub record AbuseRow : Type 0 where
  pub key : Text
  pub first_seen : ℤ
  pub last_seen : ℤ
  pub total : ℤ
  pub burst_hits : ℤ
  pub abuse_hits : ℤ
  pub ttl : ℤ

-- The data of a page, for a type of rows and a type of the rows of its table of busiest clients.
pub record Page (Row Top : Type 0) : Type 0 where
  pub rows : List Row
  pub page : ℤ
  pub has_prev : Bool
  pub has_next : Bool
  pub q : Text
  pub total : ℕ
  pub top_rows : List Top
  pub top_sort : Text

-- The scan failed (502), slicing the rows panicked, or a page was rendered.
pub data PageResponse (Row Top : Type 0) : Type 0 where
  bad_gateway : PageResponse Row Top
  panicked : PageResponse Row Top
  rendered : Page Row Top → PageResponse Row Top

-- q != "" && !strings.Contains(key, q)
filtered_out : Text → Text → Bool
filtered_out q key = not (text_eq q []) && not (contains key q)

-- if c, ok := s.known.Get(l.APIKey); ok { ... }
limits_row : LimitEntry → Option KnownCounter → LimitsRow
limits_row l none = record {
  api_key = l.api_key;
  limit = l.limit;
  created_at = l.created_at;
  total = pos 0;
  windows_above = pos 0;
  burst_requests = pos 0;
}
limits_row l (some c) = record {
  api_key = l.api_key;
  limit = l.limit;
  created_at = l.created_at;
  total = c.total;
  windows_above = c.violation_hits;
  burst_requests = c.burst_hits;
}

unfoldable pub limits_rows : Text → KnownMap → List LimitEntry → List LimitsRow
unfolding filtered_out limits_row
limits_rows q known [] = []
limits_rows q known (l ∷ ls) =
    let rest = limits_rows q known ls in
    if filtered_out q l.api_key then rest else limits_row l (Known.get l.api_key known) ∷ rest

unfoldable pub abuse_rows : Text → List AbuseEntry → List AbuseRow
unfolding filtered_out
abuse_rows q [] = []
abuse_rows q (e ∷ es) =
    let rest = abuse_rows q es in
    if filtered_out q e.key
    then rest
    else record {
      key = e.key;
      first_seen = e.first_seen;
      last_seen = e.last_seen;
      total = e.total_requests;
      burst_hits = e.burst_hits;
      abuse_hits = e.abuse_hits;
      ttl = e.ttl;
    }
      ∷ rest

-- The two calls of sort.Slice.
unfoldable pub sorted_limits : Text → KnownMap → List LimitEntry → List LimitsRow
sorted_limits q known limits =
    sort_by (λ x y. text_lt x.api_key y.api_key) (limits_rows q known limits)

unfoldable pub sorted_abuse : Text → List AbuseEntry → List AbuseRow
sorted_abuse q entries = sort_by (before (λ r. r.last_seen) (λ r. r.key)) (abuse_rows q entries)

-- The data of the page.
unfoldable pub page_response :
    {Row Top : Type 0} → Text → ℤ → ℕ → List Top → Text → Option (Shown Row) → PageResponse Row Top
page_response q page total top_rows top_sort none = panicked
page_response q page total top_rows top_sort (some shown) = rendered (record {
  rows = shown.rows;
  page = page;
  has_prev = ltb_ℤ (pos 1) page;
  has_next = shown.has_next;
  q = q;
  total = total;
  top_rows = top_rows;
  top_sort = top_sort;
})

-- From the sorted rows to the response.
unfoldable pub respond :
    {Row Top : Type 0} → Text → ℤ → List Row → List Top → Text → PageResponse Row Top
unfolding page_response
respond q page all top_rows top_sort =
    page_response q page (length all) top_rows top_sort (paginate page all)

-- handleLimits, for the values q, page and topsort of the query
unfoldable pub handle_limits :
    Text → ℤ → Text → Option (List LimitEntry) → KnownMap → PageResponse LimitsRow KnownTopRow
handle_limits q page topsort none known = bad_gateway
handle_limits q page topsort (some limits) known =
    let top_sort = resolve_known_sort topsort in
    respond q (clamp_page page) (sorted_limits q known limits) (top_known top_sort known) top_sort

-- handleAbuse, for the prefix of the table's counters
unfoldable pub handle_abuse :
    Text
    → Text
    → ℤ
    → Text
    → Option (List AbuseEntry)
    → UnknownMap
    → PageResponse AbuseRow UnknownTopRow
handle_abuse prefix q page topsort none unknown = bad_gateway
handle_abuse prefix q page topsort (some entries) unknown =
    let top_sort = resolve_unknown_sort topsort in
    respond q (clamp_page page) (sorted_abuse q entries) (top_unknown prefix top_sort unknown)
      top_sort

-- handleAbuseKeys and handleAbuseIPs
unfoldable pub handle_abuse_keys :
    Text → ℤ → Text → Option (List AbuseEntry) → UnknownMap → PageResponse AbuseRow UnknownTopRow
handle_abuse_keys = handle_abuse unknown_key_prefix

unfoldable pub handle_abuse_ips :
    Text → ℤ → Text → Option (List AbuseEntry) → UnknownMap → PageResponse AbuseRow UnknownTopRow
handle_abuse_ips = handle_abuse unknown_ip_prefix

-- The rows that a response shows.
unfoldable pub rows_shown : {Row Top : Type 0} → PageResponse Row Top → List Row
rows_shown bad_gateway = []
rows_shown panicked = []
rows_shown (rendered p) = p.rows
