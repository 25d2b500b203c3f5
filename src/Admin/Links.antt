-- ===== src/Admin/Links.antt =====
-- topsortURL of internal/admin/admin.go: the link that changes the order of a table of the busiest
-- clients and keeps the rest of the page, and how the handlers read such a query.
use api_ratelimiter.Base.{
  ℕ, ◌^◌, ◌≤◌, ◌<◌, ◌≡◌, refl, ap, ◌∙◌, Bool-cases, inl, inr, true, false, [], ◌∷◌, ◌++◌, ℤ, pos,
  ltb_ℤ, Text, codes, text_eq, arith, if◌then◌else◌,
}
use api_ratelimiter.Base.Dict.{Dict, lookup}
use api_ratelimiter.Strconv.{atoi, itoa}
use api_ratelimiter.Strconv.RoundTrip.{atoi-itoa, itoa-IsBytes}
use api_ratelimiter.Url.{cut, has_byte, query, query_get, query_unescape}
use api_ratelimiter.Url.Escapes.{IsBytes}
use api_ratelimiter.Url.Queries.{IsName, field, query-field, query-field_append, cut-append}
use api_ratelimiter.Admin.Paging.{clamp_page}

-- v.Encode() writes the fields in the order of their names.
unfoldable pub with_q : Text → Text → Text
with_q [] rest = rest
with_q (c ∷ q) rest = field (codes "q") (c ∷ q) ++ b'&' ∷ rest

unfoldable pub with_page : ℤ → Text → Text
with_page page rest =
    if ltb_ℤ (pos 1) page then field (codes "page") (itoa page) ++ b'&' ∷ rest else rest

unfoldable pub topsort_query : Text → Text → ℤ → Text
topsort_query sort_by q page = with_page page (with_q q (field (codes "topsort") sort_by))

-- topsortURL
unfoldable pub topsort_url : Text → Text → Text → ℤ → Text
topsort_url path sort_by q page = path ++ b'?' ∷ topsort_query sort_by q page

-- The page that a query names: page, _ := strconv.Atoi(r.URL.Query().Get("page")), and the test
-- behind it.
unfoldable pub page_param : Dict Text → ℤ
page_param query = clamp_page (atoi (query_get (codes "page") query))

page-IsName : IsName (codes "page")
unfolding query_unescape has_byte
page-IsName = record { plain = refl; no_equals = refl; no_ampersand = refl; no_semicolon = refl }

q-IsName : IsName (codes "q")
unfolding query_unescape has_byte
q-IsName = record { plain = refl; no_equals = refl; no_ampersand = refl; no_semicolon = refl }

topsort-IsName : IsName (codes "topsort")
unfolding query_unescape has_byte
topsort-IsName = record { plain = refl; no_equals = refl; no_ampersand = refl; no_semicolon = refl }

-- What the handlers read of a query that is right.
record Reads (sort_by q : Text) (page : ℕ) (d : Dict Text) : Type 0 where
  topsort : query_get (codes "topsort") d ≡ sort_by
  search : query_get (codes "q") d ≡ q
  at_page : page_param d ≡ pos page

with_page_first :
    (n : ℕ) (rest : Text) → ltb_ℤ (pos 1) (pos n) ≡ false → with_page (pos n) rest ≡ rest
unfolding with_page
with_page_first n rest e =
    ap (λ v. if v then field (codes "page") (itoa (pos n)) ++ b'&' ∷ rest else rest) e

with_page_later :
    (n : ℕ) (rest : Text)
    → ltb_ℤ (pos 1) (pos n) ≡ true
    → with_page (pos n) rest ≡ field (codes "page") (itoa (pos n)) ++ b'&' ∷ rest
unfolding with_page
with_page_later n rest e =
    ap (λ v. if v then field (codes "page") (itoa (pos n)) ++ b'&' ∷ rest else rest) e

later :
    {sort_by q : Text} (page : ℕ) (d : Dict Text)
    → 1 ≤ page
    → page < 2 ^ 63
    → Reads sort_by q 1 d
    → Reads sort_by q page ((codes "page", itoa (pos page)) ∷ d)
unfolding query_get lookup text_eq page_param clamp_page
later page d k l r = record {
  topsort = r.topsort;
  search = r.search;
  at_page = ap clamp_page (atoi-itoa page l) ∙ ground arith;
}

module _ (sort_by : Text) (b : IsBytes sort_by) where
  read_sort : query (field (codes "topsort") sort_by) ≡ (codes "topsort", sort_by) ∷ []
  read_sort = query-field (codes "topsort") sort_by topsort-IsName b

  read_q :
      (q : Text)
      → IsBytes q
      → Reads sort_by q 1 (query (with_q q (field (codes "topsort") sort_by)))
  unfolding with_q query_get lookup text_eq page_param clamp_page atoi
  read_q [] h = rw read_sort (record { topsort = refl; search = refl; at_page = refl })
  read_q (c ∷ q) h =
      rw
        (
          query-field_append (codes "q") (c ∷ q) q-IsName h (field (codes "topsort") sort_by),
          read_sort,
        )
        (record { topsort = refl; search = refl; at_page = refl })

  read_page :
      (q : Text) (page : ℕ)
      → IsBytes q
      → 1 ≤ page
      → page < 2 ^ 63
      → Reads sort_by q page (query (topsort_query sort_by q (pos page)))
  unfolding topsort_query
  read_page q page h k l = elim (Bool-cases (ltb_ℤ (pos 1) (pos page))) [
    | inr e ↦
        let r = read_q q h in
        rw (with_page_first page (with_q q (field (codes "topsort") sort_by)) e) (record {
          topsort = r.topsort;
          search = r.search;
          at_page = r.at_page ∙ ap pos (ground (arith, e, k));
        })
    | inl e ↦ rw (with_page_later page (with_q q (field (codes "topsort") sort_by)) e) (
        rw
          (query-field_append (codes "page") (itoa (pos page)) page-IsName (itoa-IsBytes page l)
            (with_q q (field (codes "topsort") sort_by)))
          (later page (query (with_q q (field (codes "topsort") sort_by))) k l (read_q q h)))
  ]

-- For a path without a question mark, a page from 1 to 2 ^ 63 - 1, and any bytes as order and search
-- text: the query of the link that topsortURL builds gives the handlers back the order, the search
-- text (none when there is none) and the page, although a first page and an empty search are left
-- out of the link.
pub topsort_url_read :
    (path sort_by q : Text) (page : ℕ)
    → has_byte b'?' path ≡ false
    → IsBytes sort_by
    → IsBytes q
    → 1 ≤ page
    → page < 2 ^ 63
    → let d = query (cut b'?' (topsort_url path sort_by q (pos page))).1 in
      (query_get (codes "topsort") d ≡ sort_by)
      × (query_get (codes "q") d ≡ q)
      × (page_param d ≡ pos page)
unfolding topsort_url
topsort_url_read path sort_by q page n b h k l =
    let r = read_page sort_by b q page h k l in
    rw (cut-append b'?' path (topsort_query sort_by q (pos page)) n)
      (r.topsort, r.search, r.at_page)
