-- ===== src/Handler/Keys.antt =====
-- extractKey of internal/handler/check.go, on the requests that the three documented configurations
-- of nginx or Angie send.
use api_ratelimiter.Base.{
  ◌≡◌, ◌≢◌, refl, ap, ◌∙◌, false, [], ◌∷◌, ◌++◌, Option, none, some, Text, codes,
}
use api_ratelimiter.Base.Dict.{Dict}
use api_ratelimiter.Url.{has_byte, query, query_get, query_unescape}
use api_ratelimiter.Url.Escapes.{IsBytes}
use api_ratelimiter.Url.Queries.{IsName, FirstField, lookup-FirstField}
use api_ratelimiter.Url.Paths.{IsPath, parse_url-path}
use api_ratelimiter.Url.Parse.{has_control}
use api_ratelimiter.Handler.{
  CheckRequest, header_get, or_else, key_of_query, key_of_parsed, key_of_uri, extract_key,
}

-- A query that carries a key, its bytes escaped: in the first field "api_key", or, where that field is
-- missing or empty, in the first field "token". Fields of any form may stand around it.
pub data Carries (key raw : Text) : Type 0 where
  in_api_key : FirstField (codes "api_key") key raw → Carries key raw
  in_token :
      query_get (codes "api_key") (query raw) ≡ []
      → FirstField (codes "token") key raw
      → Carries key raw

api_key-IsName : IsName (codes "api_key")
unfolding query_unescape has_byte
api_key-IsName = record { plain = refl; no_equals = refl; no_ampersand = refl; no_semicolon = refl }

token-IsName : IsName (codes "token")
unfolding query_unescape has_byte
token-IsName = record { plain = refl; no_equals = refl; no_ampersand = refl; no_semicolon = refl }

or_else_key : (key next : Text) → key ≢ [] → or_else key next ≡ key
unfolding or_else
or_else_key [] next h = absurd (h refl)
or_else_key (c ∷ key) next h = refl

module _ (key : Text) (b : IsBytes key) (ne : key ≢ []) where
  query_get-FirstField :
      {raw : Text} (name : Text)
      → IsName name
      → FirstField name key raw
      → query_get name (query raw) ≡ key
  unfolding query_get
  query_get-FirstField name n f =
      ap (λ (o : Option Text). elim o [ none ↦ [] | some v ↦ v ]) (lookup-FirstField name key n b f)

  key_of_carried :
      {raw : Text} (next : Text) → Carries key raw → key_of_query (query raw) next ≡ key
  unfolding key_of_query
  key_of_carried next (in_api_key f) =
      rw (query_get-FirstField (codes "api_key") api_key-IsName f) (or_else_key key _ ne)
  key_of_carried next (in_token e f) =
      rw (e, query_get-FirstField (codes "token") token-IsName f)
        (unfold or_else in or_else_key key next ne)

-- How the three documented configurations hand a key to /check: in X-Api-Key, in the query of the
-- request, and in the query of the original URI.
pub data Sends (key : Text) (r : CheckRequest) : Type 0 where
  in_header : header_get (codes "X-Api-Key") r ≡ key → Sends key r
  in_query : header_get (codes "X-Api-Key") r ≡ [] → Carries key r.raw_query → Sends key r
  in_original_uri :
      (p raw : Text)
      → header_get (codes "X-Api-Key") r ≡ []
      → query_get (codes "api_key") (query r.raw_query) ≡ []
      → query_get (codes "token") (query r.raw_query) ≡ []
      → header_get (codes "X-Original-Uri") r ≡ b'/' ∷ p ++ b'?' ∷ raw
      → IsPath (b'/' ∷ p)
      → has_control raw ≡ false
      → has_byte b'#' raw ≡ false
      → Carries key raw
      → Sends key r

abbrev behind_header : CheckRequest → Text
behind_header r =
    key_of_query (query r.raw_query) (key_of_uri (header_get (codes "X-Original-Uri") r))

no_header :
    (r : CheckRequest) → header_get (codes "X-Api-Key") r ≡ [] → extract_key r ≡ behind_header r
unfolding extract_key or_else
no_header r e = ap (λ k. or_else k (behind_header r)) e

no_query :
    (q : Dict Text) (next : Text)
    → query_get (codes "api_key") q ≡ []
    → query_get (codes "token") q ≡ []
    → key_of_query q next ≡ next
unfolding key_of_query or_else
no_query q next h k =
    ap (λ v. or_else v (or_else (query_get (codes "token") q) next)) h ∙ ap (λ v. or_else v next) k

-- A key that is not empty is extracted as it was sent, whatever bytes it has:
-- * in X-Api-Key, as it is;
-- * without that header, escaped in the query of the request, in its first field "api_key" or, where
--   that is missing or empty, in its first field "token", whatever fields stand around it;
-- * without the header and with neither field, in the same way in the query of X-Original-Uri, where
--   that is a path and a query that url.Parse accepts: the path starts with one slash (behind two
--   slashes a key may be lost) and its escapes are whole, and neither has a control byte or a '#'.
pub extract_key-Sends :
    (key : Text) (r : CheckRequest) → IsBytes key → key ≢ [] → Sends key r → extract_key r ≡ key
unfolding extract_key key_of_uri key_of_parsed
extract_key-Sends key r b ne (in_header e) =
    ap (λ k. or_else k (behind_header r)) e ∙ or_else_key key (behind_header r) ne
extract_key-Sends key r b ne (in_query e c) =
    no_header r e ∙ key_of_carried key b ne (key_of_uri (header_get (codes "X-Original-Uri") r)) c
extract_key-Sends key r b ne (in_original_uri p raw e q t u h c f d) =
    no_header r e
    ∙ no_query (query r.raw_query) (key_of_uri (header_get (codes "X-Original-Uri") r)) q t
    ∙ ap key_of_uri u
    ∙ ap key_of_parsed (parse_url-path p raw h c f)
    ∙ key_of_carried key b ne [] d
