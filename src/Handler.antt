-- ===== src/Handler.antt =====
-- internal/handler/check.go: the /check endpoint. The limiter and the histogram of durations are the
-- interface `Decider`; the instants of the histogram and the debug log are left out.
pub mod Status
pub mod Keys
pub mod Addresses
use api_ratelimiter.Base.{
  ℕ, Bool, true, false, Option, none, some, List, [], ◌∷◌, Text, codes, if◌then◌else◌,
}
use api_ratelimiter.Base.Dict.{Dict, lookup}
use api_ratelimiter.Strconv.{trim_space}
use api_ratelimiter.Url.{query, query_get}
use api_ratelimiter.Url.Parse.{parse_url}
use api_ratelimiter.Ip.{ip_valid}

-- What the handler calls: Decide, which is `none` where it panics, and the Observe call of
-- CheckDurationSeconds.
pub record Decider : Type 1 where
  pub State : Type 0
  pub decide : Text → Text → State → Option Bool × State
  pub observe_duration : State → State

-- What the handler reads of a request. The headers stand under their canonical names, as in
-- http.Header.
pub record CheckRequest : Type 0 where
  pub headers : Dict (List Text)
  pub raw_query : Text

first_or_empty : Option (List Text) → Text
first_or_empty none = []
first_or_empty (some []) = []
first_or_empty (some (v ∷ vs)) = v

-- r.Header.Get(name), for a canonical name
unfoldable pub header_get : Text → CheckRequest → Text
unfolding first_or_empty
header_get name r = first_or_empty (lookup name r.headers)

-- if v := ...; v != "" { return v }, and what follows it
unfoldable pub or_else : Text → Text → Text
or_else [] next = next
or_else (c ∷ s) next = c ∷ s

-- The two lookups in a query
unfoldable pub key_of_query : Dict Text → Text → Text
unfolding or_else
key_of_query q next =
    or_else (query_get (codes "api_key") q) (or_else (query_get (codes "token") q) next)

-- The branch for X-Original-URI
key_of_parsed : Option Text → Text
key_of_parsed none = []
key_of_parsed (some raw) = key_of_query (query raw) []

unfoldable pub key_of_uri : Text → Text
unfolding key_of_parsed
key_of_uri [] = []
key_of_uri (c ∷ uri) = key_of_parsed (parse_url (c ∷ uri))

-- extractKey
unfoldable pub extract_key : CheckRequest → Text
unfolding or_else
extract_key r =
    or_else (header_get (codes "X-Api-Key") r)
      (key_of_query (query r.raw_query) (key_of_uri (header_get (codes "X-Original-Uri") r)))

valid_or_empty : Text → Text
valid_or_empty [] = []
valid_or_empty (c ∷ v) = if ip_valid (c ∷ v) then c ∷ v else []

-- extractIP
unfoldable pub extract_ip : CheckRequest → Text
unfolding valid_or_empty
extract_ip r = valid_or_empty (trim_space (header_get (codes "X-Real-Ip") r))

abbrev pub status_ok : ℕ
status_ok = 200

abbrev pub status_forbidden : ℕ
status_forbidden = 403

-- The status that is written: a panic is recovered as 200.
unfoldable pub status_of : Option Bool → ℕ
status_of none = status_ok
status_of (some allowed) = if allowed then status_ok else status_forbidden

module _ (d : Decider) where
  -- Check.ServeHTTP
  unfoldable pub serve_http : CheckRequest → d.State → ℕ × d.State
  serve_http r s =
      let (answer, s') = d.decide (extract_key r) (extract_ip r) s in
      (status_of answer, d.observe_duration s')
