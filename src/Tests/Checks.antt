-- ===== src/Tests/Checks.antt =====
-- The theorems on /check at concrete requests.
use api_ratelimiter.Base.{
  ℕ, ◌+◌, ◌≡◌, ◌↔◌, ◌⊎◌, refl, true, false, none, some, [], ◌∷◌, ◌++◌, Text, codes, text_eq,
  drop_text, has_prefix, arith, if◌then◌else◌,
}
use api_ratelimiter.Base.Dict.{lookup}
use api_ratelimiter.Strconv.{trim_space}
use api_ratelimiter.Url.{
  has_byte, query, query_get, query_unescape, query_escape, query_pairs, split, query_pair, cut,
  escape_byte, is_unreserved, upper_hex, is_letter, is_digit, is_hex, unhex,
}
use api_ratelimiter.Url.Parse.{
  has_control, escapes_valid, parse_url, with_fragment, parse_reference, parse_rest, parse_cut,
  rest_valid, authority_valid, host_port_valid, get_scheme,
}
use api_ratelimiter.Url.Queries.{field, at_end}
use api_ratelimiter.Url.Paths.{IsPath}
use api_ratelimiter.Ip.Dotted.{Dotted}
use api_ratelimiter.Handler.{Decider, CheckRequest, header_get, extract_key, extract_ip}
use api_ratelimiter.Handler.Keys.{in_token, in_original_uri, extract_key-Sends}
use api_ratelimiter.Handler.Addresses.{extract_ip-Dotted}

-- A limiter that panics for the address 10.0.0.1, refuses 10.0.0.2, and counts its calls.
abbrev picky : Decider
picky = record {
  State = ℕ;
  decide = λ key ip n. (
    if text_eq ip (codes "10.0.0.1")
        then none
        else some (if text_eq ip (codes "10.0.0.2") then false else true),
    n + 1,
  );
  observe_duration = λ n. n + 10;
}

abbrev pub visit : Text → CheckRequest
visit ip = record {
  headers =
      (codes "X-Real-Ip", ip ∷ [])
      ∷ (codes "X-Original-Uri", (codes "/v1/a?" ++ field (codes "token") (codes "k 1&")) ∷ [])
      ∷ [];
  raw_query = codes "lang=en";
}

visit-IsPath : IsPath (codes "/v1/a")
unfolding has_prefix has_control has_byte escapes_valid
visit-IsPath = record {
  one_slash = refl;
  no_control = refl;
  no_fragment = refl;
  no_query = refl;
  escapes = refl;
}

extract_key-Sends_example : extract_key (visit (codes "10.0.0.2")) ≡ codes "k 1&"
unfolding header_get query query_get query_unescape query_escape has_control has_byte lookup text_eq
    query_pairs split query_pair cut escape_byte is_unreserved upper_hex
extract_key-Sends_example =
    extract_key-Sends (codes "k 1&") (visit (codes "10.0.0.2")) (ground arith) (λ h. cc)
      (in_original_uri (codes "v1/a") (field (codes "token") (codes "k 1&")) refl refl refl refl
        visit-IsPath refl refl (in_token refl at_end))

extract_ip-Dotted_example :
    ((extract_ip (visit (codes " 10.0.0.2")) ≡ codes "10.0.0.2") ↔ Dotted 3 (codes "10.0.0.2"))
    × ((extract_ip (visit (codes " 10.0.0.2")) ≡ codes "10.0.0.2")
        ⊎ (extract_ip (visit (codes " 10.0.0.2")) ≡ []))
unfolding header_get trim_space has_byte lookup text_eq
extract_ip-Dotted_example =
    extract_ip-Dotted (visit (codes " 10.0.0.2")) (codes "10.0.0.2") refl (λ h. cc) refl

-- A request URI whose authority url.Parse refuses.
bad_port_refused : parse_url (codes "//a:b?api_key=K") ≡ none
unfolding parse_url with_fragment parse_reference parse_rest parse_cut rest_valid authority_valid
    host_port_valid get_scheme has_control escapes_valid cut has_byte has_prefix text_eq is_letter
    is_digit is_hex unhex drop_text
bad_port_refused = refl
