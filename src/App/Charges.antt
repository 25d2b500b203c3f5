-- ===== src/App/Charges.antt =====
-- Which counter of the unknown map a request to /check of cmd/api-ratelimiter/main.go is charged to.
use api_ratelimiter.Base.{◌≡◌, ap, Bool, false, Option, none, some, Text, text_eq, if◌then◌else◌}
use api_ratelimiter.Clock.{Time}
use api_ratelimiter.Redis.{Redis}
use api_ratelimiter.Counter.Unknown.{record_request}
use api_ratelimiter.Limiter.Calls.{Call, charged_to, unknown_step_none, unknown_step_some}
use api_ratelimiter.Handler.{CheckRequest, serve_http, extract_key, extract_ip, status_of}
use api_ratelimiter.App.{App, lookup_of_store, limiter_of, check}

abbrev pub is_some_key : Text → Option Text → Bool
is_some_key k none = false
is_some_key k (some j) = text_eq j k

module _ (r : Redis) where
  -- The call of Decide that a request makes.
  abbrev pub call_of : Time → CheckRequest → Call
  call_of now q = record { now = now; api_key = extract_key q; ip = extract_ip q }

  -- The key of the unknown map that a request is charged to, if there is one.
  abbrev pub charge : Time → CheckRequest → App r → Option Text
  charge now q a = charged_to (lookup_of_store r) (call_of now q) (limiter_of r a)

  pub check_unknown_none :
      (now : Time) (q : CheckRequest) (a : App r)
      → charge now q a ≡ none
      → (check r now q a).1.unknown ≡ a.unknown
  unfolding check serve_http
  check_unknown_none now q a e =
      unknown_step_none (lookup_of_store r) (call_of now q) (limiter_of r a) e

  pub check_unknown_some :
      (now : Time) (q : CheckRequest) (a : App r) (k : Text)
      → charge now q a ≡ some k
      → let (d, unknown) =
          record_request now k a.global_limit a.burst a.abuse_multiplier a.unknown in
        ((check r now q a).0 ≡ (if d.allowed then 200 else 403))
        × ((check r now q a).1.unknown ≡ unknown)
  unfolding check serve_http status_of
  check_unknown_some now q a k e =
      let (p, u) = unknown_step_some (lookup_of_store r) (call_of now q) (limiter_of r a) k e in
      (ap (λ v. if v then 200 else 403) p, u)
