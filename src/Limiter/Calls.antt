-- ===== src/Limiter/Calls.antt =====
-- One call of Decide of internal/limiter/limiter.go, as the unknown map sees it.
use api_ratelimiter.Base.{
  ◌≡◌, not, ◌&&◌, Option, none, some, List, [], ◌∷◌, ◌++◌, Text, arith, if◌then◌else◌,
}
use api_ratelimiter.Clock.{Time}
use api_ratelimiter.Counter.Unknown
use api_ratelimiter.Counter.Unknown.{
  UnknownMap, new_unknown_map, unknown_key_prefix, unknown_ip_prefix,
}
use api_ratelimiter.Counter.Unknown.Windows.{UnknownRequest}
use api_ratelimiter.Limiter.{
  LimitLookup, Limiter, decide, decide_with_key, decide_with_ip, decide_known, decide_unknown,
  is_empty,
}

-- A call of Decide: the instant that the map's clock gives, and the arguments.
pub record Call : Type 0 where
  pub now : Time
  pub api_key : Text
  pub ip : Text

module _ (l : LimitLookup) where
  -- The state after a history of calls, the newest first.
  unfoldable pub run : Limiter l → List Call → Limiter l
  run s [] = s
  run s (c ∷ h) = (decide l c.now c.api_key c.ip (run s h)).1

  -- The key under which a call is counted in the unknown map, if it is.
  unfoldable pub charged_to : Call → Limiter l → Option Text
  charged_to c s =
      let reply = (l.lookup_limit c.api_key s.store).0 in
      if is_empty c.api_key
      then (if is_empty c.ip then none else some (unknown_ip_prefix ++ c.ip))
      else if not reply.failed && reply.found
      then none
      else some (unknown_key_prefix ++ c.api_key)

  abbrev pub request_of : Limiter l → Time → Text → UnknownRequest
  request_of s now k = record {
    now = now;
    key = k;
    global_limit = s.global_limit;
    burst = s.burst;
    abuse_multiplier = s.abuse_multiplier;
  }

  -- The settings of a limiter are never changed.
  pub settings_step :
      (c : Call) (s : Limiter l)
      → let s' = (decide l c.now c.api_key c.ip s).1 in
        (s'.global_limit ≡ s.global_limit)
        × (s'.burst ≡ s.burst)
        × (s'.abuse_multiplier ≡ s.abuse_multiplier)
  unfolding decide decide_with_key decide_with_ip decide_known decide_unknown
  settings_step c s = ground arith

  pub unknown_step_none :
      (c : Call) (s : Limiter l)
      → charged_to c s ≡ none
      → (decide l c.now c.api_key c.ip s).1.unknown ≡ s.unknown
  unfolding decide decide_with_key decide_with_ip decide_known charged_to
  unknown_step_none c s e = ground arith

  pub unknown_step_some :
      (c : Call) (s : Limiter l) (k : Text)
      → charged_to c s ≡ some k
      → let (d, unknown) =
          Unknown.record_request c.now k s.global_limit s.burst s.abuse_multiplier s.unknown in
        ((decide l c.now c.api_key c.ip s).0 ≡ d.allowed)
        × ((decide l c.now c.api_key c.ip s).1.unknown ≡ unknown)
  unfolding decide decide_with_key decide_with_ip decide_unknown charged_to
  unknown_step_some c s k e = ground arith
