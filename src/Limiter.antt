-- ===== src/Limiter.antt =====
-- internal/limiter/limiter.go: which counter a request goes to, and what its outcome is. The store
-- is the interface LimitLookup, as in the source; the instant of the map's clock is an argument.
pub mod Isolation
pub mod Calls
pub mod Admission
pub mod OwnLimits
pub mod Accounts
use api_ratelimiter.Base.{
  ℕ, ◌+◌, Bool, true, false, not, ◌&&◌, List, [], ◌∷◌, ◌++◌, ℤ, Text, if◌then◌else◌,
}
use api_ratelimiter.Clock.{Time}
use api_ratelimiter.Store.{LimitReply}
use api_ratelimiter.Metrics.{
  Metrics, inc_allowed, inc_blocked_individual, inc_blocked_global, inc_redis_errors,
}
use api_ratelimiter.Counter.Known
use api_ratelimiter.Counter.Unknown
use api_ratelimiter.Counter.Known.{KnownMap}
use api_ratelimiter.Counter.Unknown.{UnknownMap, unknown_key_prefix, unknown_ip_prefix}

-- LimitLookup. A lookup may change the store's own state.
pub record LimitLookup : Type 1 where
  pub Store : Type 0
  pub lookup_limit : Text → Store → LimitReply × Store

-- apiKey == ""
unfoldable pub is_empty : Text → Bool
is_empty [] = true
is_empty (c ∷ s) = false

module _ (l : LimitLookup) where
  open l use {Store, lookup_limit}

  -- The Limiter: its maps, store, metrics and settings.
  pub record Limiter : Type 0 where
    pub known : KnownMap
    pub unknown : UnknownMap
    pub store : Store
    pub metrics : Metrics
    pub global_limit : ℤ
    pub burst : ℤ
    pub abuse_multiplier : ℤ

  -- New
  unfoldable pub new_limiter : KnownMap → UnknownMap → Store → Metrics → ℤ → ℤ → ℤ → Limiter
  new_limiter known unknown store metrics global_limit burst abuse_multiplier = record {
    known = known;
    unknown = unknown;
    store = store;
    metrics = metrics;
    global_limit = global_limit;
    burst = burst;
    abuse_multiplier = abuse_multiplier;
  }

  -- The last lines of decideWithKey and all of decideWithIP: the global limit, for a map key.
  unfoldable pub decide_unknown : Time → Text → Limiter → Bool × Limiter
  decide_unknown now map_key s =
      let (d, unknown) =
        Unknown.record_request now map_key s.global_limit s.burst s.abuse_multiplier s.unknown in
      if d.allowed
      then (true, record s { unknown = unknown; metrics = inc_allowed s.metrics })
      else (false, record s { unknown = unknown; metrics = inc_blocked_global s.metrics })

  -- The branch of decideWithKey for a key with a limit of its own.
  unfoldable pub decide_known : Time → Text → ℤ → Limiter → Bool × Limiter
  decide_known now api_key limit s =
      let (d, known) = Known.record_request now api_key limit s.burst s.known in
      if d.allowed
      then (true, record s { known = known; metrics = inc_allowed s.metrics })
      else (false, record s { known = known; metrics = inc_blocked_individual s.metrics })

  -- decideWithKey
  unfoldable pub decide_with_key : Time → Text → Limiter → Bool × Limiter
  decide_with_key now api_key s =
      let (reply, store) = lookup_limit api_key s.store in
      let found = if reply.failed then false else reply.found in
      let metrics = if reply.failed then inc_redis_errors s.metrics else s.metrics in
      let s' : Limiter = record s { store = store; metrics = metrics } in
      if found
      then decide_known now api_key reply.limit s'
      else decide_unknown now (unknown_key_prefix ++ api_key) s'

  -- decideWithIP
  unfoldable pub decide_with_ip : Time → Text → Limiter → Bool × Limiter
  decide_with_ip now ip s = decide_unknown now (unknown_ip_prefix ++ ip) s

  -- Decide
  unfoldable pub decide : Time → Text → Text → Limiter → Bool × Limiter
  decide now api_key ip s =
      if is_empty api_key && is_empty ip
      then (true, record s { metrics = inc_allowed s.metrics })
      else if not (is_empty api_key)
      then decide_with_key now api_key s
      else decide_with_ip now ip s
