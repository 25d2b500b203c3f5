-- ===== src/Limiter/Isolation.antt =====
-- A call of Decide of internal/limiter/limiter.go touches the counters of its own client alone.
use api_ratelimiter.Base.{
  ◌≡◌, ◌≢◌, refl, ap, false, Option, none, [], ◌∷◌, ◌++◌, ℤ, Text, text_eq, text_ne, append_cancel,
  arith, if◌then◌else◌,
}
use api_ratelimiter.Base.Dict.{lookup}
use api_ratelimiter.Clock.{Time}
use api_ratelimiter.Counter.Known.{KnownCounter}
use api_ratelimiter.Counter.Unknown.{UnknownCounter, unknown_key_prefix, unknown_ip_prefix}
use api_ratelimiter.Counter.Known.Entries.{lookup-record_request as lookup-known}
use api_ratelimiter.Counter.Unknown.Entries.{lookup-record_request as lookup-unknown}
use api_ratelimiter.Metrics.{inc_allowed, inc_redis_errors}
use api_ratelimiter.Limiter.{
  LimitLookup, Limiter, decide, decide_with_key, decide_with_ip, decide_known, decide_unknown,
  is_empty,
}

-- Whom the limiter takes a call to come from.
pub data Client : Type 0 where
  anonymous : Client
  keyed : Text → Client
  addressed : Text → Client

unfoldable pub client_of : Text → Text → Client
client_of [] [] = anonymous
client_of [] (c ∷ ip) = addressed (c ∷ ip)
client_of (c ∷ api_key) ip = keyed (c ∷ api_key)

module _ (l : LimitLookup) where
  -- The state in which decideWithKey goes on after the lookup.
  abbrev after_lookup : Text → Limiter l → Limiter l
  after_lookup k s =
      let (reply, store) = l.lookup_limit k s.store in
      record s {
        store = store;
        metrics = if reply.failed then inc_redis_errors s.metrics else s.metrics;
      }

  -- All the counters of a client.
  unfoldable pub counters_of : Client → Limiter l → Option KnownCounter × Option UnknownCounter
  counters_of anonymous s = (none, none)
  counters_of (keyed k) s =
      (lookup k s.known.counters, lookup (unknown_key_prefix ++ k) s.unknown.counters)
  counters_of (addressed ip) s = (none, lookup (unknown_ip_prefix ++ ip) s.unknown.counters)

  untouched :
      (d : Client) (s : Limiter l)
      → counters_of d (record s { metrics = inc_allowed s.metrics }) ≡ counters_of d s
  unfolding counters_of
  untouched anonymous s = refl
  untouched (keyed k) s = refl
  untouched (addressed ip) s = refl

  unknown_known_frame :
      (now : Time) (k : Text) (s : Limiter l) → (decide_unknown l now k s).1.known ≡ s.known
  unfolding decide_unknown
  unknown_known_frame now k s = ground arith

  known_unknown_frame :
      (now : Time) (k : Text) (limit : ℤ) (s : Limiter l)
      → (decide_known l now k limit s).1.unknown ≡ s.unknown
  unfolding decide_known
  known_unknown_frame now k limit s = ground arith

  unknown_frame :
      (now : Time) (k j : Text) (s : Limiter l)
      → text_eq k j ≡ false
      → lookup j (decide_unknown l now k s).1.unknown.counters ≡ lookup j s.unknown.counters
  unfolding decide_unknown
  unknown_frame now k j s ne =
      ground (arith, lookup-unknown now k s.global_limit s.burst s.abuse_multiplier s.unknown j)

  known_frame :
      (now : Time) (k j : Text) (limit : ℤ) (s : Limiter l)
      → text_eq k j ≡ false
      → lookup j (decide_known l now k limit s).1.known.counters ≡ lookup j s.known.counters
  unfolding decide_known
  known_frame now k j limit s ne = ground (arith, lookup-known now k limit s.burst s.known j)

  key_frame :
      (now : Time) (k : Text) (d : Client) (s : Limiter l)
      → keyed k ≢ d
      → counters_of d (decide_with_key l now k s).1 ≡ counters_of d s
  unfolding counters_of decide_with_key
  key_frame now k anonymous s ne = refl
  key_frame now k (keyed j) s ne =
      let s' = after_lookup k s in
      let far = text_ne k j (λ e. ne (ap keyed e)) in
      let far' =
        text_ne (unknown_key_prefix ++ k) (unknown_key_prefix ++ j)
          (λ e. ne (ap keyed (append_cancel unknown_key_prefix k j e))) in
      ground (
        arith,
        known_frame now k j (l.lookup_limit k s.store).0.limit s' far,
        unknown_frame now (unknown_key_prefix ++ k) (unknown_key_prefix ++ j) s' far',
        known_unknown_frame now k (l.lookup_limit k s.store).0.limit s',
        unknown_known_frame now (unknown_key_prefix ++ k) s',
      )
  key_frame now k (addressed ip) s ne =
      let s' = after_lookup k s in
      let far : text_eq (unknown_key_prefix ++ k) (unknown_ip_prefix ++ ip) ≡ false =
        unfold text_eq in refl in
      ground (
        arith,
        unknown_frame now (unknown_key_prefix ++ k) (unknown_ip_prefix ++ ip) s' far,
        known_unknown_frame now k (l.lookup_limit k s.store).0.limit s',
      )

  ip_frame :
      (now : Time) (ip : Text) (d : Client) (s : Limiter l)
      → addressed ip ≢ d
      → counters_of d (decide_with_ip l now ip s).1 ≡ counters_of d s
  unfolding counters_of decide_with_ip
  ip_frame now ip anonymous s ne = refl
  ip_frame now ip (keyed j) s ne =
      let far : text_eq (unknown_ip_prefix ++ ip) (unknown_key_prefix ++ j) ≡ false =
        unfold text_eq in refl in
      ground (
        arith,
        unknown_frame now (unknown_ip_prefix ++ ip) (unknown_key_prefix ++ j) s far,
        unknown_known_frame now (unknown_ip_prefix ++ ip) s,
      )
  ip_frame now ip (addressed j) s ne =
      let far =
        text_ne (unknown_ip_prefix ++ ip) (unknown_ip_prefix ++ j)
          (λ e. ne (ap addressed (append_cancel unknown_ip_prefix ip j e))) in
      ground (arith, unknown_frame now (unknown_ip_prefix ++ ip) (unknown_ip_prefix ++ j) s far)

  -- A call leaves all counters of every client but its own as they are: those of an API key in both
  -- maps, and those of an address. The client is the API key, and the address only without a key.
  pub decide_isolates :
      (now : Time) (api_key ip : Text) (d : Client) (s : Limiter l)
      → client_of api_key ip ≢ d
      → counters_of d (decide l now api_key ip s).1 ≡ counters_of d s
  unfolding client_of decide is_empty
  decide_isolates now [] [] d s ne = untouched d s
  decide_isolates now [] (c ∷ ip) d s ne = ip_frame now (c ∷ ip) d s ne
  decide_isolates now (c ∷ k) ip d s ne = key_frame now (c ∷ k) d s ne
