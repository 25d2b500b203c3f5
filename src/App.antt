-- ===== src/App.antt =====
-- cmd/api-ratelimiter/main.go: the components put together, the probes, the gauges of the databases
-- and the phases of a shutdown. The maps, the store and the metrics are shared by the handler, the
-- limiter and the cleanup, so they stand once in `App`.
pub mod Charges
pub mod Admission
pub mod Idle
pub mod Steps
pub mod Shutdown
pub mod Listen
pub mod Logging
use api_ratelimiter.Base.{
  ℕ, zero, suc, ◌+◌, Bool, true, false, Option, none, some, ℤ, Text, codes, ltb, if◌then◌else◌,
}
use api_ratelimiter.Clock.{Time}
use api_ratelimiter.Config
use api_ratelimiter.Config.{Config, ConfigError, Result, ok, err, window_seconds}
use api_ratelimiter.Metrics.{Metrics, new_metrics, inc_redis_errors}
use api_ratelimiter.Redis.{Redis}
use api_ratelimiter.Store
use api_ratelimiter.Store.{Store, new_store}
use api_ratelimiter.Counter.Known.{KnownMap, new_known_map}
use api_ratelimiter.Counter.Unknown.{UnknownMap, new_unknown_map}
use api_ratelimiter.Limiter
use api_ratelimiter.Limiter.{LimitLookup, Limiter}
use api_ratelimiter.Cleanup
use api_ratelimiter.Cleanup.{CleanupStore, Cleanup, Noise, new_cleanup}
use api_ratelimiter.Handler.{Decider, CheckRequest, serve_http}

module _ (r : Redis) where
  -- The store as the limiter and the cleanup take it.
  abbrev pub lookup_of_store : LimitLookup
  lookup_of_store = record { Store = Store r; lookup_limit = Store.lookup_limit r }

  abbrev pub cleanup_of_store : CleanupStore
  cleanup_of_store = record {
    State = Store r;
    limit_exists = Store.limit_exists r;
    upsert_abuse_key = Store.upsert_abuse_key r;
    upsert_abuse_ip = Store.upsert_abuse_ip r;
    db_sizes = Store.db_sizes r;
    is_healthy = Store.is_healthy r;
  }

  -- What `run` builds before it serves.
  pub record App : Type 0 where
    pub known : KnownMap
    pub unknown : UnknownMap
    pub store : Store r
    pub metrics : Metrics
    pub global_limit : ℤ
    pub burst : ℤ
    pub abuse_multiplier : ℤ
    pub transfer_threshold : ℤ
    pub abuse_ttl : ℤ
    pub shutting_down : Bool

  -- The part of `run` behind Validate
  unfoldable pub build : Config → r.Server → App
  build c server = record {
    known = new_known_map (window_seconds c);
    unknown = new_unknown_map (window_seconds c);
    store = new_store r server;
    metrics = new_metrics;
    global_limit = c.global_limit;
    burst = c.burst;
    abuse_multiplier = c.abuse_multiplier;
    transfer_threshold = c.abuse_transfer_threshold;
    abuse_ttl = c.abuse_ttl;
    shutting_down = false;
  }

  unfoldable pub start : Config → r.Server → Result ConfigError App
  start c server = elim (Config.validate c) [ err e ↦ err e | ok v ↦ ok (build c server) ]

  -- The Limiter and the Cleanup that share these objects.
  abbrev pub limiter_of : App → Limiter lookup_of_store
  limiter_of a = record {
    known = a.known;
    unknown = a.unknown;
    store = a.store;
    metrics = a.metrics;
    global_limit = a.global_limit;
    burst = a.burst;
    abuse_multiplier = a.abuse_multiplier;
  }

  abbrev pub with_limiter : App → Limiter lookup_of_store → App
  with_limiter a l = record a {
    known = l.known;
    unknown = l.unknown;
    store = l.store;
    metrics = l.metrics;
  }

  abbrev pub cleanup_of : App → Cleanup cleanup_of_store
  cleanup_of a =
      new_cleanup cleanup_of_store a.known a.unknown a.store a.metrics a.transfer_threshold
        a.abuse_ttl

  abbrev pub with_cleanup : App → Cleanup cleanup_of_store → App
  with_cleanup a c = record a {
    known = c.known;
    unknown = c.unknown;
    store = c.store;
    metrics = c.metrics;
  }

  -- handler.NewCheck(lim, m, logger), with the instant that the maps' clock gives.
  abbrev pub decider_at : Time → Decider
  decider_at now = record {
    State = App;
    decide = λ api_key ip a.
        let (allowed, l) = Limiter.decide lookup_of_store now api_key ip (limiter_of a) in
        (some allowed, with_limiter a l);
    observe_duration = λ a. record a {
      metrics = record a.metrics { check_durations = a.metrics.check_durations + 1 };
    };
  }

  -- A request to /check: its status
  unfoldable pub check : Time → CheckRequest → App → ℕ × App
  check now = serve_http (decider_at now)

  -- A cycle of the cleanup
  unfoldable pub clean : Noise → Time → Time → App → App
  clean noise begin finish a =
      with_cleanup a (Cleanup.run cleanup_of_store noise begin finish (cleanup_of a))

  -- /healthz
  unfoldable pub healthz : App → ℕ × App
  healthz a = (200, a)

  -- /readyz
  unfoldable pub readyz : App → ℕ × App
  readyz a =
      if a.shutting_down
      then (503, a)
      else let (reached, store) = Store.ping r a.store in
        (if reached then 200 else 503, record a { store = store })

  -- updateRedisGauges
  unfoldable pub update_redis_gauges : App → App
  update_redis_gauges a =
      let (sizes, store) = Store.db_sizes r a.store in
      record a {
        store = store;
        metrics = elim sizes [
          | none ↦ inc_redis_errors a.metrics
          | some (db1, db2, db3) ↦ record a.metrics {
            redis_db1_keys = db1;
            redis_db2_keys = db2;
            redis_db3_keys = db3;
          }
        ];
      }
