-- ===== src/Metrics.antt =====
-- internal/metrics/metrics.go: the instruments that the program updates. A Prometheus counter is the
-- sum of what the program has added to it, a gauge the value that it has set last, and the
-- histogram the number of its observations. Their names and the registry stand in Registry.
pub mod Registry
use api_ratelimiter.Base.{ℕ, ◌+◌, ℤ, pos}

pub record Metrics : Type 0 where
  pub requests_allowed : ℕ
  pub requests_blocked_individual : ℕ
  pub requests_blocked_global : ℕ
  pub counters_known_active : ℕ
  pub counters_unknown_active : ℕ
  pub memory_bytes : ℕ
  pub cleanup_runs_total : ℕ
  pub cleanup_deleted_total : ℕ
  pub cleanup_transferred_total : ℕ
  -- in nanoseconds
  pub cleanup_last_duration : ℤ
  pub redis_errors_total : ℕ
  pub redis_db1_keys : ℤ
  pub redis_db2_keys : ℤ
  pub redis_db3_keys : ℤ
  pub check_durations : ℕ

-- New
unfoldable pub new_metrics : Metrics
new_metrics = record {
  requests_allowed = 0;
  requests_blocked_individual = 0;
  requests_blocked_global = 0;
  counters_known_active = 0;
  counters_unknown_active = 0;
  memory_bytes = 0;
  cleanup_runs_total = 0;
  cleanup_deleted_total = 0;
  cleanup_transferred_total = 0;
  cleanup_last_duration = pos 0;
  redis_errors_total = 0;
  redis_db1_keys = pos 0;
  redis_db2_keys = pos 0;
  redis_db3_keys = pos 0;
  check_durations = 0;
}

abbrev pub inc_allowed : Metrics → Metrics
inc_allowed m = record m { requests_allowed = m.requests_allowed + 1 }

abbrev pub inc_blocked_individual : Metrics → Metrics
inc_blocked_individual m = record m {
  requests_blocked_individual = m.requests_blocked_individual + 1;
}

abbrev pub inc_blocked_global : Metrics → Metrics
inc_blocked_global m = record m { requests_blocked_global = m.requests_blocked_global + 1 }

abbrev pub inc_redis_errors : Metrics → Metrics
inc_redis_errors m = record m { redis_errors_total = m.redis_errors_total + 1 }
