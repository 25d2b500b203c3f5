-- ===== src/Tests/Cycles.antt =====
-- The theorems on cleanup cycles and on the store.
use api_ratelimiter.Base.{
  ℕ, ◌+◌, ◌≡◌, refl, Bool, true, false, Option, none, some, List, [], ◌∷◌, ℤ, pos, Text, codes,
  text_eq, ◌==◌, if◌then◌else◌,
}
use api_ratelimiter.Base.Dict.{lookup}
use api_ratelimiter.Metrics.{new_metrics}
use api_ratelimiter.Redis.{Redis, Reply, value, nil, failed}
use api_ratelimiter.Store.{AbuseRecord, new_store}
use api_ratelimiter.Store.Scans.{Scanner}
use api_ratelimiter.Store.Health.{
  Op, lookup_op, ping_op, sizes_op, scan_limits_op, run_ops, Alternates, health_log,
}
use api_ratelimiter.Counter.Unknown
use api_ratelimiter.Counter.Unknown.{UnknownCounter, UnknownMap, UnknownSnapshot}
use api_ratelimiter.Counter.Unknown.Entries.{survivor}
use api_ratelimiter.Limiter.{is_empty}
use api_ratelimiter.Limiter.Calls.{charged_to}
use api_ratelimiter.Cleanup.{
  CleanupStore, Cleanup, Progress, Noise, quiet, abuse_record, transfer, run_unknown, run_known,
}
use api_ratelimiter.Cleanup.Sweep.{run_unknown-survivors}
use api_ratelimiter.Cleanup.Limits.{kept, run_known-survivors}
use api_ratelimiter.Cleanup.Transfers.{transfer_reaches_client}
use api_ratelimiter.Tests.{at_second, old_known, old_unknown}
use api_ratelimiter.Tests.Limits.{one_limit, small, call_at}

-- A store that keeps the records it is sent, and answers that only "a" has a limit.
abbrev only_a : Text → Option Bool
only_a k = some (text_eq k (codes "a"))

abbrev pub keeping : Bool → CleanupStore
keeping healthy = record {
  State = List (Text × AbuseRecord);
  limit_exists = λ k st. (only_a k, st);
  upsert_abuse_key = λ k r ttl st. (true, (k, r) ∷ st);
  upsert_abuse_ip = λ k r ttl st. (true, (k, r) ∷ st);
  db_sizes = λ st. (none, st);
  is_healthy = λ st. healthy;
}

abbrev pub cycle : (healthy : Bool) → Cleanup (keeping healthy)
cycle healthy = record {
  known = old_known;
  unknown = old_unknown;
  store = [];
  metrics = new_metrics;
  transfer_threshold = pos 3;
  abuse_ttl = pos 900;
}

run_unknown-survivors_example :
    lookup
      (codes "ip:a")
      (run_unknown (keeping true) quiet (at_second 20) (cycle true)).state.unknown.counters
    ≡ survivor (at_second 20) 1 (lookup (codes "ip:a") old_unknown.counters)
run_unknown-survivors_example =
    run_unknown-survivors (keeping true) (at_second 20) (cycle true) (codes "ip:a")

run_known-survivors_example :
    lookup
      (codes "a")
      (run_known (keeping true) quiet (at_second 8) (cycle true)).state.known.counters
    ≡ kept (at_second 8) 1 (only_a (codes "a")) (lookup (codes "a") old_known.counters)
run_known-survivors_example =
    run_known-survivors (keeping true) only_a (λ k st. refl) (at_second 8) (cycle true) (codes "a")

-- A request of "ip:a" arrives while its record is sent.
abbrev busy : Noise
busy = record quiet {
  during_transfer =
      λ e m. (Unknown.record_request (at_second 20) (codes "ip:a") (pos 1) (pos 1) (pos 2) m).1;
}

abbrev listed : UnknownSnapshot
listed = (
  codes "ip:a",
  record {
    first_request = at_second 7;
    last_request = at_second 7;
    total = pos 1;
    window_count = pos 1;
    slot = 7;
    burst_hits = pos 0;
    abuse_hits = pos 3;
  },
)

abbrev begun : Progress (keeping true)
begun = record { deleted = 0; transferred = 0; state = cycle true }

transfer_reaches_client_example :
    transfer (keeping true) (codes "ip:a") listed.1 (pos 900) []
    ≡ (true, (codes "a", abuse_record listed.1) ∷ [])
unfolding charged_to is_empty
transfer_reaches_client_example =
    transfer_reaches_client (keeping true) one_limit (call_at 8 [] (codes "a")) small (codes "ip:a")
      listed.1 (pos 900) [] refl

-- A server whose connection fails at the second command and at the third.
abbrev flaky : ℕ → Bool
flaky n = if n == 1 then false else if n == 2 then false else true

abbrev flaky_reply : ℤ → ℕ → Reply ℤ × ℕ
flaky_reply v n = (if flaky n then value v else failed, n + 1)

abbrev flaky_redis : Redis
flaky_redis = record {
  Server = ℕ;
  hget = λ db k f n. (if flaky n then nil else failed, n + 1);
  key_exists = λ db k n. flaky_reply (pos 1) n;
  hset_expire = λ db k fs ttl n. (if flaky n then value tt else failed, n + 1);
  db_size = λ db n. flaky_reply (pos 7) n;
  send_ping = λ n. (if flaky n then value tt else failed, n + 1);
  del = λ db ks n. flaky_reply (pos 1) n;
  flush_db = λ db n. (if flaky n then value tt else failed, n + 1);
}

abbrev ops : List Op
ops = ping_op ∷ lookup_op (codes "k") ∷ scan_limits_op 1 ∷ ping_op ∷ sizes_op ∷ []

-- A server on which each scan ends with its first round, with no keys.
abbrev no_keys : Scanner flaky_redis
no_keys = record {
  scan = λ db cursor pattern v. (value ([], 0), v + 1);
  hgetall = λ db k v. (failed, v + 1);
  ttl = λ db k v. (failed, v + 1);
}

health_log_example :
    Alternates
      (run_ops flaky_redis no_keys ops (new_store flaky_redis 0)).healthy
      (run_ops flaky_redis no_keys ops (new_store flaky_redis 0)).log
health_log_example = health_log flaky_redis no_keys 0 ops
