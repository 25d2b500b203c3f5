-- ===== src/Tests/Scans.antt =====
-- The scans of the store at a concrete server.
use api_ratelimiter.Base.{
  ◌+◌, ◌++◌, ◌==◌, ◌≡◌, refl, drop_text, text_eq, true, [], ◌∷◌, pos, Text, codes, arith,
  if◌then◌else◌,
}
use api_ratelimiter.Base.Dict.{lookup}
use api_ratelimiter.Strconv.{parse_int}
use api_ratelimiter.Redis.{limits, value}
use api_ratelimiter.Store.{LimitEntry, new_store, observe, limit_prefix}
use api_ratelimiter.Store.Scans.{Scanner, scanned, read_limit, read_keys, scan_with}
use api_ratelimiter.Store.Scans.Runs.{ScanRun, last, more, scan_with-ScanRun}
use api_ratelimiter.Tests.{quiet_redis}

-- A server with two limits, which it gives in two rounds, by way of the cursor 5.
abbrev two_rounds : Scanner quiet_redis
two_rounds = record {
  scan = λ db cursor pattern n. (
    if cursor == 0
        then value (codes "rate:limit:a" ∷ [], 5)
        else value (codes "rate:limit:b" ∷ [], 0),
    n + 1,
  );
  hgetall =
      λ db k n. (value ((codes "limit", codes "7") ∷ (codes "created_at", codes "9") ∷ []), n + 1);
  ttl = λ db k n. (value (pos 60), n + 1);
}

abbrev entry_of : Text → LimitEntry
entry_of k = record { api_key = k; limit = pos 7; created_at = pos 9 }

two_runs :
    ScanRun quiet_redis two_rounds
      (read_limit quiet_redis two_rounds)
      limits
      (limit_prefix ++ codes "*")
      2
      0
      0
      (entry_of (codes "a") ∷ entry_of (codes "b") ∷ [])
      4
unfolding read_limit read_keys drop_text parse_int lookup text_eq
two_runs =
    more {v1 = 1} {v2 = 2} {keys = codes "rate:limit:a" ∷ []} {es = entry_of (codes "a") ∷ []} refl
      refl (last {v1 = 3} {keys = codes "rate:limit:b" ∷ []} refl refl)

scan_with-ScanRun_example :
    scan_with quiet_redis two_rounds
      (read_limit quiet_redis two_rounds)
      limits
      (limit_prefix ++ codes "*")
      (codes "ScanLimits")
      10
      (new_store quiet_redis 0)
    ≡ (
      scanned (entry_of (codes "a") ∷ entry_of (codes "b") ∷ []),
      observe quiet_redis
          (codes "ScanLimits")
          true
          (record { server = 4; healthy = true; log = [] }),
    )
unfolding new_store
scan_with-ScanRun_example =
    scan_with-ScanRun quiet_redis two_rounds (read_limit quiet_redis two_rounds) limits
      (limit_prefix ++ codes "*") (codes "ScanLimits") 10 2 (new_store quiet_redis 0)
      (entry_of (codes "a") ∷ entry_of (codes "b") ∷ []) 4 (omega arith) two_runs
