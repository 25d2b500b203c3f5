-- ===== src/Tests.antt =====
-- Each theorem at a concrete input, and the values that these inputs share.
mod Counters
mod Limits
mod Cycles
mod Settings
mod Pages
mod Scans
mod Checks
mod Processes
mod Sockets
mod Traffic
mod Flags
mod Tokens
mod Idle
use api_ratelimiter.Base.{
  ℕ, ◌*◌, ◌^◌, ◌+◌, ◌&&◌, Bool, true, false, Option, none, some, List, [], ◌∷◌, ℤ, pos, Text, codes,
  String,
}
use api_ratelimiter.Clock.{Time}
use api_ratelimiter.Redis.{Redis, value}
use api_ratelimiter.Counter.Known.{KnownMap}
use api_ratelimiter.Counter.Unknown.{UnknownMap}
use api_ratelimiter.Counter.Known.Windows.{KnownRequest}
use api_ratelimiter.Counter.Unknown.Windows.{UnknownRequest}

-- An instant, s seconds after the epoch.
abbrev pub at_second : ℕ → Time
at_second s = record { wall = s * 10 ^ 9; mono = none }

abbrev pub known_request : ℕ → String → KnownRequest
known_request s k = record { now = at_second s; key = codes k; limit = pos 2; burst = pos 1 }

abbrev pub unknown_request : ℕ → String → UnknownRequest
unknown_request s k = record {
  now = at_second s;
  key = codes k;
  global_limit = pos 1;
  burst = pos 1;
  abuse_multiplier = pos 2;
}

-- Five requests of "a" and one of "b", the newest first.
abbrev pub known_history : List KnownRequest
known_history =
    known_request 7 "a"
    ∷ known_request 7 "a"
    ∷ known_request 7 "b"
    ∷ known_request 7 "a"
    ∷ known_request 7 "a"
    ∷ known_request 6 "a"
    ∷ []

abbrev pub unknown_history : List UnknownRequest
unknown_history =
    unknown_request 8 "ip:a"
    ∷ unknown_request 7 "ip:a"
    ∷ unknown_request 7 "ip:a"
    ∷ unknown_request 7 "ip:a"
    ∷ []

-- A map of each kind with one counter, last used in second 7.
abbrev pub old_known : KnownMap
old_known = record {
  counters =
      (
        codes "a",
        record {
          first_request = at_second 7;
          last_request = at_second 7;
          total = pos 1;
          window_count = pos 1;
          slot = 7;
          burst_hits = pos 0;
          violation_hits = pos 0;
        },
      )
      ∷ [];
  window_s = 1;
}

abbrev pub old_unknown : UnknownMap
old_unknown = record {
  counters =
      (
        codes "ip:a",
        record {
          first_request = at_second 7;
          last_request = at_second 7;
          total = pos 1;
          window_count = pos 1;
          slot = 7;
          burst_hits = pos 0;
          abuse_hits = pos 3;
        },
      )
      ∷ [];
  window_s = 1;
}

-- A server that counts the commands that it gets.
abbrev pub quiet_redis : Redis
quiet_redis = record {
  Server = ℕ;
  hget = λ db k f n. (value [], n + 1);
  key_exists = λ db k n. (value (pos 1), n + 1);
  hset_expire = λ db k fs ttl n. (value tt, n + 1);
  db_size = λ db n. (value (pos 7), n + 1);
  send_ping = λ n. (value tt, n + 1);
  del = λ db ks n. (value (pos 1), n + 1);
  flush_db = λ db n. (value tt, n + 1);
}
