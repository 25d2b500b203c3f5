-- ===== src/Counter/Unknown/Limits.antt =====
-- What RecordRequest of internal/counter/unknown.go answers, over whole histories of requests.
use api_ratelimiter.Base.{ℕ, ◌+◌, ◌<◌, ◌^◌, ◌≡◌, ℤ, List, pos, Text, length}
use api_ratelimiter.Counter.Window.{verdict, replay, seen, step-replay}
use api_ratelimiter.Clock.{Time, slot_at}
use api_ratelimiter.Counter.Unknown.{UnknownMap, record_request}
use api_ratelimiter.Counter.Unknown.Windows.{UnknownRequest, unknown_window}

-- The map that a history of requests leaves, the newest first.
abbrev pub unknown_after : ℕ → List UnknownRequest → UnknownMap
unknown_after w = replay (unknown_window w)

-- After any history of fewer than 2 ^ 63 - 1 requests, with any limits, bursts and
-- multipliers, RecordRequest
-- answers for the key's limit and burst by a number n: one more than the requests of its key in its
-- window since the last request of the key in another window. Where the windows never go back that is
-- the place of the request in its window; where they do, the count of a window starts again. The
-- request is allowed exactly when n ≤ limit + burst (an int64 sum), and in the burst exactly when it is
-- allowed and limit < n; n, limit and burst are returned with it.
pub unknown_verdict_of_history :
    (w : ℕ) (now : Time) (key : Text) (limit burst mult : ℤ) (h : List UnknownRequest)
    → length h + 1 < 2 ^ 63
    → (record_request now key limit burst mult (unknown_after w h)).0
      ≡ verdict limit burst (pos (seen (unknown_window w) key (slot_at w now) h + 1))
unknown_verdict_of_history w now key limit burst mult h b =
    step-replay (unknown_window w)
      (record {
        now = now;
        key = key;
        global_limit = limit;
        burst = burst;
        abuse_multiplier = mult;
      })
      h b
