-- ===== src/Counter/Known/Limits.antt =====
-- What RecordRequest of internal/counter/known.go answers, over whole histories of requests.
use api_ratelimiter.Base.{
  ℕ, ◌+◌, ◌≤◌, ◌<◌, ◌^◌, min, ◌≡◌, ℤ, false, List, pos, ◌+64◌, i64, ◌+ℤ◌, Text, length, arith,
}
use api_ratelimiter.Counter.Window.{verdict, replay, seen, step-replay}
use api_ratelimiter.Counter.Window.Admission.{
  requests_in, admitted_in, IsOrdered, HasQuota, admitted_in_window,
}
use api_ratelimiter.Clock.{Time, slot_at}
use api_ratelimiter.Counter.Known.{KnownMap, record_request}
use api_ratelimiter.Counter.Known.Windows.{KnownRequest, known_window}

-- The map that a history of requests leaves, the newest first.
abbrev pub known_after : ℕ → List KnownRequest → KnownMap
known_after w = replay (known_window w)

-- After any history of fewer than 2 ^ 63 - 1 requests, with any limits and bursts, RecordRequest
-- answers for the key's limit and burst by a number n: one more than the requests of its key in its
-- window since the last request of the key in another window. Where the windows never go back that is
-- the place of the request in its window; where they do, the count of a window starts again. The
-- request is allowed exactly when n ≤ limit + burst (an int64 sum), and in the burst exactly when it is
-- allowed and limit < n; n, limit and burst are returned with it.
pub record_request-verdict_of_history :
    (w : ℕ) (now : Time) (key : Text) (limit burst : ℤ) (h : List KnownRequest)
    → length h + 1 < 2 ^ 63
    → (record_request now key limit burst (known_after w h)).0
      ≡ verdict limit burst (pos (seen (known_window w) key (slot_at w now) h + 1))
record_request-verdict_of_history w now key limit burst h b =
    step-replay (known_window w) (record { now = now; key = key; limit = limit; burst = burst }) h b

-- Over a history of fewer than 2 ^ 63 requests whose windows never go back, and in which the
-- requests of the key j all come with limit l and burst b, where l + b < 2 ^ 63: of the requests
-- of j in a window exactly the smaller of their number and l + b are allowed, whatever the other
-- keys do.
pub known_admission :
    (w : ℕ) (j : Text) (t l b : ℕ) (h : List KnownRequest)
    → IsOrdered (known_window w) h
    → HasQuota (known_window w) j l b h
    → l + b < 2 ^ 63
    → length h < 2 ^ 63
    → admitted_in (known_window w) j t h ≡ min (requests_in (known_window w) j t h) (l + b)
known_admission w = admitted_in_window (known_window w)

wrapped_sum :
    (l b n : ℕ)
    → l < 2 ^ 63
    → b < 2 ^ 63
    → 2 ^ 63 ≤ l + b
    → (verdict (pos l) (pos b) (pos n)).allowed ≡ false
unfolding verdict ◌+64◌ ◌+ℤ◌ i64
wrapped_sum l b n hl hb o = ground arith

-- Where limit and burst are int64 values whose sum is 2 ^ 63 or more, the sum wraps to a negative
-- number: after any history of fewer than 2 ^ 63 - 1 requests, the first request of the key in a
-- window and every later one is refused.
pub limit_overflow_refuses :
    (w : ℕ) (now : Time) (key : Text) (l b : ℕ) (h : List KnownRequest)
    → l < 2 ^ 63
    → b < 2 ^ 63
    → 2 ^ 63 ≤ l + b
    → length h + 1 < 2 ^ 63
    → (record_request now key (pos l) (pos b) (known_after w h)).0.allowed ≡ false
limit_overflow_refuses w now key l b h hl hb o n =
    rw (record_request-verdict_of_history w now key (pos l) (pos b) h n) (wrapped_sum l b _ hl hb o)
