-- ===== src/Counter/Known/Accounting.antt =====
-- What the counters of internal/counter/known.go add up to over a history of requests.
use api_ratelimiter.Base.{
  ℕ, ◌+◌, ◌≤◌, ◌<◌, ◌^◌, ◌≡◌, refl, Option, none, some, List, [], ◌∷◌, ℤ, pos, pos_part, neg_part,
  +64_pos, inc_parts, Text, text_eq, text_eq→, length, arith, if◌then◌else◌, Bool-cases, inl, inr,
}
use api_ratelimiter.Base.Dict.{lookup}
use api_ratelimiter.Clock.{Time, slot_at}
use api_ratelimiter.Counter.Window.{replay, replay_ready}
use api_ratelimiter.Counter.Known.{
  KnownCounter, KnownMap, serve_request, record_request, new_known_map,
}
use api_ratelimiter.Counter.Known.Entries.{lookup-record_request}
use api_ratelimiter.Counter.Known.Windows.{KnownRequest, known_window}
use api_ratelimiter.Counter.Known.Limits.{known_after}

-- A counter that has served n requests in windows of w seconds.
pub record IsSound (w n : ℕ) (c : KnownCounter) : Type 0 where
  pub total_exact : c.total ≡ pos n
  pub window_count_nonneg : neg_part c.window_count ≡ 0
  pub window_count_pos : 0 < pos_part c.window_count
  pub burst_hits_nonneg : neg_part c.burst_hits ≡ 0
  pub burst_hits_bound : pos_part c.burst_hits ≤ n
  pub violation_hits_nonneg : neg_part c.violation_hits ≡ 0
  -- each violation stands for a window before this one, with a request in it
  pub violation_hits_bound : pos_part c.violation_hits + pos_part c.window_count ≤ n
  pub slot_exact : c.slot ≡ slot_at w c.last_request

abbrev pub Accounts : ℕ → ℕ → Option KnownCounter → Type 0
Accounts w n none = n ≡ 0
Accounts w n (some c) = IsSound w n c

serve_request-IsSound :
    (w n : ℕ) (now : Time) (limit burst : ℤ) (found : Option KnownCounter)
    → n + 1 < 2 ^ 63
    → Accounts w n found
    → IsSound w (n + 1) (serve_request now (slot_at w now) limit burst found).1
unfolding serve_request
serve_request-IsSound w n now limit burst none b a = ground (arith, +64_pos 0 1)
serve_request-IsSound w n now limit burst (some c) b a = ground (
  arith,
  +64_pos n 1 b,
  +64_pos 0 1,
  inc_parts c.window_count,
  inc_parts c.burst_hits,
  inc_parts c.violation_hits,
)

-- The requests of a key in a history.
unfoldable pub requests_of : Text → List KnownRequest → ℕ
requests_of j [] = 0
requests_of j (r ∷ h) = let n = requests_of j h in if text_eq r.key j then n + 1 else n

pub requests_of-le-length : (j : Text) (h : List KnownRequest) → requests_of j h ≤ length h
unfolding requests_of
requests_of-le-length j [] = omega arith
requests_of-le-length j (r ∷ h) = ground (arith, requests_of-le-length j h)

Accounts-step :
    (w : ℕ) (r : KnownRequest) (m : KnownMap) (j : Text) (n : ℕ)
    → m.window_s ≡ w
    → n + 1 < 2 ^ 63
    → Accounts w n (lookup j m.counters)
    → Accounts w
        (if text_eq r.key j then n + 1 else n)
        (lookup j (record_request r.now r.key r.limit r.burst m).1.counters)
Accounts-step w r m j n e b a =
    rw (lookup-record_request r.now r.key r.limit r.burst m j)
      (elim (Bool-cases (text_eq r.key j)) [
        | inr ne ↦ rw ne a
        | inl eq ↦
            rw (eq, text_eq→ r.key j eq, e)
              (serve_request-IsSound w n r.now r.limit r.burst (lookup j m.counters) b a)
      ])

-- After any history of fewer than 2 ^ 63 requests, with any limits and bursts, a key has a counter
-- exactly when it made a request. Its Total is the number n of its requests; BurstHits is at most
-- n; ViolationHits and WindowCount together are at most n, with WindowCount at least 1; no count is
-- negative; and its Slot is the window of its LastRequest.
pub Accounts-after :
    (w : ℕ) (h : List KnownRequest) (j : Text)
    → length h < 2 ^ 63
    → Accounts w (requests_of j h) (lookup j (known_after w h).counters)
unfolding requests_of replay
Accounts-after w [] j b = unfold new_known_map lookup in refl
Accounts-after w (r ∷ h) j b =
    Accounts-step w r (known_after w h) j (requests_of j h) (replay_ready (known_window w) h)
      (omega (arith, requests_of-le-length j h)) (Accounts-after w h j (omega arith))
