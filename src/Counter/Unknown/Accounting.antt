-- ===== src/Counter/Unknown/Accounting.antt =====
-- What the counters of internal/counter/unknown.go add up to over a history of requests.
use api_ratelimiter.Base.{
  ℕ, ◌+◌, ◌≤◌, ◌<◌, ◌^◌, ◌≡◌, refl, Option, none, some, List, [], ◌∷◌, ℤ, pos, pos_part, neg_part,
  +64_pos, inc_parts, Text, text_eq, text_eq→, length, arith, if◌then◌else◌, Bool-cases, inl, inr,
}
use api_ratelimiter.Base.Dict.{lookup}
use api_ratelimiter.Clock.{Time, slot_at}
use api_ratelimiter.Counter.Window.{replay, replay_ready}
use api_ratelimiter.Counter.Unknown.{
  UnknownCounter, UnknownMap, serve_request, record_request, new_unknown_map,
}
use api_ratelimiter.Counter.Unknown.Entries.{lookup-record_request}
use api_ratelimiter.Counter.Unknown.Windows.{UnknownRequest, unknown_window}
use api_ratelimiter.Counter.Unknown.Limits.{unknown_after}

-- A counter that has served n requests in windows of w seconds.
pub record IsSound (w n : ℕ) (c : UnknownCounter) : Type 0 where
  pub total_exact : c.total ≡ pos n
  pub window_count_nonneg : neg_part c.window_count ≡ 0
  pub window_count_pos : 0 < pos_part c.window_count
  pub burst_hits_nonneg : neg_part c.burst_hits ≡ 0
  pub burst_hits_bound : pos_part c.burst_hits ≤ n
  pub abuse_hits_nonneg : neg_part c.abuse_hits ≡ 0
  -- each abuse hit stands for a window before this one, with a request in it
  pub abuse_hits_bound : pos_part c.abuse_hits + pos_part c.window_count ≤ n
  pub slot_exact : c.slot ≡ slot_at w c.last_request

abbrev pub Accounts : ℕ → ℕ → Option UnknownCounter → Type 0
Accounts w n none = n ≡ 0
Accounts w n (some c) = IsSound w n c

serve_request-IsSound :
    (w n : ℕ) (now : Time) (limit burst mult : ℤ) (found : Option UnknownCounter)
    → n + 1 < 2 ^ 63
    → Accounts w n found
    → IsSound w (n + 1) (serve_request now (slot_at w now) limit burst mult found).1
unfolding serve_request
serve_request-IsSound w n now limit burst mult none b a = ground (arith, +64_pos 0 1)
serve_request-IsSound w n now limit burst mult (some c) b a = ground (
  arith,
  +64_pos n 1 b,
  +64_pos 0 1,
  inc_parts c.window_count,
  inc_parts c.burst_hits,
  inc_parts c.abuse_hits,
)

-- The requests of a key in a history.
unfoldable pub requests_of : Text → List UnknownRequest → ℕ
requests_of j [] = 0
requests_of j (r ∷ h) = let n = requests_of j h in if text_eq r.key j then n + 1 else n

requests_of-le-length : (j : Text) (h : List UnknownRequest) → requests_of j h ≤ length h
unfolding requests_of
requests_of-le-length j [] = omega arith
requests_of-le-length j (r ∷ h) = ground (arith, requests_of-le-length j h)

Accounts-step :
    (w : ℕ) (r : UnknownRequest) (m : UnknownMap) (j : Text) (n : ℕ)
    → m.window_s ≡ w
    → n + 1 < 2 ^ 63
    → Accounts w n (lookup j m.counters)
    → Accounts w (if text_eq r.key j then n + 1 else n) (
        lookup j
          (record_request r.now r.key r.global_limit r.burst r.abuse_multiplier m).1.counters)
Accounts-step w r m j n e b a =
    rw (lookup-record_request r.now r.key r.global_limit r.burst r.abuse_multiplier m j)
      (elim (Bool-cases (text_eq r.key j)) [
        | inr ne ↦ rw ne a
        | inl eq ↦
            rw (eq, text_eq→ r.key j eq, e)
              (serve_request-IsSound w n r.now r.global_limit r.burst r.abuse_multiplier
                (lookup j m.counters) b a)
      ])

-- After any history of fewer than 2 ^ 63 requests, with any limits, bursts and multipliers, a key has a counter
-- exactly when it made a request. Its Total is the number n of its requests; BurstHits is at most
-- n; AbuseHits and WindowCount together are at most n, with WindowCount at least 1; no count is
-- negative; and its Slot is the window of its LastRequest.
pub unknown-Accounts :
    (w : ℕ) (h : List UnknownRequest) (j : Text)
    → length h < 2 ^ 63
    → Accounts w (requests_of j h) (lookup j (unknown_after w h).counters)
unfolding requests_of replay
unknown-Accounts w [] j b = unfold new_unknown_map lookup in refl
unknown-Accounts w (r ∷ h) j b =
    Accounts-step w r (unknown_after w h) j (requests_of j h) (replay_ready (unknown_window w) h)
      (omega (arith, requests_of-le-length j h)) (unknown-Accounts w h j (omega arith))
