-- ===== src/Limiter/Accounts.antt =====
-- What the instruments of internal/limiter/limiter.go add up to over a history of calls.
use api_ratelimiter.Base.{
  ℕ, ◌+◌, ◌≡◌, ap, ◌∙◌, Bool, true, false, not, ◌&&◌, Option, none, some, List, [], ◌∷◌, ℤ, arith,
  if◌then◌else◌,
}
use api_ratelimiter.Limiter.{
  LimitLookup, Limiter, decide, decide_with_key, decide_with_ip, decide_known, decide_unknown,
  is_empty,
}
use api_ratelimiter.Limiter.Calls.{Call, run}
use api_ratelimiter.Limiter.OwnLimits.{own_limit}

module _ (l : LimitLookup) where
  -- The answer to a call in a state, and whether its lookup fails.
  abbrev pub answer : Call → Limiter l → Bool
  answer c s = (decide l c.now c.api_key c.ip s).0

  unfoldable pub lookup_fails : Call → Limiter l → Bool
  lookup_fails c s = not (is_empty c.api_key) && (l.lookup_limit c.api_key s.store).0.failed

  abbrev pub has_own : Option ℤ → Bool
  has_own none = false
  has_own (some v) = true

  -- The calls of a history, each in the state that it meets, that return true; that return false with
  -- a limit of their own, and without one; and whose lookup fails.
  unfoldable pub count_calls : (Call → Limiter l → Bool) → Limiter l → List Call → ℕ
  count_calls p s [] = 0
  count_calls p s (c ∷ h) = let n = count_calls p s h in if p c (run l s h) then n + 1 else n

  abbrev pub refused_individual : Call → Limiter l → Bool
  refused_individual c s = not (answer c s) && has_own (own_limit l c s)

  abbrev pub refused_global : Call → Limiter l → Bool
  refused_global c s = not (answer c s) && not (has_own (own_limit l c s))

  abbrev tick : Bool → ℕ → ℕ
  tick b n = if b then n + 1 else n

  decide_ticks :
      (c : Call) (s : Limiter l)
      → let m = (decide l c.now c.api_key c.ip s).1.metrics in
        (m.requests_allowed ≡ tick (answer c s) s.metrics.requests_allowed)
        × (m.requests_blocked_individual
            ≡ tick (refused_individual c s) s.metrics.requests_blocked_individual)
        × (m.requests_blocked_global ≡ tick (refused_global c s) s.metrics.requests_blocked_global)
        × (m.redis_errors_total ≡ tick (lookup_fails c s) s.metrics.redis_errors_total)
  unfolding decide decide_with_key decide_with_ip decide_known decide_unknown own_limit lookup_fails
  decide_ticks c s = ground arith

  tick_plus : (b : Bool) (m n : ℕ) → tick b (m + n) ≡ m + tick b n
  tick_plus b m n = ground arith

  -- From any state on, over any history of calls, whatever the store answers: the requests counted as
  -- allowed are the calls that returned true, those counted as blocked individually the calls that
  -- returned false and had a limit of their own, those counted as blocked globally the other calls
  -- that returned false, and the Redis errors the calls with an API key whose lookup failed.
  pub instruments_add_up :
      (s : Limiter l) (h : List Call)
      → let m = (run l s h).metrics in
        (m.requests_allowed ≡ s.metrics.requests_allowed + count_calls answer s h)
        × (m.requests_blocked_individual
            ≡ s.metrics.requests_blocked_individual + count_calls refused_individual s h)
        × (m.requests_blocked_global
            ≡ s.metrics.requests_blocked_global + count_calls refused_global s h)
        × (m.redis_errors_total ≡ s.metrics.redis_errors_total + count_calls lookup_fails s h)
  unfolding run count_calls
  instruments_add_up s [] = (omega arith, omega arith, omega arith, omega arith)
  instruments_add_up s (c ∷ h) =
      let (a, i, g, e) = instruments_add_up s h in
      let (a', i', g', e') = decide_ticks c (run l s h) in
      (
        a' ∙ ap (tick _) a ∙ tick_plus _ _ _,
        i' ∙ ap (tick _) i ∙ tick_plus _ _ _,
        g' ∙ ap (tick _) g ∙ tick_plus _ _ _,
        e' ∙ ap (tick _) e ∙ tick_plus _ _ _,
      )
