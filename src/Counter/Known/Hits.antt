-- ===== src/Counter/Known/Hits.antt =====
-- What the counters of internal/counter/known.go say of a history of requests.
use api_ratelimiter.Base.{
  ℕ, ◌+◌, ◌≤◌, ◌<◌, ◌^◌, ◌≡◌, refl, Option, none, some, List, [], ◌∷◌, pos, ltb_ℤ, +64_pos, Text,
  text_eq, text_eq→, text_eq_refl, ◌⊎◌, length, ◌==◌, arith, if◌then◌else◌, false, Bool-cases, inl,
  inr,
}
use api_ratelimiter.Base.Dict.{lookup}
use api_ratelimiter.Clock.{slot_at}
use api_ratelimiter.Counter.Window.{verdict, replay, replay_ready, seen, seen-le-length}
use api_ratelimiter.Counter.Known.{KnownCounter, new_known_map, serve_request}
use api_ratelimiter.Counter.Known.Windows.{KnownRequest, known_window}
use api_ratelimiter.Counter.Known.Entries.{lookup-record_request}
use api_ratelimiter.Counter.Known.Limits.{known_after}
use api_ratelimiter.Counter.Known.Accounting.{requests_of, requests_of-le-length}

module _ (w : ℕ) where
  -- The window of the newest request of a key.
  unfoldable pub last_window : Text → List KnownRequest → Option ℕ
  last_window j [] = none
  last_window j (r ∷ h) =
      let t = last_window j h in if text_eq r.key j then some (slot_at w r.now) else t

  -- The requests of a key that are allowed beyond its limit, by the verdict on their place.
  unfoldable pub burst_requests : Text → List KnownRequest → ℕ
  burst_requests j [] = 0
  burst_requests j (r ∷ h) =
      let n = burst_requests j h in
      let place = seen (known_window w) j (slot_at w r.now) h + 1 in
      if text_eq r.key j
      then (if (verdict r.limit r.burst (pos place)).in_burst then n + 1 else n)
      else n

  -- What a request adds that meets n requests of its key in the window t before it.
  unfoldable pub excess_of_window : KnownRequest → ℕ → ℕ → ℕ
  excess_of_window r t n =
      if slot_at w r.now == t then 0 else if ltb_ℤ r.limit (pos n) then 1 else 0

  -- The windows of a key that were left with more requests than the limit.
  unfoldable pub exceeded_windows : Text → List KnownRequest → ℕ
  exceeded_windows j [] = 0
  exceeded_windows j (r ∷ h) =
      let n = exceeded_windows j h in
      if text_eq r.key j
      then elim (last_window j h) [
        | none ↦ 0
        | some t ↦ n + excess_of_window r t (seen (known_window w) j t h)
      ]
      else n

  burst_requests-le-length : (j : Text) (h : List KnownRequest) → burst_requests j h ≤ length h
  unfolding burst_requests
  burst_requests-le-length j [] = omega arith
  burst_requests-le-length j (r ∷ h) = ground (arith, burst_requests-le-length j h)

  exceeded_windows-le-length : (j : Text) (h : List KnownRequest) → exceeded_windows j h ≤ length h
  unfolding exceeded_windows excess_of_window
  exceeded_windows-le-length j [] = omega arith
  exceeded_windows-le-length j (r ∷ h) = ground (arith, exceeded_windows-le-length j h)

  seen_elsewhere :
      (j : Text) (t : ℕ) (h : List KnownRequest)
      → (seen (known_window w) j t h ≡ 0) ⊎ (last_window j h ≡ some t)
  unfolding seen last_window
  seen_elsewhere j t [] = inl refl
  seen_elsewhere j t (r ∷ h) = ground (arith, seen_elsewhere j t h)

  -- What the counter of j, if there is one, says of a history.
  abbrev pub Tells : Text → List KnownRequest → Option KnownCounter → Type 0
  Tells j h none = (last_window j h ≡ none) × (requests_of j h ≡ 0) × (burst_requests j h ≡ 0)
  Tells j h (some c) =
      (last_window j h ≡ some c.slot)
      × (c.window_count ≡ pos (seen (known_window w) j c.slot h))
      × (c.total ≡ pos (requests_of j h))
      × (c.burst_hits ≡ pos (burst_requests j h))
      × (c.violation_hits ≡ pos (exceeded_windows j h))

  Tells-hit :
      (r : KnownRequest) (h : List KnownRequest) (found : Option KnownCounter)
      → length h + 1 < 2 ^ 63
      → Tells r.key h found
      → Tells r.key (r ∷ h) (some (serve_request r.now (slot_at w r.now) r.limit r.burst found).1)
  unfolding serve_request last_window exceeded_windows excess_of_window burst_requests requests_of
      seen verdict
  Tells-hit r h none b t =
      ground (arith, t, text_eq_refl r.key, seen_elsewhere r.key (slot_at w r.now) h, +64_pos 0 1)
  Tells-hit r h (some c) b t = ground (
    arith,
    t.0,
    t.1,
    t.2,
    text_eq_refl r.key,
    seen_elsewhere r.key (slot_at w r.now) h,
    exceeded_windows-le-length r.key h,
    burst_requests-le-length r.key h,
    requests_of-le-length r.key h,
    seen-le-length (known_window w) r.key c.slot h,
    +64_pos 0 1,
    +64_pos (seen (known_window w) r.key c.slot h) 1,
    +64_pos (exceeded_windows r.key h) 1,
    +64_pos (burst_requests r.key h) 1,
    +64_pos (requests_of r.key h) 1,
  )

  Tells-miss :
      (r : KnownRequest) (h : List KnownRequest) (j : Text) (found : Option KnownCounter)
      → text_eq r.key j ≡ false
      → Tells j h found
      → Tells j (r ∷ h) found
  unfolding last_window exceeded_windows burst_requests requests_of seen
  Tells-miss r h j none ne t = rw ne t
  Tells-miss r h j (some c) ne t = rw ne t

  -- After any history of fewer than 2 ^ 63 requests, with any limits and bursts: a key has a counter
  -- exactly when it made a request, and then
  -- * Slot is the window of its newest request, and WindowCount the number of its requests in that
  --   window since its last one in another window;
  -- * Total is the number of its requests;
  -- * BurstHits is the number of its requests that were allowed beyond their limit, by the verdict
  --   on their place in the window;
  -- * ViolationHits is the number of times that a request opened a new window and found the count of
  --   the key's window before it above that request's own limit.
  pub Tells-after :
      (j : Text) (h : List KnownRequest)
      → length h < 2 ^ 63
      → Tells j h (lookup j (known_after w h).counters)
  unfolding replay
  Tells-after j [] b =
      unfold new_known_map lookup last_window requests_of burst_requests in (refl, refl, refl)
  Tells-after j (r ∷ h) b =
      let m = known_after w h in
      rw (lookup-record_request r.now r.key r.limit r.burst m j, replay_ready (known_window w) h)
        (elim (Bool-cases (text_eq r.key j)) [
          | inr ne ↦ rw ne (Tells-miss r h j _ ne (Tells-after j h (omega arith)))
          | inl eq ↦
              rw (eq, ← text_eq→ r.key j eq)
                (Tells-hit r h (lookup r.key m.counters) (omega arith)
                  (rw (text_eq→ r.key j eq) (Tells-after j h (omega arith))))
        ])
