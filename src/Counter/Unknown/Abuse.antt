-- ===== src/Counter/Unknown/Abuse.antt =====
-- When RecordRequest of internal/counter/unknown.go counts a window as abusive.
use api_ratelimiter.Base.{
  ℕ, ◌+◌, ◌≤◌, ◌<◌, ◌^◌, ◌≡◌, refl, false, Option, none, some, List, [], ◌∷◌, pos, ◌*64◌, ltb_ℤ,
  +64_pos, Text, text_eq, text_eq→, text_eq_refl, ◌⊎◌, length, ◌==◌, arith, if◌then◌else◌,
  Bool-cases, inl, inr,
}
use api_ratelimiter.Base.Dict.{lookup}
use api_ratelimiter.Clock.{slot_at}
use api_ratelimiter.Counter.Window.{replay, replay_ready, seen, seen-le-length}
use api_ratelimiter.Counter.Unknown.{UnknownCounter, new_unknown_map, serve_request}
use api_ratelimiter.Counter.Unknown.Windows.{UnknownRequest, unknown_window}
use api_ratelimiter.Counter.Unknown.Entries.{lookup-record_request}
use api_ratelimiter.Counter.Unknown.Limits.{unknown_after}

module _ (w : ℕ) where
  -- The window of the newest request of a key.
  unfoldable pub last_window : Text → List UnknownRequest → Option ℕ
  last_window j [] = none
  last_window j (r ∷ h) =
      let t = last_window j h in if text_eq r.key j then some (slot_at w r.now) else t

  -- What a request adds that meets n requests of its key in the window t before it.
  unfoldable pub abuse_of_window : UnknownRequest → ℕ → ℕ → ℕ
  abuse_of_window r t n =
      if slot_at w r.now == t
      then 0
      else if ltb_ℤ (r.global_limit *64 r.abuse_multiplier) (pos n)
      then 1
      else 0

  -- The windows of a key that were left with more requests than the multiple of the global limit.
  unfoldable pub abusive_windows : Text → List UnknownRequest → ℕ
  abusive_windows j [] = 0
  abusive_windows j (r ∷ h) =
      let n = abusive_windows j h in
      if text_eq r.key j
      then elim (last_window j h) [
        | none ↦ 0
        | some t ↦ n + abuse_of_window r t (seen (unknown_window w) j t h)
      ]
      else n

  abusive_windows-le-length : (j : Text) (h : List UnknownRequest) → abusive_windows j h ≤ length h
  unfolding abusive_windows abuse_of_window
  abusive_windows-le-length j [] = omega arith
  abusive_windows-le-length j (r ∷ h) = ground (arith, abusive_windows-le-length j h)

  seen_elsewhere :
      (j : Text) (t : ℕ) (h : List UnknownRequest)
      → (seen (unknown_window w) j t h ≡ 0) ⊎ (last_window j h ≡ some t)
  unfolding seen last_window
  seen_elsewhere j t [] = inl refl
  seen_elsewhere j t (r ∷ h) = ground (arith, seen_elsewhere j t h)

  -- What the counter of j, if there is one, says of a history.
  abbrev pub Tells : Text → List UnknownRequest → Option UnknownCounter → Type 0
  Tells j h none = last_window j h ≡ none
  Tells j h (some c) =
      (last_window j h ≡ some c.slot)
      × (c.window_count ≡ pos (seen (unknown_window w) j c.slot h))
      × (c.abuse_hits ≡ pos (abusive_windows j h))

  Tells-hit :
      (r : UnknownRequest) (h : List UnknownRequest) (found : Option UnknownCounter)
      → length h + 1 < 2 ^ 63
      → Tells r.key h found
      → Tells r.key (r ∷ h) (
          some
            (serve_request r.now
              (slot_at w r.now)
              r.global_limit
              r.burst
              r.abuse_multiplier
              found).1)
  unfolding serve_request last_window abusive_windows abuse_of_window seen
  Tells-hit r h none b t =
      ground (arith, t, text_eq_refl r.key, seen_elsewhere r.key (slot_at w r.now) h, +64_pos 0 1)
  Tells-hit r h (some c) b t = ground (
    arith,
    t.0,
    t.1,
    t.2,
    text_eq_refl r.key,
    seen_elsewhere r.key (slot_at w r.now) h,
    abusive_windows-le-length r.key h,
    seen-le-length (unknown_window w) r.key c.slot h,
    +64_pos 0 1,
    +64_pos (seen (unknown_window w) r.key c.slot h) 1,
    +64_pos (abusive_windows r.key h) 1,
  )

  Tells-miss :
      (r : UnknownRequest) (h : List UnknownRequest) (j : Text) (found : Option UnknownCounter)
      → text_eq r.key j ≡ false
      → Tells j h found
      → Tells j (r ∷ h) found
  unfolding last_window abusive_windows seen
  Tells-miss r h j none ne t = rw ne t
  Tells-miss r h j (some c) ne t = rw ne t

  Tells-after :
      (j : Text) (h : List UnknownRequest)
      → length h < 2 ^ 63
      → Tells j h (lookup j (unknown_after w h).counters)
  unfolding replay
  Tells-after j [] b = unfold new_unknown_map lookup last_window in refl
  Tells-after j (r ∷ h) b =
      let m = unknown_after w h in
      rw
        (
          lookup-record_request r.now r.key r.global_limit r.burst r.abuse_multiplier m j,
          replay_ready (unknown_window w) h,
        )
        (elim (Bool-cases (text_eq r.key j)) [
          | inr ne ↦ rw ne (Tells-miss r h j _ ne (Tells-after j h (omega arith)))
          | inl eq ↦
              rw (eq, ← text_eq→ r.key j eq)
                (Tells-hit r h (lookup r.key m.counters) (omega arith)
                  (rw (text_eq→ r.key j eq) (Tells-after j h (omega arith))))
        ])

  -- After any history of fewer than 2 ^ 63 requests the AbuseHits of a counter is the number of
  -- times that a request of its key opened a new window and found the count of the key's window
  -- before it above global limit times multiplier, the int64 product of that request's own values.
  pub abuse_hits-eq-abusive_windows :
      (j : Text) (h : List UnknownRequest) (c : UnknownCounter)
      → length h < 2 ^ 63
      → lookup j (unknown_after w h).counters ≡ some c
      → c.abuse_hits ≡ pos (abusive_windows j h)
  abuse_hits-eq-abusive_windows j h c b e = (rw e at (Tells-after j h b)).2
