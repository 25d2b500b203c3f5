-- ===== src/Limiter/OwnLimits.antt =====
-- How many requests of an API key with a limit of its own internal/limiter/limiter.go lets through, over
-- whole histories of calls with clients of every kind.
use api_ratelimiter.Base.{
  ℕ, suc, ◌+◌, ◌≤◌, ◌<◌, ◌^◌, min, ◌≡◌, refl, ◌∙◌, Bool-cases, true, not, ◌&&◌, Option, none, some,
  List, [], ◌∷◌, ℤ, pos, Text, text_eq, length, ◌==◌, arith, if◌then◌else◌, Option-cases, inl, inr,
}
use api_ratelimiter.Clock.{Time, slot_at}
use api_ratelimiter.Counter.Window.{replay}
use api_ratelimiter.Counter.Window.Admission.{
  requests_in, admitted_in, IsBefore, IsOrdered, HasQuota,
}
use api_ratelimiter.Counter.Known
use api_ratelimiter.Counter.Known.{KnownMap, new_known_map}
use api_ratelimiter.Counter.Known.Windows.{KnownRequest, known_window}
use api_ratelimiter.Counter.Known.Limits.{known_after, known_admission}
use api_ratelimiter.Limiter.{
  LimitLookup, Limiter, decide, decide_with_key, decide_with_ip, decide_known, decide_unknown,
  is_empty, new_limiter,
}
use api_ratelimiter.Limiter.Calls.{Call, run}
use api_ratelimiter.Limiter.Admission.{start, settings_run, CallsBefore, CallsOrdered}

some_inj : (j : ℤ) (v : ℕ) → some j ≡ some (pos v) → j ≡ pos v
some_inj j v e = ground (arith, e)

module _ (l : LimitLookup) where
  -- The limit of its own with which a call is decided, if there is one.
  unfoldable pub own_limit : Call → Limiter l → Option ℤ
  own_limit c s =
      let reply = (l.lookup_limit c.api_key s.store).0 in
      if is_empty c.api_key
      then none
      else if not reply.failed && reply.found
      then some reply.limit
      else none

  known_step_none :
      (c : Call) (s : Limiter l)
      → own_limit c s ≡ none
      → (decide l c.now c.api_key c.ip s).1.known ≡ s.known
  unfolding decide decide_with_key decide_with_ip decide_known decide_unknown own_limit
  known_step_none c s e = ground arith

  known_step_some :
      (c : Call) (s : Limiter l) (v : ℤ)
      → own_limit c s ≡ some v
      → let (d, known) = Known.record_request c.now c.api_key v s.burst s.known in
        ((decide l c.now c.api_key c.ip s).0 ≡ d.allowed)
        × ((decide l c.now c.api_key c.ip s).1.known ≡ known)
  unfolding decide decide_with_key decide_known own_limit
  known_step_some c s v e = ground arith

-- A limiter as the program starts it, with windows of w seconds, global limit g and burst b.
module _ (l : LimitLookup) (w g b : ℕ) (mult : ℤ) (store : l.Store) where
  abbrev after : List Call → Limiter l
  after h = run l (start l w g b mult store) h

  -- The requests that a history of calls makes of the known map.
  project : Option ℤ → Time → Text → List KnownRequest → List KnownRequest
  project none now k h = h
  project (some v) now k h = record { now = now; key = k; limit = v; burst = pos b } ∷ h

  known_calls : List Call → List KnownRequest
  known_calls [] = []
  known_calls (c ∷ h) = project (own_limit l c (after h)) c.now c.api_key (known_calls h)

  known-run : (h : List Call) → (after h).known ≡ known_after w (known_calls h)
  unfolding run known_calls project replay
  known-run [] = unfold new_limiter in refl
  known-run (c ∷ h) = elim (Option-cases (own_limit l c (after h))) [
    | inl e ↦ rw e (known_step_none l c (after h) e ∙ known-run h)
    | inr (v, e) ↦ rw e (
        rw ((known_step_some l c (after h) v e).1)
          (rw ((settings_run l w g b mult store h).1, known-run h)))
  ]

  -- The calls with an API key in a window, and those among them that returned true.
  unfoldable pub calls_with : Text → ℕ → List Call → ℕ
  calls_with k t [] = 0
  calls_with k t (c ∷ h) =
      let n = calls_with k t h in
      if text_eq c.api_key k then (if slot_at w c.now == t then suc n else n) else n

  unfoldable pub passed_with : Text → ℕ → List Call → ℕ
  passed_with k t [] = 0
  passed_with k t (c ∷ h) =
      let n = passed_with k t h in
      if text_eq c.api_key k
      then (if slot_at w c.now == t
          then (if (decide l c.now c.api_key c.ip (after h)).0 then suc n else n)
          else n)
      else n

  -- Whenever a call comes with the key, its lookup finds one and the same limit.
  abbrev pub KeepsLimit : Text → ℕ → List Call → Type 0
  KeepsLimit k v [] = Unit
  KeepsLimit k v (c ∷ h) =
      (text_eq c.api_key k ≡ true → own_limit l c (after h) ≡ some (pos v)) × KeepsLimit k v h

  calls_with-project :
      (k : Text) (t v : ℕ) (h : List Call)
      → KeepsLimit k v h
      → calls_with k t h ≡ requests_in (known_window w) k t (known_calls h)
  unfolding calls_with known_calls project requests_in
  calls_with-project k t v [] o = refl
  calls_with-project k t v (c ∷ h) o = elim (Bool-cases (text_eq c.api_key k)) [
    | inl q ↦ rw (o.0 q, q, calls_with-project k t v h o.1) refl
    | inr q ↦ elim (Option-cases (own_limit l c (after h))) [
      | inl e ↦ rw (e, q) (calls_with-project k t v h o.1)
      | inr (j, e) ↦ rw (e, q) (calls_with-project k t v h o.1)
    ]
  ]

  passed_with-project :
      (k : Text) (t v : ℕ) (h : List Call)
      → KeepsLimit k v h
      → passed_with k t h ≡ admitted_in (known_window w) k t (known_calls h)
  unfolding passed_with known_calls project admitted_in
  passed_with-project k t v [] o = refl
  passed_with-project k t v (c ∷ h) o = elim (Bool-cases (text_eq c.api_key k)) [
    | inl q ↦
        rw (o.0 q, q)
          (rw
            (
              (known_step_some l c (after h) (pos v) (o.0 q)).0,
              (settings_run l w g b mult store h).1,
              known-run h,
              passed_with-project k t v h o.1,
            )
            refl)
    | inr q ↦ elim (Option-cases (own_limit l c (after h))) [
      | inl e ↦ rw (e, q) (passed_with-project k t v h o.1)
      | inr (j, e) ↦ rw (e, q) (passed_with-project k t v h o.1)
    ]
  ]

  project-IsBefore :
      (t : ℕ) (h : List Call)
      → CallsBefore l w g b mult store t h
      → IsBefore (known_window w) t (known_calls h)
  unfolding known_calls project
  project-IsBefore t [] o = tt
  project-IsBefore t (c ∷ h) o = elim (Option-cases (own_limit l c (after h))) [
    | inl e ↦ rw e (project-IsBefore t h o.1)
    | inr (j, e) ↦ rw e (o.0, project-IsBefore t h o.1)
  ]

  project-IsOrdered :
      (h : List Call)
      → CallsOrdered l w g b mult store h
      → IsOrdered (known_window w) (known_calls h)
  unfolding known_calls project
  project-IsOrdered [] o = tt
  project-IsOrdered (c ∷ h) o = elim (Option-cases (own_limit l c (after h))) [
    | inl e ↦ rw e (project-IsOrdered h o.1)
    | inr (j, e) ↦ rw e (project-IsBefore (slot_at w c.now) h o.0, project-IsOrdered h o.1)
  ]

  project-HasQuota :
      (k : Text) (v : ℕ) (h : List Call)
      → KeepsLimit k v h
      → HasQuota (known_window w) k v b (known_calls h)
  unfolding known_calls project
  project-HasQuota k v [] o = tt
  project-HasQuota k v (c ∷ h) o = elim (Option-cases (own_limit l c (after h))) [
    | inl e ↦ rw e (project-HasQuota k v h o.1)
    | inr (j, e) ↦ rw e (λ q. (some_inj j v (rw e at (o.0 q)), refl), project-HasQuota k v h o.1)
  ]

  length-known_calls : (h : List Call) → length (known_calls h) ≤ length h
  unfolding known_calls project
  length-known_calls [] = omega arith
  length-known_calls (c ∷ h) = ground (arith, length-known_calls h)

  -- Over any history of fewer than 2 ^ 63 calls whose windows never go back, with clients of every
  -- kind mixed at will: if each call with the API key k finds the limit v for it, and v and the burst
  -- have a sum below 2 ^ 63, then of the calls with the key k in a window exactly the smaller of their
  -- number and v + burst return true, whatever the addresses that come with the key and whatever the
  -- store answers to the other calls.
  pub own_limit_admission :
      (k : Text) (t v : ℕ) (h : List Call)
      → CallsOrdered l w g b mult store h
      → KeepsLimit k v h
      → v + b < 2 ^ 63
      → length h < 2 ^ 63
      → passed_with k t h ≡ min (calls_with k t h) (v + b)
  own_limit_admission k t v h o q s n =
      rw (passed_with-project k t v h q, calls_with-project k t v h q)
        (known_admission w k t v b (known_calls h) (project-IsOrdered h o)
          (project-HasQuota k v h q) s (omega (arith, length-known_calls h)))
