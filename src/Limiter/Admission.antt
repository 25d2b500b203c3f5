-- ===== src/Limiter/Admission.antt =====
-- How many requests of a client without a limit of its own internal/limiter/limiter.go lets
-- through, over whole histories of calls with clients of every kind.
use api_ratelimiter.Base.{
  ℕ, suc, ◌+◌, ◌≤◌, ◌<◌, ◌^◌, min, ◌≡◌, refl, ◌∙◌, Bool, false, Option, none, some, List, [], ◌∷◌,
  ℤ, pos, Text, text_eq, length, ◌==◌, arith, if◌then◌else◌, Option-cases, inl, inr,
}
use api_ratelimiter.Clock.{Time, slot_at}
use api_ratelimiter.Metrics.{new_metrics}
use api_ratelimiter.Counter.Window.{replay}
use api_ratelimiter.Counter.Window.Admission.{
  requests_in, admitted_in, IsBefore, IsOrdered, HasQuota, admitted_in_window,
}
use api_ratelimiter.Counter.Known.{new_known_map}
use api_ratelimiter.Counter.Unknown.{new_unknown_map}
use api_ratelimiter.Counter.Unknown.Windows.{UnknownRequest, unknown_window}
use api_ratelimiter.Counter.Unknown.Limits.{unknown_after}
use api_ratelimiter.Limiter.{LimitLookup, Limiter, decide, new_limiter}
use api_ratelimiter.Limiter.Calls.{
  Call, run, charged_to, settings_step, unknown_step_none, unknown_step_some,
}

-- A limiter as the program starts it, with windows of w seconds, global limit g and burst b.
module _ (l : LimitLookup) (w g b : ℕ) (mult : ℤ) (store : l.Store) where
  abbrev pub start : Limiter l
  start = new_limiter l (new_known_map w) (new_unknown_map w) store new_metrics (pos g) (pos b) mult

  pub settings_run :
      (h : List Call)
      → ((run l start h).global_limit ≡ pos g)
        × ((run l start h).burst ≡ pos b)
        × ((run l start h).abuse_multiplier ≡ mult)
  unfolding run
  settings_run [] = unfold new_limiter in (refl, refl, refl)
  settings_run (c ∷ h) =
      let (p, q, r) = settings_run h in
      let (p', q', r') = settings_step l c (run l start h) in (p' ∙ p, q' ∙ q, r' ∙ r)

  -- The requests that a history of calls makes of the unknown map.
  project : Option Text → Time → List UnknownRequest → List UnknownRequest
  project none now h = h
  project (some k) now h =
      record { now = now; key = k; global_limit = pos g; burst = pos b; abuse_multiplier = mult }
      ∷ h

  unknown_calls : List Call → List UnknownRequest
  unknown_calls [] = []
  unknown_calls (c ∷ h) = project (charged_to l c (run l start h)) c.now (unknown_calls h)

  unknown-run : (h : List Call) → (run l start h).unknown ≡ unknown_after w (unknown_calls h)
  unfolding run unknown_calls project replay
  unknown-run [] = unfold new_limiter in refl
  unknown-run (c ∷ h) =
      let s = run l start h in
      elim (Option-cases (charged_to l c s)) [
        | inl e ↦ rw e (unknown_step_none l c s e ∙ unknown-run h)
        | inr (k, e) ↦ rw e (
            rw ((unknown_step_some l c s k e).1)
              (rw ((settings_run h).0, (settings_run h).1, (settings_run h).2, unknown-run h)))
      ]

  abbrev is_some_key : Text → Option Text → Bool
  is_some_key k none = false
  is_some_key k (some j) = text_eq j k

  -- The calls in a window that are charged to the key k of the unknown map, and those among them
  -- that returned true.
  unfoldable pub calls_in : Text → ℕ → List Call → ℕ
  calls_in k t [] = 0
  calls_in k t (c ∷ h) =
      let n = calls_in k t h in
      if is_some_key k (charged_to l c (run l start h))
      then (if slot_at w c.now == t then suc n else n)
      else n

  unfoldable pub let_through : Text → ℕ → List Call → ℕ
  let_through k t [] = 0
  let_through k t (c ∷ h) =
      let n = let_through k t h in
      if is_some_key k (charged_to l c (run l start h))
      then (if slot_at w c.now == t
          then (if (decide l c.now c.api_key c.ip (run l start h)).0 then suc n else n)
          else n)
      else n

  calls_in-project :
      (k : Text) (t : ℕ) (h : List Call)
      → calls_in k t h ≡ requests_in (unknown_window w) k t (unknown_calls h)
  unfolding calls_in unknown_calls project requests_in
  calls_in-project k t [] = refl
  calls_in-project k t (c ∷ h) = elim (Option-cases (charged_to l c (run l start h))) [
    | inl e ↦ rw e (calls_in-project k t h)
    | inr (j, e) ↦ rw e (rw (calls_in-project k t h))
  ]

  let_through-project :
      (k : Text) (t : ℕ) (h : List Call)
      → let_through k t h ≡ admitted_in (unknown_window w) k t (unknown_calls h)
  unfolding let_through unknown_calls project admitted_in
  let_through-project k t [] = refl
  let_through-project k t (c ∷ h) =
      let s = run l start h in
      elim (Option-cases (charged_to l c s)) [
        | inl e ↦ rw e (let_through-project k t h)
        | inr (j, e) ↦ rw e (
            rw (
              (unknown_step_some l c s j e).0,
              (settings_run h).0,
              (settings_run h).1,
              (settings_run h).2,
              unknown-run h,
              let_through-project k t h,
            ))
      ]

  -- The windows of the calls never go back.
  abbrev pub CallsBefore : ℕ → List Call → Type 0
  CallsBefore t [] = Unit
  CallsBefore t (c ∷ h) = (slot_at w c.now ≤ t) × CallsBefore t h

  abbrev pub CallsOrdered : List Call → Type 0
  CallsOrdered [] = Unit
  CallsOrdered (c ∷ h) = CallsBefore (slot_at w c.now) h × CallsOrdered h

  project-IsBefore :
      (t : ℕ) (h : List Call) → CallsBefore t h → IsBefore (unknown_window w) t (unknown_calls h)
  unfolding unknown_calls project
  project-IsBefore t [] o = tt
  project-IsBefore t (c ∷ h) o = elim (Option-cases (charged_to l c (run l start h))) [
    | inl e ↦ rw e (project-IsBefore t h o.1)
    | inr (j, e) ↦ rw e (o.0, project-IsBefore t h o.1)
  ]

  project-IsOrdered :
      (h : List Call) → CallsOrdered h → IsOrdered (unknown_window w) (unknown_calls h)
  unfolding unknown_calls project
  project-IsOrdered [] o = tt
  project-IsOrdered (c ∷ h) o = elim (Option-cases (charged_to l c (run l start h))) [
    | inl e ↦ rw e (project-IsOrdered h o.1)
    | inr (j, e) ↦ rw e (project-IsBefore (slot_at w c.now) h o.0, project-IsOrdered h o.1)
  ]

  project-HasQuota :
      (k : Text) (h : List Call) → HasQuota (unknown_window w) k g b (unknown_calls h)
  unfolding unknown_calls project
  project-HasQuota k [] = tt
  project-HasQuota k (c ∷ h) = elim (Option-cases (charged_to l c (run l start h))) [
    | inl e ↦ rw e (project-HasQuota k h)
    | inr (j, e) ↦ rw e (λ _. (refl, refl), project-HasQuota k h)
  ]

  length-unknown_calls : (h : List Call) → length (unknown_calls h) ≤ length h
  unfolding unknown_calls project
  length-unknown_calls [] = omega arith
  length-unknown_calls (c ∷ h) = ground (arith, length-unknown_calls h)

  -- Over any history of fewer than 2 ^ 63 calls whose windows never go back, with keys that have a
  -- limit, keys that have none, addresses and empty calls mixed at will, whatever the store answers,
  -- and with global limit and burst of a sum below 2 ^ 63: of the calls in a window that are charged
  -- to one key of the unknown map (an address, or an API key while it has no limit) exactly the
  -- smaller of their number and global limit + burst return true.
  pub decide_admission :
      (k : Text) (t : ℕ) (h : List Call)
      → CallsOrdered h
      → g + b < 2 ^ 63
      → length h < 2 ^ 63
      → let_through k t h ≡ min (calls_in k t h) (g + b)
  decide_admission k t h o q n =
      rw (let_through-project k t h, calls_in-project k t h)
        (admitted_in_window (unknown_window w) k t g b (unknown_calls h) (project-IsOrdered h o)
          (project-HasQuota k h) q (omega (arith, length-unknown_calls h)))
