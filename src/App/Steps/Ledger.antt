-- ===== src/App/Steps/Ledger.antt =====
-- The order of what an interleaved history of cmd/api-ratelimiter/main.go asks of the unknown map,
-- and what it answers to the requests.
use api_ratelimiter.Base.{
  ℕ, ◌≤◌, ◌≡◌, ap, ◌∙◌, false, some, Option-cases, inl, inr, List, [], ◌∷◌, pos, Text, leb_ℤ,
  length, arith, if◌then◌else◌,
}
use api_ratelimiter.Clock.{Time, slot_at, sub, two_windows}
use api_ratelimiter.Config.{Config, window_seconds}
use api_ratelimiter.Redis.{Redis}
use api_ratelimiter.Counter.Window.Admission.{HasQuota}
use api_ratelimiter.Counter.Unknown.{record_request}
use api_ratelimiter.Counter.Unknown.Windows.{unknown_window}
use api_ratelimiter.Counter.Unknown.Limits.{unknown_after}
use api_ratelimiter.Counter.Unknown.Sweeps as Sweeps
use api_ratelimiter.Counter.Unknown.Sweeps.{
  requests_of, EventsBefore, EventsTimely, AllAsked, InTime,
}
use api_ratelimiter.Counter.Unknown.Sweeps.Verdicts.{sweeps_invisible}
use api_ratelimiter.Cleanup.Steps.Begins.{Begins, Begins-map, Begins-both, step-Begins}
use api_ratelimiter.Handler.{CheckRequest}
use api_ratelimiter.App.{cleanup_of_store, cleanup_of, check}
use api_ratelimiter.App.Charges.{charge, check_unknown_some}
use api_ratelimiter.App.Steps.{
  Event, asked, stepped, time_of, handle, task_events, task_events_hold, task_events-AllAsked,
  task_events-requests_of, running, app_after, settings_after, request_at, charged, map_events,
  app_after-unknown,
}

-- An instant is in no earlier window than another, and not two windows or more before it by the
-- clock.
abbrev pub IsLater : ℕ → Time → Time → Type 0
IsLater w earlier now =
    (slot_at w earlier ≤ slot_at w now) × (leb_ℤ (two_windows w) (sub earlier now) ≡ false)

-- The clock never goes back from one event of a history to another.
abbrev pub IsBehind : ℕ → Time → List Event → Type 0
IsBehind w now [] = Unit
IsBehind w now (e ∷ h) = IsLater w (time_of e) now × IsBehind w now h

abbrev pub InOrder : ℕ → List Event → Type 0
InOrder w [] = Unit
InOrder w (e ∷ h) = IsBehind w (time_of e) h × InOrder w h

module _ (r : Redis) (c : Config) (server : r.Server) where
  abbrev win : ℕ
  win = window_seconds c

  -- The cycle under way has started before a later instant.
  Begins-before :
      (h : List Event) (now : Time)
      → IsBehind win now h
      → Begins (λ begin. IsLater win begin now) (running r c server h).task
  unfolding running handle
  Begins-before [] now b = tt
  Begins-before (asked then_ q ∷ h) now b = Begins-before h now b.1
  Begins-before (stepped then_ ∷ h) now b =
      step-Begins (cleanup_of_store r) (λ begin. IsLater win begin now) then_
        (running r c server h).task (cleanup_of r (app_after r c server h)) b.0
        (Begins-before h now b.1)

  events_before :
      (h : List Event) (now : Time)
      → IsBehind win now h
      → EventsBefore win (slot_at win now) (map_events r c server h)
  unfolding map_events charged request_at
  events_before [] now b = tt
  events_before (asked then_ q ∷ h) now b =
      elim (Option-cases (charge r then_ q (app_after r c server h))) [
        | inl e ↦ rw e (events_before h now b.1)
        | inr (k, e) ↦ rw e (b.0.0, events_before h now b.1)
      ]
  events_before (stepped then_ ∷ h) now b =
      let rest = events_before h now b.1 in
      task_events_hold r (EventsBefore win (slot_at win now)) (running r c server h).task
        (cleanup_of r (app_after r c server h)) (map_events r c server h) rest
        (Begins-map (λ begin. IsLater win begin now)
          (λ begin.
            (key : Text)
            → EventsBefore win (slot_at win now) (Sweeps.swept key begin ∷ map_events r c server h))
          (running r c server h).task (λ begin l key. (l.0, rest)) (Begins-before h now b.1))

  -- A sweep that starts later is in time for all requests.
  asked_before :
      (h : List Event) (now : Time)
      → IsBehind win now h
      → AllAsked (InTime win now) (map_events r c server h)
  unfolding map_events charged request_at
  asked_before [] now b = tt
  asked_before (asked then_ q ∷ h) now b =
      elim (Option-cases (charge r then_ q (app_after r c server h))) [
        | inl e ↦ rw e (asked_before h now b.1)
        | inr (k, e) ↦ rw e (inl b.0.0, asked_before h now b.1)
      ]
  asked_before (stepped then_ ∷ h) now b =
      task_events-AllAsked r (InTime win now) (running r c server h).task
        (cleanup_of r (app_after r c server h)) (map_events r c server h) (asked_before h now b.1)

  -- So is the cycle under way, for the requests that came after it has started too.
  Begins-timely :
      (h : List Event)
      → InOrder win h
      → Begins
          (λ begin. AllAsked (InTime win begin) (map_events r c server h))
          (running r c server h).task
  unfolding running handle map_events charged request_at
  Begins-timely [] o = tt
  Begins-timely (asked now q ∷ h) o =
      elim (Option-cases (charge r now q (app_after r c server h))) [
        | inl e ↦ rw e (Begins-timely h o.1)
        | inr (k, e) ↦ rw e (
            Begins-both (λ begin. IsLater win begin now)
              (λ begin. AllAsked (InTime win begin) (map_events r c server h))
              (λ begin.
                AllAsked (InTime win begin)
                  (Sweeps.asked (request_at r c server k now) ∷ map_events r c server h))
              (running r c server h).task (λ begin l a. (inr l.1, a)) (Begins-before h now o.0)
              (Begins-timely h o.1))
      ]
  Begins-timely (stepped now ∷ h) o =
      let x = running r c server h in
      let es = map_events r c server h in
      step-Begins (cleanup_of_store r)
        (λ begin. AllAsked (InTime win begin) (task_events r x.task (cleanup_of r x.app) es)) now
        x.task (cleanup_of r x.app)
        (task_events-AllAsked r (InTime win now) x.task (cleanup_of r x.app) es
          (asked_before h now o.0))
        (Begins-map (λ begin. AllAsked (InTime win begin) es)
          (λ begin. AllAsked (InTime win begin) (task_events r x.task (cleanup_of r x.app) es))
          x.task (λ begin. task_events-AllAsked r (InTime win begin) x.task (cleanup_of r x.app) es)
          (Begins-timely h o.1))

  pub events_timely : (h : List Event) → InOrder win h → EventsTimely win (map_events r c server h)
  unfolding map_events charged request_at
  events_timely [] o = tt
  events_timely (asked now q ∷ h) o =
      elim (Option-cases (charge r now q (app_after r c server h))) [
        | inl e ↦ rw e (events_timely h o.1)
        | inr (k, e) ↦ rw e (events_before h now o.0, events_timely h o.1)
      ]
  events_timely (stepped now ∷ h) o =
      let x = running r c server h in
      let es = map_events r c server h in
      let rest = events_timely h o.1 in
      task_events_hold r (EventsTimely win) x.task (cleanup_of r x.app) es rest (
        Begins-map (λ begin. AllAsked (InTime win begin) es)
          (λ begin. (key : Text) → EventsTimely win (Sweeps.swept key begin ∷ es)) x.task
          (λ begin a key. (a, rest)) (Begins-timely h o.1))

  -- What check answers to a charged request, told by the requests alone.
  pub check-record_request :
      (now : Time) (q : CheckRequest) (h : List Event) (k : Text)
      → charge r now q (app_after r c server h) ≡ some k
      → InOrder win (asked now q ∷ h)
      → (check r now q (app_after r c server h)).0 ≡ (
          if (record_request now k c.global_limit c.burst c.abuse_multiplier
            (unknown_after win (requests_of (map_events r c server h)))).0.allowed
          then 200
          else 403)
  unfolding request_at
  check-record_request now q h k e o =
      let settings = settings_after r c server h in
      (check_unknown_some r now q (app_after r c server h) k e).0
      ∙ rw (settings.0, settings.1, settings.2, app_after-unknown r c server h)
          (ap (λ d. if d.allowed then 200 else 403)
            (sweeps_invisible win (map_events r c server h) (request_at r c server k now)
              (events_before h now o.0, events_timely h o.1)))

  pub requests-HasQuota :
      (k : Text) (g b : ℕ) (h : List Event)
      → c.global_limit ≡ pos g
      → c.burst ≡ pos b
      → HasQuota (unknown_window win) k g b (requests_of (map_events r c server h))
  unfolding map_events charged request_at requests_of
  requests-HasQuota k g b [] p q = tt
  requests-HasQuota k g b (asked now m ∷ h) p q =
      elim (Option-cases (charge r now m (app_after r c server h))) [
        | inl e ↦ rw e (requests-HasQuota k g b h p q)
        | inr (j, e) ↦ rw e (λ _. (p, q), requests-HasQuota k g b h p q)
      ]
  requests-HasQuota k g b (stepped now ∷ h) p q =
      rw
        (task_events-requests_of r (running r c server h).task
          (cleanup_of r (app_after r c server h)) (map_events r c server h))
        (requests-HasQuota k g b h p q)

  pub length-map_events :
      (h : List Event) → length (requests_of (map_events r c server h)) ≤ length h
  unfolding map_events charged requests_of
  length-map_events [] = omega arith
  length-map_events (asked now q ∷ h) =
      elim (Option-cases (charge r now q (app_after r c server h))) [
        | inl e ↦ rw e (omega (arith, length-map_events h))
        | inr (j, e) ↦ rw e (omega (arith, length-map_events h))
      ]
  length-map_events (stepped now ∷ h) =
      rw
        (task_events-requests_of r (running r c server h).task
          (cleanup_of r (app_after r c server h)) (map_events r c server h))
        (omega (arith, length-map_events h))
