-- ===== src/App/Steps.antt =====
-- The program of cmd/api-ratelimiter/main.go as its goroutines interleave: a history of requests to
-- /check and of single steps of cleanup cycles, and what it asks of the unknown map.
pub mod Ledger
pub mod Ends
use api_ratelimiter.Base.{
  ℕ, ◌≤◌, ◌≡◌, refl, ap, ◌∙◌, false, Option, none, some, Option-cases, inl, inr, List, [], ◌∷◌,
  Text, leb_ℤ,
}
use api_ratelimiter.Clock.{Time, slot_at, sub, two_windows}
use api_ratelimiter.Config.{Config, window_seconds}
use api_ratelimiter.Redis.{Redis}
use api_ratelimiter.Counter.Unknown.{delete_if_inactive}
use api_ratelimiter.Counter.Unknown.Windows.{UnknownRequest}
use api_ratelimiter.Counter.Unknown.Sweeps as Sweeps
use api_ratelimiter.Counter.Unknown.Sweeps.{after_events, requests_of, AllAsked}
use api_ratelimiter.Cleanup.{Cleanup, count_run}
use api_ratelimiter.Cleanup.Steps.{Cycle, Task, idle, busy, step, swept_key, work_unknown}
use api_ratelimiter.Cleanup.Steps.Begins.{Begins}
use api_ratelimiter.Handler.{CheckRequest, serve_http}
use api_ratelimiter.App.{App, build, cleanup_of_store, cleanup_of, with_cleanup, check}
use api_ratelimiter.App.Charges.{charge, check_unknown_none, check_unknown_some}

-- A request to /check at an instant, or the next step of the cleanup, which starts a cycle when none
-- is under way.
pub data Event : Type 0 where
  asked : Time → CheckRequest → Event
  stepped : Time → Event

abbrev pub time_of : Event → Time
time_of (asked now q) = now
time_of (stepped now) = now

-- What a step of the cleanup asks of the unknown map, in front of the events before it.
abbrev pub swept_before : Option Text → Time → List Sweeps.Event → List Sweeps.Event
swept_before none now es = es
swept_before (some key) now es = Sweeps.swept key now ∷ es

module _ (r : Redis) where
  -- The objects that the goroutines share, and where the cleanup stands.
  pub record Live : Type 0 where
    pub app : App r
    pub task : Task

  unfoldable pub handle : Event → Live → Live
  handle (asked now q) x = record x { app = (check r now q x.app).1 }
  handle (stepped now) x =
      let (task, s) = step (cleanup_of_store r) now x.task (cleanup_of r x.app) in
      record { app = with_cleanup r x.app s; task = task }

  abbrev pub task_events :
      Task → Cleanup (cleanup_of_store r) → List Sweeps.Event → List Sweeps.Event
  task_events idle s es = es
  task_events (busy c) s es = swept_before (swept_key (cleanup_of_store r) c.stage s) c.begin es

  pub task_events_hold {ℓ} :
      (P : List Sweeps.Event → Type ℓ) (task : Task) (s : Cleanup (cleanup_of_store r))
      (es : List Sweeps.Event)
      → P es
      → Begins (λ begin. (key : Text) → P (Sweeps.swept key begin ∷ es)) task
      → P (task_events task s es)
  task_events_hold P idle s es p q = p
  task_events_hold P (busy c) s es p q =
      elim (Option-cases (swept_key (cleanup_of_store r) c.stage s)) [
        | inl e ↦ rw e p
        | inr (key, e) ↦ rw e (q key)
      ]

  pub task_events-AllAsked :
      (P : Time → Type 0) (task : Task) (s : Cleanup (cleanup_of_store r)) (es : List Sweeps.Event)
      → AllAsked P es
      → AllAsked P (task_events task s es)
  task_events-AllAsked P idle s es a = a
  task_events-AllAsked P (busy c) s es a = task_events_hold (AllAsked P) (busy c) s es a (λ key. a)

  pub task_events-requests_of :
      (task : Task) (s : Cleanup (cleanup_of_store r)) (es : List Sweeps.Event)
      → requests_of (task_events task s es) ≡ requests_of es
  unfolding requests_of
  task_events-requests_of idle s es = refl
  task_events-requests_of (busy c) s es =
      task_events_hold (λ h. requests_of h ≡ requests_of es) (busy c) s es refl (λ key. refl)

  step_unknown :
      (w : ℕ) (now : Time) (task : Task) (s : Cleanup (cleanup_of_store r)) (es : List Sweeps.Event)
      → s.unknown ≡ after_events w es
      → (step (cleanup_of_store r) now task s).1.unknown ≡ after_events w (task_events task s es)
  unfolding step count_run after_events Sweeps.handle
  step_unknown w now idle s es q = q
  step_unknown w now (busy c) s es q =
      work_unknown (cleanup_of_store r) now c c.stage s
      ∙ elim (Option-cases (swept_key (cleanup_of_store r) c.stage s)) [
        | inl e ↦ rw e q
        | inr (k, e) ↦ rw e (ap (λ m. (delete_if_inactive k c.begin m).1) q)
      ]

-- The program built from a configuration, with the Redis server as it stands, and no cycle under way.
module _ (r : Redis) (c : Config) (server : r.Server) where
  -- The state after a history, the newest event first.
  unfoldable pub running : List Event → Live r
  running [] = record { app = build r c server; task = idle }
  running (e ∷ h) = handle r e (running h)

  abbrev pub app_after : List Event → App r
  app_after h = (running h).app

  pub settings_after :
      (h : List Event)
      → ((app_after h).global_limit ≡ c.global_limit)
        × ((app_after h).burst ≡ c.burst)
        × ((app_after h).abuse_multiplier ≡ c.abuse_multiplier)
  unfolding running handle check serve_http
  settings_after [] = unfold build in (refl, refl, refl)
  settings_after (asked now q ∷ h) = settings_after h
  settings_after (stepped now ∷ h) = settings_after h

  unfoldable pub request_at : Text → Time → UnknownRequest
  request_at k now = record {
    now = now;
    key = k;
    global_limit = c.global_limit;
    burst = c.burst;
    abuse_multiplier = c.abuse_multiplier;
  }

  -- What a history asks of the unknown map.
  unfoldable pub charged : Option Text → Time → List Sweeps.Event → List Sweeps.Event
  charged none now es = es
  charged (some k) now es = Sweeps.asked (request_at k now) ∷ es

  unfoldable pub map_events : List Event → List Sweeps.Event
  map_events [] = []
  map_events (asked now q ∷ h) = charged (charge r now q (app_after h)) now (map_events h)
  map_events (stepped now ∷ h) =
      task_events r (running h).task (cleanup_of r (app_after h)) (map_events h)

  pub app_after-unknown :
      (h : List Event) → (app_after h).unknown ≡ after_events (window_seconds c) (map_events h)
  unfolding running handle map_events charged request_at after_events Sweeps.handle
  app_after-unknown [] = unfold build in refl
  app_after-unknown (asked now q ∷ h) = elim (Option-cases (charge r now q (app_after h))) [
    | inl e ↦ rw e (check_unknown_none r now q (app_after h) e ∙ app_after-unknown h)
    | inr (k, e) ↦ rw e (
        rw ((check_unknown_some r now q (app_after h) k e).1) (
          rw (
            (settings_after h).0,
            (settings_after h).1,
            (settings_after h).2,
            app_after-unknown h,
          )))
  ]
  app_after-unknown (stepped now ∷ h) =
      step_unknown r (window_seconds c) now (running h).task (cleanup_of r (app_after h))
        (map_events h) (app_after-unknown h)
