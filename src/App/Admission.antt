-- ===== src/App/Admission.antt =====
-- How many requests to /check the program of cmd/api-ratelimiter/main.go answers with 200, over
-- histories in which requests come between any two steps of the cleanup.
use api_ratelimiter.Base.{
  ℕ, suc, ◌+◌, ◌<◌, ◌^◌, min, ◌≡◌, refl, Option-cases, inl, inr, List, [], ◌∷◌, pos, Text, length,
  ◌==◌, arith, if◌then◌else◌,
}
use api_ratelimiter.Clock.{slot_at}
use api_ratelimiter.Config.{Config, window_seconds}
use api_ratelimiter.Redis.{Redis}
use api_ratelimiter.Counter.Window.Admission.{requests_in, admitted_in, admitted_in_window}
use api_ratelimiter.Counter.Unknown.Windows.{unknown_window}
use api_ratelimiter.Counter.Unknown.Sweeps.{requests_of}
use api_ratelimiter.Counter.Unknown.Sweeps.Admission.{requests_of-IsOrdered}
use api_ratelimiter.App.{check, cleanup_of}
use api_ratelimiter.App.Charges.{charge, is_some_key}
use api_ratelimiter.App.Steps.{
  Event, asked, stepped, running, app_after, request_at, charged, map_events,
  task_events-requests_of,
}
use api_ratelimiter.App.Steps.Ledger.{
  InOrder, events_timely, check-record_request, requests-HasQuota, length-map_events,
}

module _ (r : Redis) (c : Config) (server : r.Server) where
  -- The requests in a window that are charged to the key k of the unknown map, and those among them
  -- that are answered with 200.
  unfoldable pub asked_in : Text → ℕ → List Event → ℕ
  asked_in k t [] = 0
  asked_in k t (asked now q ∷ h) =
      let n = asked_in k t h in
      if is_some_key k (charge r now q (app_after r c server h))
      then (if slot_at (window_seconds c) now == t then suc n else n)
      else n
  asked_in k t (stepped now ∷ h) = asked_in k t h

  unfoldable pub passed_in : Text → ℕ → List Event → ℕ
  passed_in k t [] = 0
  passed_in k t (asked now q ∷ h) =
      let n = passed_in k t h in
      if is_some_key k (charge r now q (app_after r c server h))
      then (if slot_at (window_seconds c) now == t
          then (if (check r now q (app_after r c server h)).0 == 200 then suc n else n)
          else n)
      else n
  passed_in k t (stepped now ∷ h) = passed_in k t h

  asked_in-requests_of :
      (k : Text) (t : ℕ) (h : List Event)
      → asked_in k t h
        ≡ requests_in
            (unknown_window (window_seconds c))
            k
            t
            (requests_of (map_events r c server h))
  unfolding asked_in map_events charged request_at requests_in requests_of
  asked_in-requests_of k t [] = refl
  asked_in-requests_of k t (asked now q ∷ h) =
      elim (Option-cases (charge r now q (app_after r c server h))) [
        | inl e ↦ rw e (asked_in-requests_of k t h)
        | inr (j, e) ↦ rw e (rw (asked_in-requests_of k t h))
      ]
  asked_in-requests_of k t (stepped now ∷ h) =
      rw
        (task_events-requests_of r (running r c server h).task
          (cleanup_of r (app_after r c server h)) (map_events r c server h))
        (asked_in-requests_of k t h)

  passed_in-requests_of :
      (k : Text) (t : ℕ) (h : List Event)
      → InOrder (window_seconds c) h
      → passed_in k t h
        ≡ admitted_in
            (unknown_window (window_seconds c))
            k
            t
            (requests_of (map_events r c server h))
  unfolding passed_in map_events charged request_at admitted_in requests_of
  passed_in-requests_of k t [] o = refl
  passed_in-requests_of k t (asked now q ∷ h) o =
      elim (Option-cases (charge r now q (app_after r c server h))) [
        | inl e ↦ rw e (passed_in-requests_of k t h o.1)
        | inr (j, e) ↦ rw e (
            rw (check-record_request r c server now q h j e o, passed_in-requests_of k t h o.1)
              (ground arith))
      ]
  passed_in-requests_of k t (stepped now ∷ h) o =
      rw
        (task_events-requests_of r (running r c server h).task
          (cleanup_of r (app_after r c server h)) (map_events r c server h))
        (passed_in-requests_of k t h o.1)

  -- With a global limit g and a burst b of a sum below 2 ^ 63, over any history of fewer than 2 ^ 63
  -- events in which requests of every kind come between any two steps of cleanup cycles, and neither
  -- the windows nor, by two windows or more, the clock go back from one event to a later one, whatever
  -- Redis answers: of the requests in a window that are charged to one key of the unknown map (an
  -- address, or an API key while it has no limit) exactly the smaller of their number and g + b are
  -- answered with 200.
  pub check_admission :
      (k : Text) (t g b : ℕ) (h : List Event)
      → c.global_limit ≡ pos g
      → c.burst ≡ pos b
      → InOrder (window_seconds c) h
      → g + b < 2 ^ 63
      → length h < 2 ^ 63
      → passed_in k t h ≡ min (asked_in k t h) (g + b)
  check_admission k t g b h p q o s n =
      rw (passed_in-requests_of k t h o, asked_in-requests_of k t h)
        (admitted_in_window (unknown_window (window_seconds c)) k t g b
          (requests_of (map_events r c server h))
          (requests_of-IsOrdered (window_seconds c) (map_events r c server h)
            (events_timely r c server h o))
          (requests-HasQuota r c server k g b h p q) s
          (omega (arith, length-map_events r c server h)))
