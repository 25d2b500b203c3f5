-- ===== src/Counter/Unknown/Sweeps/Admission.antt =====
-- How many requests UnknownMap of internal/counter/unknown.go admits while the cleanup drops counters.
use api_ratelimiter.Base.{
  ℕ, suc, ◌+◌, ◌<◌, ◌^◌, min, ◌≡◌, refl, ◌∙◌, List, [], ◌∷◌, Text, text_eq, length, ◌==◌,
  if◌then◌else◌,
}
use api_ratelimiter.Clock.{slot_at}
use api_ratelimiter.Counter.Window.Admission.{
  requests_in, admitted_in, IsBefore, IsOrdered, HasQuota, admitted_in_window,
}
use api_ratelimiter.Counter.Unknown.{record_request}
use api_ratelimiter.Counter.Unknown.Windows.{unknown_window}
use api_ratelimiter.Counter.Unknown.Sweeps.{
  Event, asked, swept, after_events, requests_of, EventsBefore, EventsTimely,
}
use api_ratelimiter.Counter.Unknown.Sweeps.Verdicts.{sweeps_invisible}

module _ (w : ℕ) where
  requests_of-IsBefore :
      (t : ℕ) (es : List Event)
      → EventsBefore w t es
      → IsBefore (unknown_window w) t (requests_of es)
  unfolding requests_of
  requests_of-IsBefore t [] b = tt
  requests_of-IsBefore t (asked q ∷ es) b = (b.0, requests_of-IsBefore t es b.1)
  requests_of-IsBefore t (swept k now ∷ es) b = requests_of-IsBefore t es b.1

  pub requests_of-IsOrdered :
      (es : List Event) → EventsTimely w es → IsOrdered (unknown_window w) (requests_of es)
  unfolding requests_of
  requests_of-IsOrdered [] o = tt
  requests_of-IsOrdered (asked q ∷ es) o =
      (requests_of-IsBefore (slot_at w q.now) es o.0, requests_of-IsOrdered es o.1)
  requests_of-IsOrdered (swept k now ∷ es) o = requests_of-IsOrdered es o.1

  -- The requests of a key in a window that were admitted, each in the map that it met.
  unfoldable pub admitted_events : Text → ℕ → List Event → ℕ
  admitted_events j t [] = 0
  admitted_events j t (asked r ∷ es) =
      let n = admitted_events j t es in
      if text_eq r.key j
      then (if slot_at w r.now == t
          then (if (record_request r.now r.key r.global_limit r.burst r.abuse_multiplier
                (after_events w es)).0.allowed
              then suc n
              else n)
          else n)
      else n
  admitted_events j t (swept key now ∷ es) = admitted_events j t es

  pub admitted_events-requests_of :
      (j : Text) (t : ℕ) (es : List Event)
      → EventsTimely w es
      → admitted_events j t es ≡ admitted_in (unknown_window w) j t (requests_of es)
  unfolding admitted_events admitted_in requests_of
  admitted_events-requests_of j t [] o = refl
  admitted_events-requests_of j t (asked r ∷ es) o =
      rw (sweeps_invisible w es r o, admitted_events-requests_of j t es o.1) refl
  admitted_events-requests_of j t (swept key now ∷ es) o = admitted_events-requests_of j t es o.1

  pub events_admission :
      (j : Text) (t l b : ℕ) (es : List Event)
      → EventsTimely w es
      → HasQuota (unknown_window w) j l b (requests_of es)
      → l + b < 2 ^ 63
      → length (requests_of es) < 2 ^ 63
      → admitted_events j t es ≡ min (requests_in (unknown_window w) j t (requests_of es)) (l + b)
  events_admission j t l b es o q s n =
      admitted_events-requests_of j t es o
      ∙ admitted_in_window (unknown_window w) j t l b (requests_of es) (requests_of-IsOrdered es o)
          q s n
