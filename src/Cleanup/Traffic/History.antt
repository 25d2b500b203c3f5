-- ===== src/Cleanup/Traffic/History.antt =====
-- Requests to the unknown map and cycles of internal/cleanup/cleanup.go with requests inside, in any
-- order.
use api_ratelimiter.Base.{
  ℕ, ◌+◌, ◌<◌, ◌^◌, min, ◌≡◌, refl, ap, ◌∙◌, List, [], ◌∷◌, ◌++◌, Text, length,
}
use api_ratelimiter.Clock.{Time}
use api_ratelimiter.Counter.Window.Admission.{requests_in, HasQuota}
use api_ratelimiter.Counter.Unknown.{UnknownMap, new_unknown_map, record_request}
use api_ratelimiter.Counter.Unknown.Windows.{UnknownRequest, unknown_window}
use api_ratelimiter.Counter.Unknown.Sweeps as Sweeps
use api_ratelimiter.Counter.Unknown.Sweeps.{Event, asked, after_events, requests_of, EventsTimely}
use api_ratelimiter.Counter.Unknown.Sweeps.Admission.{admitted_events, events_admission}
use api_ratelimiter.Cleanup.{CleanupStore, Cleanup, run}
use api_ratelimiter.Cleanup.Traffic.{
  Traffic, noise_of, cycle_events, cycle_requests, run-cycle_events,
}

module _ (i : CleanupStore) (w : ℕ) where
  -- A request between two cycles, or a cycle: its traffic, its first and last instant, and the known
  -- map, the store, the metrics and the settings that it finds.
  pub data Happening : Type 0 where
    came : UnknownRequest → Happening
    cycled : Traffic → Time → Time → Cleanup i → Happening

  unfoldable pub happen : Happening → UnknownMap → UnknownMap
  happen (came r) m = (record_request r.now r.key r.global_limit r.burst r.abuse_multiplier m).1
  happen (cycled t begin finish s) m =
      (run i (noise_of t) begin finish (record s { unknown = m })).unknown

  -- The map that a history leaves, the newest happening first.
  unfoldable pub after_all : List Happening → UnknownMap
  after_all [] = new_unknown_map w
  after_all (e ∷ hs) = happen e (after_all hs)

  -- The history with its cycles taken apart, and its requests.
  unfoldable pub flat : List Happening → List Event
  flat [] = []
  flat (came r ∷ hs) = asked r ∷ flat hs
  flat (cycled t begin finish s ∷ hs) =
      cycle_events i t begin (record s { unknown = after_all hs }) (flat hs)

  unfoldable pub arrivals : List Happening → List UnknownRequest
  arrivals [] = []
  arrivals (came r ∷ hs) = r ∷ arrivals hs
  arrivals (cycled t begin finish s ∷ hs) =
      cycle_requests i t begin (record s { unknown = after_all hs }) ++ arrivals hs

  after_all-flat : (hs : List Happening) → after_all hs ≡ after_events w (flat hs)
  unfolding after_all happen flat after_events Sweeps.handle
  after_all-flat [] = refl
  after_all-flat (came r ∷ hs) =
      ap (λ m. (record_request r.now r.key r.global_limit r.burst r.abuse_multiplier m).1)
        (after_all-flat hs)
  after_all-flat (cycled t begin finish s ∷ hs) =
      (run-cycle_events i t begin w finish (record s { unknown = after_all hs }) (flat hs)
        (after_all-flat hs)).0

  pub requests_of-flat : (hs : List Happening) → requests_of (flat hs) ≡ arrivals hs
  unfolding flat arrivals requests_of
  requests_of-flat [] = refl
  requests_of-flat (came r ∷ hs) = ap (◌∷◌ r) (requests_of-flat hs)
  requests_of-flat (cycled t begin finish s ∷ hs) =
      (run-cycle_events i t begin w finish (record s { unknown = after_all hs }) (flat hs)
        (after_all-flat hs)).1
      ∙ ap (◌++◌ (cycle_requests i t begin (record s { unknown = after_all hs })))
          (requests_of-flat hs)

  -- Requests and whole cycles in any order, with requests arriving anywhere within the cycles, each
  -- cycle with any known map, store and settings and whatever Redis answers; all requests of the key j
  -- with global limit l and burst b of a sum below 2 ^ 63, fewer than 2 ^ 63 requests, no request in an
  -- earlier window than what was before it, and each cycle in time for the requests before its sweeps.
  -- Then the map is that of the history with the cycles taken apart into requests and
  -- DeleteIfInactive calls, and in it exactly the smaller of l + b and the number of arrivals of the
  -- key j in a window are admitted, those within cycles included.
  pub busy_admission :
      (j : Text) (t l b : ℕ) (hs : List Happening)
      → EventsTimely w (flat hs)
      → HasQuota (unknown_window w) j l b (arrivals hs)
      → l + b < 2 ^ 63
      → length (arrivals hs) < 2 ^ 63
      → (after_all hs ≡ after_events w (flat hs))
        × (admitted_events w j t (flat hs)
            ≡ min (requests_in (unknown_window w) j t (arrivals hs)) (l + b))
  busy_admission j t l b hs o q s n = (
    after_all-flat hs,
    rw (requests_of-flat hs) at (
        events_admission w j t l b (flat hs) o (rw (requests_of-flat hs) q) s
          (rw (requests_of-flat hs) n)),
  )
