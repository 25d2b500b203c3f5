-- ===== src/Tests/Processes.antt =====
-- The theorems on the program at a run of a few events.
use api_ratelimiter.Base.{
  text_eq, ◌+◌, min, ◌≡◌, ◌↔◌, refl, true, List, [], ◌∷◌, Text, pos, codes, arith, ◌*64◌, ◌*ℤ◌, i64,
}
use api_ratelimiter.Clock.{slot_at, difference, two_windows, sub, saturate}
use api_ratelimiter.Config.{Config, default_config, window_seconds}
use api_ratelimiter.Store.{ping}
use api_ratelimiter.Counter.Unknown.{record_request}
use api_ratelimiter.Counter.Unknown.Limits.{unknown_after}
use api_ratelimiter.Counter.Unknown.Sweeps.{Event, asked, swept, after_events, requests_of}
use api_ratelimiter.Counter.Unknown.Sweeps.Verdicts.{sweeps_invisible}
use api_ratelimiter.App.{App, build, readyz}
use api_ratelimiter.App.Steps as Steps
use api_ratelimiter.App.Steps.Ledger.{InOrder}
use api_ratelimiter.App.Admission.{passed_in, asked_in, check_admission}
use api_ratelimiter.App.Shutdown.{Process, here, next, launch, serving, signalled, at_signal}
use api_ratelimiter.App.Shutdown.Order.{readyz-iff_serving}
use api_ratelimiter.Tests.{at_second, unknown_request, quiet_redis}
use api_ratelimiter.Tests.Checks.{visit}

-- Three requests of "ip:a", and two calls of DeleteIfInactive that drop its counter.
abbrev events : List Event
events =
    swept (codes "ip:a") (at_second 9)
    ∷ asked (unknown_request 7 "ip:a")
    ∷ asked (unknown_request 7 "ip:a")
    ∷ swept (codes "ip:a") (at_second 7)
    ∷ asked (unknown_request 4 "ip:a")
    ∷ []

sweeps_invisible_example :
    (record_request (at_second 9) (codes "ip:a") (pos 1) (pos 1) (pos 2) (after_events 1 events)).0
    ≡ (record_request
        (at_second 9)
        (codes "ip:a")
        (pos 1)
        (pos 1)
        (pos 2)
        (unknown_after 1 (requests_of events))).0
unfolding slot_at
sweeps_invisible_example = sweeps_invisible 1 events (unknown_request 9 "ip:a") (ground arith)

-- One request a second and a burst of one.
abbrev pub strict : Config
strict = record default_config { global_limit = pos 1; burst = pos 1 }

abbrev pub address : Text
address = codes "10.0.0.2"

-- A request while a cycle is under way, and one behind it.
abbrev history : List Steps.Event
history =
    Steps.asked (at_second 9) (visit address)
    ∷ Steps.stepped (at_second 9)
    ∷ Steps.stepped (at_second 8)
    ∷ Steps.asked (at_second 7) (visit address)
    ∷ Steps.stepped (at_second 7)
    ∷ Steps.asked (at_second 7) (visit address)
    ∷ Steps.asked (at_second 7) (visit address)
    ∷ []

history-InOrder : InOrder (window_seconds strict) history
unfolding window_seconds text_eq default_config slot_at two_windows ◌*64◌ ◌*ℤ◌ i64 sub difference
    saturate
history-InOrder = ground arith

check_admission_example :
    passed_in quiet_redis strict 0 (codes "key:k 1&") 7 history
    ≡ min (asked_in quiet_redis strict 0 (codes "key:k 1&") 7 history) (1 + 1)
check_admission_example =
    check_admission quiet_redis strict 0 (codes "key:k 1&") 7 1 1 history refl refl history-InOrder
      (omega arith) (omega arith)

abbrev started : App quiet_redis
started = build quiet_redis strict 0

-- The process behind the signal.
abbrev signalled_process : Process quiet_redis
signalled_process = at_signal quiet_redis (launch quiet_redis started)

readyz-iff_serving_example : ((readyz quiet_redis signalled_process.app).0 ≡ 200) ↔ (
    (signalled_process.phase ≡ serving) × ((ping quiet_redis signalled_process.app.store).0 ≡ true))
unfolding build launch
readyz-iff_serving_example =
    readyz-iff_serving quiet_redis started signalled_process refl (next here (signalled refl))
