-- ===== src/Tests/Traffic.antt =====
-- The theorems on cycles with requests inside, and on the order of events.
use api_ratelimiter.Base.{
  ◌+◌, min, ◌≡◌, refl, sym, ap, ◌∙◌, inl, inr, true, Option, List, [], ◌∷◌, Text, codes, text_eq,
  arith, ◌+64◌, i64, ◌+ℤ◌, ◌*64◌, ◌*ℤ◌,
}
use mathlib.Core.Quot
use api_ratelimiter.Base.Dict.{lookup, insert, erase}
use api_ratelimiter.Clock.{slot_at, sub, difference, saturate, two_windows}
use api_ratelimiter.Counter.Known
use api_ratelimiter.Counter.Inactive.{is_inactive}
use api_ratelimiter.Counter.Window.Admission.{requests_in}
use api_ratelimiter.Counter.Unknown.{
  UnknownCounter, snapshot, get, record_request, serve_request, new_unknown_map,
}
use api_ratelimiter.Counter.Unknown.Windows.{unknown_window}
use api_ratelimiter.Counter.Unknown.Sweeps.{
  Event, asked, swept, handle, after_events, requests_of, EventsTimely,
}
use api_ratelimiter.Counter.Unknown.Sweeps.Admission.{admitted_events}
use api_ratelimiter.Counter.Unknown.View.{
  View, answer, life, view-after_events, different_keys_commute,
}
use api_ratelimiter.Cleanup.{run_known, known_loop, clean_known, after_answer, count_deleted}
use api_ratelimiter.Cleanup.Traffic.{Traffic, loop_events, turn_requests, cycle_events}
use api_ratelimiter.Cleanup.Traffic.History.{
  Happening, came, cycled, after_all, happen, flat, arrivals, requests_of-flat, busy_admission,
}
use api_ratelimiter.Tests.{at_second, unknown_request}
use api_ratelimiter.Tests.Cycles.{keeping, cycle}

-- A request of "ip:a" at each place where one can arrive.
abbrev busy : Traffic
busy = record {
  known = λ e m. m;
  snapshot_requests = unknown_request 7 "ip:a" ∷ [];
  entry_requests = λ e. unknown_request 8 "ip:a" ∷ [];
  transfer_requests = λ e. unknown_request 8 "ip:a" ∷ [];
}

abbrev before : List Event
before = asked (unknown_request 7 "ip:a") ∷ []

view-after_events_example :
    ◌≡◌ {A = Text → Option UnknownCounter}
      (λ j. lookup j (after_events 1 before).counters)
      (λ j. life 1 j before)
view-after_events_example = view-after_events 1 before

different_keys_commute_example :
    let e : Event = asked (unknown_request 9 "ip:b") in
    let f : Event = swept (codes "ip:a") (at_second 9) in
    let m = after_events 1 before in
    (◌≡◌ {A = View} (Quot.mk (handle e (handle f m))) (Quot.mk (handle f (handle e m))))
    × (answer e (handle f m) ≡ answer e m)
    × (answer f (handle e m) ≡ answer f m)
unfolding text_eq
different_keys_commute_example =
    different_keys_commute (asked (unknown_request 9 "ip:b")) (swept (codes "ip:a") (at_second 9))
      (after_events 1 before) refl

abbrev happenings : List (Happening (keeping true) 1)
happenings =
    cycled busy (at_second 7) (at_second 8) (cycle true) ∷ came (unknown_request 7 "ip:a") ∷ []

happenings-flat :
    flat (keeping true) 1 happenings
    ≡ swept (codes "ip:a") (at_second 7)
      ∷ asked (unknown_request 8 "ip:a")
      ∷ asked (unknown_request 7 "ip:a")
      ∷ asked (unknown_request 7 "ip:a")
      ∷ []
unfolding flat after_all happen cycle_events loop_events turn_requests snapshot get lookup insert
    text_eq record_request serve_request new_unknown_map slot_at ◌+64◌ i64 ◌+ℤ◌ ◌*64◌ ◌*ℤ◌ run_known
    known_loop clean_known after_answer Known.snapshot count_deleted Known.delete_if_inactive
    is_inactive sub difference saturate two_windows erase
happenings-flat = refl

happenings-arrivals :
    arrivals (keeping true) 1 happenings
    ≡ unknown_request 8 "ip:a" ∷ unknown_request 7 "ip:a" ∷ unknown_request 7 "ip:a" ∷ []
unfolding requests_of
happenings-arrivals =
    sym (requests_of-flat (keeping true) 1 happenings) ∙ ap requests_of happenings-flat

happenings_timely : EventsTimely 1 (flat (keeping true) 1 happenings)
unfolding slot_at sub difference saturate two_windows ◌*64◌ ◌*ℤ◌ i64
happenings_timely = rw happenings-flat (
  (inr refl, (inl (omega arith), (inl (omega arith), tt))),
  ((omega arith, (omega arith, tt)), ((omega arith, tt), (tt, tt))),
)

busy_admission_example :
    (after_all (keeping true) 1 happenings ≡ after_events 1 (flat (keeping true) 1 happenings))
    × (admitted_events 1 (codes "ip:a") 7 (flat (keeping true) 1 happenings)
        ≡ min
            (requests_in (unknown_window 1) (codes "ip:a") 7 (arrivals (keeping true) 1 happenings))
            (1 + 1))
busy_admission_example =
    busy_admission (keeping true) 1 (codes "ip:a") 7 1 1 happenings happenings_timely
      (rw happenings-arrivals (λ _. (refl, refl), (λ _. (refl, refl), (λ _. (refl, refl), tt))))
      (omega arith) (rw happenings-arrivals (omega arith))
