-- ===== src/Tests/Counters.antt =====
-- The theorems on the two maps at concrete histories.
use api_ratelimiter.Base.{
  ◌+◌, ◌-◌, ◌^◌, min, ◌≡◌, refl, false, pos, codes, text_eq, ◌+64◌, i64, ◌+ℤ◌, ◌*64◌, ◌*ℤ◌, arith,
}
use api_ratelimiter.Base.Dict.{lookup, insert}
use api_ratelimiter.Clock.{slot_at}
use api_ratelimiter.Counter.Window.{verdict, seen, replay}
use api_ratelimiter.Counter.Window.Admission.{requests_in, admitted_in}
use api_ratelimiter.Counter.Known
use api_ratelimiter.Counter.Known.{new_known_map}
use api_ratelimiter.Counter.Known.Windows.{known_window}
use api_ratelimiter.Counter.Known.Limits.{
  known_after, known_admission, record_request-verdict_of_history, limit_overflow_refuses,
}
use api_ratelimiter.Counter.Known.Hits.{Tells, Tells-after}
use api_ratelimiter.Counter.Unknown
use api_ratelimiter.Counter.Unknown.{UnknownCounter, new_unknown_map}
use api_ratelimiter.Counter.Unknown.Windows.{unknown_window}
use api_ratelimiter.Counter.Unknown.Limits.{unknown_after, unknown_verdict_of_history}
use api_ratelimiter.Counter.Unknown.Abuse.{abusive_windows, abuse_hits-eq-abusive_windows}
use api_ratelimiter.Tests.{at_second, known_history, unknown_history}

-- Three of the four requests of "a" in second 7 are allowed.
known_admission_runs : admitted_in (known_window 1) (codes "a") 7 known_history ≡ 3
unfolding admitted_in replay Known.record_request Known.serve_request slot_at lookup insert text_eq
    ◌+64◌ i64 ◌+ℤ◌ new_known_map
known_admission_runs = refl

known_admission_example :
    admitted_in (known_window 1) (codes "a") 7 known_history
    ≡ min (requests_in (known_window 1) (codes "a") 7 known_history) (2 + 1)
unfolding slot_at
known_admission_example =
    known_admission 1 (codes "a") 7 2 1 known_history (omega arith) (ground arith) (omega arith)
      (omega arith)

record_request-verdict_of_history_example :
    (Known.record_request (at_second 7) (codes "a") (pos 2) (pos 1) (known_after 1 known_history)).0
    ≡ verdict
        (pos 2)
        (pos 1)
        (pos (seen (known_window 1) (codes "a") (slot_at 1 (at_second 7)) known_history + 1))
record_request-verdict_of_history_example =
    record_request-verdict_of_history 1 (at_second 7) (codes "a") (pos 2) (pos 1) known_history
      (omega arith)

limit_overflow_refuses_example :
    (Known.record_request
      (at_second 9)
      (codes "a")
      (pos (2 ^ 63 - 1))
      (pos 1)
      (known_after 1 known_history)).0.allowed
    ≡ false
limit_overflow_refuses_example =
    limit_overflow_refuses 1 (at_second 9) (codes "a") (2 ^ 63 - 1) 1 known_history (omega arith)
      (omega arith) (omega arith) (omega arith)

Tells-after_example :
    Tells 1 (codes "a") known_history (lookup (codes "a") (known_after 1 known_history).counters)
Tells-after_example = Tells-after 1 (codes "a") known_history (omega arith)

unknown_verdict_of_history_example :
    (Unknown.record_request
      (at_second 8)
      (codes "ip:a")
      (pos 1)
      (pos 1)
      (pos 2)
      (unknown_after 1 unknown_history)).0
    ≡ verdict
        (pos 1)
        (pos 1)
        (pos (seen (unknown_window 1) (codes "ip:a") (slot_at 1 (at_second 8)) unknown_history + 1))
unknown_verdict_of_history_example =
    unknown_verdict_of_history 1 (at_second 8) (codes "ip:a") (pos 1) (pos 1) (pos 2)
      unknown_history (omega arith)

-- Second 7 had three requests, more than 1 * 2, which the request of second 8 counts.
abbrev abusive_counter : UnknownCounter
abusive_counter = record {
  first_request = at_second 7;
  last_request = at_second 8;
  total = pos 4;
  window_count = pos 1;
  slot = 8;
  burst_hits = pos 1;
  abuse_hits = pos 1;
}

abuse_hits-eq-abusive_windows_example :
    pos 1 ≡ pos (abusive_windows 1 (codes "ip:a") unknown_history)
unfolding replay Unknown.record_request Unknown.serve_request slot_at lookup insert text_eq ◌+64◌
    i64 ◌+ℤ◌ ◌*64◌ ◌*ℤ◌ new_unknown_map
abuse_hits-eq-abusive_windows_example =
    abuse_hits-eq-abusive_windows 1 (codes "ip:a") unknown_history abusive_counter (omega arith)
      refl
