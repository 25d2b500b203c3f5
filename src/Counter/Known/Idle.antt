-- ===== src/Counter/Known/Idle.antt =====
-- When DeleteIfInactive of internal/counter/known.go drops a counter.
use api_ratelimiter.Base.{ℕ, ◌+◌, ◌*◌, ◌^◌, ◌≡◌, Option, none, some, ℤ, leb, Text, arith}
use api_ratelimiter.Base.Dict.{lookup, insert, lookup-insert_self}
use api_ratelimiter.Clock.{Time, slot_at}
use api_ratelimiter.Counter.Inactive.{is_inactive}
use api_ratelimiter.Counter.Inactive.Gap.{IsWindow, Agree, is_inactive-iff_gap}
use api_ratelimiter.Counter.Known.{
  KnownCounter, KnownMap, serve_request, record_request, delete_if_inactive,
}

serve_request_stamps :
    (now : Time) (s : ℕ) (limit burst : ℤ) (found : Option KnownCounter)
    → ((serve_request now s limit burst found).1.slot ≡ s)
      × ((serve_request now s limit burst found).1.last_request ≡ now)
unfolding serve_request
serve_request_stamps now s limit burst none = ground arith
serve_request_stamps now s limit burst (some c) = ground arith

delete_of_lookup :
    (key : Text) (now : Time) (m : KnownMap) (c : KnownCounter)
    → lookup key m.counters ≡ some c
    → (delete_if_inactive key now m).0 ≡ is_inactive c.slot c.last_request now m.window_s
unfolding delete_if_inactive
delete_of_lookup key now m c e = ground arith

-- With windows of a second or a minute, and a wall clock that was not set between the last request
-- of a key and now: DeleteIfInactive drops the counter of the key exactly when two whole windows
-- or more have passed since that request. That the current window is another one follows.
idle_counter_dropped :
    (m : KnownMap) (key : Text) (limit burst : ℤ) (last now : Time)
    → IsWindow m.window_s
    → Agree last now
    → (delete_if_inactive key now (record_request last key limit burst m).1).0
      ≡ leb (last.wall + 2 * m.window_s * 10 ^ 9) now.wall
unfolding record_request
idle_counter_dropped m key limit burst last now w a =
    let found = lookup key m.counters in
    let s = slot_at m.window_s last in
    let c = (serve_request last s limit burst found).1 in
    let m' : KnownMap = record m { counters = insert key c m.counters } in
    rw (delete_of_lookup key now m' c (lookup-insert_self key c m.counters)) (
      rw
        (
          (serve_request_stamps last s limit burst found).0,
          (serve_request_stamps last s limit burst found).1,
        )
        (is_inactive-iff_gap m.window_s last now w a))
