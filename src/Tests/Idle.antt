-- ===== src/Tests/Idle.antt =====
-- The theorems on the end of cycles and on clients that go, at runs of a few events.
use api_ratelimiter.Base.{
  ℕ, some, none, ◌++◌, ap, text_eq, inl, ◌≡◌, refl, List, [], ◌∷◌, Text, codes, arith, ◌+64◌, i64,
  ◌+ℤ◌,
}
use api_ratelimiter.Base.Dict.{lookup, insert}
use api_ratelimiter.Strconv.{trim_space}
use api_ratelimiter.Url.{query_get, query, query_pairs, split, query_pair, is_digit}
use api_ratelimiter.Ip.{ip_valid, first_mark, ipv4_valid, ipv4_loop}
use api_ratelimiter.Clock.{Time, slot_at, difference}
use api_ratelimiter.Config.{default_config, window_seconds}
use api_ratelimiter.Store.{new_store, is_healthy}
use api_ratelimiter.Counter.Known
use api_ratelimiter.Counter.Known.{new_known_map}
use api_ratelimiter.Counter.Unknown
use api_ratelimiter.Counter.Unknown.{new_unknown_map, record_request, serve_request}
use api_ratelimiter.Limiter.{is_empty, decide, decide_with_ip, decide_with_key, decide_unknown}
use api_ratelimiter.Limiter.Calls.{charged_to}
use api_ratelimiter.Handler.{
  CheckRequest, serve_http, extract_key, extract_ip, header_get, key_of_query, key_of_uri, or_else,
}
use api_ratelimiter.Cleanup.{count_run, drop_if_inactive, count_deleted}
use api_ratelimiter.Cleanup.Steps.{idle, step, work, start_turn}
use api_ratelimiter.App.{App, build, check}
use api_ratelimiter.App.Charges.{charge, is_some_key}
use api_ratelimiter.App.Steps as Steps
use api_ratelimiter.App.Steps.Ends.{RestsWithin, steps_in, cycle_ends}
use api_ratelimiter.Cleanup.Steps.Rank.{rank, stage_rank}
use api_ratelimiter.App.Idle.{IsAway, idle_client_forgotten}
use api_ratelimiter.Tests.{at_second, quiet_redis}
use api_ratelimiter.Tests.Processes.{strict, address}

abbrev from_address : Text → CheckRequest
from_address ip = record { headers = (codes "X-Real-Ip", ip ∷ []) ∷ []; raw_query = [] }

abbrev earlier : List Steps.Event
earlier =
    Steps.stepped (at_second 9) ∷ Steps.stepped (at_second 9) ∷ Steps.stepped (at_second 9) ∷ []

-- The steps of a cycle, and a request of another client before the last one.
abbrev meanwhile : List Steps.Event
meanwhile =
    Steps.stepped (at_second 9)
    ∷ Steps.asked (at_second 9) (from_address (codes "10.0.0.9"))
    ∷ earlier

-- The request of the client that goes, and the start of a cycle two windows later.
abbrev visited : List Steps.Event
visited = Steps.asked (at_second 7) (from_address address) ∷ []

address_alone : (ip : Text) → extract_key (from_address ip) ≡ []
unfolding extract_key header_get lookup text_eq key_of_query query_get query query_pairs split
    query_pair key_of_uri or_else
address_alone ip = refl

address_taken : extract_ip (from_address address) ≡ address
unfolding extract_ip header_get lookup text_eq trim_space ip_valid first_mark ipv4_valid ipv4_loop
    is_digit
address_taken = refl

other_taken : extract_ip (from_address (codes "10.0.0.9")) ≡ codes "10.0.0.9"
unfolding extract_ip header_get lookup text_eq trim_space ip_valid first_mark ipv4_valid ipv4_loop
    is_digit
other_taken = refl

charge_of_address :
    (now : Time) (a : App quiet_redis) (c : ℕ) (s : Text) (ip : Text)
    → extract_ip (from_address ip) ≡ c ∷ s
    → charge quiet_redis now (from_address ip) a ≡ some (codes "ip:" ++ c ∷ s)
unfolding charged_to is_empty
charge_of_address now a c s ip e = rw (address_alone ip, e) refl

away :
    IsAway quiet_redis strict 0
      (codes "ip:10.0.0.2")
      meanwhile
      (Steps.stepped (at_second 9) ∷ visited)
unfolding text_eq
away = (
  ap (is_some_key (codes "ip:10.0.0.2")) (
      charge_of_address (at_second 9)
        (Steps.app_after quiet_redis strict 0 (earlier ++ Steps.stepped (at_second 9) ∷ visited))
        b'1' (codes "0.0.0.9") (codes "10.0.0.9") other_taken),
  tt,
)

no_cycle_before : (Steps.running quiet_redis strict 0 visited).task ≡ idle
unfolding Steps.running Steps.handle
no_cycle_before = refl

no_cycle_after :
    (Steps.running quiet_redis strict 0 (meanwhile ++ Steps.stepped (at_second 9) ∷ visited)).task
    ≡ idle
unfolding Steps.running Steps.handle step work start_turn count_run drop_if_inactive count_deleted
    check serve_http decide decide_with_ip decide_with_key decide_unknown record_request
    serve_request build new_known_map new_unknown_map new_store is_healthy Known.snapshot
    Unknown.snapshot insert lookup is_empty extract_key extract_ip header_get text_eq key_of_query
    query_get query query_pairs split query_pair key_of_uri or_else trim_space ip_valid first_mark
    ipv4_valid ipv4_loop is_digit default_config slot_at ◌+64◌ i64 ◌+ℤ◌ window_seconds
no_cycle_after = refl

idle_client_forgotten_example :
    lookup
      (codes "ip:10.0.0.2")
      (Steps.app_after quiet_redis strict 0
        (meanwhile ++ Steps.stepped (at_second 9) ∷ visited)).unknown.counters
    ≡ none
unfolding window_seconds default_config text_eq difference
idle_client_forgotten_example =
    idle_client_forgotten quiet_redis strict 0 (codes "ip:10.0.0.2") (at_second 7)
      (from_address address) meanwhile [] [] (at_second 9) (inl refl)
      (charge_of_address (at_second 7) (Steps.app_after quiet_redis strict 0 []) b'1'
        (codes "0.0.0.2") address address_taken)
      tt no_cycle_before refl (omega arith) away no_cycle_after

abbrev three_steps : List Steps.Event
three_steps =
    Steps.stepped (at_second 8) ∷ Steps.stepped (at_second 7) ∷ Steps.stepped (at_second 7) ∷ []

abbrev first_step : List Steps.Event
first_step = Steps.stepped (at_second 7) ∷ []

cycle_ends_example : RestsWithin quiet_redis strict 0 three_steps first_step
unfolding Steps.running Steps.handle step work count_run build new_known_map new_unknown_map
    Known.snapshot Unknown.snapshot Unknown.len rank stage_rank steps_in
cycle_ends_example =
    cycle_ends quiet_redis strict 0 0 three_steps first_step
      (omega arith, (omega arith, (omega arith, tt))) (omega arith)
