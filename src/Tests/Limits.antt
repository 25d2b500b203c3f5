-- ===== src/Tests/Limits.antt =====
-- The theorems on the limiter at a store that knows one key and fails at another.
use api_ratelimiter.Base.{
  min, ◌+◌, arith, ℕ, ◌+◌, ◌≡◌, refl, true, false, List, [], ◌∷◌, pos, Text, codes, text_eq,
  if◌then◌else◌,
}
use api_ratelimiter.Metrics.{new_metrics}
use api_ratelimiter.Store.{LimitReply, no_limit}
use api_ratelimiter.Limiter.{LimitLookup, Limiter, decide, is_empty}
use api_ratelimiter.Clock.{slot_at}
use api_ratelimiter.Limiter.OwnLimits.{own_limit, calls_with, passed_with, own_limit_admission}
use api_ratelimiter.Limiter.Accounts.{
  answer, refused_individual, refused_global, lookup_fails, count_calls, instruments_add_up,
}
use api_ratelimiter.Limiter.Calls.{Call, run}
use api_ratelimiter.Limiter.Isolation.{addressed, counters_of, client_of, decide_isolates}
use api_ratelimiter.Tests.{at_second, old_known, old_unknown}

-- "vip" has the limit 5, the lookup of "lost" fails, and the store counts its lookups.
abbrev pub answer_of : Text → LimitReply
answer_of k =
    if text_eq k (codes "vip")
    then record { limit = pos 5; found = true; failed = false }
    else no_limit (text_eq k (codes "lost"))

abbrev pub one_limit : LimitLookup
one_limit = record { Store = ℕ; lookup_limit = λ k n. (answer_of k, n + 1) }

abbrev pub small : Limiter one_limit
small = record {
  known = old_known;
  unknown = old_unknown;
  store = 0;
  metrics = record new_metrics { requests_allowed = 4 };
  global_limit = pos 1;
  burst = pos 1;
  abuse_multiplier = pos 2;
}

abbrev pub call_at : ℕ → Text → Text → Call
call_at s k ip = record { now = at_second s; api_key = k; ip = ip }

-- Two calls of "vip" in second 8, one with a key whose lookup fails, and one of "vip" in second 7.
abbrev vip_history : List Call
vip_history =
    call_at 8 (codes "vip") []
    ∷ call_at 8 (codes "vip") (codes "a")
    ∷ call_at 8 (codes "lost") (codes "a")
    ∷ call_at 7 (codes "vip") (codes "b")
    ∷ []

own_limit_admission_example :
    passed_with one_limit 1 1 1 (pos 2) 0 (codes "vip") 8 vip_history
    ≡ min (calls_with one_limit 1 1 1 (pos 2) 0 (codes "vip") 8 vip_history) (5 + 1)
unfolding slot_at text_eq is_empty own_limit
own_limit_admission_example =
    own_limit_admission one_limit 1 1 1 (pos 2) 0 (codes "vip") 8 5 vip_history (ground arith)
      (λ q. refl, (λ q. refl, (λ q. cc q, (λ q. refl, tt)))) (omega arith) (omega arith)

instruments_add_up_example :
    let m = (run one_limit small vip_history).metrics in
    (m.requests_allowed ≡ 4 + count_calls one_limit (answer one_limit) small vip_history)
    × (m.requests_blocked_individual
        ≡ 0 + count_calls one_limit (refused_individual one_limit) small vip_history)
    × (m.requests_blocked_global
        ≡ 0 + count_calls one_limit (refused_global one_limit) small vip_history)
    × (m.redis_errors_total ≡ 0 + count_calls one_limit (lookup_fails one_limit) small vip_history)
unfolding new_metrics
instruments_add_up_example = instruments_add_up one_limit small vip_history

decide_isolates_example :
    counters_of one_limit
      (addressed (codes "a"))
      (decide one_limit (at_second 8) (codes "a") (codes "a") small).1
    ≡ counters_of one_limit (addressed (codes "a")) small
unfolding client_of
decide_isolates_example =
    decide_isolates one_limit (at_second 8) (codes "a") (codes "a") (addressed (codes "a")) small
      (λ e. cc e)
