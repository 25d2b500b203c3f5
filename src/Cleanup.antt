-- ===== src/Cleanup.antt =====
-- internal/cleanup/cleanup.go: one cleanup cycle over the two maps. The store is the interface
-- `CleanupStore`, as in the source. Requests are served while a cycle runs: what they do to the maps
-- between two steps of the cycle is the argument `Noise`. Log lines are left out.
pub mod Separate
pub mod Steps
pub mod Sweep
pub mod Loop
pub mod Traffic
pub mod Limits
pub mod Transfers
use api_ratelimiter.Base.{
  ℕ, ◌+◌, Bool, true, false, ◌&&◌, Option, none, some, List, [], ◌∷◌, ◌++◌, ℤ, pos, leb_ℤ, Text,
  has_prefix, trim_prefix, if◌then◌else◌,
}
use api_ratelimiter.Clock.{Time, unix, sub}
use api_ratelimiter.Metrics.{Metrics, inc_redis_errors}
use api_ratelimiter.Store.{AbuseRecord}
use api_ratelimiter.Counter.Known
use api_ratelimiter.Counter.Unknown
use api_ratelimiter.Counter.Known.{KnownMap, KnownSnapshot}
use api_ratelimiter.Counter.Unknown.{
  UnknownCounter, UnknownMap, UnknownSnapshot, unknown_key_prefix, unknown_ip_prefix,
}

-- The interface Store of the package.
pub record CleanupStore : Type 1 where
  pub State : Type 0
  pub limit_exists : Text → State → Option Bool × State
  pub upsert_abuse_key : Text → AbuseRecord → ℤ → State → Bool × State
  pub upsert_abuse_ip : Text → AbuseRecord → ℤ → State → Bool × State
  pub db_sizes : State → Option (ℤ × ℤ × ℤ) × State
  pub is_healthy : State → Bool

-- What other goroutines do to the maps: before the turn of a snapshot's entry, before the snapshot
-- of the unknown map is taken, and between the read and the delete of an entry that is transferred.
pub record Noise : Type 0 where
  pub before_known : KnownSnapshot → KnownMap → KnownMap
  pub before_snapshot : UnknownMap → UnknownMap
  pub before_unknown : UnknownSnapshot → UnknownMap → UnknownMap
  pub during_transfer : UnknownSnapshot → UnknownMap → UnknownMap

abbrev pub quiet : Noise
quiet = record {
  before_known = λ e m. m;
  before_snapshot = λ m. m;
  before_unknown = λ e m. m;
  during_transfer = λ e m. m;
}

-- The AbuseRecord that transfer builds.
unfoldable pub abuse_record : UnknownCounter → AbuseRecord
abuse_record c = record {
  first_seen = pos (unix c.first_request);
  last_seen = pos (unix c.last_request);
  total_requests = c.total;
  burst_hits = c.burst_hits;
  abuse_hits = c.abuse_hits;
}

module _ (i : CleanupStore) where
  open i use {State, limit_exists, upsert_abuse_key, upsert_abuse_ip, db_sizes, is_healthy}

  pub record Cleanup : Type 0 where
    pub known : KnownMap
    pub unknown : UnknownMap
    pub store : State
    pub metrics : Metrics
    pub transfer_threshold : ℤ
    pub abuse_ttl : ℤ

  -- New
  abbrev pub new_cleanup : KnownMap → UnknownMap → State → Metrics → ℤ → ℤ → Cleanup
  new_cleanup known unknown store metrics transfer_threshold abuse_ttl = record {
    known = known;
    unknown = unknown;
    store = store;
    metrics = metrics;
    transfer_threshold = transfer_threshold;
    abuse_ttl = abuse_ttl;
  }

  -- The named results of runKnown and runUnknown, and the state.
  pub record Progress : Type 0 where
    pub deleted : ℕ
    pub transferred : ℕ
    pub state : Cleanup

  unfoldable pub count_deleted : Bool → Progress → Progress
  count_deleted b p = record p { deleted = if b then p.deleted + 1 else p.deleted }

  unfoldable pub count_error : Progress → Progress
  count_error p = record p { state = record p.state { metrics = inc_redis_errors p.state.metrics } }

  -- The body of the loop of runKnown behind LimitExists, for its answer.
  unfoldable pub after_answer : Time → Text → Option Bool → Progress → Progress
  unfolding count_deleted count_error
  after_answer now key none p = count_error p
  after_answer now key (some true) p =
      let (gone, known) = Known.delete_if_inactive key now p.state.known in
      count_deleted gone (record p { state = record p.state { known = known } })
  after_answer now key (some false) p =
      count_deleted true
        (record p { state = record p.state { known = Known.delete key p.state.known } })

  -- The body of the loop of runKnown.
  unfoldable pub clean_known : Noise → Time → KnownSnapshot → Progress → Progress
  unfolding after_answer
  clean_known noise now (key, c) p =
      let known = noise.before_known (key, c) p.state.known in
      let (exists, store) = limit_exists key p.state.store in
      after_answer now key exists
        (record p { state = record p.state { known = known; store = store } })

  unfoldable pub known_loop : Noise → Time → List KnownSnapshot → Progress → Progress
  known_loop noise now [] p = p
  known_loop noise now (e ∷ es) p = known_loop noise now es (clean_known noise now e p)

  -- runKnown
  unfoldable pub run_known : Noise → Time → Cleanup → Progress
  run_known noise now s =
      known_loop noise now (Known.snapshot s.known)
        (record { deleted = 0; transferred = 0; state = s })

  -- transfer: whether it succeeded
  unfoldable pub transfer : Text → UnknownCounter → ℤ → State → Bool × State
  transfer key c ttl store =
      if has_prefix key unknown_key_prefix
      then upsert_abuse_key (trim_prefix key unknown_key_prefix) (abuse_record c) ttl store
      else if has_prefix key unknown_ip_prefix
      then upsert_abuse_ip (trim_prefix key unknown_ip_prefix) (abuse_record c) ttl store
      else (false, store)

  -- if c.unknown.DeleteIfInactive(snap.Key, now) { deleted++ }
  unfoldable pub drop_if_inactive : Text → Time → Progress → Progress
  unfolding count_deleted
  drop_if_inactive key now p =
      let (gone, unknown) = Unknown.delete_if_inactive key now p.state.unknown in
      count_deleted gone (record p { state = record p.state { unknown = unknown } })

  -- The branch of the body that transfers the live counter, and what follows it.
  unfoldable pub transfer_live :
      Noise → Time → UnknownSnapshot → UnknownCounter → Progress → Progress
  unfolding drop_if_inactive count_error
  transfer_live noise now (key, c) live p =
      let (done, store) = transfer key live p.state.abuse_ttl p.state.store in
      let p' : Progress = record p {
        state = record p.state {
          store = store;
          unknown = noise.during_transfer (key, c) p.state.unknown;
        };
      } in
      if done
      then drop_if_inactive key now (record p' { transferred = p'.transferred + 1 })
      else drop_if_inactive key now (count_error p')

  -- The body of the loop of runUnknown.
  unfoldable pub clean_unknown : Noise → Time → Bool → UnknownSnapshot → Progress → Progress
  unfolding transfer_live drop_if_inactive
  clean_unknown noise now redis_up (key, c) p =
      let unknown = noise.before_unknown (key, c) p.state.unknown in
      let p' : Progress = record p { state = record p.state { unknown = unknown } } in
      if leb_ℤ p.state.transfer_threshold c.abuse_hits && redis_up
      then elim (Unknown.get key unknown) [
        | none ↦ p'
        | some live ↦ transfer_live noise now (key, c) live p'
      ]
      else drop_if_inactive key now p'

  unfoldable pub unknown_loop : Noise → Time → Bool → List UnknownSnapshot → Progress → Progress
  unknown_loop noise now redis_up [] p = p
  unknown_loop noise now redis_up (e ∷ es) p =
      unknown_loop noise now redis_up es (clean_unknown noise now redis_up e p)

  -- runUnknown
  unfoldable pub run_unknown : Noise → Time → Cleanup → Progress
  run_unknown noise now s =
      let unknown = noise.before_snapshot s.unknown in
      unknown_loop noise now (is_healthy s.store) (Unknown.snapshot unknown)
        (record { deleted = 0; transferred = 0; state = record s { unknown = unknown } })

  -- The gauges of the three databases at the end of Run.
  unfoldable pub set_db_gauges : Cleanup → Cleanup
  set_db_gauges s =
      let (sizes, store) = db_sizes s.store in
      record s {
        store = store;
        metrics = elim sizes [
          | none ↦ inc_redis_errors s.metrics
          | some (db1, db2, db3) ↦ record s.metrics {
            redis_db1_keys = db1;
            redis_db2_keys = db2;
            redis_db3_keys = db3;
          }
        ];
      }

  -- What Run does behind its two loops, for what they have counted.
  unfoldable pub finish_run : Time → Time → ℕ → ℕ → Cleanup → Cleanup
  unfolding set_db_gauges
  finish_run start finish deleted transferred s = set_db_gauges (record s {
    metrics = record s.metrics {
      cleanup_deleted_total = s.metrics.cleanup_deleted_total + deleted;
      cleanup_transferred_total = s.metrics.cleanup_transferred_total + transferred;
      cleanup_last_duration = sub finish start;
      counters_known_active = Known.len s.known;
      counters_unknown_active = Unknown.len s.unknown;
      memory_bytes = Known.size_bytes s.known + Unknown.size_bytes s.unknown;
    };
  })

  -- The first statements of Run
  unfoldable pub count_run : Cleanup → Cleanup
  count_run s = record s {
    metrics = record s.metrics { cleanup_runs_total = s.metrics.cleanup_runs_total + 1 };
  }

  -- Run: `finish` is the instant at which time.Since(start) reads the clock.
  unfoldable pub run : Noise → Time → Time → Cleanup → Cleanup
  unfolding count_run finish_run
  run noise start finish s =
      let p1 = run_known noise start (count_run s) in
      let p2 = run_unknown noise start p1.state in
      finish_run start finish (p1.deleted + p2.deleted) (p1.transferred + p2.transferred) p2.state
