-- ===== src/Cleanup/Steps.antt =====
-- A cycle of internal/cleanup/cleanup.go as the sequence of its calls: each step is one call of a map,
-- which holds the map's lock, or one call of Redis, with the counting around it. Requests are served
-- between any two steps. The gauges at the end of Run are one step.
pub mod Alone
pub mod Begins
pub mod Idle
pub mod Rank
use api_ratelimiter.Base.{
  ℕ, ◌+◌, ◌≡◌, refl, Bool, ◌&&◌, Option, none, some, List, [], ◌∷◌, Text, leb_ℤ, arith,
  if◌then◌else◌,
}
use api_ratelimiter.Clock.{Time}
use api_ratelimiter.Counter.Known
use api_ratelimiter.Counter.Unknown
use api_ratelimiter.Counter.Known.{KnownSnapshot}
use api_ratelimiter.Counter.Unknown.{
  UnknownCounter, UnknownSnapshot, UnknownMap, delete_if_inactive,
}
use api_ratelimiter.Cleanup.{
  CleanupStore, Cleanup, Progress, count_run, finish_run, after_answer, transfer, drop_if_inactive,
  count_error, count_deleted, set_db_gauges,
}

-- Where a cycle stands: in the loop of runKnown with the entries that are left, behind LimitExists,
-- behind IsHealthy; in the loop of runUnknown with the entries that are left, behind Get, behind
-- the call of transfer.
pub data Stage : Type 0 where
  asking : List KnownSnapshot → Stage
  answered : Text → Option Bool → List KnownSnapshot → Stage
  scanning : Bool → Stage
  turning : Bool → List UnknownSnapshot → Stage
  sending : Bool → Text → UnknownCounter → List UnknownSnapshot → Stage
  dropping : Bool → Text → List UnknownSnapshot → Stage

-- The local variables of a cycle: what runKnown has returned, and what the present loop has counted.
pub record Cycle : Type 0 where
  pub begin : Time
  pub known_deleted : ℕ
  pub known_transferred : ℕ
  pub deleted : ℕ
  pub transferred : ℕ
  pub stage : Stage

pub data Task : Type 0 where
  idle : Task
  busy : Cycle → Task

module _ (i : CleanupStore) where
  -- A loop goes on, or starts, at a stage with what it has counted.
  abbrev pub resume : Cycle → Stage → Progress i → Task × Cleanup i
  resume c stage p =
      (busy (record c { deleted = p.deleted; transferred = p.transferred; stage = stage }), p.state)

  abbrev pub progress : Cycle → Cleanup i → Progress i
  progress c s = record { deleted = c.deleted; transferred = c.transferred; state = s }

  -- The turn of an entry of the unknown map up to its first call of the map.
  unfoldable pub start_turn :
      Cycle → Bool → UnknownSnapshot → List UnknownSnapshot → Cleanup i → Task × Cleanup i
  unfolding drop_if_inactive
  start_turn c up (key, x) es s =
      if leb_ℤ s.transfer_threshold x.abuse_hits && up
      then elim (Unknown.get key s.unknown) [
        | none ↦ resume c (turning up es) (progress c s)
        | some live ↦ resume c (sending up key live es) (progress c s)
      ]
      else resume c (turning up es) (drop_if_inactive i key c.begin (progress c s))

  -- The transfer of a live counter, with what it counts.
  unfoldable pub sent : Text → UnknownCounter → Progress i → Progress i
  unfolding transfer count_error
  sent key live p =
      let (done, store) = transfer i key live p.state.abuse_ttl p.state.store in
      let p' : Progress i = record p { state = record p.state { store = store } } in
      if done then record p' { transferred = p'.transferred + 1 } else count_error i p'

  -- The next step of a cycle. The clock is read by the last one.
  unfoldable pub work : Time → Cycle → Stage → Cleanup i → Task × Cleanup i
  unfolding after_answer start_turn sent drop_if_inactive finish_run
  work now c (asking []) s = (
    busy (record c {
      known_deleted = c.deleted;
      known_transferred = c.transferred;
      deleted = 0;
      transferred = 0;
      stage = scanning (i.is_healthy s.store);
    }),
    s,
  )
  work now c (asking ((key, x) ∷ es)) s =
      let (exists, store) = i.limit_exists key s.store in
      resume c (answered key exists es) (progress c (record s { store = store }))
  work now c (answered key exists es) s =
      resume c (asking es) (after_answer i c.begin key exists (progress c s))
  work now c (scanning up) s = resume c (turning up (Unknown.snapshot s.unknown)) (progress c s)
  work now c (turning up []) s = (
    idle,
    finish_run i c.begin now (c.known_deleted + c.deleted) (c.known_transferred + c.transferred) s,
  )
  work now c (turning up (e ∷ es)) s = start_turn c up e es s
  work now c (sending up key live es) s =
      resume c (dropping up key es) (sent key live (progress c s))
  work now c (dropping up key es) s =
      resume c (turning up es) (drop_if_inactive i key c.begin (progress c s))

  -- With no cycle under way the next step starts one.
  unfoldable pub step : Time → Task → Cleanup i → Task × Cleanup i
  unfolding count_run work
  step now idle s = (
    busy (record {
      begin = now;
      known_deleted = 0;
      known_transferred = 0;
      deleted = 0;
      transferred = 0;
      stage = asking (Known.snapshot s.known);
    }),
    count_run i s,
  )
  step now (busy c) s = work now c c.stage s

  -- The key for which a step calls DeleteIfInactive of the unknown map, if it does.
  abbrev pub swept_key : Stage → Cleanup i → Option Text
  swept_key (asking es) s = none
  swept_key (answered key exists es) s = none
  swept_key (scanning up) s = none
  swept_key (turning up []) s = none
  swept_key (turning up (e ∷ es)) s =
      if leb_ℤ s.transfer_threshold e.1.abuse_hits && up then none else some e.0
  swept_key (sending up key live es) s = none
  swept_key (dropping up key es) s = some key

  abbrev pub sweep : Option Text → Time → UnknownMap → UnknownMap
  sweep none now m = m
  sweep (some key) now m = (delete_if_inactive key now m).1

  after_answer_unknown :
      (now : Time) (key : Text) (exists : Option Bool) (p : Progress i)
      → (after_answer i now key exists p).state.unknown ≡ p.state.unknown
  unfolding after_answer count_deleted count_error
  after_answer_unknown now key exists p = ground arith

  start_turn_unknown :
      (c : Cycle) (up : Bool) (e : UnknownSnapshot) (es : List UnknownSnapshot) (s : Cleanup i)
      → (start_turn c up e es s).1.unknown
        ≡ sweep (swept_key (turning up (e ∷ es)) s) c.begin s.unknown
  unfolding start_turn drop_if_inactive count_deleted
  start_turn_unknown c up (key, x) es s = ground arith

  sent_unknown :
      (key : Text) (live : UnknownCounter) (p : Progress i)
      → (sent key live p).state.unknown ≡ p.state.unknown
  unfolding sent count_error
  sent_unknown key live p = ground arith

  pub work_unknown :
      (now : Time) (c : Cycle) (stage : Stage) (s : Cleanup i)
      → (work now c stage s).1.unknown ≡ sweep (swept_key stage s) c.begin s.unknown
  unfolding work
  work_unknown now c (asking []) s = refl
  work_unknown now c (asking (e ∷ es)) s = refl
  work_unknown now c (answered key exists es) s =
      after_answer_unknown c.begin key exists (progress c s)
  work_unknown now c (scanning up) s = refl
  work_unknown now c (turning up []) s = unfold finish_run in (unfold set_db_gauges in refl)
  work_unknown now c (turning up (e ∷ es)) s = start_turn_unknown c up e es s
  work_unknown now c (sending up key live es) s = sent_unknown key live (progress c s)
  work_unknown now c (dropping up key es) s =
      unfold drop_if_inactive in (unfold count_deleted in refl)
