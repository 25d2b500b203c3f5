-- ===== src/Cleanup/Steps/Rank.antt =====
-- A cycle of internal/cleanup/cleanup.go ends: what bounds the steps that it has left.
use api_ratelimiter.Base.{ℕ, ◌+◌, ◌*◌, ◌≤◌, List, [], ◌∷◌, length, Bool, arith}
use api_ratelimiter.Clock.{Time}
use api_ratelimiter.Counter.Unknown
use api_ratelimiter.Counter.Unknown.{UnknownSnapshot}
use api_ratelimiter.Cleanup.{CleanupStore, Cleanup}
use api_ratelimiter.Cleanup.Steps.{
  Cycle, Stage, Task, idle, busy, asking, answered, scanning, turning, sending, dropping,
  start_turn, work,
}

-- The most steps that are left when the unknown map has at most n counters at its snapshot.
unfoldable pub stage_rank : ℕ → Stage → ℕ
stage_rank n (asking es) = length es * 2 + (n * 3 + 3)
stage_rank n (answered key exists es) = length es * 2 + (n * 3 + 4)
stage_rank n (scanning up) = n * 3 + 2
stage_rank n (turning up es) = length es * 3 + 1
stage_rank n (sending up key live es) = length es * 3 + 3
stage_rank n (dropping up key es) = length es * 3 + 2

unfoldable pub rank : ℕ → Task → ℕ
rank n idle = 0
rank n (busy c) = stage_rank n c.stage

module _ (i : CleanupStore) (n : ℕ) where
  start_turn_lowers :
      (c : Cycle) (up : Bool) (e : UnknownSnapshot) (es : List UnknownSnapshot) (s : Cleanup i)
      → rank n (start_turn i c up e es s).0 + 1 ≤ stage_rank n (turning up (e ∷ es))
  unfolding start_turn rank stage_rank
  start_turn_lowers c up (key, x) es s = ground arith

  -- Each step of a cycle lowers its rank while the unknown map has at most n counters.
  pub rank-work :
      (now : Time) (c : Cycle) (stage : Stage) (s : Cleanup i)
      → Unknown.len s.unknown ≤ n
      → rank n (work i now c stage s).0 + 1 ≤ stage_rank n stage
  unfolding work rank stage_rank Unknown.len Unknown.snapshot
  rank-work now c (asking []) s l = omega arith
  rank-work now c (asking (e ∷ es)) s l = omega arith
  rank-work now c (answered key exists es) s l = omega arith
  rank-work now c (scanning up) s l = omega (arith, l)
  rank-work now c (turning up []) s l = omega arith
  rank-work now c (turning up (e ∷ es)) s l = start_turn_lowers c up e es s
  rank-work now c (sending up key live es) s l = omega arith
  rank-work now c (dropping up key es) s l = omega arith

pub stage_rank_positive : (n : ℕ) (stage : Stage) → 1 ≤ stage_rank n stage
unfolding stage_rank
stage_rank_positive n (asking es) = omega arith
stage_rank_positive n (answered key exists es) = omega arith
stage_rank_positive n (scanning up) = omega arith
stage_rank_positive n (turning up es) = omega arith
stage_rank_positive n (sending up key live es) = omega arith
stage_rank_positive n (dropping up key es) = omega arith
