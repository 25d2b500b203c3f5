-- ===== src/App/Steps/Ends.antt =====
-- A cleanup cycle of the program of cmd/api-ratelimiter/main.go ends, whatever requests come between
-- its steps.
use api_ratelimiter.Base.{ℕ, suc, ◌+◌, ◌≤◌, ◌≡◌, ◌⊎◌, inl, inr, refl, List, [], ◌∷◌, ◌++◌, arith}
use api_ratelimiter.Config.{Config}
use api_ratelimiter.Redis.{Redis}
use api_ratelimiter.Counter.Unknown.{len}
use api_ratelimiter.Cleanup.{Cleanup}
use api_ratelimiter.Cleanup.Steps.{Task, idle, busy, step}
use api_ratelimiter.Cleanup.Steps.Rank.{rank, rank-work, stage_rank_positive}
use api_ratelimiter.Clock.{Time}
use api_ratelimiter.App.{cleanup_of_store, cleanup_of}
use api_ratelimiter.App.Steps.{Event, asked, stepped, handle, running, app_after}

-- The steps of the cleanup in a part of a history.
unfoldable pub steps_in : List Event → ℕ
steps_in [] = 0
steps_in (asked now q ∷ m) = steps_in m
steps_in (stepped now ∷ m) = suc (steps_in m)

module _ (r : Redis) (c : Config) (server : r.Server) where
  -- From a history on, through a newer part of it: the unknown map has at most n counters; at some
  -- point no cycle is under way.
  abbrev pub StaysBelow : ℕ → List Event → List Event → Type 0
  StaysBelow n [] h = Unit
  StaysBelow n (e ∷ m) h = (len (app_after r c server (m ++ h)).unknown ≤ n) × StaysBelow n m h

  abbrev pub RestsWithin : List Event → List Event → Type 0
  RestsWithin [] h = (running r c server h).task ≡ idle
  RestsWithin (e ∷ m) h = ((running r c server (e ∷ m ++ h)).task ≡ idle) ⊎ RestsWithin m h

  task_rank : (n : ℕ) (task : Task) → (task ≡ idle) ⊎ (1 ≤ rank n task)
  unfolding rank
  task_rank n idle = inl refl
  task_rank n (busy k) = inr (stage_rank_positive n k.stage)

  step_lowers :
      (n : ℕ) (now : Time) (task : Task) (s : Cleanup (cleanup_of_store r))
      → len s.unknown ≤ n
      → 1 ≤ rank n task
      → rank n (step (cleanup_of_store r) now task s).0 + 1 ≤ rank n task
  unfolding rank step
  step_lowers n now idle s l k = absurd (omega (arith, k))
  step_lowers n now (busy k) s l p = rank-work (cleanup_of_store r) n now k k.stage s l

  rests_or_lowers :
      (n : ℕ) (m h : List Event)
      → StaysBelow n m h
      → RestsWithin m h
        ⊎ ((rank n (running r c server (m ++ h)).task + steps_in m
              ≤ rank n (running r c server h).task)
            × (1 ≤ rank n (running r c server (m ++ h)).task))
  unfolding running handle steps_in
  rests_or_lowers n [] h l = elim (task_rank n (running r c server h).task) [
    | inl e ↦ inl e
    | inr p ↦ inr (omega arith, p)
  ]
  rests_or_lowers n (asked now q ∷ m) h l = elim (rests_or_lowers n m h l.1) [
    | inl e ↦ inl (inr e)
    | inr p ↦ inr p
  ]
  rests_or_lowers n (stepped now ∷ m) h l =
      let x = running r c server (m ++ h) in
      elim (rests_or_lowers n m h l.1) [
        | inl e ↦ inl (inr e)
        | inr p ↦ elim (task_rank n (step (cleanup_of_store r) now x.task (cleanup_of r x.app)).0) [
          | inl e ↦ inl (inl e)
          | inr q ↦
              inr (omega (arith, p.0, step_lowers n now x.task (cleanup_of r x.app) l.0 p.1), q)
        ]
      ]

  -- From any point of a history on, with requests of every kind between the steps of the cleanup and
  -- whatever Redis answers, while the unknown map has at most n counters: as many steps as the cycle
  -- under way has left by its rank (two for each entry of the known map, three for each of the n, and
  -- four, at most) bring the program to a point where no cycle is under way.
  pub cycle_ends :
      (n : ℕ) (m h : List Event)
      → StaysBelow n m h
      → rank n (running r c server h).task ≤ steps_in m
      → RestsWithin m h
  cycle_ends n m h l k = elim (rests_or_lowers n m h l) [
    | inl e ↦ e
    | inr p ↦ absurd (omega (arith, p.0, p.1, k))
  ]
