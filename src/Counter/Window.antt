-- ===== src/Counter/Window.antt =====
-- What the two maps of internal/counter promise, whatever they store: each request is judged by the
-- number of its predecessors of the same key in the same fixed window. `FixedWindow` is the
-- interface that a map fills; the theorems below it hold of every map that does.
pub mod Admission
use api_ratelimiter.Base.{
  ℕ, zero, suc, ◌+◌, ◌<◌, ◌^◌, ◌≡◌, refl, Bool, ◌&&◌, List, [], ◌∷◌, ℤ, pos, ◌+64◌, +64_pos, ltb_ℤ,
  leb_ℤ, Text, text_eq, length, ◌==◌, arith, if◌then◌else◌, Bool-cases, inl, inr,
}
use api_ratelimiter.Counter.{Decision}

-- The verdict on the n-th request of a key in a window.
unfoldable pub verdict : ℤ → ℤ → ℤ → Decision
verdict limit burst n =
    let fits = leb_ℤ n (limit +64 burst) in
    record {
      allowed = fits;
      window_count = n;
      limit = limit;
      burst = burst;
      in_burst = fits && ltb_ℤ limit n;
    }

pub record FixedWindow : Type 1 where
  pub State : Type 0
  pub Request : Type 0
  pub key : Request → Text
  pub window : Request → ℕ
  pub limit : Request → ℤ
  pub burst : Request → ℤ
  pub IsReady : State → Type 0
  pub init : State
  pub step : Request → State → Decision × State
  -- the requests of a key that a state has counted in a window
  pub tally : Text → ℕ → State → ℤ
  pub init_ready : IsReady init
  pub step_ready : (r : Request) (s : State) → IsReady s → IsReady (step r s).1
  pub tally_init : (j : Text) (t : ℕ) → tally j t init ≡ pos 0
  pub step_verdict :
      (r : Request) (s : State)
      → IsReady s
      → (step r s).0 ≡ verdict (limit r) (burst r) (tally (key r) (window r) s +64 pos 1)
  pub tally_step :
      (r : Request) (s : State) (j : Text) (t : ℕ)
      → IsReady s
      → tally j t (step r s).1 ≡ (
          if text_eq (key r) j
          then (if window r == t then tally j t s +64 pos 1 else pos 0)
          else tally j t s)

module _ (w : FixedWindow) where
  open w use {State, Request, key, window, limit, burst, init, step, tally}

  -- The state after a history of requests, the newest first.
  unfoldable pub replay : List Request → State
  replay [] = init
  replay (r ∷ h) = (step r (replay h)).1

  -- The requests of a key in a window since the key was last seen in another window.
  unfoldable pub seen : Text → ℕ → List Request → ℕ
  seen j t [] = 0
  seen j t (r ∷ h) =
      let n = seen j t h in if text_eq (key r) j then (if window r == t then suc n else 0) else n

  pub replay_ready : (h : List Request) → w.IsReady (replay h)
  unfolding replay
  replay_ready [] = w.init_ready
  replay_ready (r ∷ h) = w.step_ready r (replay h) (replay_ready h)

  pub seen-le-length : (j : Text) (t : ℕ) (h : List Request) → seen j t h < suc (length h)
  unfolding seen
  seen-le-length j t [] = omega arith
  seen-le-length j t (r ∷ h) = ground (arith, seen-le-length j t h)

  pub tally-replay :
      (j : Text) (t : ℕ) (h : List Request)
      → length h < 2 ^ 63
      → tally j t (replay h) ≡ pos (seen j t h)
  unfolding replay seen
  tally-replay j t [] b = w.tally_init j t
  tally-replay j t (r ∷ h) b = ground (
    arith,
    w.tally_step r (replay h) j t (replay_ready h),
    tally-replay j t h (omega arith),
    seen-le-length j t h,
    +64_pos (seen j t h) 1 (omega (arith, seen-le-length j t h)),
  )

  -- After any history the next request gets the verdict of its place in its window.
  pub step-replay :
      (r : Request) (h : List Request)
      → length h + 1 < 2 ^ 63
      → (step r (replay h)).0 ≡ verdict (limit r) (burst r) (pos (seen (key r) (window r) h + 1))
  step-replay r h b = rw (w.step_verdict r (replay h) (replay_ready h)) (
      rw (tally-replay (key r) (window r) h (omega arith)) (
        rw
          (+64_pos (seen (key r) (window r) h) 1
            (omega (arith, seen-le-length (key r) (window r) h)))
          refl))
