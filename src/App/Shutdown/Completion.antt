-- ===== src/App/Shutdown/Completion.antt =====
-- That the shutdown of cmd/api-ratelimiter/main.go can end.
use api_ratelimiter.Base.{◌≡◌, ◌≢◌, refl, none, false}
use api_ratelimiter.Clock.{Time}
use api_ratelimiter.Redis.{Redis}
use api_ratelimiter.Cleanup.{quiet}
use api_ratelimiter.App.{clean}
use api_ratelimiter.App.Shutdown.{
  Phase, serving, draining, cleaning, cancelling, waiting, stopped, Process, Step, loops_end,
  times_out, final_clean, cancels, exits, Reach, here, next,
}

module _ (r : Redis) where
  abbrev Ends : Process r → Type 0
  Ends p = (q : Process r) × Reach r p q × (q.phase ≡ stopped)

  before : {p q s : Process r} → Step r p q → Reach r q s → Reach r p s
  before st here = next here st
  before st (next h t) = next (before st h) t

  later_end : {p q : Process r} → Step r p q → Ends q → Ends p
  later_end st (s, h, e) = (s, before st h, e)

  waiting-Ends : (p : Process r) → p.phase ≡ waiting → Ends p
  waiting-Ends p e = later_end (loops_end e) (_, next here (exits e refl), refl)

  cancelling-Ends : (p : Process r) → p.phase ≡ cancelling → Ends p
  cancelling-Ends p e = later_end (cancels e) (waiting-Ends (record p { phase = waiting }) refl)

  cleaning-Ends : (p : Process r) → p.phase ≡ cleaning → Ends p
  cleaning-Ends p e =
      let now : Time = record { wall = 0; mono = none } in
      later_end (final_clean quiet now now e)
        (cancelling-Ends (record p { app = clean r quiet now now p.app; phase = cancelling }) refl)

  draining-Ends : (p : Process r) → p.phase ≡ draining → Ends p
  draining-Ends p e =
      later_end (times_out e) (cleaning-Ends (record p { phase = cleaning; drained = false }) refl)

  phase-Ends : (k : Phase) (p : Process r) → p.phase ≡ k → k ≢ serving → Ends p
  phase-Ends serving p e ne = absurd (ne refl)
  phase-Ends draining p e ne = draining-Ends p e
  phase-Ends cleaning p e ne = cleaning-Ends p e
  phase-Ends cancelling p e ne = cancelling-Ends p e
  phase-Ends waiting p e ne = waiting-Ends p e
  phase-Ends stopped p e ne = (p, here, e)

  -- From every state behind the signal the process can go on until it stops, whatever requests are in
  -- flight and whether or not the loops run: no phase of the shutdown is a dead end.
  pub shutdown_completes :
      (p : Process r) → p.phase ≢ serving → (q : Process r) × Reach r p q × (q.phase ≡ stopped)
  shutdown_completes p ne = phase-Ends p.phase p refl ne
