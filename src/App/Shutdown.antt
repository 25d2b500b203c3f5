-- ===== src/App/Shutdown.antt =====
-- The life of the process in `run` of cmd/api-ratelimiter/main.go: what the main goroutine does
-- behind the signal, and what the servers and the background loops may do in between. The HTTP
-- servers are net/http's: Shutdown ends when no request is in flight, or at its timeout.
pub mod Order
pub mod Completion
use api_ratelimiter.Base.{ℕ, zero, suc, ◌+◌, ◌≡◌, ◌≤◌, Bool, true, false}
use api_ratelimiter.Clock.{Time}
use api_ratelimiter.Redis.{Redis}
use api_ratelimiter.Cleanup.{Noise}
use api_ratelimiter.Handler.{CheckRequest}
use api_ratelimiter.App.{App, check, clean, readyz, update_redis_gauges}

-- Where the main goroutine is: in front of shuttingDown.Store, the wait for the signal included,
-- between it and the end of the check server's Shutdown, in front of the final cleanup, in front of cancel(), in wg.Wait(), and
-- behind it.
pub data Phase : Type 0 where
  serving draining cleaning cancelling waiting stopped : Phase

unfoldable pub rank : Phase → ℕ
rank serving = 0
rank draining = 1
rank cleaning = 2
rank cancelling = 3
rank waiting = 4
rank stopped = 5

module _ (r : Redis) where
  -- `in_flight` counts the requests to /check that are accepted and not answered; `loops` tells
  -- whether the loops of the cleanup and of the gauges run; `drained` is false once the Shutdown of
  -- the check server has ended by its timeout.
  pub record Process : Type 0 where
    pub app : App r
    pub phase : Phase
    pub in_flight : ℕ
    pub loops : Bool
    pub drained : Bool

  unfoldable pub launch : App r → Process
  launch a = record { app = a; phase = serving; in_flight = 0; loops = true; drained = true }

  unfoldable pub answer : Time → CheckRequest → ℕ → Process → Process
  answer now q n p = record p { app = (check r now q p.app).1; in_flight = n }

  unfoldable pub at_signal : Process → Process
  at_signal p = record p { app = record p.app { shutting_down = true }; phase = draining }

  pub data Step (p : Process) : Process → Type 0 where
    -- the check server; a connection that outlives Shutdown's timeout may still send a request
    accepts : rank p.phase ≤ 1 → Step p (record p { in_flight = p.in_flight + 1 })
    accepts_late :
        p.drained ≡ false → rank p.phase ≤ 4 → Step p (record p { in_flight = p.in_flight + 1 })
    answers :
        (now : Time) (q : CheckRequest) (n : ℕ)
        → p.in_flight ≡ suc n
        → rank p.phase ≤ 4
        → Step p (answer now q n p)
    -- the loops
    cleans :
        (noise : Noise) (begin finish : Time)
        → p.loops ≡ true
        → Step p (record p { app = clean r noise begin finish p.app })
    refreshes : p.loops ≡ true → Step p (record p { app = update_redis_gauges r p.app })
    loops_end : p.phase ≡ waiting → Step p (record p { loops = false })
    -- a probe of /readyz
    probes : rank p.phase ≤ 4 → Step p (record p { app = (readyz r p.app).1 })
    -- the main goroutine
    -- (signalled is shuttingDown.Store; shuts_down takes what net/http documents of Shutdown, that it
    -- returns without an error once no connection is active)
    signalled : p.phase ≡ serving → Step p (at_signal p)
    shuts_down : p.phase ≡ draining → p.in_flight ≡ 0 → Step p (record p { phase = cleaning })
    times_out : p.phase ≡ draining → Step p (record p { phase = cleaning; drained = false })
    final_clean :
        (noise : Noise) (begin finish : Time)
        → p.phase ≡ cleaning
        → Step p (record p { app = clean r noise begin finish p.app; phase = cancelling })
    cancels : p.phase ≡ cancelling → Step p (record p { phase = waiting })
    exits : p.phase ≡ waiting → p.loops ≡ false → Step p (record p { phase = stopped })

  pub data Reach (p : Process) : Process → Type 0 where
    here : Reach p p
    next : {q s : Process} → Reach p q → Step q s → Reach p s
