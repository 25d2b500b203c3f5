-- ===== src/Counter.antt =====
-- internal/counter: the request counters of known keys and of unknown clients, kept in memory and
-- reset at the border of each fixed window. This file has the outcome of one request.
pub mod Inactive
pub mod Window
pub mod Known
pub mod Unknown
use api_ratelimiter.Base.{Bool, ℤ}

-- Decision (known.go)
pub record Decision : Type 0 where
  pub allowed : Bool
  pub window_count : ℤ
  pub limit : ℤ
  pub burst : ℤ
  pub in_burst : Bool
