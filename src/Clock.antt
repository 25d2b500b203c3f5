-- ===== src/Clock.antt =====
-- What the source uses of package time: instants with a wall clock and a monotonic clock reading,
-- Unix(), Sub() and the fixed window that an instant falls into (internal/counter/*.go).
use api_ratelimiter.Base.{
  ℕ, ◌/◌, ◌-◌, ◌^◌, Option, none, some, ℤ, pos, negsuc, sub_ℕ, ltb_ℤ, ◌*64◌, if◌then◌else◌,
}

-- A time.Time: nanoseconds of the wall clock since 1970, and the monotonic reading that
-- time.Now() adds.
pub record Time : Type 0 where
  pub wall : ℕ
  pub mono : Option ℕ

-- t.Unix(): whole seconds of the wall clock
unfoldable pub unix : Time → ℕ
unix t = t.wall / 10 ^ 9

-- A difference that a time.Duration (an int64 of nanoseconds) cannot hold is saturated.
unfoldable pub saturate : ℤ → ℤ
saturate d =
    if ltb_ℤ (pos (2 ^ 63 - 1)) d
    then pos (2 ^ 63 - 1)
    else if ltb_ℤ d (negsuc (2 ^ 63 - 1))
    then negsuc (2 ^ 63 - 1)
    else d

-- t - u by the monotonic readings where both have one, else by the wall clock.
unfoldable pub difference : Time → Time → ℤ
difference t u = elim t.mono [
  | none ↦ sub_ℕ t.wall u.wall
  | some a ↦ elim u.mono [ none ↦ sub_ℕ t.wall u.wall | some b ↦ sub_ℕ a b ]
]

-- t.Sub(u)
unfoldable pub sub : Time → Time → ℤ
unfolding saturate difference
sub t u = saturate (difference t u)

-- now.Unix() / windowS, for instants from 1970 on and a window that is not zero: WindowSeconds gives 1 or
-- 60
unfoldable pub slot_at : ℕ → Time → ℕ
unfolding unix
slot_at window_s t = unix t / window_s

-- 2*time.Duration(windowS)*time.Second
unfoldable pub two_windows : ℕ → ℤ
two_windows window_s = pos 2 *64 pos window_s *64 pos (10 ^ 9)
