-- ===== src/Counter/Inactive/Gap.antt =====
-- The windows that WindowSeconds of internal/config/config.go gives, and the gap after which a
-- counter counts as inactive.
use api_ratelimiter.Base.{
  ℕ, ◌+◌, ◌*◌, ◌^◌, ◌≡◌, refl, ◌⊎◌, inl, inr, leb, pos, sub_ℕ, ◌*64◌, ◌*ℤ◌, i64, arith,
}
use api_ratelimiter.Clock.{Time, slot_at, sub, difference, two_windows}
use api_ratelimiter.Counter.Inactive.{is_inactive}

-- --window second or minute
abbrev pub IsWindow : ℕ → Type 0
IsWindow w = (w ≡ 1) ⊎ (w ≡ 60)

-- The wall clock and the monotonic clock went on by the same time between the two instants.
abbrev pub Agree : Time → Time → Type 0
Agree last now = difference now last ≡ sub_ℕ now.wall last.wall

pub two_windows_lem : (w : ℕ) → IsWindow w → two_windows w ≡ pos (2 * w * 10 ^ 9)
unfolding two_windows ◌*64◌ ◌*ℤ◌ i64
two_windows_lem w (inl e) = rw e
two_windows_lem w (inr e) = rw e

pub is_inactive-iff_gap :
    (w : ℕ) (last now : Time)
    → IsWindow w
    → Agree last now
    → is_inactive (slot_at w last) last now w ≡ leb (last.wall + 2 * w * 10 ^ 9) now.wall
unfolding is_inactive slot_at sub
is_inactive-iff_gap w last now (inl e) a = rw (e, two_windows_lem 1 (inl refl), a) (ground arith)
is_inactive-iff_gap w last now (inr e) a = rw (e, two_windows_lem 60 (inr refl), a) (ground arith)
