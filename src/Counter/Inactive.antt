-- ===== src/Counter/Inactive.antt =====
-- isInactive of internal/counter/unknown.go: when a counter may be dropped.
pub mod Gap
use api_ratelimiter.Base.{ℕ, Bool, false, ◌==◌, leb_ℤ, if◌then◌else◌}
use api_ratelimiter.Clock.{Time, slot_at, sub, two_windows}

unfoldable pub is_inactive : ℕ → Time → Time → ℕ → Bool
is_inactive slot last_request now window_s =
    if slot_at window_s now == slot
    then false
    else leb_ℤ (two_windows window_s) (sub now last_request)
