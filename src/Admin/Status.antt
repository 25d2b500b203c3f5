-- ===== src/Admin/Status.antt =====
-- The status page of internal/admin/admin.go: handleIndex and flagRows.
use api_ratelimiter.Base.{List, [], ◌∷◌, ℤ, Text, codes, drop}
use api_ratelimiter.Strconv.{itoa}
use api_ratelimiter.Config.{Config}
use api_ratelimiter.Config.Flags.{IsCount}

abbrev pub FlagRow : Type 0
FlagRow = Text × Text

-- The password as the page shows it.
unfoldable pub masked : Text → Text
masked [] = codes "(empty)"
masked (c ∷ s) = codes "***"

-- flagRows; `duration_string` is the method String of time.Duration.
unfoldable pub flag_rows : (ℤ → Text) → Config → List FlagRow
flag_rows duration_string c =
    (codes "--listen", c.listen)
    ∷ (codes "--socket-mode", c.socket_mode)
    ∷ (codes "--admin-listen", c.admin_listen)
    ∷ (codes "--metrics-listen", c.metrics_listen)
    ∷ (codes "--redis-addr", c.redis_addr)
    ∷ (codes "--redis-password", masked c.redis_password)
    ∷ (codes "--log-level", c.log_level)
    ∷ (codes "--log-format", c.log_format)
    ∷ (codes "--global-limit", itoa c.global_limit)
    ∷ (codes "--burst", itoa c.burst)
    ∷ (codes "--window", c.window)
    ∷ (codes "--cleanup-interval", duration_string c.cleanup_interval)
    ∷ (codes "--abuse-ttl", duration_string c.abuse_ttl)
    ∷ (codes "--abuse-multiplier", itoa c.abuse_multiplier)
    ∷ (codes "--abuse-transfer-threshold", itoa c.abuse_transfer_threshold)
    ∷ []

-- A row as an argument: its name without the two dashes.
abbrev pub argument_of : FlagRow → Text × Text
argument_of (name, v) = (drop 2 name, v)

-- The numbers of a configuration are int64 that are not negative, as Validate demands.
pub record HasCounts (c : Config) : Type 0 where
  pub global_limit : IsCount c.global_limit
  pub burst : IsCount c.burst
  pub cleanup_interval : IsCount c.cleanup_interval
  pub abuse_ttl : IsCount c.abuse_ttl
  pub abuse_multiplier : IsCount c.abuse_multiplier
  pub abuse_transfer_threshold : IsCount c.abuse_transfer_threshold
