-- ===== src/App/Logging.antt =====
-- newLogger of cmd/api-ratelimiter/main.go: the level and the handler of the logger.
use api_ratelimiter.Base.{◌≡◌, refl, inl, inr, Text, codes, text_eq, if◌then◌else◌}
use api_ratelimiter.Config.{Config, log_levels}
use api_ratelimiter.Config.Checks.{OneOf}

-- slog.Level
pub data Level : Type 0 where
  level_debug level_info level_warn level_error : Level

-- The switch; its variable starts as the zero Level, which is LevelInfo.
unfoldable pub level_of : Text → Level
level_of s =
    if text_eq s (codes "debug")
    then level_debug
    else if text_eq s (codes "info")
    then level_info
    else if text_eq s (codes "warn")
    then level_warn
    else if text_eq s (codes "error")
    then level_error
    else level_info

-- slog.NewTextHandler and slog.NewJSONHandler on standard output
pub data LogHandler : Type 0 where
  text_handler json_handler : Level → LogHandler

-- newLogger
unfoldable pub new_logger : Config → LogHandler
new_logger c =
    if text_eq c.log_format (codes "text")
    then text_handler (level_of c.log_level)
    else json_handler (level_of c.log_level)

abbrev name_of : Level → Text
name_of level_debug = codes "debug"
name_of level_info = codes "info"
name_of level_warn = codes "warn"
name_of level_error = codes "error"

-- Every level that Validate accepts is the one that is set.
pub name_of-level_of : (s : Text) → OneOf s log_levels → name_of (level_of s) ≡ s
unfolding level_of text_eq
name_of-level_of s (inl e) = rw e refl
name_of-level_of s (inr (inl e)) = rw e refl
name_of-level_of s (inr (inr (inl e))) = rw e refl
name_of-level_of s (inr (inr (inr (inl e)))) = rw e refl
name_of-level_of s (inr (inr (inr (inr x)))) = elim x [ ]
