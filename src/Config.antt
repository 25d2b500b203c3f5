-- ===== src/Config.antt =====
-- internal/config/config.go: the settings, their defaults and their validation. What
-- binds them to flags is in Config.Flags. An `int` is 64 bits wide; a time.Duration is an int64 of nanoseconds.
pub mod Checks
pub mod Flags
use api_ratelimiter.Base.{
  ℕ, ◌+◌, ◌-◌, ◌*◌, ◌^◌, ◌≤◌, Bool, true, false, not, ◌&&◌, ◌||◌, Option, none, some, List, [], ◌∷◌,
  ℤ, pos, ◌*64◌, leb_ℤ, ltb_ℤ, Text, codes, text_eq, ltb, leb, if◌then◌else◌,
}
use api_ratelimiter.Strconv.{trim_space, parse_octal}

pub record Config : Type 0 where
  pub listen : Text
  pub socket_mode : Text
  pub admin_listen : Text
  pub metrics_listen : Text
  pub redis_addr : Text
  pub redis_password : Text
  pub log_level : Text
  pub log_format : Text
  pub global_limit : ℤ
  pub burst : ℤ
  pub window : Text
  pub cleanup_interval : ℤ
  pub abuse_ttl : ℤ
  pub abuse_multiplier : ℤ
  pub abuse_transfer_threshold : ℤ

-- 15 * time.Minute
abbrev pub fifteen_minutes : ℤ
fifteen_minutes = pos (15 * 60 * 10 ^ 9)

-- Default
unfoldable pub default_config : Config
default_config = record {
  listen = codes "unix:/run/ratelimit.sock";
  socket_mode = codes "0666";
  admin_listen = codes "127.0.0.1:8080";
  metrics_listen = codes "127.0.0.1:9091";
  redis_addr = codes "127.0.0.1:6379";
  redis_password = codes "";
  log_level = codes "info";
  log_format = codes "json";
  global_limit = pos 100;
  burst = pos 0;
  window = codes "second";
  cleanup_interval = fifteen_minutes;
  abuse_ttl = fifteen_minutes;
  abuse_multiplier = pos 10;
  abuse_transfer_threshold = pos 3;
}

-- The errors of Validate, in the order of its checks; the last one holds that of SocketModeParsed.
pub data ModeError : Type 0 where
  empty_mode malformed_mode mode_too_large : ModeError

pub data ConfigError : Type 0 where
  bad_log_level bad_log_format bad_window bad_global_limit bad_burst bad_cleanup_interval
        bad_abuse_ttl bad_abuse_multiplier bad_abuse_transfer_threshold burst_too_large :
      ConfigError
  bad_socket_mode : ModeError → ConfigError

pub data Result {ℓ} (E A : Type ℓ) : Type ℓ where
  ok : A → Result E A
  err : E → Result E A

-- A case of a `switch` over strings.
unfoldable pub one_of : Text → List Text → Bool
one_of s [] = false
one_of s (t ∷ ts) = text_eq s t || one_of s ts

-- The tests of SocketModeParsed behind the trim.
mode_of : Text → Result ModeError ℕ
mode_of [] = err empty_mode
mode_of (c ∷ s) = elim (parse_octal (c ∷ s)) [
  | none ↦ err malformed_mode
  | some v ↦ if ltb 0o777 v then err mode_too_large else ok v
]

-- SocketModeParsed
unfoldable pub socket_mode_parsed : Config → Result ModeError ℕ
unfolding mode_of
socket_mode_parsed c = mode_of (trim_space c.socket_mode)

abbrev pub log_levels : List Text
log_levels = codes "debug" ∷ codes "info" ∷ codes "warn" ∷ codes "error" ∷ []

abbrev pub log_formats : List Text
log_formats = codes "json" ∷ codes "text" ∷ []

abbrev pub windows : List Text
windows = codes "second" ∷ codes "minute" ∷ []

-- Validate
unfoldable pub validate : Config → Result ConfigError (Unit {0})
validate c =
    if not (one_of c.log_level log_levels)
    then err bad_log_level
    else if not (one_of c.log_format log_formats)
    then err bad_log_format
    else if not (one_of c.window windows)
    then err bad_window
    else if leb_ℤ c.global_limit (pos 0)
    then err bad_global_limit
    else if ltb_ℤ c.burst (pos 0)
    then err bad_burst
    else if leb_ℤ c.cleanup_interval (pos 0)
    then err bad_cleanup_interval
    else if leb_ℤ c.abuse_ttl (pos 0)
    then err bad_abuse_ttl
    else if leb_ℤ c.abuse_multiplier (pos 0)
    then err bad_abuse_multiplier
    else if leb_ℤ c.abuse_transfer_threshold (pos 0)
    then err bad_abuse_transfer_threshold
    else if leb_ℤ (c.global_limit *64 c.abuse_multiplier) c.burst
    then err burst_too_large
    else elim (socket_mode_parsed c) [ err e ↦ err (bad_socket_mode e) | ok v ↦ ok tt ]

-- WindowSeconds
unfoldable pub window_seconds : Config → ℕ
window_seconds c = if text_eq c.window (codes "minute") then 60 else 1
