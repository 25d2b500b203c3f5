-- ===== src/Config/Checks.antt =====
-- What Validate of internal/config/config.go accepts.
use api_ratelimiter.Base.{
  ℕ, ◌≤◌, ◌≡◌, ◌≢◌, sym, ltb, leb, ◌<◌, Option-cases, Bool-cases, inl, inr, refl, ◌⊎◌, ◌↔◌, true,
  false, List, [], ◌∷◌, pos, ◌*64◌, ◌≤ℤ◌, ◌<ℤ◌, Text, codes, text_eq, text_eq_iff, arith,
}
use api_ratelimiter.Strconv.{trim_space, parse_octal}
use api_ratelimiter.Strconv.Octal.{IsOctal, parse_octal-IsOctal, not-IsOctal}
use api_ratelimiter.Config.{
  Config, ModeError, ConfigError, bad_log_level, bad_log_format, bad_window, bad_global_limit,
  bad_burst, bad_cleanup_interval, bad_abuse_ttl, bad_abuse_multiplier,
  bad_abuse_transfer_threshold, burst_too_large, bad_socket_mode, Result, ok, err, one_of, mode_of,
  socket_mode_parsed, log_levels, log_formats, windows, validate, window_seconds, empty_mode,
  malformed_mode, mode_too_large,
}

abbrev pub OneOf : Text → List Text → Type 0
OneOf s [] = ⊥
OneOf s (t ∷ ts) = (s ≡ t) ⊎ OneOf s ts

one_of_iff : (s : Text) (ts : List Text) → (one_of s ts ≡ true) ↔ OneOf s ts
unfolding one_of
one_of_iff s [] = (λ e. cc, λ h. elim h [ ])
one_of_iff s (t ∷ ts) =
    let (f, g) = one_of_iff s ts in
    (λ e. ground (arith, text_eq_iff s t, f, e), λ h. ground (arith, text_eq_iff s t, g, h))

-- A configuration that the program runs with.
pub record IsValid (c : Config) : Type 0 where
  pub log_level :
      OneOf c.log_level (codes "debug" ∷ codes "info" ∷ codes "warn" ∷ codes "error" ∷ [])
  pub log_format : OneOf c.log_format (codes "json" ∷ codes "text" ∷ [])
  pub window : OneOf c.window (codes "second" ∷ codes "minute" ∷ [])
  pub global_limit : pos 0 <ℤ c.global_limit
  pub burst : pos 0 ≤ℤ c.burst
  pub cleanup_interval : pos 0 <ℤ c.cleanup_interval
  pub abuse_ttl : pos 0 <ℤ c.abuse_ttl
  pub abuse_multiplier : pos 0 <ℤ c.abuse_multiplier
  pub abuse_transfer_threshold : pos 0 <ℤ c.abuse_transfer_threshold
  pub burst_below_abuse : c.burst <ℤ c.global_limit *64 c.abuse_multiplier
  pub socket_mode : (v : ℕ) × IsOctal (trim_space c.socket_mode) v × (v ≤ 0o777)

mode_read :
    (s : Text) (r : Result ModeError ℕ)
    → mode_of s ≡ r
    → ((e : ModeError) → r ≢ err e)
    → (v : ℕ) × IsOctal s v × (v ≤ 0o777)
unfolding mode_of
mode_read [] r q h = absurd (h empty_mode (sym q))
mode_read (x ∷ s) r q h = elim (Option-cases (parse_octal (x ∷ s))) [
  | inl e ↦ absurd (h malformed_mode (ground (arith, q, e)))
  | inr (v, e) ↦ elim (Bool-cases (ltb 0o777 v)) [
    | inl l ↦ absurd (h mode_too_large (ground (arith, q, e, l)))
    | inr l ↦ (v, ((parse_octal-IsOctal (x ∷ s) v).0 e).0, ground (arith, l))
  ]
]

mode_written : (s : Text) (v : ℕ) → IsOctal s v → v ≤ 0o777 → mode_of s ≡ ok v
unfolding mode_of
mode_written [] v o l = absurd (not-IsOctal v o)
mode_written (x ∷ s) v o l =
    ground (arith, (parse_octal-IsOctal (x ∷ s) v).1 (o, omega (arith, l)), l)

second_ne_minute : text_eq (codes "second") (codes "minute") ≡ false
unfolding text_eq
second_ne_minute = refl

mode_of_parsed : (c : Config) → mode_of (trim_space c.socket_mode) ≡ socket_mode_parsed c
unfolding socket_mode_parsed
mode_of_parsed c = refl

validate→ : (c : Config) → validate c ≡ ok tt → IsValid c
unfolding validate
validate→ c h = record {
  log_level = (one_of_iff c.log_level log_levels).0 (ground arith);
  log_format = (one_of_iff c.log_format log_formats).0 (ground arith);
  window = (one_of_iff c.window windows).0 (ground arith);
  global_limit = ground arith;
  burst = ground arith;
  cleanup_interval = ground arith;
  abuse_ttl = ground arith;
  abuse_multiplier = ground arith;
  abuse_transfer_threshold = ground arith;
  burst_below_abuse = ground arith;
  socket_mode =
      mode_read (trim_space c.socket_mode) (socket_mode_parsed c) (mode_of_parsed c)
        (λ e p. ground arith);
}

parsed_of_octal :
    (c : Config) (v : ℕ)
    → IsOctal (trim_space c.socket_mode) v
    → v ≤ 0o777
    → socket_mode_parsed c ≡ ok v
unfolding socket_mode_parsed
parsed_of_octal c v o l = mode_written (trim_space c.socket_mode) v o l

validate← : (c : Config) → IsValid c → validate c ≡ ok tt
unfolding validate
validate← c v = ground (
  arith,
  (one_of_iff c.log_level log_levels).1 v.log_level,
  (one_of_iff c.log_format log_formats).1 v.log_format,
  (one_of_iff c.window windows).1 v.window,
  v.global_limit,
  v.burst,
  v.cleanup_interval,
  v.abuse_ttl,
  v.abuse_multiplier,
  v.abuse_transfer_threshold,
  v.burst_below_abuse,
  parsed_of_octal c v.socket_mode.0 v.socket_mode.1 v.socket_mode.2,
)

-- What is wrong with a configuration, by the error that tells it.
abbrev pub IsViolated : ConfigError → Config → Type 0
IsViolated bad_log_level c =
    ¬ OneOf c.log_level (codes "debug" ∷ codes "info" ∷ codes "warn" ∷ codes "error" ∷ [])
IsViolated bad_log_format c = ¬ OneOf c.log_format (codes "json" ∷ codes "text" ∷ [])
IsViolated bad_window c = ¬ OneOf c.window (codes "second" ∷ codes "minute" ∷ [])
IsViolated bad_global_limit c = c.global_limit ≤ℤ pos 0
IsViolated bad_burst c = c.burst <ℤ pos 0
IsViolated bad_cleanup_interval c = c.cleanup_interval ≤ℤ pos 0
IsViolated bad_abuse_ttl c = c.abuse_ttl ≤ℤ pos 0
IsViolated bad_abuse_multiplier c = c.abuse_multiplier ≤ℤ pos 0
IsViolated bad_abuse_transfer_threshold c = c.abuse_transfer_threshold ≤ℤ pos 0
IsViolated burst_too_large c = c.global_limit *64 c.abuse_multiplier ≤ℤ c.burst
IsViolated (bad_socket_mode e) c = (v : ℕ) → IsOctal (trim_space c.socket_mode) v → 0o777 < v

-- What the result of Validate says of the configuration.
abbrev pub Says : Config → Result ConfigError (Unit {0}) → Type 0
Says c (ok x) = IsValid c
Says c (err e) = IsViolated e c

violated : (c : Config) (e : ConfigError) → validate c ≡ err e → IsViolated e c
unfolding validate
violated c bad_log_level q =
    λ h. absurd (ground (arith, q, (one_of_iff c.log_level log_levels).1 h))
violated c bad_log_format q =
    λ h. absurd (ground (arith, q, (one_of_iff c.log_format log_formats).1 h))
violated c bad_window q = λ h. absurd (ground (arith, q, (one_of_iff c.window windows).1 h))
violated c bad_global_limit q = ground (arith, q)
violated c bad_burst q = ground (arith, q)
violated c bad_cleanup_interval q = ground (arith, q)
violated c bad_abuse_ttl q = ground (arith, q)
violated c bad_abuse_multiplier q = ground (arith, q)
violated c bad_abuse_transfer_threshold q = ground (arith, q)
violated c burst_too_large q = ground (arith, q)
violated c (bad_socket_mode e) q = λ v o. elim (Bool-cases (leb v 0o777)) [
  | inl l ↦ absurd (ground (arith, q, parsed_of_octal c v o (ground (arith, l))))
  | inr l ↦ ground (arith, l)
]

said : (c : Config) (r : Result ConfigError (Unit {0})) → validate c ≡ r → Says c r
said c (ok x) q = validate→ c q
said c (err e) q = violated c e q

-- Validate accepts a configuration exactly when the log level is debug, info, warn or error, the log
-- format json or text and the window second or minute; the global limit, the cleanup interval, the
-- abuse TTL, the multiplier and the transfer threshold are positive; the burst is not negative and is
-- less than the int64 product of global limit and multiplier; and the socket mode, without the spaces
-- around it, is a numeral of octal digits for at most 0777. Where it returns an error, the setting that
-- the error names breaks its rule.
pub validate_iff : (c : Config) → ((validate c ≡ ok tt) ↔ IsValid c) × Says c (validate c)
validate_iff c = ((validate→ c, validate← c), said c (validate c) refl)

-- In a configuration that Validate accepts the window is "second", and WindowSeconds gives 1, or it
-- is "minute", and WindowSeconds gives 60.
pub window_seconds_of_valid :
    (c : Config)
    → validate c ≡ ok tt
    → ((c.window ≡ codes "second") × (window_seconds c ≡ 1))
      ⊎ ((c.window ≡ codes "minute") × (window_seconds c ≡ 60))
unfolding window_seconds
window_seconds_of_valid c h =
    ground (arith, (validate→ c h).window, text_eq_iff c.window (codes "minute"), second_ne_minute)
