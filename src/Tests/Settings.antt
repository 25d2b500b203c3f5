-- ===== src/Tests/Settings.antt =====
-- The theorems on the configuration.
use api_ratelimiter.Base.{◌≡◌, refl, ◌↔◌, text_eq, ◌*64◌, ◌*ℤ◌, i64}
use api_ratelimiter.Strconv.{trim_space, parse_octal}
use api_ratelimiter.Config.{ok, default_config, one_of, socket_mode_parsed, validate}
use api_ratelimiter.Config.Checks.{IsValid, Says, validate_iff}

validate-default_config : validate default_config ≡ ok tt
unfolding validate default_config one_of socket_mode_parsed trim_space parse_octal text_eq ◌*64◌
    ◌*ℤ◌ i64
validate-default_config = refl

validate_iff_example :
    ((validate default_config ≡ ok tt) ↔ IsValid default_config)
    × Says default_config (validate default_config)
validate_iff_example = validate_iff default_config
