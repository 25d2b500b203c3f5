-- ===== src/Config/Flags.antt =====
-- BindFlags of internal/config/config.go. pflag is a parameter: it hands the values of the arguments
-- to the fields that BindFlags gives it. Usage texts are left out.
use api_ratelimiter.Base.{
  ◌<◌, ◌^◌, ◌≡◌, Option, none, some, List, [], ◌∷◌, ℤ, pos, negsuc, Text, codes, text_eq,
  if◌then◌else◌,
}
use api_ratelimiter.Strconv.{itoa}
use api_ratelimiter.Config.{Config}

-- A variable that is bound to a flag: the pointer to a field, by how it is read and written.
pub data Target : Type 0 where
  string_var : (Config → Text) → (Text → Config → Config) → Target
  int_var duration_var : (Config → ℤ) → (ℤ → Config → Config) → Target

pub record Flag : Type 0 where
  pub name : Text
  pub target : Target

-- BindFlags
unfoldable pub bind_flags : List Flag
bind_flags =
    record {
      name = codes "listen";
      target = string_var (λ c. c.listen) (λ v c. record c { listen = v });
    }
    ∷ record {
      name = codes "socket-mode";
      target = string_var (λ c. c.socket_mode) (λ v c. record c { socket_mode = v });
    }
    ∷ record {
      name = codes "admin-listen";
      target = string_var (λ c. c.admin_listen) (λ v c. record c { admin_listen = v });
    }
    ∷ record {
      name = codes "metrics-listen";
      target = string_var (λ c. c.metrics_listen) (λ v c. record c { metrics_listen = v });
    }
    ∷ record {
      name = codes "redis-addr";
      target = string_var (λ c. c.redis_addr) (λ v c. record c { redis_addr = v });
    }
    ∷ record {
      name = codes "redis-password";
      target = string_var (λ c. c.redis_password) (λ v c. record c { redis_password = v });
    }
    ∷ record {
      name = codes "log-level";
      target = string_var (λ c. c.log_level) (λ v c. record c { log_level = v });
    }
    ∷ record {
      name = codes "log-format";
      target = string_var (λ c. c.log_format) (λ v c. record c { log_format = v });
    }
    ∷ record {
      name = codes "global-limit";
      target = int_var (λ c. c.global_limit) (λ v c. record c { global_limit = v });
    }
    ∷ record {
      name = codes "burst";
      target = int_var (λ c. c.burst) (λ v c. record c { burst = v });
    }
    ∷ record {
      name = codes "window";
      target = string_var (λ c. c.window) (λ v c. record c { window = v });
    }
    ∷ record {
      name = codes "cleanup-interval";
      target = duration_var (λ c. c.cleanup_interval) (λ v c. record c { cleanup_interval = v });
    }
    ∷ record {
      name = codes "abuse-ttl";
      target = duration_var (λ c. c.abuse_ttl) (λ v c. record c { abuse_ttl = v });
    }
    ∷ record {
      name = codes "abuse-multiplier";
      target = int_var (λ c. c.abuse_multiplier) (λ v c. record c { abuse_multiplier = v });
    }
    ∷ record {
      name = codes "abuse-transfer-threshold";
      target =
          int_var (λ c. c.abuse_transfer_threshold)
            (λ v c. record c { abuse_transfer_threshold = v });
    }
    ∷ []

-- The flag of a name.
unfoldable pub find_flag : Text → List Flag → Option Target
find_flag name [] = none
find_flag name (f ∷ fs) = if text_eq f.name name then some f.target else find_flag name fs

-- An int64 that is not negative.
abbrev pub IsCount : ℤ → Type 0
IsCount (pos n) = n < 2 ^ 63
IsCount (negsuc n) = ⊥

-- What pflag reads and prints: the values of int and time.Duration, the latter as its String method
-- prints it, and Parse on arguments of the form --name=value, which are taken apart.
pub record Pflag : Type 0 where
  pub int_value : Text → Option ℤ
  pub duration_value : Text → Option ℤ
  pub duration_string : ℤ → Text
  pub parse : List Flag → List (Text × Text) → Config → Option Config

module _ (p : Pflag) where
  -- The field that an argument sets, if its value can be read.
  abbrev pub assign : Target → Text → Config → Option Config
  assign (string_var get set) v c = some (set v c)
  assign (int_var get set) v c = elim (p.int_value v) [ none ↦ none | some z ↦ some (set z c) ]
  assign (duration_var get set) v c = elim (p.duration_value v) [
    | none ↦ none
    | some z ↦ some (set z c)
  ]

  -- The documented behaviour of pflag: Parse takes the arguments from left to right, and an argument
  -- of a known flag sets its variable; int flags read decimals, duration flags what String prints.
  pub record IsPflag : Type 0 where
    pub int_value-itoa : (z : ℤ) → IsCount z → p.int_value (itoa z) ≡ some z
    pub duration_value-duration_string :
        (z : ℤ) → IsCount z → p.duration_value (p.duration_string z) ≡ some z
    pub parse-nil : (fs : List Flag) (c : Config) → p.parse fs [] c ≡ some c
    pub parse-cons :
        (fs : List Flag) (name v : Text) (args : List (Text × Text)) (t : Target) (c d : Config)
        → find_flag name fs ≡ some t
        → assign t v c ≡ some d
        → p.parse fs ((name, v) ∷ args) c ≡ p.parse fs args d
