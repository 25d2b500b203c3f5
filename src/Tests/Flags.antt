-- ===== src/Tests/Flags.antt =====
-- The theorem on the flags at a small pflag.
use api_ratelimiter.Base.{Option, none, some, List, [], ◌∷◌, ℤ, Text}
use api_ratelimiter.Strconv.{itoa, atoi}
use api_ratelimiter.Config.{Config}
use api_ratelimiter.Config.Flags.{Pflag, Flag, Target, string_var, int_var, duration_var, find_flag}

value_of : Text → Option ℤ
value_of s = some (atoi s)

-- A duration is printed as its nanoseconds.
store_value : Target → Text → Config → Option Config
store_value (string_var get set) v c = some (set v c)
store_value (int_var get set) v c = elim (value_of v) [ none ↦ none | some z ↦ some (set z c) ]
store_value (duration_var get set) v c = elim (value_of v) [ none ↦ none | some z ↦ some (set z c) ]

store_found : Option Target → Text → Config → Option Config
store_found none v c = none
store_found (some t) v c = store_value t v c

and_then : Option Config → (Config → Option Config) → Option Config
and_then none k = none
and_then (some c) k = k c

parse_args : List Flag → List (Text × Text) → Config → Option Config
parse_args fs [] c = some c
parse_args fs ((name, v) ∷ args) c =
    and_then (store_found (find_flag name fs) v c) (parse_args fs args)

abbrev nanoseconds : Pflag
nanoseconds = record {
  int_value = value_of;
  duration_value = value_of;
  duration_string = itoa;
  parse = parse_args;
}
