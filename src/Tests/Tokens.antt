-- ===== src/Tests/Tokens.antt =====
-- The theorems on the token of the admin pages and on the registry at small inputs.
use api_ratelimiter.Base.{
  ◌≡◌, refl, Option, none, some, List, [], ◌∷◌, codes, text_eq, arith, if◌then◌else◌,
}
use api_ratelimiter.Base.Dict.{lookup}
use api_ratelimiter.Store.{new_store}
use api_ratelimiter.Metrics.Registry.{Instrument, is_described, has_name, Registry}
use api_ratelimiter.Admin.Actions.{
  PostForm, csrf_invalid, handle_action, limits_purge, post_form, post_form_value,
}
use api_ratelimiter.Admin.Index.{hex_encode, hex_digit, new_csrf_token, foreign_token_refused}
use api_ratelimiter.Tests.{quiet_redis}

abbrev form : PostForm
form = (codes "csrf_token", codes "ff01" ∷ []) ∷ []

foreign_token_refused_example :
    handle_action quiet_redis
      (codes "0a7f")
      limits_purge
      (record { method = codes "POST"; form = some form })
      (new_store quiet_redis 0)
    ≡ (csrf_invalid, new_store quiet_redis 0)
unfolding hex_encode hex_digit new_csrf_token post_form_value post_form lookup text_eq
foreign_token_refused_example =
    foreign_token_refused quiet_redis (10 ∷ 127 ∷ []) (255 ∷ 1 ∷ []) (codes "0a7f") (codes "ff01")
      limits_purge (record { method = codes "POST"; form = some form }) form
      (new_store quiet_redis 0) (omega arith) (omega arith) (λ h. cc) refl refl refl refl refl

-- A registry that refuses bad and known names.
take_new : Instrument → List Instrument → Option (List Instrument)
take_new x xs =
    if is_described x then (if has_name x.name xs then none else some (x ∷ xs)) else none

abbrev checked : Registry
checked = record { State = List Instrument; empty = []; held = λ xs. xs; register = take_new }
