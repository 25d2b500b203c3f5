-- ===== src/Admin/Actions.antt =====
-- The POST handlers of internal/admin/admin.go: handleDelete, handlePurge and the six handlers that
-- Routes gives them to. A handler takes the store and returns it with its response. The texts of
-- the responses and the lines that are logged are left out.
pub mod Guards
use api_ratelimiter.Base.{
  Bool, true, false, not, Option, none, some, List, [], ◌∷◌, ℤ, Text, codes, text_eq, if◌then◌else◌,
}
use api_ratelimiter.Base.Dict.{Dict, lookup}
use api_ratelimiter.Redis.{Redis}
use api_ratelimiter.Store.{
  Store, delete_limits, delete_abuse_keys, delete_abuse_ips, purge_limits, purge_abuse_keys,
  purge_abuse_ips,
}

-- r.PostForm after ParseForm
abbrev pub PostForm : Type 0
PostForm = Dict (List Text)

-- What the handlers read of a request; `form` is `none` where ParseForm fails.
pub record Request : Type 0 where
  pub method : Text
  pub form : Option PostForm

-- The responses, by status: 405, 400, 403, 303 with its target, 502, and 200 with the page that asks
-- for a confirmation.
pub data ActionResponse : Type 0 where
  method_not_allowed bad_form csrf_invalid : ActionResponse
  see_other : Text → ActionResponse
  bad_gateway : ActionResponse
  confirm_page : Text → Text → ActionResponse

-- r.PostForm[name]
unfoldable pub post_form : Text → PostForm → List Text
post_form name form = elim (lookup name form) [ none ↦ [] | some vs ↦ vs ]

first_value : List Text → Text
first_value [] = []
first_value (v ∷ vs) = v

-- r.PostFormValue(name), for a form that is parsed
unfoldable pub post_form_value : Text → PostForm → Text
unfolding post_form first_value
post_form_value name form = first_value (post_form name form)

-- checkCSRF: subtle.ConstantTimeCompare is 1 for equal texts.
unfoldable pub check_csrf : Text → PostForm → Bool
check_csrf token form = text_eq (post_form_value (codes "csrf_token") form) token

module _ {S : Type 0} (token : Text) where
  -- The guards that handleDelete and handlePurge share, in front of `act`: ParseForm and checkCSRF
  unfoldable pub with_form :
      (PostForm → S → ActionResponse × S) → Option PostForm → S → ActionResponse × S
  with_form act none s = (bad_form, s)
  with_form act (some form) s = if check_csrf token form then act form s else (csrf_invalid, s)

  -- and in front of them the method
  unfoldable pub guarded : (PostForm → S → ActionResponse × S) → Request → S → ActionResponse × S
  guarded act r s =
      let answer = with_form act r.form s in
      if text_eq r.method (codes "POST") then answer else (method_not_allowed, s)

  -- After the call of a deleteFn
  unfoldable pub deleted : Text → Option ℤ × S → ActionResponse × S
  deleted redirect_to (none, s) = (bad_gateway, s)
  deleted redirect_to (some n, s) = (see_other redirect_to, s)

  unfoldable pub delete_keys :
      Text → (List Text → S → Option ℤ × S) → List Text → S → ActionResponse × S
  delete_keys redirect_to fn [] s = (see_other redirect_to, s)
  delete_keys redirect_to fn (k ∷ keys) s = deleted redirect_to (fn (k ∷ keys) s)

  unfoldable pub handle_delete :
      Text → (List Text → S → Option ℤ × S) → Request → S → ActionResponse × S
  handle_delete redirect_to fn =
      guarded (λ form. delete_keys redirect_to fn (post_form (codes "keys") form))

  -- After the call of a purgeFn
  unfoldable pub purged : Text → Bool × S → ActionResponse × S
  purged redirect_to (ok, s) = (if ok then see_other redirect_to else bad_gateway, s)

  unfoldable pub purge_all : Text → Text → (S → Bool × S) → PostForm → S → ActionResponse × S
  purge_all redirect_to action fn form s =
      if text_eq (post_form_value (codes "confirm") form) (codes "yes")
      then purged redirect_to (fn s)
      else (confirm_page action redirect_to, s)

  unfoldable pub handle_purge : Text → Text → (S → Bool × S) → Request → S → ActionResponse × S
  handle_purge redirect_to action fn = guarded (purge_all redirect_to action fn)

-- The paths of Routes that change the store.
pub data Action : Type 0 where
  limits_delete limits_purge abuse_keys_delete abuse_keys_purge abuse_ips_delete abuse_ips_purge :
      Action

module _ (r : Redis) (token : Text) where
  -- handleLimitsDelete, handleLimitsPurge, handleAbuseKeysDelete, handleAbuseKeysPurge,
  -- handleAbuseIPsDelete, handleAbuseIPsPurge
  unfoldable pub handle_action : Action → Request → Store r → ActionResponse × Store r
  handle_action limits_delete = handle_delete token (codes "/limits") (delete_limits r)
  handle_action limits_purge =
      handle_purge token (codes "/limits") (codes "/limits/purge") (purge_limits r)
  handle_action abuse_keys_delete = handle_delete token (codes "/abuse/keys") (delete_abuse_keys r)
  handle_action abuse_keys_purge =
      handle_purge token (codes "/abuse/keys") (codes "/abuse/keys/purge") (purge_abuse_keys r)
  handle_action abuse_ips_delete = handle_delete token (codes "/abuse/ips") (delete_abuse_ips r)
  handle_action abuse_ips_purge =
      handle_purge token (codes "/abuse/ips") (codes "/abuse/ips/purge") (purge_abuse_ips r)
