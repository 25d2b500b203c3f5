-- ===== src/Admin/Index.antt =====
-- handleIndex of internal/admin/admin.go, and the token of New that its forms carry. The version, the
-- uptime and the clock of the page are left out.
use api_ratelimiter.Base.{
  ℕ, ◌+◌, ◌-◌, ◌/◌, ◌%◌, ◌≡◌, ◌≢◌, ◌<◌, refl, Bool, false, All, Option, none, some, List, [], ◌∷◌,
  ℤ, Text, codes, text_eq, text_eq_refl, text_ne, ltb, arith, if◌then◌else◌,
}
use api_ratelimiter.Redis.{Redis}
use api_ratelimiter.Store.{Store, ping}
use api_ratelimiter.Config.{Config}
use api_ratelimiter.Admin.Status.{FlagRow, flag_rows}
use api_ratelimiter.Admin.Samples.{Formats, Family, MetricRow, metric_rows}
use api_ratelimiter.Admin.Actions.{
  PostForm, Request, ActionResponse, csrf_invalid, check_csrf, post_form_value, Action,
  handle_action, handle_delete, handle_purge, guarded, with_form, limits_delete, limits_purge,
  abuse_keys_delete, abuse_keys_purge, abuse_ips_delete, abuse_ips_purge,
}

-- NotFound, or the data of the page.
pub data IndexResponse : Type 0 where
  not_found : IndexResponse
  index_page : Bool → List FlagRow → List MetricRow → IndexResponse

-- handleIndex, for the path of the request and what Gather returns
unfoldable pub handle_index :
    (r : Redis) (f : Formats)
    → (ℤ → Text)
    → Config
    → Text
    → Option (List (Family f))
    → Store r
    → IndexResponse × Store r
handle_index r f duration_string c path gathered store =
    let (redis_ok, store') = ping r store in
    if text_eq path (codes "/")
    then (index_page redis_ok (flag_rows duration_string c) (metric_rows f gathered), store')
    else (not_found, store)

-- hex.EncodeToString
unfoldable pub hex_digit : ℕ → ℕ
hex_digit n = if ltb n 10 then b'0' + n else n + (b'a' - 10)

unfoldable pub hex_encode : Text → Text
hex_encode [] = []
hex_encode (b ∷ bs) = hex_digit (b / 16) ∷ hex_digit (b % 16) ∷ hex_encode bs

-- newCSRFToken, for what rand.Read has filled in: `none` where it fails
unfoldable pub new_csrf_token : Option Text → Option Text
new_csrf_token none = none
new_csrf_token (some bytes) = some (hex_encode bytes)

hex_digit-inj : (m n : ℕ) → m < 16 → n < 16 → hex_digit m ≡ hex_digit n → m ≡ n
unfolding hex_digit
hex_digit-inj m n h k e = ground arith

byte_of_nibbles : (a b : ℕ) → a / 16 ≡ b / 16 → a % 16 ≡ b % 16 → a ≡ b
byte_of_nibbles a b p q = omega arith

-- Different bytes give different tokens.
pub hex_encode-inj :
    (s t : Text) → All (λ c. c < 256) s → All (λ c. c < 256) t → hex_encode s ≡ hex_encode t → s ≡ t
unfolding hex_encode
hex_encode-inj [] [] h k e = refl
hex_encode-inj [] (b ∷ t) h k e = cc
hex_encode-inj (a ∷ s) [] h k e = cc
hex_encode-inj (a ∷ s) (b ∷ t) h k e =
    let high = hex_digit-inj (a / 16) (b / 16) (omega (arith, h.0)) (omega (arith, k.0)) (cc) in
    let low = hex_digit-inj (a % 16) (b % 16) (omega arith) (omega arith) (cc) in
    let byte = byte_of_nibbles a b high low in let rest = hex_encode-inj s t h.1 k.1 (cc) in cc

module _ (r : Redis) (token : Text) (q : Request) (form : PostForm) where
  guarded_refuses :
      {S : Type 0} (act : PostForm → S → ActionResponse × S) (s : S)
      → q.method ≡ codes "POST"
      → q.form ≡ some form
      → check_csrf token form ≡ false
      → guarded token act q s ≡ (csrf_invalid, s)
  unfolding guarded with_form
  guarded_refuses act s m e c = rw (m, text_eq_refl (codes "POST"), e) (rw c refl)

  refused :
      (a : Action) (s : Store r)
      → q.method ≡ codes "POST"
      → q.form ≡ some form
      → check_csrf token form ≡ false
      → handle_action r token a q s ≡ (csrf_invalid, s)
  unfolding handle_action handle_delete handle_purge
  refused limits_delete s m e c = guarded_refuses _ s m e c
  refused limits_purge s m e c = guarded_refuses _ s m e c
  refused abuse_keys_delete s m e c = guarded_refuses _ s m e c
  refused abuse_keys_purge s m e c = guarded_refuses _ s m e c
  refused abuse_ips_delete s m e c = guarded_refuses _ s m e c
  refused abuse_ips_purge s m e c = guarded_refuses _ s m e c

-- A POST that carries the token of another process, one whose random bytes are others than those of
-- this process, is refused by each of the six handlers that delete or purge, and the store stays.
pub foreign_token_refused :
    (r : Redis) (bytes others : Text) (token foreign : Text) (a : Action) (q : Request)
    (form : PostForm) (s : Store r)
    → All (λ c. c < 256) bytes
    → All (λ c. c < 256) others
    → bytes ≢ others
    → new_csrf_token (some bytes) ≡ some token
    → new_csrf_token (some others) ≡ some foreign
    → q.method ≡ codes "POST"
    → q.form ≡ some form
    → post_form_value (codes "csrf_token") form ≡ foreign
    → handle_action r token a q s ≡ (csrf_invalid, s)
unfolding new_csrf_token check_csrf
foreign_token_refused r bytes others token foreign a q form s b o ne t u m e v =
    refused r token q form a s m e (
      text_ne _ token (λ (p : post_form_value (codes "csrf_token") form ≡ token).
        ne (hex_encode-inj bytes others b o (cc))))
