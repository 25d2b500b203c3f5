-- ===== src/Tests/Pages.antt =====
-- The theorems of the Admin modules at concrete inputs.
use mathlib.Core.List.{Permᴰ}
use api_ratelimiter.Base.{
  ◌≡◌, ◌≤◌, ◌*◌, ◌∙◌, ap, length, contains, text_lt, refl, ◌≢◌, Option, none, some, List, [], ◌∷◌,
  pos, Text, codes, text_eq, arith, if◌then◌else◌,
}
use api_ratelimiter.Base.Dict.{lookup}
use api_ratelimiter.Counter.Known
use api_ratelimiter.Counter.Known.{KnownCounter}
use api_ratelimiter.Counter.Unknown.{unknown_key_prefix}
use api_ratelimiter.Store.{new_store, LimitEntry, AbuseEntry}
use api_ratelimiter.Admin.Top.{before, top_known, top_known-perm, entries_of}
use api_ratelimiter.Admin.Sort.{sort_by, insert_by}
use api_ratelimiter.Admin.Paging.{pages_upto}
use api_ratelimiter.Admin.Pages.{
  rows_shown, handle_limits, handle_abuse, sorted_limits, sorted_abuse, panicked, limits_rows,
  abuse_rows,
}
use api_ratelimiter.Admin.Pages.Slices.{
  pages_upto-handle_limits, handle_page_safe, handle_page_wraps,
}
use api_ratelimiter.Admin.Actions.{
  post_form, post_form_value, PostForm, Request, handle_action, limits_delete, limits_purge,
}
use api_ratelimiter.Admin.Actions.Guards.{
  IsGenuine, effect, subject, at_server, handle_action_keeps, handle_action-effect,
}
use api_ratelimiter.Url.{cut, has_byte, query, query_get}
use api_ratelimiter.Admin.Links.{topsort_url, page_param, topsort_url_read}
use api_ratelimiter.Tests.{at_second, quiet_redis, old_known, old_unknown}

-- "b" has been refused more often than the other keys.
abbrev some_counter : Text → KnownCounter
some_counter k = record {
  first_request = at_second 7;
  last_request = at_second 8;
  total = pos 9;
  window_count = pos 1;
  slot = 8;
  burst_hits = pos 2;
  violation_hits = if text_eq k (codes "b") then pos 3 else pos 1;
}

top_known-perm_example :
    top_known (codes "violations") (record {
      counters = entries_of (codes "a" ∷ codes "b" ∷ codes "c" ∷ []) some_counter;
      window_s = 1;
    })
    ≡ top_known (codes "violations") (record {
      counters = entries_of (codes "b" ∷ codes "a" ∷ codes "c" ∷ []) some_counter;
      window_s = 1;
    })
top_known-perm_example =
    top_known-perm (codes "violations") some_counter (codes "a" ∷ codes "b" ∷ codes "c" ∷ [])
      (codes "b" ∷ codes "a" ∷ codes "c" ∷ []) 1 (Permᴰ.swap refl refl)

abbrev some_limits : List LimitEntry
some_limits =
    record { api_key = codes "key-c"; limit = pos 3; created_at = pos 1 }
    ∷ record { api_key = codes "other"; limit = pos 4; created_at = pos 2 }
    ∷ record { api_key = codes "key-a"; limit = pos 5; created_at = pos 3 }
    ∷ []

abbrev some_abuse : List AbuseEntry
some_abuse =
    record {
      key = codes "key-c";
      first_seen = pos 1;
      last_seen = pos 5;
      total_requests = pos 60;
      burst_hits = pos 3;
      abuse_hits = pos 2;
      ttl = pos 100;
    }
    ∷ record {
      key = codes "key-a";
      first_seen = pos 1;
      last_seen = pos 9;
      total_requests = pos 70;
      burst_hits = pos 4;
      abuse_hits = pos 2;
      ttl = pos 100;
    }
    ∷ []

limits_fit : length (sorted_limits (codes "key") old_known some_limits) ≤ 2 * 25
unfolding sorted_limits sort_by insert_by limits_rows text_eq text_lt contains Known.get lookup
limits_fit = omega arith

abuse_fits : length (sorted_abuse [] some_abuse) ≤ 1 * 25
unfolding sorted_abuse sort_by insert_by abuse_rows text_eq before
abuse_fits = omega arith

pages_upto-handle_limits_example :
    pages_upto
      (λ page.
        rows_shown (handle_limits (codes "key") page (codes "total") (some some_limits) old_known))
      2
    ≡ sorted_limits (codes "key") old_known some_limits
pages_upto-handle_limits_example =
    pages_upto-handle_limits (codes "key") (codes "total") some_limits old_known 2 (omega arith)
      limits_fit

handle_page_safe_example :
    (handle_limits [] (pos 2) [] (some some_limits) old_known ≢ panicked)
    × (handle_abuse unknown_key_prefix [] (pos 2) [] (some some_abuse) old_unknown ≢ panicked)
handle_page_safe_example =
    handle_page_safe unknown_key_prefix [] [] (some some_limits) (some some_abuse) old_known
      old_unknown (pos 2) (omega arith)

handle_page_wraps_example :
    (handle_limits [] (pos 368934881474191034) [] (some some_limits) old_known ≡ panicked)
    × (handle_abuse unknown_key_prefix [] (pos 368934881474191034) [] (some some_abuse) old_unknown
        ≡ panicked)
handle_page_wraps_example =
    handle_page_wraps unknown_key_prefix [] [] some_limits some_abuse old_known old_unknown

abbrev form_of : Text → PostForm
form_of token =
    (codes "csrf_token", token ∷ [])
    ∷ (codes "confirm", codes "yes" ∷ [])
    ∷ (codes "keys", codes "a" ∷ codes "b" ∷ [])
    ∷ []

abbrev post_of : PostForm → Request
post_of form = record { method = codes "POST"; form = some form }

token_of : Option PostForm → Text
token_of none = []
token_of (some form) = post_form_value (codes "csrf_token") form

not-IsGenuine : (form : PostForm) → ¬ IsGenuine (codes "t0") (post_of (form_of (codes "t1"))) form
unfolding token_of post_form_value post_form lookup text_eq
not-IsGenuine form g =
    ground (arith, ap (text_eq (codes "t0")) (ap token_of g.is_form ∙ g.is_token))

handle_action_keeps_example :
    (handle_action quiet_redis
      (codes "t0")
      limits_purge
      (post_of (form_of (codes "t1")))
      (new_store quiet_redis 0)).1
    ≡ new_store quiet_redis 0
handle_action_keeps_example =
    handle_action_keeps quiet_redis (codes "t0") limits_purge (post_of (form_of (codes "t1")))
      (new_store quiet_redis 0) not-IsGenuine

genuine : IsGenuine (codes "t0") (post_of (form_of (codes "t0"))) (form_of (codes "t0"))
unfolding post_form_value post_form lookup text_eq
genuine = record { is_post = refl; is_form = refl; is_token = refl }

handle_action-effect_example :
    at_server quiet_redis (
      handle_action quiet_redis
        (codes "t0")
        limits_delete
        (post_of (form_of (codes "t0")))
        (new_store quiet_redis 0))
    ≡ effect quiet_redis (subject limits_delete) (form_of (codes "t0")) 0
unfolding new_store
handle_action-effect_example =
    handle_action-effect quiet_redis (codes "t0") limits_delete (post_of (form_of (codes "t0")))
      (form_of (codes "t0")) (new_store quiet_redis 0) genuine

topsort_url_read_example :
    let d =
      query (cut b'?' (topsort_url (codes "/limits") (codes "burst") (codes "a b") (pos 12))).1 in
    (query_get (codes "topsort") d ≡ codes "burst")
    × (query_get (codes "q") d ≡ codes "a b")
    × (page_param d ≡ pos 12)
unfolding has_byte
topsort_url_read_example =
    topsort_url_read (codes "/limits") (codes "burst") (codes "a b") 12 refl (ground arith)
      (ground arith) (omega arith) (omega arith)
