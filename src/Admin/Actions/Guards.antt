-- ===== src/Admin/Actions/Guards.antt =====
-- Which requests change the store: the POST handlers of internal/admin/admin.go.
use api_ratelimiter.Base.{
  ◌≡◌, refl, sym, ap, ◌∙◌, ◌≢◌, Bool, Bool-cases, inl, inr, Option, none, some, true, false, List,
  [], ◌∷◌, ◌++◌, map, ℤ, Text, arith, codes, text_eq, text_eq→, text_eq_refl, if◌then◌else◌,
}
use api_ratelimiter.Redis.{
  Redis, Db, limits, abuse_key, abuse_ip, Reply, value, nil, failed, reachable, succeeded,
}
use api_ratelimiter.Store.{
  Store, observe, run_command, purge, del_by_prefix, delete_limits, delete_abuse_keys,
  delete_abuse_ips, purge_limits, purge_abuse_keys, purge_abuse_ips,
}
use api_ratelimiter.Admin.Actions.{
  PostForm, Request, ActionResponse, post_form, deleted, purged, post_form_value, check_csrf,
  with_form, guarded, see_other, bad_gateway, confirm_page, method_not_allowed, csrf_invalid,
  delete_keys, handle_delete, purge_all, handle_purge, Action, handle_action, limits_delete,
  limits_purge, abuse_keys_delete, abuse_keys_purge, abuse_ips_delete, abuse_ips_purge,
}

-- A POST whose form parses and carries the token of the process.
pub record IsGenuine (token : Text) (r : Request) (form : PostForm) : Type 0 where
  pub is_post : r.method ≡ codes "POST"
  pub is_form : r.form ≡ some form
  pub is_token : post_form_value (codes "csrf_token") form ≡ token

module _ {S : Type 0} (token : Text) (act : PostForm → S → ActionResponse × S) where
  with_form-act :
      (form : PostForm) (s : S)
      → post_form_value (codes "csrf_token") form ≡ token
      → with_form token act (some form) s ≡ act form s
  unfolding with_form check_csrf
  with_form-act form s h =
      ap (λ b. if b then act form s else (csrf_invalid, s))
        (ap (text_eq (post_form_value (codes "csrf_token") form)) (sym h)
          ∙ text_eq_refl (post_form_value (codes "csrf_token") form))

  guarded-act :
      (r : Request) (form : PostForm) (s : S)
      → IsGenuine token r form
      → guarded token act r s ≡ act form s
  unfolding guarded
  guarded-act r form s g =
      ap (λ b. if b then with_form token act r.form s else (method_not_allowed, s))
        (ap (text_eq r.method) (sym g.is_post) ∙ text_eq_refl r.method)
      ∙ ap (λ o. with_form token act o s) g.is_form
      ∙ with_form-act form s g.is_token

  with_form_keeps :
      (o : Option PostForm) (s : S)
      → ((form : PostForm) → o ≡ some form → post_form_value (codes "csrf_token") form ≢ token)
      → (with_form token act o s).1 ≡ s
  unfolding with_form check_csrf
  with_form_keeps none s n = refl
  with_form_keeps (some form) s n =
      elim (Bool-cases (text_eq (post_form_value (codes "csrf_token") form) token)) [
        | inl e ↦
            absurd (n form refl (text_eq→ (post_form_value (codes "csrf_token") form) token e))
        | inr e ↦ ap (λ b. (if b then act form s else (csrf_invalid, s)).1) e
      ]

  guarded_keeps :
      (r : Request) (s : S)
      → ((form : PostForm) → ¬ IsGenuine token r form)
      → (guarded token act r s).1 ≡ s
  unfolding guarded
  guarded_keeps r s n = elim (Bool-cases (text_eq r.method (codes "POST"))) [
    | inl e ↦
        ap (λ b. (if b then with_form token act r.form s else (method_not_allowed, s)).1) e
        ∙ with_form_keeps r.form s (λ form h k.
          n form
            (record { is_post = text_eq→ r.method (codes "POST") e; is_form = h; is_token = k }))
    | inr e ↦ ap (λ b. (if b then with_form token act r.form s else (method_not_allowed, s)).1) e
  ]

-- What each action is about: whether it deletes keys (or else purges), the number of the database, the
-- prefix of its keys and its page.
pub record Subject : Type 0 where
  pub deletes : Bool
  pub db : Db
  pub prefix : Text
  pub page : Text

abbrev limits_subject : Bool → Subject
limits_subject d = record {
  deletes = d;
  db = limits;
  prefix = codes "rate:limit:";
  page = codes "/limits";
}

abbrev keys_subject : Bool → Subject
keys_subject d = record {
  deletes = d;
  db = abuse_key;
  prefix = codes "rate:abuse:key:";
  page = codes "/abuse/keys";
}

abbrev ips_subject : Bool → Subject
ips_subject d = record {
  deletes = d;
  db = abuse_ip;
  prefix = codes "rate:abuse:ip:";
  page = codes "/abuse/ips";
}

abbrev pub subject : Action → Subject
subject limits_delete = limits_subject true
subject limits_purge = limits_subject false
subject abuse_keys_delete = keys_subject true
subject abuse_keys_purge = keys_subject false
subject abuse_ips_delete = ips_subject true
subject abuse_ips_purge = ips_subject false

module _ (r : Redis) where
  -- The response of a command, and the server behind it.
  unfoldable answered : {A : Type 0} → Text → Reply A × r.Server → ActionResponse × r.Server
  answered page (reply, v) = (if succeeded reply then see_other page else bad_gateway, v)

  unfoldable deletion : Subject → List Text → r.Server → ActionResponse × r.Server
  unfolding answered
  deletion j [] v = (see_other j.page, v)
  deletion j (k ∷ ks) v = answered j.page (r.del j.db (map (λ i. j.prefix ++ i) (k ∷ ks)) v)

  unfoldable purging : Subject → Bool → r.Server → ActionResponse × r.Server
  unfolding answered
  purging j true v = answered j.page (r.flush_db j.db v)
  purging j false v = (confirm_page (j.page ++ codes "/purge") j.page, v)

  -- The response to a genuine request for a subject, and what becomes of the Redis server: one DEL of
  -- the prefixed keys, one FLUSHDB, or no command.
  unfoldable pub effect : Subject → PostForm → r.Server → ActionResponse × r.Server
  unfolding deletion purging
  effect j form v =
      if j.deletes
      then deletion j (post_form (codes "keys") form) v
      else purging j (text_eq (post_form_value (codes "confirm") form) (codes "yes")) v

  abbrev pub at_server : ActionResponse × Store r → ActionResponse × r.Server
  at_server (answer, s) = (answer, s.server)

module _ (r : Redis) (token : Text) where
  -- A request that is not a POST, whose form does not parse, or that does not carry the token of the
  -- process, leaves the store as it is, whatever the action.
  pub handle_action_keeps :
      (a : Action) (q : Request) (s : Store r)
      → ((form : PostForm) → ¬ IsGenuine token q form)
      → (handle_action r token a q s).1 ≡ s
  unfolding handle_action handle_delete handle_purge
  handle_action_keeps limits_delete q s n = guarded_keeps token _ q s n
  handle_action_keeps limits_purge q s n = guarded_keeps token _ q s n
  handle_action_keeps abuse_keys_delete q s n = guarded_keeps token _ q s n
  handle_action_keeps abuse_keys_purge q s n = guarded_keeps token _ q s n
  handle_action_keeps abuse_ips_delete q s n = guarded_keeps token _ q s n
  handle_action_keeps abuse_ips_purge q s n = guarded_keeps token _ q s n

  observe_server : (op : Text) (ok : Bool) (s : Store r) → (observe r op ok s).server ≡ s.server
  unfolding observe
  observe_server op ok s = ground arith

  -- The answer that is made of a reply, with the observe call behind it.
  deleted-answered :
      (page op : Text) (o : Reply ℤ × r.Server) (s : Store r)
      → at_server r (
          deleted token page (
            elim o.0 [ value n ↦ some n | nil ↦ none | failed ↦ none ],
            observe r op (reachable o.0) (record s { server = o.1 }),
          ))
        ≡ answered r page o
  unfolding deleted answered
  deleted-answered page op (value n, v) s =
      ap (λ x. (see_other page, x)) (observe_server op true (record s { server = v }))
  deleted-answered page op (nil, v) s =
      ap (λ x. (bad_gateway, x)) (observe_server op true (record s { server = v }))
  deleted-answered page op (failed, v) s =
      ap (λ x. (bad_gateway, x)) (observe_server op false (record s { server = v }))

  delete_keys-deletion :
      (j : Subject) (keys : List Text) (s : Store r)
      → at_server r (delete_keys token j.page (del_by_prefix r j.db j.prefix) keys s)
        ≡ deletion r j keys s.server
  unfolding delete_keys del_by_prefix deletion run_command
  delete_keys-deletion j [] s = refl
  delete_keys-deletion j (k ∷ ks) s =
      deleted-answered j.page (codes "Del")
        (r.del j.db (map (λ i. j.prefix ++ i) (k ∷ ks)) s.server) s

  purge_all-purging :
      (j : Subject) (form : PostForm) (s : Store r)
      → at_server r (purge_all token j.page (j.page ++ codes "/purge") (purge r j.db) form s)
        ≡ purging r j (text_eq (post_form_value (codes "confirm") form) (codes "yes")) s.server
  unfolding purge_all purged purge run_command purging answered
  purge_all-purging j form s =
      elim (Bool-cases (text_eq (post_form_value (codes "confirm") form) (codes "yes"))) [
        | inl e ↦ rw e (
            ap
              (λ x. (
                if succeeded (r.flush_db j.db s.server).0 then see_other j.page else bad_gateway,
                x,
              ))
              (observe_server (codes "FlushDB") (reachable (r.flush_db j.db s.server).0)
                (record s { server = (r.flush_db j.db s.server).1 })))
        | inr e ↦ rw e refl
      ]

  handle_delete-deletion :
      (j : Subject) (q : Request) (form : PostForm) (s : Store r)
      → IsGenuine token q form
      → at_server r (handle_delete token j.page (del_by_prefix r j.db j.prefix) q s)
        ≡ deletion r j (post_form (codes "keys") form) s.server
  unfolding handle_delete
  handle_delete-deletion j q form s g =
      ap (at_server r) (
        guarded-act token
          (λ f.
            delete_keys token j.page (del_by_prefix r j.db j.prefix) (post_form (codes "keys") f))
          q form s g)
      ∙ delete_keys-deletion j (post_form (codes "keys") form) s

  handle_purge-purging :
      (j : Subject) (q : Request) (form : PostForm) (s : Store r)
      → IsGenuine token q form
      → at_server r (handle_purge token j.page (j.page ++ codes "/purge") (purge r j.db) q s)
        ≡ purging r j (text_eq (post_form_value (codes "confirm") form) (codes "yes")) s.server
  unfolding handle_purge
  handle_purge-purging j q form s g =
      ap (at_server r) (
        guarded-act token (purge_all token j.page (j.page ++ codes "/purge") (purge r j.db)) q form
          s g)
      ∙ purge_all-purging j form s

  -- A genuine request for an action has the effect of its subject, whatever Redis answers. A deletion
  -- sends one DEL to the database of limits, of abusive keys or of abusive addresses, with the keys of
  -- the form behind "rate:limit:", "rate:abuse:key:" or "rate:abuse:ip:", and no command without
  -- keys; a purge sends one FLUSHDB to that database if the form says yes, and else answers with the
  -- page that asks. A command that succeeds, and a deletion without keys, lead back to the table of
  -- that database, any other command gives 502.
  pub handle_action-effect :
      (a : Action) (q : Request) (form : PostForm) (s : Store r)
      → IsGenuine token q form
      → at_server r (handle_action r token a q s) ≡ effect r (subject a) form s.server
  unfolding handle_action effect delete_limits delete_abuse_keys delete_abuse_ips purge_limits
      purge_abuse_keys purge_abuse_ips
  handle_action-effect limits_delete q form s g =
      handle_delete-deletion (limits_subject true) q form s g
  handle_action-effect limits_purge q form s g =
      handle_purge-purging (limits_subject false) q form s g
  handle_action-effect abuse_keys_delete q form s g =
      handle_delete-deletion (keys_subject true) q form s g
  handle_action-effect abuse_keys_purge q form s g =
      handle_purge-purging (keys_subject false) q form s g
  handle_action-effect abuse_ips_delete q form s g =
      handle_delete-deletion (ips_subject true) q form s g
  handle_action-effect abuse_ips_purge q form s g =
      handle_purge-purging (ips_subject false) q form s g
