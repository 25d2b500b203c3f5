-- ===== src/Store/Scans.antt =====
-- The scans of internal/store/redis.go: ScanLimits, ScanAbuseKeys and ScanAbuseIPs, with their cursor
-- loop on fuel. Instants are Unix seconds, and the warning of parseInt64 is left out.
pub mod Runs
use api_ratelimiter.Base.{
  ℕ, zero, suc, ◌+◌, ◌≡◌, refl, sym, ap, ◌∙◌, Bool, true, false, Option, none, some, List, [], ◌∷◌,
  ◌++◌, ℤ, pos, Text, codes, drop_text,
}
use api_ratelimiter.Base.Dict.{Dict, lookup}
use api_ratelimiter.Strconv.{parse_int}
use api_ratelimiter.Redis.{Db, limits, abuse_key, abuse_ip, Reply, value, nil, failed, Redis}
use api_ratelimiter.Store.{
  Store, observe, limit_prefix, abuse_key_prefix, abuse_ip_prefix, LimitEntry, AbuseEntry,
}

-- The commands of go-redis that the scans send beside those of `Redis`.
pub record Scanner (r : Redis) : Type 0 where
  -- SCAN cursor MATCH pattern COUNT 100: the keys, and the cursor to go on with
  pub scan : Db → ℕ → Text → r.Server → Reply (List Text × ℕ) × r.Server
  -- HGETALL key
  pub hgetall : Db → Text → r.Server → Reply (Dict Text) × r.Server
  -- TTL key
  pub ttl : Db → Text → r.Server → Reply ℤ × r.Server

-- The outcome of a scan: `unfinished` is a loop whose fuel has run out.
pub data Scanned {ℓ} (A : Type ℓ) : Type ℓ where
  unfinished : Scanned A
  scan_failed : Scanned A
  scanned : List A → Scanned A

-- What a round of the loop does: it returns an error or the entries, or goes on with a cursor.
pub data Round (A Server : Type 0) : Type 0 where
  broken : Server → Round A Server
  done : List A → Server → Round A Server
  again : ℕ → List A → Server → Round A Server

-- parseInt64
unfoldable pub parse_int64 : Text → ℤ
parse_int64 raw = elim (parse_int raw) [ none ↦ pos 0 | some v ↦ v ]

-- vals[field]
unfoldable pub field_of : Dict Text → Text → Text
field_of vals field = elim (lookup field vals) [ none ↦ [] | some v ↦ v ]

limit_entry : Text → Dict Text → LimitEntry
unfolding parse_int64 field_of
limit_entry k vals = record {
  api_key = drop_text k limit_prefix;
  limit = parse_int64 (field_of vals (codes "limit"));
  created_at = parse_int64 (field_of vals (codes "created_at"));
}

abuse_entry : Text → Text → ℤ → Dict Text → AbuseEntry
unfolding parse_int64 field_of
abuse_entry prefix k ttl vals = record {
  key = drop_text k prefix;
  first_seen = parse_int64 (field_of vals (codes "first_seen"));
  last_seen = parse_int64 (field_of vals (codes "last_seen"));
  total_requests = parse_int64 (field_of vals (codes "total_requests"));
  burst_hits = parse_int64 (field_of vals (codes "burst_hits"));
  abuse_hits = parse_int64 (field_of vals (codes "abuse_hits"));
  ttl = ttl;
}

-- ttl, _ := c.TTL(ctx, k).Result()
ttl_of : Reply ℤ → ℤ
ttl_of (value t) = t
ttl_of nil = pos 0
ttl_of failed = pos 0

module _ (r : Redis) (c : Scanner r) where
  open r use {Server}
  open c use {scan, hgetall, ttl}

  -- The body of the loop over the keys: what it appends to out.
  unfoldable pub read_limit : Text → Server → List LimitEntry × Server
  unfolding limit_entry
  read_limit k v =
      let (reply, v') = hgetall limits k v in
      (elim reply [ value vals ↦ limit_entry k vals ∷ [] | nil ↦ [] | failed ↦ [] ], v')

  unfoldable pub read_abuse : Db → Text → Text → Server → List AbuseEntry × Server
  unfolding abuse_entry ttl_of
  read_abuse db prefix k v =
      let (reply, v1) = hgetall db k v in
      let (left, v2) = ttl db k v1 in
      elim reply [
        | value vals ↦ (abuse_entry prefix k (ttl_of left) vals ∷ [], v2)
        | nil ↦ ([], v1)
        | failed ↦ ([], v1)
      ]

  module _ {A : Type 0} (read : Text → Server → List A × Server) (db : Db) (pattern : Text) where
    -- for _, k := range keys { ... }
    unfoldable pub read_keys : List Text → Server → List A × Server
    read_keys [] v = ([], v)
    read_keys (k ∷ ks) v =
        let (es, v1) = read k v in let (rest, v2) = read_keys ks v1 in (es ++ rest, v2)

    -- After the keys of a round
    unfoldable pub after_keys : List A → ℕ → List A × Server → Round A Server
    after_keys out zero (es, v) = done (out ++ es) v
    after_keys out (suc n) (es, v) = again (suc n) (out ++ es) v

    -- One round of the loop, from the reply of SCAN on
    unfoldable pub scan_round : List A → Reply (List Text × ℕ) × Server → Round A Server
    scan_round out (value (keys, next), v) = after_keys out next (read_keys keys v)
    scan_round out (nil, v) = broken v
    scan_round out (failed, v) = broken v

    -- for { ... }, from a cursor and with the entries that are in out
    unfoldable pub scan_loop : ℕ → ℕ → List A → Server → Scanned A × Server
    scan_loop zero cursor out v = (unfinished, v)
    scan_loop (suc fuel) cursor out v = elim (scan_round out (scan db cursor pattern v)) [
      | broken v' ↦ (scan_failed, v')
      | done all v' ↦ (scanned all, v')
      | again next all v' ↦ scan_loop fuel next all v'
    ]

  -- The observe call behind the loop
  unfoldable pub observed : {A : Type 0} → Text → Store r → Scanned A × Server → Scanned A × Store r
  observed op s (unfinished, v) = (unfinished, record s { server = v })
  observed op s (scan_failed, v) = (scan_failed, observe r op false (record s { server = v }))
  observed op s (scanned es, v) = (scanned es, observe r op true (record s { server = v }))

  -- The whole scan
  unfoldable pub scan_with :
      {A : Type 0}
      → (Text → Server → List A × Server)
      → Db
      → Text
      → Text
      → ℕ
      → Store r
      → Scanned A × Store r
  scan_with read db pattern op fuel s = observed op s (scan_loop read db pattern fuel 0 [] s.server)

  -- ScanLimits
  unfoldable pub scan_limits : ℕ → Store r → Scanned LimitEntry × Store r
  scan_limits = scan_with read_limit limits (limit_prefix ++ codes "*") (codes "ScanLimits")

  -- scanAbuse, ScanAbuseKeys and ScanAbuseIPs
  unfoldable pub scan_abuse : Db → Text → ℕ → Store r → Scanned AbuseEntry × Store r
  scan_abuse db prefix =
      scan_with (read_abuse db prefix) db (prefix ++ codes "*") (codes "ScanAbuse")

  unfoldable pub scan_abuse_keys : ℕ → Store r → Scanned AbuseEntry × Store r
  scan_abuse_keys = scan_abuse abuse_key abuse_key_prefix

  unfoldable pub scan_abuse_ips : ℕ → Store r → Scanned AbuseEntry × Store r
  scan_abuse_ips = scan_abuse abuse_ip abuse_ip_prefix
