-- ===== src/Store.antt =====
-- internal/store/redis.go: the typed reads and writes of the three Redis databases, and the health
-- flag that is derived from their outcomes. Its commands go to the parameter `Redis`.
pub mod Health
pub mod Scans
use api_ratelimiter.Base.{
  ℕ, ◌+◌, ◌-◌, ◌*◌, ◌^◌, Bool, true, false, ◌&&◌, Option, none, some, List, [], ◌∷◌, ◌++◌, map, ℤ,
  pos, negsuc, Text, codes, ltb, leb, ◌==◌, length, if◌then◌else◌,
}
use api_ratelimiter.Strconv.{parse_int}
use api_ratelimiter.Redis.{
  Db, limits, abuse_key, abuse_ip, Reply, value, nil, failed, Redis, reachable, succeeded,
}

-- AbuseRecord
pub record AbuseRecord : Type 0 where
  pub first_seen : ℤ
  pub last_seen : ℤ
  pub total_requests : ℤ
  pub burst_hits : ℤ
  pub abuse_hits : ℤ

-- The entries that the scans return, with instants as Unix seconds.
pub record LimitEntry : Type 0 where
  pub api_key : Text
  pub limit : ℤ
  pub created_at : ℤ

pub record AbuseEntry : Type 0 where
  pub key : Text
  pub first_seen : ℤ
  pub last_seen : ℤ
  pub total_requests : ℤ
  pub burst_hits : ℤ
  pub abuse_hits : ℤ
  pub ttl : ℤ

-- What the store logs.
pub data LogLine : Type 0 where
  recovered : Text → LogLine
  unhealthy : Text → LogLine
  limit_unparseable : Text → Text → LogLine

-- What LookupLimit returns: (limit, found, err), with err reduced to whether there is one.
pub record LimitReply : Type 0 where
  pub limit : ℤ
  pub found : Bool
  pub failed : Bool

abbrev pub no_limit : Bool → LimitReply
no_limit err = record { limit = pos 0; found = false; failed = err }

abbrev pub limit_prefix : Text
limit_prefix = codes "rate:limit:"

abbrev pub abuse_key_prefix : Text
abuse_key_prefix = codes "rate:abuse:key:"

abbrev pub abuse_ip_prefix : Text
abuse_ip_prefix = codes "rate:abuse:ip:"

module _ (r : Redis) where
  open r use {Server, hget, key_exists, hset_expire, db_size, send_ping, del, flush_db}

  -- The Store: the connections, the health flag and the log, the newest line first.
  pub record Store : Type 0 where
    pub server : Server
    pub healthy : Bool
    pub log : List LogLine

  -- New
  unfoldable pub new_store : Server → Store
  new_store server = record { server = server; healthy = true; log = [] }

  -- IsHealthy
  unfoldable pub is_healthy : Store → Bool
  is_healthy s = s.healthy

  -- observe, with whether the error is nil or redis.Nil
  unfoldable pub observe : Text → Bool → Store → Store
  observe op ok s =
      if ok
      then (if s.healthy then s else record s { healthy = true; log = recovered op ∷ s.log })
      else (if s.healthy then record s { healthy = false; log = unhealthy op ∷ s.log } else s)

  -- A command and the observe call behind it.
  unfoldable pub run_command {ℓ} :
      {A : Type ℓ} → Text → (Server → Reply A × Server) → Store → Reply A × Store
  run_command op command s =
      let (reply, server) = command s.server in
      (reply, observe op (reachable reply) (record s { server = server }))

  -- LookupLimit behind the HGET
  unfoldable pub limit_of_reply : Text → Reply Text → Store → LimitReply × Store
  limit_of_reply api_key nil s = (no_limit false, s)
  limit_of_reply api_key failed s = (no_limit true, s)
  limit_of_reply api_key (value v) s = elim (parse_int v) [
    | none ↦
        (no_limit true, record s { log = limit_unparseable (limit_prefix ++ api_key) v ∷ s.log })
    | some limit ↦ (record { limit = limit; found = true; failed = false }, s)
  ]

  -- LookupLimit
  unfoldable pub lookup_limit : Text → Store → LimitReply × Store
  lookup_limit api_key s =
      let (reply, s') =
        run_command (codes "LookupLimit") (hget limits (limit_prefix ++ api_key) (codes "limit"))
          s in
      limit_of_reply api_key reply s'

  unfoldable pub is_positive : ℤ → Bool
  is_positive (pos n) = ltb 0 n
  is_positive (negsuc n) = false

  -- LimitExists: whether the key exists, or `none` for an error
  unfoldable pub limit_exists : Text → Store → Option Bool × Store
  limit_exists api_key s =
      let (reply, s') =
        run_command (codes "LimitExists") (key_exists limits (limit_prefix ++ api_key)) s in
      (elim reply [ value n ↦ some (is_positive n) | nil ↦ none | failed ↦ none ], s')

  -- upsertAbuse: whether it succeeded
  unfoldable pub upsert_abuse : Db → Text → AbuseRecord → ℤ → Store → Bool × Store
  upsert_abuse db key a ttl s =
      let fields : List (Text × ℤ) =
        (codes "first_seen", a.first_seen)
        ∷ (codes "last_seen", a.last_seen)
        ∷ (codes "total_requests", a.total_requests)
        ∷ (codes "burst_hits", a.burst_hits)
        ∷ (codes "abuse_hits", a.abuse_hits)
        ∷ [] in
      let (reply, s') = run_command (codes "UpsertAbuse") (hset_expire db key fields ttl) s in
      (succeeded reply, s')

  -- UpsertAbuseKey
  unfoldable pub upsert_abuse_key : Text → AbuseRecord → ℤ → Store → Bool × Store
  upsert_abuse_key api_key = upsert_abuse abuse_key (abuse_key_prefix ++ api_key)

  -- UpsertAbuseIP
  unfoldable pub upsert_abuse_ip : Text → AbuseRecord → ℤ → Store → Bool × Store
  upsert_abuse_ip ip = upsert_abuse abuse_ip (abuse_ip_prefix ++ ip)

  -- The three DBSIZE of DBSize: a database behind a failing one is not asked.
  unfoldable pub three_sizes : Server → Reply (ℤ × ℤ × ℤ) × Server
  three_sizes v1 =
      let (db1, v2) = db_size limits v1 in
      let (db2, v3) = db_size abuse_key v2 in
      let (db3, v4) = db_size abuse_ip v3 in
      elim db1 [
        | nil ↦ (nil, v2)
        | failed ↦ (failed, v2)
        | value n1 ↦ elim db2 [
          | nil ↦ (nil, v3)
          | failed ↦ (failed, v3)
          | value n2 ↦ elim db3 [
            | nil ↦ (nil, v4)
            | failed ↦ (failed, v4)
            | value n3 ↦ (value (n1, n2, n3), v4)
          ]
        ]
      ]

  -- DBSize: the keys of each database, or `none` for an error, which the deferred observe sees.
  unfoldable pub db_sizes : Store → Option (ℤ × ℤ × ℤ) × Store
  db_sizes s =
      let (reply, s') = run_command (codes "DBSize") three_sizes s in
      (elim reply [ value n ↦ some n | nil ↦ none | failed ↦ none ], s')

  -- Ping: whether it succeeded
  unfoldable pub ping : Store → Bool × Store
  ping s = let (reply, s') = run_command (codes "Ping") send_ping s in (succeeded reply, s')

  -- delByPrefix: how many keys were deleted, or `none` for an error. With no ids there is no command.
  unfoldable pub del_by_prefix : Db → Text → List Text → Store → Option ℤ × Store
  del_by_prefix db prefix [] s = (some (pos 0), s)
  del_by_prefix db prefix (id ∷ ids) s =
      let (reply, s') = run_command (codes "Del") (del db (map (λ i. prefix ++ i) (id ∷ ids))) s in
      (elim reply [ value n ↦ some n | nil ↦ none | failed ↦ none ], s')

  -- DeleteLimits, DeleteAbuseKeys, DeleteAbuseIPs
  unfoldable pub delete_limits : List Text → Store → Option ℤ × Store
  delete_limits = del_by_prefix limits limit_prefix

  unfoldable pub delete_abuse_keys : List Text → Store → Option ℤ × Store
  delete_abuse_keys = del_by_prefix abuse_key abuse_key_prefix

  unfoldable pub delete_abuse_ips : List Text → Store → Option ℤ × Store
  delete_abuse_ips = del_by_prefix abuse_ip abuse_ip_prefix

  unfoldable pub purge : Db → Store → Bool × Store
  purge db s =
      let (reply, s') = run_command (codes "FlushDB") (flush_db db) s in (succeeded reply, s')

  -- PurgeLimits, PurgeAbuseKeys, PurgeAbuseIPs: whether it succeeded
  unfoldable pub purge_limits : Store → Bool × Store
  purge_limits = purge limits

  unfoldable pub purge_abuse_keys : Store → Bool × Store
  purge_abuse_keys = purge abuse_key

  unfoldable pub purge_abuse_ips : Store → Bool × Store
  purge_abuse_ips = purge abuse_ip
