-- ===== src/Store/Health.antt =====
-- The health flag of internal/store/redis.go and the lines that observe logs.
use api_ratelimiter.Base.{ℕ, ◌≡◌, refl, Bool, true, false, List, [], ◌∷◌, ℤ, Text, arith}
use api_ratelimiter.Redis.{Db, Reply, value, nil, failed, Redis, reachable}
use api_ratelimiter.Store.Scans.{
  Scanner, Scanned, unfinished, scan_failed, scanned, observed, scan_with, scan_limits, scan_abuse,
  scan_abuse_keys, scan_abuse_ips,
}
use api_ratelimiter.Store.{
  AbuseRecord, LogLine, recovered, unhealthy, limit_unparseable, Store, new_store, observe,
  run_command, limit_of_reply, lookup_limit, limit_exists, upsert_abuse, upsert_abuse_key,
  upsert_abuse_ip, db_sizes, ping, del_by_prefix, purge,
}

-- A log, the newest line first, in which "unhealthy" and "recovered" take turns, the oldest of
-- them "unhealthy", and the newest tells the health flag.
abbrev pub Alternates : Bool → List LogLine → Type 0
Alternates healthy [] = healthy ≡ true
Alternates healthy (recovered op ∷ log) = (healthy ≡ true) × Alternates false log
Alternates healthy (unhealthy op ∷ log) = (healthy ≡ false) × Alternates true log
Alternates healthy (limit_unparseable k v ∷ log) = Alternates healthy log

module _ (r : Redis) where
  abbrev pub IsTold : Store r → Type 0
  IsTold s = Alternates s.healthy s.log

  observe-IsTold : (op : Text) (ok : Bool) (s : Store r) → IsTold s → IsTold (observe r op ok s)
  unfolding observe
  observe-IsTold op ok s h = ground arith

  run_command-IsTold {ℓ} :
      {A : Type ℓ} (op : Text) (command : r.Server → Reply A × r.Server) (s : Store r)
      → IsTold s
      → IsTold (run_command r op command s).1
  unfolding run_command
  run_command-IsTold op command s h =
      observe-IsTold op (reachable (command s.server).0)
        (record s { server = (command s.server).1 }) h

  limit_of_reply-IsTold :
      (k : Text) (v : Reply Text) (s : Store r) → IsTold s → IsTold (limit_of_reply r k v s).1
  unfolding limit_of_reply
  limit_of_reply-IsTold k nil s h = h
  limit_of_reply-IsTold k failed s h = h
  limit_of_reply-IsTold k (value v) s h = ground arith

-- The calls of the store that reach Redis; a scan comes with its fuel.
pub data Op : Type 0 where
  lookup_op : Text → Op
  exists_op : Text → Op
  key_op : Text → AbuseRecord → ℤ → Op
  ip_op : Text → AbuseRecord → ℤ → Op
  sizes_op : Op
  ping_op : Op
  del_op : Db → Text → List Text → Op
  purge_op : Db → Op
  scan_limits_op : ℕ → Op
  scan_keys_op : ℕ → Op
  scan_ips_op : ℕ → Op

module _ (r : Redis) (c : Scanner r) where
  unfoldable pub run_op : Op → Store r → Store r
  run_op (lookup_op k) s = (lookup_limit r k s).1
  run_op (exists_op k) s = (limit_exists r k s).1
  run_op (key_op k a ttl) s = (upsert_abuse_key r k a ttl s).1
  run_op (ip_op k a ttl) s = (upsert_abuse_ip r k a ttl s).1
  run_op sizes_op s = (db_sizes r s).1
  run_op ping_op s = (ping r s).1
  run_op (del_op db p ids) s = (del_by_prefix r db p ids s).1
  run_op (purge_op db) s = (purge r db s).1
  run_op (scan_limits_op fuel) s = (scan_limits r c fuel s).1
  run_op (scan_keys_op fuel) s = (scan_abuse_keys r c fuel s).1
  run_op (scan_ips_op fuel) s = (scan_abuse_ips r c fuel s).1

  unfoldable pub run_ops : List Op → Store r → Store r
  run_ops [] s = s
  run_ops (o ∷ os) s = run_ops os (run_op o s)

  observed-IsTold :
      {A : Type 0} (op : Text) (s : Store r) (o : Scanned A × r.Server)
      → IsTold r s
      → IsTold r (observed r c op s o).1
  unfolding observed
  observed-IsTold op s (unfinished, v) h = h
  observed-IsTold op s (scan_failed, v) h = observe-IsTold r op false (record s { server = v }) h
  observed-IsTold op s (scanned es, v) h = observe-IsTold r op true (record s { server = v }) h

  run_op-IsTold : (o : Op) (s : Store r) → IsTold r s → IsTold r (run_op o s)
  unfolding run_op lookup_limit limit_exists upsert_abuse_key upsert_abuse_ip db_sizes ping
      del_by_prefix purge upsert_abuse scan_limits scan_abuse scan_abuse_keys scan_abuse_ips
      scan_with
  run_op-IsTold (lookup_op k) s h = limit_of_reply-IsTold r k _ _ (run_command-IsTold r _ _ s h)
  run_op-IsTold (exists_op k) s h = run_command-IsTold r _ _ s h
  run_op-IsTold (key_op k a ttl) s h = run_command-IsTold r _ _ s h
  run_op-IsTold (ip_op k a ttl) s h = run_command-IsTold r _ _ s h
  run_op-IsTold sizes_op s h = run_command-IsTold r _ _ s h
  run_op-IsTold ping_op s h = run_command-IsTold r _ _ s h
  run_op-IsTold (del_op db p []) s h = h
  run_op-IsTold (del_op db p (id ∷ ids)) s h = run_command-IsTold r _ _ s h
  run_op-IsTold (purge_op db) s h = run_command-IsTold r _ _ s h
  run_op-IsTold (scan_limits_op fuel) s h = observed-IsTold _ s _ h
  run_op-IsTold (scan_keys_op fuel) s h = observed-IsTold _ s _ h
  run_op-IsTold (scan_ips_op fuel) s h = observed-IsTold _ s _ h

  run_ops-IsTold : (os : List Op) (s : Store r) → IsTold r s → IsTold r (run_ops os s)
  unfolding run_ops
  run_ops-IsTold [] s h = h
  run_ops-IsTold (o ∷ os) s h = run_ops-IsTold os (run_op o s) (run_op-IsTold o s h)

  -- After any calls that reach Redis through a new store, the scans among them, whatever Redis
  -- answers: among the lines that the store logs, those of unhealthy and recovered take turns, starting
  -- with unhealthy, so a change of the health is logged once; and the store is healthy exactly when
  -- the newest of them is not unhealthy.
  pub health_log :
      (server : r.Server) (os : List Op)
      → Alternates (run_ops os (new_store r server)).healthy (run_ops os (new_store r server)).log
  health_log server os = run_ops-IsTold os (new_store r server) (unfold new_store in refl)
