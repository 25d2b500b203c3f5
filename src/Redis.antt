-- ===== src/Redis.antt =====
-- What internal/store/redis.go uses of go-redis and of the server behind it: an interface whose
-- operations are the commands that the store sends. Contexts and timeouts show as failed replies.
use api_ratelimiter.Base.{Bool, true, false, List, ℤ, Text}

pub data Db : Type 0 where
  limits abuse_key abuse_ip : Db

-- The outcome of a go-redis command: a result, redis.Nil, or any other error.
pub data Reply {ℓ} (A : Type ℓ) : Type ℓ where
  value : A → Reply A
  nil : Reply A
  failed : Reply A

-- err == nil || errors.Is(err, redis.Nil)
abbrev pub reachable {ℓ} : {A : Type ℓ} → Reply A → Bool
reachable (value a) = true
reachable nil = true
reachable failed = false

-- err == nil
abbrev pub succeeded {ℓ} : {A : Type ℓ} → Reply A → Bool
succeeded (value a) = true
succeeded nil = false
succeeded failed = false

-- The commands of go-redis that the store sends, over the state of the server and connections.
pub record Redis : Type 1 where
  pub Server : Type 0
  -- HGET key field
  pub hget : Db → Text → Text → Server → Reply Text × Server
  -- EXISTS key
  pub key_exists : Db → Text → Server → Reply ℤ × Server
  -- MULTI, HSET key fields, EXPIRE key ttl, EXEC
  pub hset_expire : Db → Text → List (Text × ℤ) → ℤ → Server → Reply (Unit {0}) × Server
  -- DBSIZE
  pub db_size : Db → Server → Reply ℤ × Server
  -- PING
  pub send_ping : Server → Reply (Unit {0}) × Server
  -- DEL keys
  pub del : Db → List Text → Server → Reply ℤ × Server
  -- FLUSHDB
  pub flush_db : Db → Server → Reply (Unit {0}) × Server
