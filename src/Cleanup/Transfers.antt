-- ===== src/Cleanup/Transfers.antt =====
-- What internal/cleanup/cleanup.go writes to the databases of abusive clients, and when it does not.
use api_ratelimiter.Base.{
  ◌≡◌, refl, ◌∙◌, false, some, List, [], ◌∷◌, ◌++◌, ℤ, Text, has_prefix, has_prefix-append,
  trim_prefix-append, arith, if◌then◌else◌,
}
use api_ratelimiter.Clock.{Time}
use api_ratelimiter.Counter.Unknown.{
  UnknownCounter, UnknownSnapshot, unknown_key_prefix, unknown_ip_prefix, snapshot,
}
use api_ratelimiter.Limiter.{LimitLookup, Limiter, is_empty}
use api_ratelimiter.Limiter.Calls.{Call, charged_to}
use api_ratelimiter.Cleanup.{
  CleanupStore, Cleanup, Progress, Noise, abuse_record, transfer, clean_unknown, unknown_loop,
  run_unknown,
}

module _ (i : CleanupStore) where
  transfer-key :
      (k : Text) (c : UnknownCounter) (ttl : ℤ) (st : i.State)
      → transfer i (unknown_key_prefix ++ k) c ttl st ≡ i.upsert_abuse_key k (abuse_record c) ttl st
  unfolding transfer
  transfer-key k c ttl st =
      rw (has_prefix-append unknown_key_prefix k, trim_prefix-append unknown_key_prefix k)

  not_key_prefix : (a : Text) → has_prefix (unknown_ip_prefix ++ a) unknown_key_prefix ≡ false
  unfolding has_prefix
  not_key_prefix a = refl

  transfer-ip :
      (a : Text) (c : UnknownCounter) (ttl : ℤ) (st : i.State)
      → transfer i (unknown_ip_prefix ++ a) c ttl st ≡ i.upsert_abuse_ip a (abuse_record c) ttl st
  unfolding transfer
  transfer-ip a c ttl st = rw (
    not_key_prefix a,
    has_prefix-append unknown_ip_prefix a,
    trim_prefix-append unknown_ip_prefix a,
  )

  -- The key under which Decide counts a call in the unknown map leads transfer back to the client:
  -- the record of the counter goes to the database of API keys under the call's key if it has one,
  -- and else to the database of addresses under the call's address.
  pub transfer_reaches_client :
      (l : LimitLookup) (call : Call) (s : Limiter l) (map_key : Text) (c : UnknownCounter)
      (ttl : ℤ) (st : i.State)
      → charged_to l call s ≡ some map_key
      → transfer i map_key c ttl st ≡ (
          if is_empty call.api_key
          then i.upsert_abuse_ip call.ip (abuse_record c) ttl st
          else i.upsert_abuse_key call.api_key (abuse_record c) ttl st)
  unfolding charged_to
  transfer_reaches_client l call s map_key c ttl st e =
      ground (arith, transfer-ip call.ip c ttl st, transfer-key call.api_key c ttl st)

  down_step :
      (noise : Noise) (now : Time) (e : UnknownSnapshot) (p : Progress i)
      → ((clean_unknown i noise now false e p).state.store ≡ p.state.store)
        × ((clean_unknown i noise now false e p).transferred ≡ p.transferred)
  unfolding clean_unknown
  down_step noise now (key, c) p = ground arith

  down_loop :
      (noise : Noise) (now : Time) (es : List UnknownSnapshot) (p : Progress i)
      → ((unknown_loop i noise now false es p).state.store ≡ p.state.store)
        × ((unknown_loop i noise now false es p).transferred ≡ p.transferred)
  unfolding unknown_loop
  down_loop noise now [] p = (refl, refl)
  down_loop noise now (e ∷ es) p =
      let (a, b) = down_step noise now e p in
      let (a', b') = down_loop noise now es (clean_unknown i noise now false e p) in
      (a' ∙ a, b' ∙ b)

  -- While the store is known to be unhealthy when runUnknown starts, it sends nothing to the store
  -- and reports no transfer, whatever requests arrive in between.
  pub run_unknown-unhealthy :
      (noise : Noise) (now : Time) (s : Cleanup i)
      → i.is_healthy s.store ≡ false
      → ((run_unknown i noise now s).state.store ≡ s.store)
        × ((run_unknown i noise now s).transferred ≡ 0)
  unfolding run_unknown
  run_unknown-unhealthy noise now s e = rw e (
      down_loop noise now (snapshot (noise.before_snapshot s.unknown)) (record {
        deleted = 0;
        transferred = 0;
        state = record s { unknown = noise.before_snapshot s.unknown };
      }))
