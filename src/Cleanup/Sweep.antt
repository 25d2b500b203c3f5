-- ===== src/Cleanup/Sweep.antt =====
-- Which unknown counters a cycle of internal/cleanup/cleanup.go leaves behind.
use api_ratelimiter.Base.{
  ℕ, ◌+◌, ◌≡◌, refl, ap, Bool, false, ◌&&◌, ◌||◌, Option, none, some, List, [], ◌∷◌, leb_ℤ, Text,
  text_eq, length, arith, if◌then◌else◌,
}
use api_ratelimiter.Base.Dict.{Dict, lookup, IsMap}
use api_ratelimiter.Clock.{Time}
use api_ratelimiter.Counter.Unknown.{
  UnknownCounter, UnknownMap, UnknownSnapshot, delete_if_inactive, get, snapshot, len,
}
use api_ratelimiter.Counter.Unknown.Entries.{
  survivor, delete_if_inactive-survivor, window_s-delete_if_inactive, len-delete_if_inactive,
  delete_if_inactive-IsMap,
}
use api_ratelimiter.Cleanup.{
  CleanupStore, Cleanup, Progress, Noise, quiet, clean_unknown, unknown_loop, run_unknown,
}

delete_missing :
    (key : Text) (now : Time) (m : UnknownMap)
    → lookup key m.counters ≡ none
    → delete_if_inactive key now m ≡ (false, m)
unfolding delete_if_inactive
delete_missing key now m e = ground arith

abbrev pub has_key : Text → List UnknownSnapshot → Bool
has_key j [] = false
has_key j (e ∷ es) = text_eq e.0 j || has_key j es

pub has_key-none : (j : Text) (m : Dict UnknownCounter) → has_key j m ≡ false → lookup j m ≡ none
unfolding lookup
has_key-none j [] h = refl
has_key-none j ((k, c) ∷ m) h = ground (arith, has_key-none j m)

module _ (i : CleanupStore) where
  -- Whether the body of the loop transfers an entry of the snapshot.
  abbrev pub transfers : Bool → UnknownSnapshot → Progress i → Bool
  transfers redis_up (key, c) p = leb_ℤ p.state.transfer_threshold c.abuse_hits && redis_up

  -- The unknown map when the body reaches its DeleteIfInactive.
  unfoldable pub settled : Noise → Bool → UnknownSnapshot → Progress i → UnknownMap
  settled noise redis_up e p =
      let m = noise.before_unknown e p.state.unknown in
      if transfers redis_up e p
      then elim (get e.0 m) [ none ↦ m | some live ↦ noise.during_transfer e m ]
      else m

  pub clean_unknown-unknown :
      (noise : Noise) (now : Time) (redis_up : Bool) (e : UnknownSnapshot) (p : Progress i)
      → ((clean_unknown i noise now redis_up e p).state.unknown
          ≡ (delete_if_inactive e.0 now (settled noise redis_up e p)).1)
        × ((clean_unknown i noise now redis_up e p).deleted
            ≡ p.deleted
              + (if (delete_if_inactive e.0 now (settled noise redis_up e p)).0 then 1 else 0))
  unfolding clean_unknown settled get
  clean_unknown-unknown noise now redis_up (key, c) p =
      ground (arith, delete_missing key now (noise.before_unknown (key, c) p.state.unknown))

  settled-quiet :
      (redis_up : Bool) (e : UnknownSnapshot) (p : Progress i)
      → settled quiet redis_up e p ≡ p.state.unknown
  unfolding settled
  settled-quiet redis_up e p = ground arith

  -- In a cycle that nothing disturbs the maps are swept one key after the other.
  pub quiet_step :
      (now : Time) (redis_up : Bool) (e : UnknownSnapshot) (p : Progress i)
      → ((clean_unknown i quiet now redis_up e p).state.unknown
          ≡ (delete_if_inactive e.0 now p.state.unknown).1)
        × ((clean_unknown i quiet now redis_up e p).deleted
            ≡ p.deleted + (if (delete_if_inactive e.0 now p.state.unknown).0 then 1 else 0))
  quiet_step now redis_up e p =
      rw (settled-quiet redis_up e p) at (clean_unknown-unknown quiet now redis_up e p)

  survivor_idem :
      (now : Time) (w : ℕ) (o : Option UnknownCounter)
      → survivor now w (survivor now w o) ≡ survivor now w o
  survivor_idem now w none = refl
  survivor_idem now w (some c) = ground arith

  swept :
      (now : Time) (redis_up : Bool) (es : List UnknownSnapshot) (p : Progress i) (j : Text)
      → lookup j (unknown_loop i quiet now redis_up es p).state.unknown.counters ≡ (
          if has_key j es
          then survivor now p.state.unknown.window_s (lookup j p.state.unknown.counters)
          else lookup j p.state.unknown.counters)
  unfolding unknown_loop
  swept now redis_up [] p j = refl
  swept now redis_up (e ∷ es) p j =
      let p' = clean_unknown i quiet now redis_up e p in
      let m = p.state.unknown in
      ground (
        arith,
        swept now redis_up es p' j,
        (quiet_step now redis_up e p).0,
        window_s-delete_if_inactive e.0 now m,
        delete_if_inactive-survivor e.0 now m j,
        survivor_idem now m.window_s (lookup j m.counters),
      )

  -- After a cycle with no requests in between, whatever Redis answers and whatever is transferred: a
  -- counter of the unknown map is there, unchanged, exactly when it was there before and was not
  -- inactive at the start of the cycle.
  pub run_unknown-survivors :
      (now : Time) (s : Cleanup i) (j : Text)
      → lookup j (run_unknown i quiet now s).state.unknown.counters
        ≡ survivor now s.unknown.window_s (lookup j s.unknown.counters)
  unfolding run_unknown snapshot
  run_unknown-survivors now s j =
      let p : Progress i = record { deleted = 0; transferred = 0; state = s } in
      ground (
        arith,
        swept now (i.is_healthy s.store) s.unknown.counters p j,
        has_key-none j s.unknown.counters,
      )

  counted :
      (now : Time) (redis_up : Bool) (es : List UnknownSnapshot) (p : Progress i)
      → IsMap p.state.unknown.counters
      → length (unknown_loop i quiet now redis_up es p).state.unknown.counters
          + (unknown_loop i quiet now redis_up es p).deleted
        ≡ length p.state.unknown.counters + p.deleted
  unfolding unknown_loop
  counted now redis_up [] p u = refl
  counted now redis_up (e ∷ es) p u =
      let p' = clean_unknown i quiet now redis_up e p in
      let m = p.state.unknown in
      let (q, d) = quiet_step now redis_up e p in
      omega (
        arith,
        counted now redis_up es p' (rw q (delete_if_inactive-IsMap e.0 now m u)),
        ap (λ (n : UnknownMap). length n.counters) q,
        d,
        len-delete_if_inactive e.0 now m u,
      )

  -- In a map with no key twice the cycle reports as deleted exactly the counters by which Len falls.
  pub run_unknown-deleted :
      (now : Time) (s : Cleanup i)
      → IsMap s.unknown.counters
      → len (run_unknown i quiet now s).state.unknown + (run_unknown i quiet now s).deleted
        ≡ len s.unknown
  unfolding run_unknown snapshot len
  run_unknown-deleted now s u = omega (
    arith,
    counted now (i.is_healthy s.store) s.unknown.counters
        (record { deleted = 0; transferred = 0; state = s }) u,
  )

  -- With any requests in between, at the turn of a key: its counter is kept, as the requests have
  -- left it, exactly when it is not inactive at that moment, and every other counter is kept as the
  -- requests have left it. Requests that arrive while the record is sent to Redis are among them.
  pub clean_unknown-spares :
      (noise : Noise) (now : Time) (redis_up : Bool) (e : UnknownSnapshot) (p : Progress i)
      (j : Text)
      → let m = settled noise redis_up e p in
        lookup j (clean_unknown i noise now redis_up e p).state.unknown.counters ≡ (
          if text_eq e.0 j
          then survivor now m.window_s (lookup j m.counters)
          else lookup j m.counters)
  clean_unknown-spares noise now redis_up e p j =
      rw ((clean_unknown-unknown noise now redis_up e p).0)
        (delete_if_inactive-survivor e.0 now (settled noise redis_up e p) j)
