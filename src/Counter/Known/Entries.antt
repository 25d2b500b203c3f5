-- ===== src/Counter/Known/Entries.antt =====
-- How the methods of internal/counter/known.go change the entries of the map.
use api_ratelimiter.Base.{
  ℕ, ◌≡◌, Option, none, some, ℤ, Text, text_eq, text_eq_iff, ◌+◌, length, arith, if◌then◌else◌,
  Option-cases, inl, inr,
}
use api_ratelimiter.Base.Dict.{
  lookup, lookup-insert, lookup-erase, length-erase, IsMap, insert-IsMap, erase-IsMap,
}
use api_ratelimiter.Clock.{Time, slot_at}
use api_ratelimiter.Counter.Inactive.{is_inactive}
use api_ratelimiter.Counter.Known.{
  KnownCounter, KnownMap, serve_request, record_request, delete_if_inactive,
}

module _ (now : Time) (key : Text) (limit burst : ℤ) (m : KnownMap) where
  pub lookup-record_request :
      (j : Text)
      → lookup j (record_request now key limit burst m).1.counters ≡ (
          if text_eq key j
          then some
              (serve_request now (slot_at m.window_s now) limit burst (lookup key m.counters)).1
          else lookup j m.counters)
  unfolding record_request
  lookup-record_request j = lookup-insert key j _ m.counters

  pub record_request-IsMap :
      IsMap m.counters → IsMap (record_request now key limit burst m).1.counters
  unfolding record_request
  record_request-IsMap h = insert-IsMap key _ m.counters h

module _ (key : Text) (now : Time) (m : KnownMap) where
  pub window_s-delete_if_inactive : (delete_if_inactive key now m).1.window_s ≡ m.window_s
  unfolding delete_if_inactive
  window_s-delete_if_inactive = ground arith

  -- DeleteIfInactive takes away the entry of its key, if it says so, and nothing else.
  pub lookup-delete_if_inactive :
      (j : Text)
      → lookup j (delete_if_inactive key now m).1.counters ≡ (
          if (delete_if_inactive key now m).0
          then (if text_eq key j then none else lookup j m.counters)
          else lookup j m.counters)
  unfolding delete_if_inactive
  lookup-delete_if_inactive j = ground (arith, lookup-erase key j m.counters)

  pub delete_if_inactive-IsMap : IsMap m.counters → IsMap (delete_if_inactive key now m).1.counters
  unfolding delete_if_inactive
  delete_if_inactive-IsMap h = ground (arith, erase-IsMap key m.counters h)

-- What DeleteIfInactive leaves of an entry.
abbrev pub survivor : Time → ℕ → Option KnownCounter → Option KnownCounter
survivor now w none = none
survivor now w (some c) = if is_inactive c.slot c.last_request now w then none else some c

module _ (key : Text) (now : Time) (m : KnownMap) where
  pub delete_if_inactive-survivor :
      (j : Text)
      → lookup j (delete_if_inactive key now m).1.counters ≡ (
          if text_eq key j
          then survivor now m.window_s (lookup j m.counters)
          else lookup j m.counters)
  unfolding delete_if_inactive
  delete_if_inactive-survivor j = ground (arith, lookup-erase key j m.counters, text_eq_iff key j)

  -- In a map with no key twice, Len falls by one when a counter is deleted, and else stays.
  pub len-delete_if_inactive :
      IsMap m.counters
      → length m.counters
        ≡ length (delete_if_inactive key now m).1.counters
          + (if (delete_if_inactive key now m).0 then 1 else 0)
  unfolding delete_if_inactive
  len-delete_if_inactive u = elim (Option-cases (lookup key m.counters)) [
    | inl e ↦ ground arith
    | inr (c, e) ↦ ground (arith, length-erase key c m.counters u e)
  ]
