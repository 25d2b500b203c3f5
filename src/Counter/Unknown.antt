-- ===== src/Counter/Unknown.antt =====
-- internal/counter/unknown.go: the counters of clients with no limit of
-- their own, by API key or by address. A method that
-- changes the map returns the new map; the instant of `m.now()` is an argument. Each method holds
-- the lock of the map from its first read to its last write, so each is one step.
pub mod Windows
pub mod Sweeps
pub mod View
pub mod Entries
pub mod Limits
pub mod Abuse
pub mod Accounting
pub mod Idle
pub mod Memory
use api_ratelimiter.Base.{
  ℕ, ◌+◌, ◌*◌, ◌*64◌, Bool, true, false, Option, none, some, List, [], ◌∷◌, ℤ, pos, ◌+64◌, ltb_ℤ,
  Text, codes, length, ◌==◌, if◌then◌else◌,
}
use api_ratelimiter.Base.Dict.{Dict, lookup, insert, erase}
use api_ratelimiter.Clock.{Time, slot_at}
use api_ratelimiter.Counter.{Decision}
use api_ratelimiter.Counter.Known.{entry_overhead_bytes}
use api_ratelimiter.Counter.Inactive.{is_inactive}

pub record UnknownCounter : Type 0 where
  pub first_request : Time
  pub last_request : Time
  pub total : ℤ
  pub window_count : ℤ
  pub slot : ℕ
  pub burst_hits : ℤ
  pub abuse_hits : ℤ

-- The fields of a UnknownMap that its methods use; `now` is passed to them.
pub record UnknownMap : Type 0 where
  pub counters : Dict UnknownCounter
  pub window_s : ℕ

-- NewUnknownMap
unfoldable pub new_unknown_map : ℕ → UnknownMap
new_unknown_map window_seconds = record { counters = []; window_s = window_seconds }

-- The counter that a first request creates; the fields that the source leaves out are zero.
new_counter : Time → ℕ → UnknownCounter
new_counter now current_slot = record {
  first_request = now;
  last_request = now;
  total = pos 0;
  window_count = pos 0;
  slot = current_slot;
  burst_hits = pos 0;
  abuse_hits = pos 0;
}

-- c, ok := m.counters[key]; if !ok { ... }
find_counter : Time → ℕ → Option UnknownCounter → UnknownCounter
unfolding new_counter
find_counter now current_slot none = new_counter now current_slot
find_counter now current_slot (some c) = c

-- if currentSlot != c.Slot { ... }
roll_slot : ℕ → ℤ → ℤ → UnknownCounter → UnknownCounter
roll_slot current_slot global_limit abuse_multiplier c =
    if current_slot == c.slot then c else record c {
      abuse_hits =
          if ltb_ℤ (global_limit *64 abuse_multiplier) c.window_count
          then c.abuse_hits +64 pos 1
          else c.abuse_hits;
      slot = current_slot;
      window_count = pos 0;
    }

-- c.WindowCount++; c.Total++; c.LastRequest = now
count_request : Time → UnknownCounter → UnknownCounter
count_request now c = record c {
  window_count = c.window_count +64 pos 1;
  total = c.total +64 pos 1;
  last_request = now;
}

-- The comparisons with the limit, and what they do to the counter.
judge : ℤ → ℤ → UnknownCounter → Decision × UnknownCounter
judge global_limit burst c =
    let d : Decision = record {
      allowed = false;
      window_count = c.window_count;
      limit = global_limit;
      burst = burst;
      in_burst = false;
    } in
    if ltb_ℤ (global_limit +64 burst) c.window_count
    then (d, c)
    else if ltb_ℤ global_limit c.window_count
    then (
      record d { allowed = true; in_burst = true },
      record c { burst_hits = c.burst_hits +64 pos 1 },
    )
    else (record d { allowed = true }, c)

-- The work of RecordRequest on the counter itself.
unfoldable pub serve_request :
    Time → ℕ → ℤ → ℤ → ℤ → Option UnknownCounter → Decision × UnknownCounter
unfolding find_counter roll_slot count_request judge
serve_request now current_slot global_limit burst abuse_multiplier found =
    judge global_limit burst (
      count_request now (
        roll_slot current_slot global_limit abuse_multiplier (find_counter now current_slot found)))

-- RecordRequest
unfoldable pub record_request : Time → Text → ℤ → ℤ → ℤ → UnknownMap → Decision × UnknownMap
record_request now key global_limit burst abuse_multiplier m =
    let (d, c) =
      serve_request now (slot_at m.window_s now) global_limit burst abuse_multiplier
        (lookup key m.counters) in
    (d, record m { counters = insert key c m.counters })

-- An UnknownSnapshot: a key with a copy of its counter.
abbrev pub UnknownSnapshot : Type 0
UnknownSnapshot = Text × UnknownCounter

-- Snapshot: a copy of every entry
unfoldable pub snapshot : UnknownMap → List UnknownSnapshot
snapshot m = m.counters

-- UnknownKeyPrefix and UnknownIPPrefix
abbrev pub unknown_key_prefix : Text
unknown_key_prefix = codes "key:"

abbrev pub unknown_ip_prefix : Text
unknown_ip_prefix = codes "ip:"

-- Get
unfoldable pub get : Text → UnknownMap → Option UnknownCounter
get key m = lookup key m.counters

-- Delete
unfoldable pub delete : Text → UnknownMap → UnknownMap
delete key m = record m { counters = erase key m.counters }

-- IsInactive
unfoldable pub counter_is_inactive : UnknownMap → UnknownCounter → Time → Bool
counter_is_inactive m c now = is_inactive c.slot c.last_request now m.window_s

-- DeleteIfInactive: whether a counter was deleted, and the map.
unfoldable pub delete_if_inactive : Text → Time → UnknownMap → Bool × UnknownMap
delete_if_inactive key now m = elim (lookup key m.counters) [
  | none ↦ (false, m)
  | some c ↦
      if is_inactive c.slot c.last_request now m.window_s
      then (true, record m { counters = erase key m.counters })
      else (false, m)
]

-- Len
unfoldable pub len : UnknownMap → ℕ
len m = length m.counters

-- unsafe.Sizeof(UnknownCounter{}): two time.Time of 24 bytes and five int64
abbrev pub unknown_counter_struct_bytes : ℕ
unknown_counter_struct_bytes = 2 * 24 + 5 * 8

-- The loop of SizeBytes: `total` is below 2 ^ 63, since it counts bytes that are in memory.
size_of_entries : ℕ → ℕ → Dict UnknownCounter → ℕ
size_of_entries per_entry total [] = total
size_of_entries per_entry total ((k, c) ∷ m) =
    size_of_entries per_entry (total + (length k + per_entry)) m

-- SizeBytes
unfoldable pub size_bytes : UnknownMap → ℕ
unfolding size_of_entries
size_bytes m = size_of_entries (entry_overhead_bytes + unknown_counter_struct_bytes) 0 m.counters
