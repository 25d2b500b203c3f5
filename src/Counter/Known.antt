-- ===== src/Counter/Known.antt =====
-- internal/counter/known.go: the counters of keys that have a limit of their own. A method that
-- changes the map returns the new map; the instant of `m.now()` is an argument. Each method holds
-- the lock of the map from its first read to its last write, so each is one step.
pub mod Windows
pub mod Limits
pub mod Memory
pub mod Idle
pub mod Entries
pub mod Accounting
pub mod Hits
use api_ratelimiter.Base.{
  ℕ, ◌+◌, ◌*◌, Bool, true, false, Option, none, some, List, [], ◌∷◌, ℤ, pos, ◌+64◌, ltb_ℤ, Text,
  length, ◌==◌, if◌then◌else◌,
}
use api_ratelimiter.Base.Dict.{Dict, lookup, insert, erase}
use api_ratelimiter.Clock.{Time, slot_at}
use api_ratelimiter.Counter.{Decision}
use api_ratelimiter.Counter.Inactive.{is_inactive}

pub record KnownCounter : Type 0 where
  pub first_request : Time
  pub last_request : Time
  pub total : ℤ
  pub window_count : ℤ
  pub slot : ℕ
  pub burst_hits : ℤ
  pub violation_hits : ℤ

-- The fields of a KnownMap that its methods use; `now` is passed to them.
pub record KnownMap : Type 0 where
  pub counters : Dict KnownCounter
  pub window_s : ℕ

-- NewKnownMap
unfoldable pub new_known_map : ℕ → KnownMap
new_known_map window_seconds = record { counters = []; window_s = window_seconds }

-- The counter that a first request creates; the fields that the source leaves out are zero.
new_counter : Time → ℕ → KnownCounter
new_counter now current_slot = record {
  first_request = now;
  last_request = now;
  total = pos 0;
  window_count = pos 0;
  slot = current_slot;
  burst_hits = pos 0;
  violation_hits = pos 0;
}

-- c, ok := m.counters[key]; if !ok { ... }
find_counter : Time → ℕ → Option KnownCounter → KnownCounter
unfolding new_counter
find_counter now current_slot none = new_counter now current_slot
find_counter now current_slot (some c) = c

-- if currentSlot != c.Slot { ... }
roll_slot : ℕ → ℤ → KnownCounter → KnownCounter
roll_slot current_slot limit c = if current_slot == c.slot then c else record c {
  violation_hits =
      if ltb_ℤ limit c.window_count then c.violation_hits +64 pos 1 else c.violation_hits;
  slot = current_slot;
  window_count = pos 0;
}

-- c.WindowCount++; c.Total++; c.LastRequest = now
count_request : Time → KnownCounter → KnownCounter
count_request now c = record c {
  window_count = c.window_count +64 pos 1;
  total = c.total +64 pos 1;
  last_request = now;
}

-- The comparisons with the limit, and what they do to the counter.
judge : ℤ → ℤ → KnownCounter → Decision × KnownCounter
judge limit burst c =
    let d : Decision = record {
      allowed = false;
      window_count = c.window_count;
      limit = limit;
      burst = burst;
      in_burst = false;
    } in
    if ltb_ℤ (limit +64 burst) c.window_count
    then (d, c)
    else if ltb_ℤ limit c.window_count
    then (
      record d { allowed = true; in_burst = true },
      record c { burst_hits = c.burst_hits +64 pos 1 },
    )
    else (record d { allowed = true }, c)

-- The work of RecordRequest on the counter itself.
unfoldable pub serve_request : Time → ℕ → ℤ → ℤ → Option KnownCounter → Decision × KnownCounter
unfolding find_counter roll_slot count_request judge
serve_request now current_slot limit burst found =
    judge limit burst
      (count_request now (roll_slot current_slot limit (find_counter now current_slot found)))

-- RecordRequest
unfoldable pub record_request : Time → Text → ℤ → ℤ → KnownMap → Decision × KnownMap
record_request now key limit burst m =
    let (d, c) = serve_request now (slot_at m.window_s now) limit burst (lookup key m.counters) in
    (d, record m { counters = insert key c m.counters })

-- A KnownSnapshot: a key with a copy of its counter.
abbrev pub KnownSnapshot : Type 0
KnownSnapshot = Text × KnownCounter

-- Snapshot: a copy of every entry
unfoldable pub snapshot : KnownMap → List KnownSnapshot
snapshot m = m.counters

-- Get
unfoldable pub get : Text → KnownMap → Option KnownCounter
get key m = lookup key m.counters

-- Delete
unfoldable pub delete : Text → KnownMap → KnownMap
delete key m = record m { counters = erase key m.counters }

-- IsInactive
unfoldable pub counter_is_inactive : KnownMap → KnownCounter → Time → Bool
counter_is_inactive m c now = is_inactive c.slot c.last_request now m.window_s

-- DeleteIfInactive: whether a counter was deleted, and the map.
unfoldable pub delete_if_inactive : Text → Time → KnownMap → Bool × KnownMap
delete_if_inactive key now m = elim (lookup key m.counters) [
  | none ↦ (false, m)
  | some c ↦
      if is_inactive c.slot c.last_request now m.window_s
      then (true, record m { counters = erase key m.counters })
      else (false, m)
]

-- Len
unfoldable pub len : KnownMap → ℕ
len m = length m.counters

-- stringHeaderBytes + mapValuePtrBytes + mapBucketAmortized
abbrev pub entry_overhead_bytes : ℕ
entry_overhead_bytes = 16 + 8 + 17

-- unsafe.Sizeof(KnownCounter{}): two time.Time of 24 bytes and five int64
abbrev pub known_counter_struct_bytes : ℕ
known_counter_struct_bytes = 2 * 24 + 5 * 8

-- The loop of SizeBytes: `total` is below 2 ^ 63, since it counts bytes that are in memory.
size_of_entries : ℕ → ℕ → Dict KnownCounter → ℕ
size_of_entries per_entry total [] = total
size_of_entries per_entry total ((k, c) ∷ m) =
    size_of_entries per_entry (total + (length k + per_entry)) m

-- SizeBytes
unfoldable pub size_bytes : KnownMap → ℕ
unfolding size_of_entries
size_bytes m = size_of_entries (entry_overhead_bytes + known_counter_struct_bytes) 0 m.counters
