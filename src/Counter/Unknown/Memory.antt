-- ===== src/Counter/Unknown/Memory.antt =====
-- The estimate of SizeBytes of internal/counter/unknown.go.
use api_ratelimiter.Base.{
  ℕ, ◌+◌, ◌≡◌, none, some, [], ◌∷◌, ℤ, Text, text_eq, text_eq→, length, arith, if◌then◌else◌,
  Bool-cases, Option-cases, inl, inr, ap,
}
use api_ratelimiter.Base.Dict.{Dict, lookup, insert, erase, IsMap, erase_of_Fresh}
use api_ratelimiter.Clock.{Time}
use api_ratelimiter.Counter.Known.{entry_overhead_bytes}
use api_ratelimiter.Counter.Unknown.{
  UnknownCounter, UnknownMap, record_request, delete_if_inactive, unknown_counter_struct_bytes,
  size_of_entries, size_bytes,
}

module _ (p : ℕ) where
  size_of_entries_from :
      (t : ℕ) (m : Dict UnknownCounter) → size_of_entries p t m ≡ t + size_of_entries p 0 m
  unfolding size_of_entries
  size_of_entries_from t [] = omega arith
  size_of_entries_from t ((k, c) ∷ m) = omega (
    arith,
    size_of_entries_from (t + (length k + p)) m,
    size_of_entries_from (0 + (length k + p)) m,
  )

  size_of_entries-cons :
      (k : Text) (c : UnknownCounter) (m : Dict UnknownCounter)
      → size_of_entries p 0 ((k, c) ∷ m) ≡ length k + p + size_of_entries p 0 m
  unfolding size_of_entries
  size_of_entries-cons k c m = omega (arith, size_of_entries_from (0 + (length k + p)) m)

  size_of_entries-insert :
      (k : Text) (c : UnknownCounter) (m : Dict UnknownCounter)
      → size_of_entries p 0 (insert k c m) ≡ elim (lookup k m) [
        | none ↦ size_of_entries p 0 m + (length k + p)
        | some _ ↦ size_of_entries p 0 m
      ]
  unfolding insert lookup
  size_of_entries-insert k c [] = unfold size_of_entries in omega arith
  size_of_entries-insert k c ((j, d) ∷ m) = elim (Bool-cases (text_eq j k)) [
    | inl e ↦ rw e (
        omega (
          arith,
          size_of_entries-cons k c m,
          size_of_entries-cons j d m,
          ap (λ (t : Text). length t) (text_eq→ j k e),
        ))
    | inr e ↦ rw e (
        ground (
          arith,
          size_of_entries-cons j d (insert k c m),
          size_of_entries-cons j d m,
          size_of_entries-insert k c m,
        ))
  ]

  size_of_entries-erase :
      (k : Text) (c : UnknownCounter) (m : Dict UnknownCounter)
      → IsMap m
      → lookup k m ≡ some c
      → size_of_entries p 0 m ≡ size_of_entries p 0 (erase k m) + (length k + p)
  unfolding erase lookup
  size_of_entries-erase k c [] u h = ground arith
  size_of_entries-erase k c ((j, d) ∷ m) u h = elim (Bool-cases (text_eq j k)) [
    | inl e ↦
        rw (e, erase_of_Fresh k m (rw (text_eq→ j k e) at u.0))
          (omega (arith, size_of_entries-cons j d m, ap (λ (t : Text). length t) (text_eq→ j k e)))
    | inr e ↦ rw e (
        omega (
          arith,
          size_of_entries-cons j d (erase k m),
          size_of_entries-cons j d m,
          size_of_entries-erase k c m u.1 (rw e at h),
        ))
  ]

-- The bytes that the estimate counts for one entry.
abbrev pub unknown_entry_bytes : Text → ℕ
unknown_entry_bytes key = length key + (entry_overhead_bytes + unknown_counter_struct_bytes)

-- A request adds the bytes of one entry to the estimate if its key had no counter, and else leaves
-- the estimate as it was.
pub unknown_size-record_request :
    (now : Time) (key : Text) (limit burst mult : ℤ) (m : UnknownMap)
    → size_bytes (record_request now key limit burst mult m).1 ≡ elim (lookup key m.counters) [
      | none ↦ size_bytes m + unknown_entry_bytes key
      | some _ ↦ size_bytes m
    ]
unfolding size_bytes record_request
unknown_size-record_request now key limit burst mult m =
    size_of_entries-insert (entry_overhead_bytes + unknown_counter_struct_bytes) key _ m.counters

-- In a map with no key twice, a DeleteIfInactive that drops the counter of its key takes the bytes
-- of one entry from the estimate, and one that does not leaves the estimate as it was.
pub unknown_size-delete_if_inactive :
    (key : Text) (now : Time) (m : UnknownMap)
    → IsMap m.counters
    → size_bytes m
      ≡ size_bytes (delete_if_inactive key now m).1
        + (if (delete_if_inactive key now m).0 then unknown_entry_bytes key else 0)
unfolding size_bytes delete_if_inactive
unknown_size-delete_if_inactive key now m u = elim (Option-cases (lookup key m.counters)) [
  | inl e ↦ ground arith
  | inr (c, e) ↦ ground (
    arith,
    size_of_entries-erase (entry_overhead_bytes + unknown_counter_struct_bytes) key c m.counters u
        e,
  )
]
