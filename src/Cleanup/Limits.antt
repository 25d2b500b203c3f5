-- ===== src/Cleanup/Limits.antt =====
-- Which known counters a cycle of internal/cleanup/cleanup.go leaves behind.
use api_ratelimiter.Base.{
  ℕ, ◌≡◌, refl, Bool, true, false, ◌||◌, Option, none, some, List, [], ◌∷◌, Text, text_eq,
  text_eq_iff, arith, if◌then◌else◌,
}
use api_ratelimiter.Base.Dict.{Dict, lookup, lookup-erase}
use api_ratelimiter.Clock.{Time}
use api_ratelimiter.Counter.Known.{KnownCounter, KnownSnapshot, delete, snapshot}
use api_ratelimiter.Counter.Known.Entries.{
  survivor, delete_if_inactive-survivor, window_s-delete_if_inactive,
}
use api_ratelimiter.Cleanup.{
  CleanupStore, Cleanup, Progress, quiet, clean_known, after_answer, known_loop, run_known,
}

-- What becomes of a counter, given the answer about its limit: `none` for an error.
abbrev pub kept : Time → ℕ → Option Bool → Option KnownCounter → Option KnownCounter
kept now w none o = o
kept now w (some true) o = survivor now w o
kept now w (some false) o = none

kept_idem :
    (now : Time) (w : ℕ) (a : Option Bool) (o : Option KnownCounter)
    → kept now w a (kept now w a o) ≡ kept now w a o
kept_idem now w none o = refl
kept_idem now w (some false) o = refl
kept_idem now w (some true) none = refl
kept_idem now w (some true) (some c) = ground arith

kept-none : (now : Time) (w : ℕ) (a : Option Bool) → kept now w a none ≡ none
kept-none now w none = refl
kept-none now w (some false) = refl
kept-none now w (some true) = refl

module _ (i : CleanupStore) (answer : Text → Option Bool)
    (answers : (k : Text) (st : i.State) → (i.limit_exists k st).0 ≡ answer k) where
  known_step :
      (now : Time) (e : KnownSnapshot) (p : Progress i) (j : Text)
      → (lookup j (clean_known i quiet now e p).state.known.counters ≡ (
          if text_eq e.0 j
          then kept now p.state.known.window_s (answer e.0) (lookup j p.state.known.counters)
          else lookup j p.state.known.counters))
        × ((clean_known i quiet now e p).state.known.window_s ≡ p.state.known.window_s)
  unfolding clean_known after_answer delete
  known_step now (key, c) p j = ground (
    arith,
    answers key p.state.store,
    delete_if_inactive-survivor key now p.state.known j,
    window_s-delete_if_inactive key now p.state.known,
    lookup-erase key j p.state.known.counters,
  )

  abbrev has_key : Text → List KnownSnapshot → Bool
  has_key j [] = false
  has_key j (e ∷ es) = text_eq e.0 j || has_key j es

  swept :
      (now : Time) (es : List KnownSnapshot) (p : Progress i) (j : Text)
      → lookup j (known_loop i quiet now es p).state.known.counters ≡ (
          if has_key j es
          then kept now p.state.known.window_s (answer j) (lookup j p.state.known.counters)
          else lookup j p.state.known.counters)
  unfolding known_loop
  swept now [] p j = refl
  swept now (e ∷ es) p j = ground (
    arith,
    swept now es (clean_known i quiet now e p) j,
    (known_step now e p j).0,
    (known_step now e p j).1,
    text_eq_iff e.0 j,
    kept_idem now p.state.known.window_s (answer j) (lookup j p.state.known.counters),
  )

  no_key_none : (j : Text) (m : Dict KnownCounter) → has_key j m ≡ false → lookup j m ≡ none
  unfolding lookup
  no_key_none j [] h = refl
  no_key_none j ((k, c) ∷ m) h = ground (arith, no_key_none j m)

  -- With no requests in between, and where the store answers about the limit of each key alike all
  -- through the cycle: the counter of a key without a limit goes, the counter of a key that has one
  -- stays, unchanged, unless it is inactive at the start of the cycle, and where the store fails to
  -- answer the counter stays in any case.
  pub run_known-survivors :
      (now : Time) (s : Cleanup i) (j : Text)
      → lookup j (run_known i quiet now s).state.known.counters
        ≡ kept now s.known.window_s (answer j) (lookup j s.known.counters)
  unfolding run_known snapshot
  run_known-survivors now s j = ground (
    arith,
    swept now s.known.counters (record { deleted = 0; transferred = 0; state = s }) j,
    no_key_none j s.known.counters,
    kept-none now s.known.window_s (answer j),
  )
