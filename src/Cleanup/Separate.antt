-- ===== src/Cleanup/Separate.antt =====
-- Which steps of internal/cleanup/cleanup.go leave the unknown map alone.
use api_ratelimiter.Base.{◌≡◌, refl, ◌∙◌, List, [], ◌∷◌, arith}
use api_ratelimiter.Clock.{Time}
use api_ratelimiter.Counter.Known
use api_ratelimiter.Counter.Known.{KnownSnapshot}
use api_ratelimiter.Cleanup.{
  CleanupStore, Cleanup, Progress, Noise, clean_known, known_loop, run_known, after_answer,
  count_deleted, count_error, set_db_gauges,
}

module _ (i : CleanupStore) where
  clean_known_unknown :
      (noise : Noise) (now : Time) (e : KnownSnapshot) (p : Progress i)
      → (clean_known i noise now e p).state.unknown ≡ p.state.unknown
  unfolding clean_known after_answer count_deleted count_error
  clean_known_unknown noise now e p = ground arith

  known_loop_unknown :
      (noise : Noise) (now : Time) (es : List KnownSnapshot) (p : Progress i)
      → (known_loop i noise now es p).state.unknown ≡ p.state.unknown
  unfolding known_loop
  known_loop_unknown noise now [] p = refl
  known_loop_unknown noise now (e ∷ es) p =
      known_loop_unknown noise now es (clean_known i noise now e p)
      ∙ clean_known_unknown noise now e p

  pub set_db_gauges_unknown : (s : Cleanup i) → (set_db_gauges i s).unknown ≡ s.unknown
  unfolding set_db_gauges
  set_db_gauges_unknown s = refl

  -- runKnown does not touch the unknown map.
  pub run_known_unknown :
      (noise : Noise) (now : Time) (s : Cleanup i)
      → (run_known i noise now s).state.unknown ≡ s.unknown
  unfolding run_known
  run_known_unknown noise now s =
      known_loop_unknown noise now (Known.snapshot s.known)
        (record { deleted = 0; transferred = 0; state = s })
