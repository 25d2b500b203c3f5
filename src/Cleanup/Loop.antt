-- ===== src/Cleanup/Loop.antt =====
-- Loop of internal/cleanup/cleanup.go: cycles on a ticker until the context is cancelled.
use api_ratelimiter.Base.{◌+◌, ◌≡◌, refl, ap, ◌∙◌, List, [], ◌∷◌, ◌++◌, Text}
use api_ratelimiter.Base.Dict.{lookup}
use api_ratelimiter.Clock.{Time}
use api_ratelimiter.Counter.Unknown.{UnknownMap}
use api_ratelimiter.Counter.Unknown.Entries.{survivor}
use api_ratelimiter.Cleanup.{CleanupStore, Cleanup, quiet, run, run_known, set_db_gauges}
use api_ratelimiter.Cleanup.Separate.{run_known_unknown}
use api_ratelimiter.Cleanup.Sweep.{run_unknown-survivors}

module _ (i : CleanupStore) where
  -- How a call of Run ends: it returns, or panics, each with the state that it leaves.
  pub data Outcome : Type 0 where
    returned : Cleanup i → Outcome
    panicked : Cleanup i → Outcome

  -- The deferred recover around the call.
  unfoldable pub recovered : Outcome → Cleanup i
  recovered (returned s) = s
  recovered (panicked s) = s

  -- What a turn of the select takes: the end of the context, or a tick, with what the call of Run
  -- makes of the state. Run itself has no panic; the calls of the store and of the logger in it may.
  pub data Turn : Type 0 where
    done : Turn
    ticked : (Cleanup i → Outcome) → Turn

  abbrev pub undisturbed : Time → Time → Turn
  undisturbed begin finish = ticked (λ s. returned (run i quiet begin finish s))

  -- Loop, for the turns that have been taken.
  unfoldable pub loop : List Turn → Cleanup i → Cleanup i
  unfolding recovered
  loop [] s = s
  loop (done ∷ ts) s = s
  loop (ticked cycle ∷ ts) s = loop ts (recovered (cycle s))

  -- The context is not cancelled.
  abbrev pub Live : List Turn → Type 0
  Live [] = Unit
  Live (done ∷ ts) = ⊥
  Live (ticked cycle ∷ ts) = Live ts

  loop-append :
      (ts us : List Turn) (s : Cleanup i) → Live ts → loop (ts ++ us) s ≡ loop us (loop ts s)
  unfolding loop
  loop-append [] us s h = refl
  loop-append (done ∷ ts) us s h = absurd h
  loop-append (ticked cycle ∷ ts) us s h = loop-append ts us (recovered (cycle s)) h

  -- A whole cycle without requests sweeps the unknown map once.
  run-survivors :
      (begin finish : Time) (s : Cleanup i) (j : Text)
      → lookup j (run i quiet begin finish s).unknown.counters
        ≡ survivor begin s.unknown.window_s (lookup j s.unknown.counters)
  unfolding run set_db_gauges
  run-survivors begin finish s j =
      let s0 : Cleanup i = record s {
        metrics = record s.metrics { cleanup_runs_total = s.metrics.cleanup_runs_total + 1 };
      } in
      run_unknown-survivors i begin (run_known i quiet begin s0).state j
      ∙ ap (λ (m : UnknownMap). survivor begin m.window_s (lookup j m.counters))
          (run_known_unknown i quiet begin s0)

  -- After any ticks before the end of the context, panics of a cycle among them whatever state they
  -- leave: the next undisturbed tick still sweeps the unknown map, that is it keeps exactly the
  -- counters that are not inactive at its start. From the end of the context on nothing changes.
  loop_survives_panics :
      (ts us : List Turn) (begin finish : Time) (s : Cleanup i) (j : Text)
      → Live ts
      → (lookup j (loop (ts ++ undisturbed begin finish ∷ []) s).unknown.counters
          ≡ survivor begin (loop ts s).unknown.window_s (lookup j (loop ts s).unknown.counters))
        × (loop (ts ++ done ∷ us) s ≡ loop ts s)
  unfolding loop recovered
  loop_survives_panics ts us begin finish s j h = (
    ap (λ (c : Cleanup i). lookup j c.unknown.counters)
          (loop-append ts (undisturbed begin finish ∷ []) s h)
        ∙ run-survivors begin finish (loop ts s) j,
    loop-append ts (done ∷ us) s h,
  )
