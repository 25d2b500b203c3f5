-- ===== src/Cleanup/Steps/Alone.antt =====
-- A cycle of internal/cleanup/cleanup.go with nothing between its steps.
use api_ratelimiter.Base.{
  ℕ, suc, ◌+◌, ◌*◌, ◌≤◌, ◌≡◌, refl, ap, ◌∙◌, Bool, Bool-cases, inl, inr, ◌&&◌, none, some,
  Option-cases, List, [], ◌∷◌, ◌++◌, leb_ℤ, Text, length, arith, if◌then◌else◌,
}
use api_ratelimiter.Clock.{Time}
use api_ratelimiter.Counter.Known
use api_ratelimiter.Counter.Unknown
use api_ratelimiter.Counter.Known.{KnownSnapshot}
use api_ratelimiter.Counter.Unknown.{UnknownCounter, UnknownSnapshot}
use api_ratelimiter.Cleanup.{
  CleanupStore, Cleanup, Progress, quiet, count_run, clean_known, known_loop, run_known,
  transfer_live, clean_unknown, unknown_loop, run_unknown, run, drop_if_inactive,
}
use api_ratelimiter.Cleanup.Separate.{run_known_unknown}
use api_ratelimiter.Cleanup.Steps.{
  Cycle, Task, idle, busy, asking, answered, scanning, turning, sending, resume, progress,
  start_turn, sent, work, step,
}

module _ (i : CleanupStore) where
  -- A step at each of the instants.
  unfoldable pub steps : List Time → Task × Cleanup i → Task × Cleanup i
  steps [] x = x
  steps (t ∷ ts) (task, s) = steps ts (step i t task s)

  -- n steps at any instants lead from one state to another.
  abbrev Takes : ℕ → Task × Cleanup i → Task × Cleanup i → Type 0
  Takes n x y = (ts : List Time) → length ts ≡ n → steps ts x ≡ y

  Takes-step :
      (n : ℕ) (task : Task) (s : Cleanup i) (x y : Task × Cleanup i)
      → ((t : Time) → step i t task s ≡ x)
      → Takes n x y
      → Takes (suc n) (task, s) y
  unfolding steps
  Takes-step n task s x y e k [] l = absurd (omega (arith, l))
  Takes-step n task s x y e k (t ∷ ts) l = ap (steps ts) (e t) ∙ k ts (omega (arith, l))

  -- The steps of the loop of runKnown for its entries, and n more.
  abbrev known_rounds : List KnownSnapshot → ℕ → ℕ
  known_rounds [] n = n
  known_rounds (e ∷ es) n = suc (suc (known_rounds es n))

  known_loop_steps :
      (c : Cycle) (es : List KnownSnapshot) (p : Progress i) (n : ℕ) (y : Task × Cleanup i)
      → Takes n (resume i c (asking []) (known_loop i quiet c.begin es p)) y
      → Takes (known_rounds es n) (resume i c (asking es) p) y
  unfolding known_loop clean_known step work
  known_loop_steps c [] p n y k = k
  known_loop_steps c ((key, x) ∷ es) p n y k =
      let (exists, store) = i.limit_exists key p.state.store in
      Takes-step _ _ _
        (resume i c (answered key exists es)
          (record p { state = record p.state { store = store } }))
        y (λ t. refl)
        (Takes-step _ _ _ (resume i c (asking es) (clean_known i quiet c.begin (key, x) p)) y
          (λ t. refl) (known_loop_steps c es (clean_known i quiet c.begin (key, x) p) n y k))

  -- The steps of the turn of an entry of the unknown map, and n more: one, or three with a transfer.
  unfoldable pub turn_rounds : Bool → UnknownSnapshot → Progress i → ℕ → ℕ
  turn_rounds up (key, x) p n =
      if leb_ℤ p.state.transfer_threshold x.abuse_hits && up
      then elim (Unknown.get key p.state.unknown) [ none ↦ suc n | some live ↦ suc (suc (suc n)) ]
      else suc n

  transfer_live-sent :
      (now : Time) (key : Text) (x live : UnknownCounter) (p : Progress i)
      → transfer_live i quiet now (key, x) live p ≡ drop_if_inactive i key now (sent i key live p)
  unfolding transfer_live sent
  transfer_live-sent now key x live p = ground arith

  turn_steps :
      (c : Cycle) (up : Bool) (e : UnknownSnapshot) (es : List UnknownSnapshot) (p : Progress i)
      (n : ℕ) (y : Task × Cleanup i)
      → Takes n (resume i c (turning up es) (clean_unknown i quiet c.begin up e p)) y
      → Takes (turn_rounds up e p n) (resume i c (turning up (e ∷ es)) p) y
  unfolding clean_unknown transfer_live turn_rounds step work start_turn
  turn_steps c up (key, x) es p n y k =
      elim (Bool-cases (leb_ℤ p.state.transfer_threshold x.abuse_hits && up)) [
        | inr d ↦ rw d (Takes-step _ _ _ _ y (λ t. rw d refl) (rw d at k))
        | inl d ↦ elim (Option-cases (Unknown.get key p.state.unknown)) [
          | inl e ↦ rw (d, e) (Takes-step _ _ _ _ y (λ t. rw (d, e) refl) (rw (d, e) at k))
          | inr (live, e) ↦
              rw (d, e)
                (Takes-step _ _ _ (resume i c (sending up key live es) p) y (λ t. rw (d, e) refl)
                  (Takes-step _ _ _ _ y (λ t. refl)
                    (Takes-step _ _ _ _ y (λ t. refl)
                      (rw (transfer_live-sent c.begin key x live p) at (rw (d, e) at k)))))
        ]
      ]

  -- The steps of the loop of runUnknown.
  abbrev unknown_rounds : Time → Bool → List UnknownSnapshot → Progress i → ℕ
  unknown_rounds now up [] p = 0
  unknown_rounds now up (e ∷ es) p =
      turn_rounds up e p (unknown_rounds now up es (clean_unknown i quiet now up e p))

  unknown_loop_steps :
      (c : Cycle) (up : Bool) (es : List UnknownSnapshot) (p : Progress i)
      → Takes
          (unknown_rounds c.begin up es p)
          (resume i c (turning up es) p)
          (resume i c (turning up []) (unknown_loop i quiet c.begin up es p))
  unfolding unknown_loop steps
  unknown_loop_steps c up [] p [] l = refl
  unknown_loop_steps c up [] p (t ∷ ts) l = absurd (omega (arith, l))
  unknown_loop_steps c up (e ∷ es) p ts l =
      let p' = clean_unknown i quiet c.begin up e p in
      turn_steps c up e es p (unknown_rounds c.begin up es p') _ (unknown_loop_steps c up es p') ts
        l

  -- The steps of a cycle between its first and its last one.
  unfoldable pub inner_rounds : Time → Cleanup i → ℕ
  inner_rounds begin s =
      let s1 = (run_known i quiet begin (count_run i s)).state in
      known_rounds (Known.snapshot s.known) (
        suc (
          suc (
            unknown_rounds begin (i.is_healthy s1.store) (Unknown.snapshot s1.unknown)
              (record { deleted = 0; transferred = 0; state = s1 }))))

  steps_append :
      (ts us : List Time) (x : Task × Cleanup i) → steps (ts ++ us) x ≡ steps us (steps ts x)
  unfolding steps
  steps_append [] us x = refl
  steps_append (t ∷ ts) us (task, s) = steps_append ts us (step i t task s)

  turn_rounds_bound :
      (up : Bool) (e : UnknownSnapshot) (p : Progress i) (n : ℕ) → turn_rounds up e p n ≤ 3 + n
  unfolding turn_rounds
  turn_rounds_bound up (key, x) p n = ground arith

  unknown_rounds_bound :
      (now : Time) (up : Bool) (es : List UnknownSnapshot) (p : Progress i)
      → unknown_rounds now up es p ≤ length es * 3
  unknown_rounds_bound now up [] p = omega arith
  unknown_rounds_bound now up (e ∷ es) p =
      let p' = clean_unknown i quiet now up e p in
      omega (
        arith,
        turn_rounds_bound up e p (unknown_rounds now up es p'),
        unknown_rounds_bound now up es p',
      )

  known_rounds_count : (es : List KnownSnapshot) (n : ℕ) → known_rounds es n ≡ length es * 2 + n
  known_rounds_count [] n = omega arith
  known_rounds_count (e ∷ es) n = omega (arith, known_rounds_count es n)

  -- A cycle whose steps nothing comes between, at whatever instants they are taken and whatever Redis
  -- answers: after its first step, its inner ones and a last one no cycle is under way, and the state
  -- is what Run leaves. The inner steps are at most two for each counter of the known map, three for
  -- each of the unknown map, and two.
  pub run-steps :
      (begin finish : Time) (ts : List Time) (s : Cleanup i)
      → length ts ≡ inner_rounds begin s
      → (steps (begin ∷ ts ++ finish ∷ []) (idle, s) ≡ (idle, run i quiet begin finish s))
        × (inner_rounds begin s ≤ Known.len s.known * 2 + Unknown.len s.unknown * 3 + 2)
  unfolding run run_known run_unknown step work inner_rounds steps Known.len Unknown.len
      Known.snapshot Unknown.snapshot
  run-steps begin finish ts s l =
      let s0 = count_run i s in
      let c : Cycle = record {
        begin = begin;
        known_deleted = 0;
        known_transferred = 0;
        deleted = 0;
        transferred = 0;
        stage = asking (Known.snapshot s.known);
      } in
      let p1 = run_known i quiet begin s0 in
      let up = i.is_healthy p1.state.store in
      let c1 : Cycle = record c {
        known_deleted = p1.deleted;
        known_transferred = p1.transferred;
        stage = scanning up;
      } in
      let p2 : Progress i = record { deleted = 0; transferred = 0; state = p1.state } in
      (
        steps_append ts (finish ∷ []) (busy c, s0)
            ∙ ap (steps (finish ∷ [])) (
                known_loop_steps c (Known.snapshot s.known) (progress i c s0) _ _
                  (Takes-step _ _ _ (busy c1, p1.state) _ (λ t. refl)
                    (Takes-step _ _ _
                      (resume i c1 (turning up (Unknown.snapshot p1.state.unknown)) p2) _
                      (λ t. refl)
                      (unknown_loop_steps c1 up (Unknown.snapshot p1.state.unknown) p2)))
                  ts l),
        rw (known_rounds_count (Known.snapshot s.known) _) (
            omega (
              arith,
              unknown_rounds_bound begin up (Unknown.snapshot p1.state.unknown) p2,
              ap Unknown.len (run_known_unknown i quiet begin s0),
            )),
      )
