-- ===== src/App/Shutdown/Order.antt =====
-- What holds in every order of events from the start of cmd/api-ratelimiter/main.go on.
use api_ratelimiter.Base.{
  ◌≡◌, ◌≤◌, refl, sym, ap, ◌∙◌, ◌↔◌, inl, inr, Bool-cases, true, false, arith, ltb,
}
use api_ratelimiter.Clock.{Time}
use api_ratelimiter.Redis.{Redis}
use api_ratelimiter.Store.{ping}
use api_ratelimiter.Cleanup.{Noise}
use api_ratelimiter.Handler.{CheckRequest, serve_http}
use api_ratelimiter.App.{App, check, clean, readyz, update_redis_gauges}
use api_ratelimiter.App.Shutdown.{
  Phase, serving, draining, cleaning, cancelling, waiting, stopped, rank, Process, launch, answer,
  at_signal, Step, accepts, answers, cleans, refreshes, loops_end, probes, signalled, shuts_down,
  accepts_late, times_out, final_clean, cancels, exits, Reach, here, next,
}

module _ (r : Redis) where
  pub record IsCoherent (p : Process r) : Type 0 where
    pub flag : p.app.shutting_down ≡ ltb 0 (rank p.phase)
    pub quiet_server : p.drained ≡ true → 2 ≤ rank p.phase → p.in_flight ≡ 0
    pub loops_ended : rank p.phase ≡ 5 → p.loops ≡ false

  -- No handler touches the flag.
  check_flag :
      (now : Time) (q : CheckRequest) (a : App r)
      → (check r now q a).1.shutting_down ≡ a.shutting_down
  unfolding check serve_http
  check_flag now q a = refl

  clean_flag :
      (noise : Noise) (begin finish : Time) (a : App r)
      → (clean r noise begin finish a).shutting_down ≡ a.shutting_down
  unfolding clean
  clean_flag noise begin finish a = refl

  gauges_flag : (a : App r) → (update_redis_gauges r a).shutting_down ≡ a.shutting_down
  unfolding update_redis_gauges
  gauges_flag a = refl

  readyz_flag : (a : App r) → (readyz r a).1.shutting_down ≡ a.shutting_down
  unfolding readyz
  readyz_flag a = ground arith

  -- The rank of the phase that a step finds.
  at_rank : (p : Process r) (f : Phase) → p.phase ≡ f → rank p.phase ≡ rank f
  at_rank p f e = ap rank e

  Step-IsCoherent : {p q : Process r} → Step r p q → IsCoherent p → IsCoherent q
  unfolding rank answer at_signal
  Step-IsCoherent {p} (accepts e) c = record {
    flag = c.flag;
    quiet_server = λ d l. absurd (omega arith);
    loops_ended = c.loops_ended;
  }
  Step-IsCoherent {p} (accepts_late z e) c = record {
    flag = c.flag;
    quiet_server = λ d l. absurd (ground (arith, d, z));
    loops_ended = c.loops_ended;
  }
  Step-IsCoherent {p} (answers now q n e l) c = record {
    flag = check_flag now q p.app ∙ c.flag;
    quiet_server = λ d k. absurd (omega (arith, c.quiet_server d k));
    loops_ended = c.loops_ended;
  }
  Step-IsCoherent {p} (cleans noise begin finish e) c = record {
    flag = clean_flag noise begin finish p.app ∙ c.flag;
    quiet_server = c.quiet_server;
    loops_ended = c.loops_ended;
  }
  Step-IsCoherent {p} (refreshes e) c = record {
    flag = gauges_flag p.app ∙ c.flag;
    quiet_server = c.quiet_server;
    loops_ended = c.loops_ended;
  }
  Step-IsCoherent {p} (loops_end e) c = record {
    flag = c.flag;
    quiet_server = c.quiet_server;
    loops_ended = λ k. refl;
  }
  Step-IsCoherent {p} (probes l) c = record {
    flag = readyz_flag p.app ∙ c.flag;
    quiet_server = c.quiet_server;
    loops_ended = c.loops_ended;
  }
  Step-IsCoherent {p} (signalled e) c = record {
    flag = refl;
    quiet_server = λ d l. absurd (omega arith);
    loops_ended = λ k. absurd (omega arith);
  }
  Step-IsCoherent {p} (shuts_down e z) c = record {
    flag = c.flag ∙ ap (ltb 0) (at_rank p draining e);
    quiet_server = λ d l. z;
    loops_ended = λ k. absurd (omega arith);
  }
  Step-IsCoherent {p} (times_out e) c = record {
    flag = c.flag ∙ ap (ltb 0) (at_rank p draining e);
    quiet_server = λ d l. absurd (ground (arith, d));
    loops_ended = λ k. absurd (omega arith);
  }
  Step-IsCoherent {p} (final_clean noise begin finish e) c = record {
    flag = clean_flag noise begin finish p.app ∙ c.flag ∙ ap (ltb 0) (at_rank p cleaning e);
    quiet_server = λ d l. c.quiet_server d (omega (arith, at_rank p cleaning e));
    loops_ended = λ k. absurd (omega arith);
  }
  Step-IsCoherent {p} (cancels e) c = record {
    flag = c.flag ∙ ap (ltb 0) (at_rank p cancelling e);
    quiet_server = λ d l. c.quiet_server d (omega (arith, at_rank p cancelling e));
    loops_ended = λ k. absurd (omega arith);
  }
  Step-IsCoherent {p} (exits e z) c = record {
    flag = c.flag ∙ ap (ltb 0) (at_rank p waiting e);
    quiet_server = λ d l. c.quiet_server d (omega (arith, at_rank p waiting e));
    loops_ended = λ k. z;
  }

  launch-IsCoherent : (a : App r) → a.shutting_down ≡ false → IsCoherent (launch r a)
  unfolding launch rank
  launch-IsCoherent a e = record {
    flag = e;
    quiet_server = λ d l. refl;
    loops_ended = λ k. absurd (omega arith);
  }

  Reach-IsCoherent : {p q : Process r} → IsCoherent p → Reach r p q → IsCoherent q
  Reach-IsCoherent c here = c
  Reach-IsCoherent c (next h s) = Step-IsCoherent s (Reach-IsCoherent c h)

  phase_of_flag : (k : Phase) → ltb 0 (rank k) ≡ false → k ≡ serving
  unfolding rank
  phase_of_flag serving h = refl
  phase_of_flag draining h = absurd (ground arith)
  phase_of_flag cleaning h = absurd (ground arith)
  phase_of_flag cancelling h = absurd (ground arith)
  phase_of_flag waiting h = absurd (ground arith)
  phase_of_flag stopped h = absurd (ground arith)

  readyz_lem :
      (a : App r)
      → ((readyz r a).0 ≡ 200) ↔ ((a.shutting_down ≡ false) × ((ping r a.store).0 ≡ true))
  unfolding readyz
  readyz_lem a = elim (Bool-cases a.shutting_down) [
    | inl e ↦ (λ h. absurd (ground (arith, e, h)), λ h. absurd (ground (arith, e, h.0)))
    | inr e ↦ elim (Bool-cases (ping r a.store).0) [
      | inl p ↦ (λ h. (e, p), λ h. rw (e, p) refl)
      | inr p ↦ (λ h. absurd (ground (arith, e, p, h)), λ h. absurd (ground (arith, p, h.1)))
    ]
  ]

  -- In every state that the process can reach, whatever requests, probes, cycles and timeouts come
  -- in which order: /readyz answers 200 exactly while the main goroutine has not stored shuttingDown, as
  -- it does behind the signal, and Redis answers.
  pub readyz-iff_serving :
      (a : App r) (p : Process r)
      → a.shutting_down ≡ false
      → Reach r (launch r a) p
      → ((readyz r p.app).0 ≡ 200) ↔ ((p.phase ≡ serving) × ((ping r p.app.store).0 ≡ true))
  readyz-iff_serving a p f h =
      let c = Reach-IsCoherent (launch-IsCoherent a f) h in
      let (to, from) = readyz_lem p.app in
      (
        λ e. (phase_of_flag p.phase (sym (c.flag) ∙ (to e).0), (to e).1),
        λ e. from (c.flag ∙ ap (λ k. ltb 0 (rank k)) e.0 ∙ unfold rank in refl, e.1),
      )

  -- What net/http promises of Shutdown stays true: unless it timed out, no request to /check is in
  -- flight from the moment in front of the final cleanup on.
  drained_before_final_clean :
      (a : App r) (p : Process r)
      → a.shutting_down ≡ false
      → Reach r (launch r a) p
      → p.drained ≡ true
      → 2 ≤ rank p.phase
      → p.in_flight ≡ 0
  drained_before_final_clean a p f h = (Reach-IsCoherent (launch-IsCoherent a f) h).quiet_server
