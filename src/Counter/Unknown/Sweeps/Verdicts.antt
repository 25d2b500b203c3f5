-- ===== src/Counter/Unknown/Sweeps/Verdicts.antt =====
-- What RecordRequest of internal/counter/unknown.go answers while the cleanup drops counters.
use api_ratelimiter.Base.{
  ℕ, ◌≤◌, ◌≡◌, refl, sym, ap, ◌∙◌, subst, true, Option, none, some, List, [], ◌∷◌, pos, ◌+64◌, Text,
  text_eq, ◌==◌, arith, if◌then◌else◌, Bool-cases, inl, inr,
}
use api_ratelimiter.Base.Dict.{lookup, lookup-insert}
use api_ratelimiter.Clock.{Time, slot_at}
use api_ratelimiter.Counter.Inactive.{is_inactive}
use api_ratelimiter.Counter.Window.{verdict, replay, replay_ready}
use api_ratelimiter.Counter.Unknown.{
  UnknownCounter, UnknownMap, new_unknown_map, serve_request, record_request,
}
use api_ratelimiter.Counter.Unknown.Windows.{
  UnknownRequest, unknown_window, counted, tally, record_request-tally, record_request-verdict,
  window_s-record_request, window_s-new_unknown_map,
}
use api_ratelimiter.Counter.Unknown.Idle.{serve_request_stamps}
use api_ratelimiter.Counter.Unknown.Limits.{unknown_after}
use api_ratelimiter.Counter.Unknown.Sweeps.{
  Event, asked, swept, handle, after_events, requests_of, EventsBefore, EventsTimely, AllAsked,
  InTime, sweep_cases,
}
use api_ratelimiter.Counter.Unknown.Entries.{window_s-delete_if_inactive}

-- A counter stands in the window of its last request, and P holds of the instant of that request.
abbrev StampedBy {ℓ} : ℕ → (Time → Type ℓ) → Option UnknownCounter → Type ℓ
StampedBy w P none = Unit
StampedBy w P (some c) = (c.slot ≡ slot_at w c.last_request) × P c.last_request

-- A counter that is dropped in time counts nothing in a window that is not over.
inactive_counted :
    (c : UnknownCounter) (now : Time) (w t : ℕ)
    → is_inactive c.slot c.last_request now w ≡ true
    → slot_at w now ≤ t
    → StampedBy w (λ τ. (slot_at w τ ≤ t) × InTime w now τ) (some c)
    → counted t (some c) ≡ pos 0
unfolding is_inactive counted
inactive_counted c now w t a k (e, (h, inl p)) = ground arith
inactive_counted c now w t a k (e, (h, inr p)) = ground arith

module _ (w : ℕ) where
  pub window_s-after_events : (es : List Event) → (after_events w es).window_s ≡ w
  unfolding after_events handle
  window_s-after_events [] = window_s-new_unknown_map w
  window_s-after_events (asked r ∷ es) =
      window_s-record_request r.now r.key r.global_limit r.burst r.abuse_multiplier
        (after_events w es)
      ∙ window_s-after_events es
  window_s-after_events (swept key now ∷ es) =
      window_s-delete_if_inactive key now (after_events w es) ∙ window_s-after_events es

  request_stamps :
      (P : Time → Type 0) (r : UnknownRequest) (m : UnknownMap) (j : Text)
      → m.window_s ≡ w
      → P r.now
      → StampedBy w P (lookup j m.counters)
      → StampedBy w P (
          lookup j
            (record_request r.now r.key r.global_limit r.burst r.abuse_multiplier m).1.counters)
  unfolding record_request
  request_stamps P r m j e h x =
      rw (lookup-insert r.key j c m.counters) (elim (Bool-cases (text_eq r.key j)) [
        | inl q ↦ rw q (
          stamps.0 ∙ ap (λ v. slot_at v r.now) e ∙ ap (slot_at w) (sym stamps.1),
          subst P (sym stamps.1) h,
        )
        | inr q ↦ rw q x
      ])
    where
      s : ℕ
      s = slot_at m.window_s r.now

      found : Option UnknownCounter
      found = lookup r.key m.counters

      c : UnknownCounter
      c = (serve_request r.now s r.global_limit r.burst r.abuse_multiplier found).1

      stamps : (c.slot ≡ s) × (c.last_request ≡ r.now)
      stamps = serve_request_stamps r.now s r.global_limit r.burst r.abuse_multiplier found

  -- What holds of all requests holds of the last requests of the counters.
  stamped_after :
      (P : Time → Type 0) (es : List Event) (j : Text)
      → AllAsked P es
      → StampedBy w P (lookup j (after_events w es).counters)
  unfolding after_events handle
  stamped_after P [] j o = unfold new_unknown_map lookup in tt
  stamped_after P (asked r ∷ es) j o =
      request_stamps P r (after_events w es) j (window_s-after_events es) o.0
        (stamped_after P es j o.1)
  stamped_after P (swept key now ∷ es) j o = elim (sweep_cases key now (after_events w es) j) [
    | inl e ↦ rw e (stamped_after P es j o)
    | inr (c, _, _, e) ↦ rw e tt
  ]

  before-InTime :
      (t : ℕ) (now : Time) (es : List Event)
      → EventsBefore w t es
      → AllAsked (InTime w now) es
      → AllAsked (λ τ. (slot_at w τ ≤ t) × InTime w now τ) es
  before-InTime t now [] b i = tt
  before-InTime t now (asked r ∷ es) b i = ((b.0, i.0), before-InTime t now es b.1 i.1)
  before-InTime t now (swept key then_ ∷ es) b i = before-InTime t now es b.1 i

  asked_tally :
      (r : UnknownRequest) (m : UnknownMap) (j : Text) (t : ℕ)
      → m.window_s ≡ w
      → tally j t (record_request r.now r.key r.global_limit r.burst r.abuse_multiplier m).1 ≡ (
          if text_eq r.key j
          then (if slot_at w r.now == t then tally j t m +64 pos 1 else pos 0)
          else tally j t m)
  asked_tally r m j t e =
      record_request-tally r.now r.key r.global_limit r.burst r.abuse_multiplier m j t
      ∙ ap
          (λ v.
            if text_eq r.key j
            then (if slot_at v r.now == t then tally j t m +64 pos 1 else pos 0)
            else tally j t m)
          e

  -- What counts is as if no counter had ever been dropped.
  tally-after_events :
      (es : List Event) (t : ℕ) (j : Text)
      → EventsTimely w es
      → EventsBefore w t es
      → tally j t (after_events w es) ≡ tally j t (unknown_after w (requests_of es))
  unfolding after_events handle requests_of replay tally
  tally-after_events [] t j o b = refl
  tally-after_events (asked r ∷ es) t j o b =
      let m = after_events w es in
      let n = unknown_after w (requests_of es) in
      asked_tally r m j t (window_s-after_events es)
      ∙ ap
          (λ y.
            if text_eq r.key j then (if slot_at w r.now == t then y +64 pos 1 else pos 0) else y)
          (tally-after_events es t j o.1 b.1)
      ∙ sym (asked_tally r n j t (replay_ready (unknown_window w) (requests_of es)))
  tally-after_events (swept key now ∷ es) t j o b =
      elim (sweep_cases key now (after_events w es) j) [
        | inl e ↦ ap (counted t) e ∙ tally-after_events es t j o.1 b.1
        | inr (c, found, a, e) ↦
            ap (counted t) e
            ∙ sym (
                inactive_counted c now w t (rw (window_s-after_events es) at a) b.0 (
                  rw found at (
                    stamped_after (λ τ. (slot_at w τ ≤ t) × InTime w now τ) es j
                      (before-InTime t now es b.1 o.0))))
            ∙ sym (ap (counted t) found)
            ∙ tally-after_events es t j o.1 b.1
      ]

asked_verdict :
    (w : ℕ) (r : UnknownRequest) (m : UnknownMap)
    → m.window_s ≡ w
    → (record_request r.now r.key r.global_limit r.burst r.abuse_multiplier m).0
      ≡ verdict r.global_limit r.burst (tally r.key (slot_at w r.now) m +64 pos 1)
asked_verdict w r m e =
    record_request-verdict r.now r.key r.global_limit r.burst r.abuse_multiplier m
    ∙ ap (λ v. verdict r.global_limit r.burst (tally r.key (slot_at v r.now) m +64 pos 1)) e

-- With DeleteIfInactive called at any times between the requests and for any keys, no request in an
-- earlier window than an event before it, and each call in time for the requests before it (no request
-- in a later window than the call's instant, unless it is less than two windows older by the clock):
-- a request gets the same decision as if no counter had ever been dropped.
pub sweeps_invisible :
    (w : ℕ) (es : List Event) (r : UnknownRequest)
    → EventsTimely w (asked r ∷ es)
    → (record_request r.now r.key r.global_limit r.burst r.abuse_multiplier (after_events w es)).0
      ≡ (record_request r.now r.key r.global_limit r.burst r.abuse_multiplier
          (unknown_after w (requests_of es))).0
sweeps_invisible w es r o =
    asked_verdict w r (after_events w es) (window_s-after_events w es)
    ∙ ap (λ n. verdict r.global_limit r.burst (n +64 pos 1))
        (tally-after_events w es (slot_at w r.now) r.key o.1 o.0)
    ∙ sym (
        asked_verdict w r (unknown_after w (requests_of es))
          (replay_ready (unknown_window w) (requests_of es)))
