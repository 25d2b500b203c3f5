-- ===== src/App/Idle.antt =====
-- That the program of cmd/api-ratelimiter/main.go forgets a client that has gone.
use api_ratelimiter.Base.{
  ℕ, ◌+◌, ◌*◌, ◌^◌, ◌≤◌, ◌≡◌, ◌⊎◌, inl, inr, refl, ap, ◌∙◌, false, Option, none, some, Option-cases,
  ℤ, List, [], ◌∷◌, ◌++◌, Text, text_eq, arith,
}
use api_ratelimiter.Base.Dict.{lookup, lookup-insert_self}
use api_ratelimiter.Clock.{Time, slot_at}
use api_ratelimiter.Config.{Config, window_seconds}
use api_ratelimiter.Redis.{Redis}
use api_ratelimiter.Counter.Inactive.Gap.{IsWindow, Agree, is_inactive-iff_gap}
use api_ratelimiter.Counter.Unknown.{UnknownCounter, UnknownMap, record_request, serve_request}
use api_ratelimiter.Counter.Unknown.Entries.{survivor, lookup-record_request}
use api_ratelimiter.Counter.Unknown.Idle.{serve_request_stamps}
use api_ratelimiter.Counter.Unknown.Sweeps.Verdicts.{window_s-after_events}
use api_ratelimiter.Handler.{CheckRequest}
use api_ratelimiter.Cleanup.Steps.{idle, step}
use api_ratelimiter.Cleanup.Steps.Idle.{PendingSince, step-PendingSince, step_kept}
use api_ratelimiter.App.{App, cleanup_of_store, cleanup_of, check}
use api_ratelimiter.App.Charges.{charge, is_some_key, check_unknown_none, check_unknown_some}
use api_ratelimiter.App.Steps.{
  Event, asked, stepped, handle, running, app_after, map_events, app_after-unknown,
}

-- A counter is missing, or its last request was at an instant.
abbrev LastAt : ℕ → Time → Option UnknownCounter → Type 0
LastAt w last none = Unit
LastAt w last (some c) = (c.slot ≡ slot_at w last) × (c.last_request ≡ last)

survivor_gone :
    (w : ℕ) (last now : Time) (o : Option UnknownCounter)
    → IsWindow w
    → Agree last now
    → last.wall + 2 * w * 10 ^ 9 ≤ now.wall
    → LastAt w last o
    → survivor now w o ≡ none
survivor_gone w last now none k a g h = refl
survivor_gone w last now (some c) k a g h =
    rw (h.0, h.1) (rw (is_inactive-iff_gap w last now k a) (ground (arith, g)))

frame :
    (now : Time) (j k : Text) (limit burst mult : ℤ) (m : UnknownMap)
    → text_eq j k ≡ false
    → lookup k (record_request now j limit burst mult m).1.counters ≡ lookup k m.counters
frame now j k limit burst mult m e =
    rw (lookup-record_request now j limit burst mult m k) (rw e refl)

stamped :
    (now : Time) (k : Text) (limit burst mult : ℤ) (m : UnknownMap)
    → LastAt m.window_s now (lookup k (record_request now k limit burst mult m).1.counters)
unfolding record_request
stamped now k limit burst mult m =
    let c = (serve_request now (slot_at m.window_s now) limit burst mult (lookup k m.counters)).1 in
    rw (lookup-insert_self k c m.counters)
      (serve_request_stamps now (slot_at m.window_s now) limit burst mult (lookup k m.counters))

module _ (r : Redis) (c : Config) (server : r.Server) where
  window_s-app_after :
      (h : List Event) → (app_after r c server h).unknown.window_s ≡ window_seconds c
  window_s-app_after h =
      ap (λ (m : UnknownMap). m.window_s) (app_after-unknown r c server h)
      ∙ window_s-after_events (window_seconds c) (map_events r c server h)

  -- No request of the newer part of a history is charged to a key.
  abbrev pub IsAway : Text → List Event → List Event → Type 0
  IsAway k [] g = Unit
  IsAway k (asked now q ∷ h) g =
      (is_some_key k (charge r now q (app_after r c server (h ++ g))) ≡ false) × IsAway k h g
  IsAway k (stepped now ∷ h) g = IsAway k h g

  check_away :
      (now : Time) (q : CheckRequest) (a : App r) (k : Text)
      → is_some_key k (charge r now q a) ≡ false
      → lookup k (check r now q a).1.unknown.counters ≡ lookup k a.unknown.counters
  check_away now q a k e = elim (Option-cases (charge r now q a)) [
    | inl n ↦ ap (λ (m : UnknownMap). lookup k m.counters) (check_unknown_none r now q a n)
    | inr (j, s) ↦
        ap (λ (m : UnknownMap). lookup k m.counters) ((check_unknown_some r now q a j s).1)
        ∙ frame now j k a.global_limit a.burst a.abuse_multiplier a.unknown (rw s at e)
  ]

  -- What holds of a counter and of no counter is kept while no request is charged to its key.
  away_kept :
      (P : Option UnknownCounter → Type 0) (k : Text) (h g : List Event)
      → P none
      → IsAway k h g
      → P (lookup k (app_after r c server g).unknown.counters)
      → P (lookup k (app_after r c server (h ++ g)).unknown.counters)
  unfolding running handle
  away_kept P k [] g n w x = x
  away_kept P k (asked now q ∷ h) g n w x =
      rw (check_away now q (app_after r c server (h ++ g)) k w.0) (away_kept P k h g n w.1 x)
  away_kept P k (stepped now ∷ h) g n w x =
      let s = running r c server (h ++ g) in
      step_kept (cleanup_of_store r) k P now s.task (cleanup_of r s.app) n (away_kept P k h g n w x)

  asked_LastAt :
      (k : Text) (last : Time) (q : CheckRequest) (g : List Event)
      → charge r last q (app_after r c server g) ≡ some k
      → LastAt
          (window_seconds c)
          last
          (lookup k (app_after r c server (asked last q ∷ g)).unknown.counters)
  unfolding running handle
  asked_LastAt k last q g e =
      let a = app_after r c server g in
      rw ((check_unknown_some r last q a k e).1) (
        rw (window_s-app_after g) at
          (stamped last k a.global_limit a.burst a.abuse_multiplier a.unknown))

  -- The key has no counter, or the cycle that has started at an instant is still to come to it.
  abbrev GoneOrPending : Text → Time → List Event → Type 0
  GoneOrPending k begin h =
      (lookup k (app_after r c server h).unknown.counters ≡ none)
      ⊎ PendingSince (cleanup_of_store r) k begin (running r c server h).task

  away_GoneOrPending :
      (k : Text) (last begin : Time) (m h : List Event)
      → IsWindow (window_seconds c)
      → Agree last begin
      → last.wall + 2 * window_seconds c * 10 ^ 9 ≤ begin.wall
      → IsAway k m h
      → LastAt (window_seconds c) last (lookup k (app_after r c server h).unknown.counters)
      → GoneOrPending k begin h
      → GoneOrPending k begin (m ++ h)
  unfolding running handle
  away_GoneOrPending k last begin [] h w a gap away x p = p
  away_GoneOrPending k last begin (asked now q ∷ m) h w a gap away x p =
      elim (away_GoneOrPending k last begin m h w a gap away.1 x p) [
        | inl e ↦ inl (check_away now q (app_after r c server (m ++ h)) k away.0 ∙ e)
        | inr n ↦ inr n
      ]
  away_GoneOrPending k last begin (stepped now ∷ m) h w a gap away x p =
      let s = running r c server (m ++ h) in
      elim (away_GoneOrPending k last begin m h w a gap away x p) [
        | inl e ↦ inl (
            step_kept (cleanup_of_store r) k (λ o. o ≡ none) now s.task (cleanup_of r s.app) refl e)
        | inr n ↦
            step-PendingSince (cleanup_of_store r) k begin now s.task (cleanup_of r s.app)
              (rw (window_s-app_after (m ++ h)) (
                survivor_gone (window_seconds c) last begin _ w a gap
                  (away_kept (LastAt (window_seconds c) last) k m h tt away x)))
              n
      ]

  starts :
      (k : Text) (begin : Time) (h : List Event)
      → (running r c server h).task ≡ idle
      → PendingSince (cleanup_of_store r) k begin (running r c server (stepped begin ∷ h)).task
  unfolding running handle step
  starts k begin h e = rw e (refl, tt)

  -- With windows of a second or a minute: a request that is charged to a key of the unknown map; then a
  -- part h of the history; then, with no cycle under way, the first step of a cycle, two whole windows
  -- or more after the request on a wall clock that was not set in between; then a part m of the
  -- history, behind which again no cycle is under way. In h and m requests that are not charged to
  -- the key come between any steps of any cycles. Then the program keeps no counter under that key,
  -- whatever Redis answers.
  pub idle_client_forgotten :
      (k : Text) (last : Time) (q : CheckRequest) (m h g : List Event) (begin : Time)
      → IsWindow (window_seconds c)
      → charge r last q (app_after r c server g) ≡ some k
      → IsAway k h (asked last q ∷ g)
      → (running r c server (h ++ asked last q ∷ g)).task ≡ idle
      → Agree last begin
      → last.wall + 2 * window_seconds c * 10 ^ 9 ≤ begin.wall
      → IsAway k m (stepped begin ∷ (h ++ asked last q ∷ g))
      → (running r c server (m ++ stepped begin ∷ (h ++ asked last q ∷ g))).task ≡ idle
      → lookup k
          (app_after r c server (m ++ stepped begin ∷ (h ++ asked last q ∷ g))).unknown.counters
        ≡ none
  idle_client_forgotten k last q m h g begin w e away rest a gap then_away end =
      let old = h ++ asked last q ∷ g in
      elim (away_GoneOrPending k last begin m (stepped begin ∷ old) w a gap then_away
        (away_kept (LastAt (window_seconds c) last) k (stepped begin ∷ h) (asked last q ∷ g) tt away
          (asked_LastAt k last q g e))
        (inr (starts k begin old rest))) [ inl n ↦ n | inr n ↦ absurd (rw end at n) ]
