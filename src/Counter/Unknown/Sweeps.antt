-- ===== src/Counter/Unknown/Sweeps.antt =====
-- Requests to UnknownMap with calls of DeleteIfInactive in between, as the cleanup of
-- internal/cleanup/cleanup.go makes them.
pub mod Verdicts
pub mod Admission
use api_ratelimiter.Base.{
  leb_ℤ, ℕ, zero, suc, ◌+◌, ◌≤◌, ◌<◌, ◌^◌, ◌≡◌, ◌⊎◌, refl, sym, ap, ◌∙◌, Bool, true, false, Option,
  none, some, Option-cases, List, [], ◌∷◌, ℤ, pos, ◌+64◌, Text, text_eq, text_eq→, length, ◌==◌,
  arith, if◌then◌else◌, Bool-cases, inl, inr,
}
use api_ratelimiter.Base.Dict.{lookup, erase, lookup-insert, lookup-erase}
use api_ratelimiter.Clock.{Time, slot_at, sub, two_windows}
use api_ratelimiter.Counter.Inactive.{is_inactive}
use api_ratelimiter.Counter.Window.{verdict, replay, seen, replay_ready}
use api_ratelimiter.Counter.Unknown.{
  UnknownCounter, UnknownMap, new_unknown_map, serve_request, record_request, delete_if_inactive,
}
use api_ratelimiter.Counter.Unknown.Windows.{
  UnknownRequest, unknown_window, counted, tally, record_request-tally, record_request-verdict,
  window_s-record_request, window_s-new_unknown_map, tally-new_unknown_map,
}
use api_ratelimiter.Counter.Unknown.Idle.{serve_request_stamps}
use api_ratelimiter.Counter.Unknown.Limits.{unknown_after}

-- A request, or a call of DeleteIfInactive.
pub data Event : Type 0 where
  asked : UnknownRequest → Event
  swept : Text → Time → Event

abbrev time_of : Event → Time
time_of (asked r) = r.now
time_of (swept key now) = now

unfoldable pub handle : Event → UnknownMap → UnknownMap
handle (asked r) m = (record_request r.now r.key r.global_limit r.burst r.abuse_multiplier m).1
handle (swept key now) m = (delete_if_inactive key now m).1

-- The map that a history leaves, the newest event first, and its requests alone.
unfoldable pub after_events : ℕ → List Event → UnknownMap
after_events w [] = new_unknown_map w
after_events w (e ∷ es) = handle e (after_events w es)

unfoldable pub requests_of : List Event → List UnknownRequest
requests_of [] = []
requests_of (asked r ∷ es) = r ∷ requests_of es
requests_of (swept key now ∷ es) = requests_of es

module _ (w : ℕ) where
  -- The windows of the events never go back.
  abbrev pub EventsBefore : ℕ → List Event → Type 0
  EventsBefore t [] = Unit
  EventsBefore t (e ∷ es) = (slot_at w (time_of e) ≤ t) × EventsBefore t es

  abbrev pub EventsOrdered : List Event → Type 0
  EventsOrdered [] = Unit
  EventsOrdered (e ∷ es) = EventsBefore (slot_at w (time_of e)) es × EventsOrdered es

-- What holds of the instants of all requests.
abbrev pub AllAsked {ℓ} : (Time → Type ℓ) → List Event → Type ℓ
AllAsked P [] = Unit
AllAsked P (asked r ∷ es) = P r.now × AllAsked P es
AllAsked P (swept key now ∷ es) = AllAsked P es

module _ (w : ℕ) where
  -- A call of DeleteIfInactive for the instant `now` behind a request: the request is in no later
  -- window, or less than two windows older by the clock, as it is when it came after `now`.
  abbrev pub InTime : Time → Time → Type 0
  InTime now asked_at =
      (slot_at w asked_at ≤ slot_at w now) ⊎ (leb_ℤ (two_windows w) (sub now asked_at) ≡ false)

  -- No request is in an earlier window than an event before it, and the calls of DeleteIfInactive are
  -- in time. Their instants may be older than requests before them.
  abbrev pub EventsTimely : List Event → Type 0
  EventsTimely [] = Unit
  EventsTimely (asked r ∷ es) = EventsBefore w (slot_at w r.now) es × EventsTimely es
  EventsTimely (swept key now ∷ es) = AllAsked (InTime now) es × EventsTimely es

  ordered-InTime :
      (now : Time) (es : List Event) → EventsBefore w (slot_at w now) es → AllAsked (InTime now) es
  ordered-InTime now [] b = tt
  ordered-InTime now (asked r ∷ es) b = (inl b.0, ordered-InTime now es b.1)
  ordered-InTime now (swept key then_ ∷ es) b = ordered-InTime now es b.1

  pub ordered_timely : (es : List Event) → EventsOrdered w es → EventsTimely es
  ordered_timely [] o = tt
  ordered_timely (asked r ∷ es) o = (o.0, ordered_timely es o.1)
  ordered_timely (swept key now ∷ es) o = (ordered-InTime now es o.0, ordered_timely es o.1)

sweep_missing :
    (key : Text) (now : Time) (m : UnknownMap)
    → lookup key m.counters ≡ none
    → (delete_if_inactive key now m).1.counters ≡ m.counters
unfolding delete_if_inactive
sweep_missing key now m e = ground arith

sweep_active :
    (key : Text) (now : Time) (m : UnknownMap) (c : UnknownCounter)
    → lookup key m.counters ≡ some c
    → is_inactive c.slot c.last_request now m.window_s ≡ false
    → (delete_if_inactive key now m).1.counters ≡ m.counters
unfolding delete_if_inactive
sweep_active key now m c e a = ground arith

sweep_inactive :
    (key : Text) (now : Time) (m : UnknownMap) (c : UnknownCounter)
    → lookup key m.counters ≡ some c
    → is_inactive c.slot c.last_request now m.window_s ≡ true
    → (delete_if_inactive key now m).1.counters ≡ erase key m.counters
unfolding delete_if_inactive
sweep_inactive key now m c e a = ground arith

-- DeleteIfInactive leaves a key's counter alone, or drops it because it is inactive.
pub sweep_cases :
    (key : Text) (now : Time) (m : UnknownMap) (j : Text)
    → (lookup j (delete_if_inactive key now m).1.counters ≡ lookup j m.counters)
      ⊎ ((c : UnknownCounter) × (lookup j m.counters ≡ some c)
          × (is_inactive c.slot c.last_request now m.window_s ≡ true)
          × (lookup j (delete_if_inactive key now m).1.counters ≡ none))
sweep_cases key now m j = elim (Option-cases (lookup key m.counters)) [
  | inl e ↦ inl (ap (lookup j) (sweep_missing key now m e))
  | inr (c, e) ↦ elim (Bool-cases (is_inactive c.slot c.last_request now m.window_s)) [
    | inr a ↦ inl (ap (lookup j) (sweep_active key now m c e a))
    | inl a ↦ elim (Bool-cases (text_eq key j)) [
      | inl q ↦ inr (
        c,
        ap (λ k. lookup k m.counters) (sym (text_eq→ key j q)) ∙ e,
        a,
        ap (lookup j) (sweep_inactive key now m c e a)
            ∙ lookup-erase key j m.counters
            ∙ ap (λ b. if b then none else lookup j m.counters) q,
      )
      | inr q ↦ inl (
          ap (lookup j) (sweep_inactive key now m c e a)
          ∙ lookup-erase key j m.counters
          ∙ ap (λ b. if b then none else lookup j m.counters) q)
    ]
  ]
]
