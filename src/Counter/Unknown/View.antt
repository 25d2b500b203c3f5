-- ===== src/Counter/Unknown/View.antt =====
-- UnknownMap of internal/counter/unknown.go as a user of its methods sees it: the counter of each key,
-- and no order among the keys. Each counter lives by itself.
use mathlib.Core.Quot
use mathlib.Core.Quot.{Quot}
use mathlib.Core.Path.{fun_ext}
use api_ratelimiter.Base.{
  ℕ, ◌≡◌, refl, sym, ap, ◌∙◌, Bool, false, Bool-cases, inl, inr, Option, none, some, List, [], ◌∷◌,
  Text, text_eq, text_eq→, text_eq_iff, text_ne_sym, arith, if◌then◌else◌,
}
use api_ratelimiter.Base.Dict.{lookup}
use api_ratelimiter.Clock.{Time, slot_at}
use api_ratelimiter.Counter.Inactive.{is_inactive}
use api_ratelimiter.Counter.{Decision}
use api_ratelimiter.Counter.Unknown.{
  UnknownCounter, UnknownMap, new_unknown_map, serve_request, record_request, delete_if_inactive,
}
use api_ratelimiter.Counter.Unknown.Windows.{window_s-record_request}
use api_ratelimiter.Counter.Unknown.Entries.{
  survivor, lookup-record_request, delete_if_inactive-survivor, window_s-delete_if_inactive,
}
use api_ratelimiter.Counter.Unknown.Sweeps.{Event, asked, swept, handle, after_events}
use api_ratelimiter.Counter.Unknown.Sweeps.Verdicts.{window_s-after_events}

abbrev pub key_of : Event → Text
key_of (asked r) = r.key
key_of (swept key now) = key

-- What the method returns.
pub data Answer : Type 0 where
  decided : Decision → Answer
  deleted : Bool → Answer

abbrev pub answer : Event → UnknownMap → Answer
answer (asked r) m =
    decided (record_request r.now r.key r.global_limit r.burst r.abuse_multiplier m).0
answer (swept key now) m = deleted (delete_if_inactive key now m).0

-- The life of a single counter, in windows of w seconds.
abbrev pub step : ℕ → Event → Option UnknownCounter → Option UnknownCounter
step w (asked r) o =
    some (serve_request r.now (slot_at w r.now) r.global_limit r.burst r.abuse_multiplier o).1
step w (swept key now) o = survivor now w o

-- The counter of a key after the events of this key, the newest first.
abbrev pub life : ℕ → Text → List Event → Option UnknownCounter
life w j [] = none
life w j (e ∷ es) = if text_eq (key_of e) j then step w e (life w j es) else life w j es

window_s-handle : (e : Event) (m : UnknownMap) → (handle e m).window_s ≡ m.window_s
unfolding handle
window_s-handle (asked r) m =
    window_s-record_request r.now r.key r.global_limit r.burst r.abuse_multiplier m
window_s-handle (swept key now) m = window_s-delete_if_inactive key now m

pub lookup-handle :
    (e : Event) (m : UnknownMap) (j : Text)
    → lookup j (handle e m).counters ≡ (
        if text_eq (key_of e) j
        then step m.window_s e (lookup j m.counters)
        else lookup j m.counters)
unfolding handle
lookup-handle (asked r) m j = elim (Bool-cases (text_eq r.key j)) [
  | inl q ↦
      lookup-record_request r.now r.key r.global_limit r.burst r.abuse_multiplier m j
      ∙ rw q (ap (λ k. step m.window_s (asked r) (lookup k m.counters)) (text_eq→ r.key j q))
  | inr q ↦
      lookup-record_request r.now r.key r.global_limit r.burst r.abuse_multiplier m j ∙ rw q refl
]
lookup-handle (swept key now) m j = delete_if_inactive-survivor key now m j

lookup-after_events :
    (w : ℕ) (es : List Event) (j : Text) → lookup j (after_events w es).counters ≡ life w j es
unfolding after_events
lookup-after_events w [] j = unfold new_unknown_map lookup in refl
lookup-after_events w (e ∷ es) j =
    lookup-handle e (after_events w es) j
    ∙ rw (window_s-after_events w es, lookup-after_events w es j) refl

-- The map that any history of requests and DeleteIfInactive calls leaves, as the function from keys to
-- counters that Get reads, is the family of counters of which each has lived through the events of
-- its own key alone: no client's counter depends on another client.
pub view-after_events :
    (w : ℕ) (es : List Event)
    → ◌≡◌ {A = Text → Option UnknownCounter}
        (λ j. lookup j (after_events w es).counters)
        (λ j. life w j es)
view-after_events w es = fun_ext (lookup-after_events w es)

-- Two maps with the same windows and the same counters.
abbrev pub SameCounters : UnknownMap → UnknownMap → Type 0
SameCounters m n =
    (m.window_s ≡ n.window_s) × ((j : Text) → lookup j m.counters ≡ lookup j n.counters)

-- A map up to the order in which a range meets its entries.
abbrev pub View : Type 0
View = Quot SameCounters

-- An event of another key leaves a counter alone.
lookup-handle_other :
    (e : Event) (m : UnknownMap) (j : Text)
    → text_eq (key_of e) j ≡ false
    → lookup j (handle e m).counters ≡ lookup j m.counters
lookup-handle_other e m j d = lookup-handle e m j ∙ rw d refl

-- What DeleteIfInactive says of a counter.
abbrev is_gone : ℕ → Time → Option UnknownCounter → Bool
is_gone w now none = false
is_gone w now (some c) = is_inactive c.slot c.last_request now w

delete_if_inactive-is_gone :
    (key : Text) (now : Time) (m : UnknownMap)
    → (delete_if_inactive key now m).0 ≡ is_gone m.window_s now (lookup key m.counters)
unfolding delete_if_inactive
delete_if_inactive-is_gone key now m = ground arith

-- The answer is read off the counter of the event's key.
answer_of_counter :
    (e : Event) (m n : UnknownMap)
    → m.window_s ≡ n.window_s
    → lookup (key_of e) m.counters ≡ lookup (key_of e) n.counters
    → answer e m ≡ answer e n
unfolding record_request
answer_of_counter (asked r) m n v q = rw (v, q) refl
answer_of_counter (swept key now) m n v q = ap deleted (
    delete_if_inactive-is_gone key now m
    ∙ rw (v, q) refl
    ∙ sym (delete_if_inactive-is_gone key now n))

lookup-swap :
    (e f : Event) (m : UnknownMap)
    → text_eq (key_of e) (key_of f) ≡ false
    → (j : Text)
    → lookup j (handle e (handle f m)).counters ≡ lookup j (handle f (handle e m)).counters
lookup-swap e f m d j = ground (
  arith,
  lookup-handle e (handle f m) j,
  lookup-handle f m j,
  lookup-handle f (handle e m) j,
  lookup-handle e m j,
  window_s-handle e m,
  window_s-handle f m,
  text_eq_iff (key_of e) j,
  text_eq_iff (key_of f) j,
  text_eq_iff (key_of e) (key_of f),
)

handle-swap :
    (e f : Event) (m : UnknownMap)
    → text_eq (key_of e) (key_of f) ≡ false
    → SameCounters (handle e (handle f m)) (handle f (handle e m))
handle-swap e f m d = (
  window_s-handle e (handle f m)
      ∙ window_s-handle f m
      ∙ sym (window_s-handle f (handle e m) ∙ window_s-handle e m),
  lookup-swap e f m d,
)

-- Two calls of RecordRequest or DeleteIfInactive for different keys, whichever comes first: they get
-- the same answers, and leave the same map up to the order of its entries. So it does not matter in
-- which order goroutines that serve different clients take the lock.
pub different_keys_commute :
    (e f : Event) (m : UnknownMap)
    → text_eq (key_of e) (key_of f) ≡ false
    → (◌≡◌ {A = View} (Quot.mk (handle e (handle f m))) (Quot.mk (handle f (handle e m))))
      × (answer e (handle f m) ≡ answer e m)
      × (answer f (handle e m) ≡ answer f m)
different_keys_commute e f m d = (
  Quot.sound (handle-swap e f m d),
  answer_of_counter e (handle f m) m (window_s-handle f m)
      (lookup-handle_other f m (key_of e) (text_ne_sym (key_of e) (key_of f) d)),
  answer_of_counter f (handle e m) m (window_s-handle e m) (lookup-handle_other e m (key_of f) d),
)
