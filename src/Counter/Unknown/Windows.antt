-- ===== src/Counter/Unknown/Windows.antt =====
-- UnknownMap fills the interface of a fixed-window map, whatever the limits and multipliers that its
-- requests bring.
use api_ratelimiter.Base.{
  ℕ, ◌≡◌, refl, ◌∙◌, text_eq→, Option, none, some, ℤ, pos, ◌+64◌, Text, text_eq, ◌==◌, arith,
  if◌then◌else◌, Bool-cases, inl, inr,
}
use api_ratelimiter.Base.Dict.{lookup, lookup-insert}
use api_ratelimiter.Clock.{Time, slot_at}
use api_ratelimiter.Counter.Window.{FixedWindow, verdict}
use api_ratelimiter.Counter.Unknown.{
  UnknownCounter, UnknownMap, new_unknown_map, serve_request, record_request,
}

-- A call of RecordRequest: what m.now() returns, and the arguments.
pub record UnknownRequest : Type 0 where
  pub now : Time
  pub key : Text
  pub global_limit : ℤ
  pub burst : ℤ
  pub abuse_multiplier : ℤ

-- What a counter, if there is one, has counted in a window.
unfoldable pub counted : ℕ → Option UnknownCounter → ℤ
counted t none = pos 0
counted t (some c) = if c.slot == t then c.window_count else pos 0

unfoldable pub tally : Text → ℕ → UnknownMap → ℤ
unfolding counted
tally j t m = counted t (lookup j m.counters)

serve_request-verdict :
    (now : Time) (s : ℕ) (limit burst mult : ℤ) (found : Option UnknownCounter)
    → (serve_request now s limit burst mult found).0
      ≡ verdict limit burst (counted s found +64 pos 1)
unfolding serve_request counted verdict
serve_request-verdict now s limit burst mult none = ground arith
serve_request-verdict now s limit burst mult (some c) = ground arith

serve_request-counted :
    (now : Time) (s t : ℕ) (limit burst mult : ℤ) (found : Option UnknownCounter)
    → counted t (some (serve_request now s limit burst mult found).1)
      ≡ (if s == t then counted t found +64 pos 1 else pos 0)
unfolding serve_request counted
serve_request-counted now s t limit burst mult none = ground arith
serve_request-counted now s t limit burst mult (some c) = ground arith

pub record_request-tally :
    (now : Time) (key : Text) (limit burst mult : ℤ) (m : UnknownMap) (j : Text) (t : ℕ)
    → tally j t (record_request now key limit burst mult m).1 ≡ (
        if text_eq key j
        then (if slot_at m.window_s now == t then tally j t m +64 pos 1 else pos 0)
        else tally j t m)
unfolding tally record_request
record_request-tally now key limit burst mult m j t =
    rw lookup-insert (elim (Bool-cases (text_eq key j)) [
      | inl e ↦
          rw (e, serve_request-counted now (slot_at m.window_s now) t limit burst mult _)
            (rw (text_eq→ key j e))
      | inr e ↦ rw e
    ])

pub window_s-record_request :
    (now : Time) (key : Text) (limit burst mult : ℤ) (m : UnknownMap)
    → (record_request now key limit burst mult m).1.window_s ≡ m.window_s
unfolding record_request
window_s-record_request now key limit burst mult m = refl

pub window_s-new_unknown_map : (w : ℕ) → (new_unknown_map w).window_s ≡ w
unfolding new_unknown_map
window_s-new_unknown_map w = refl

pub tally-new_unknown_map : (w : ℕ) (j : Text) (t : ℕ) → tally j t (new_unknown_map w) ≡ pos 0
unfolding tally new_unknown_map lookup
tally-new_unknown_map w j t = refl

pub record_request-verdict :
    (now : Time) (key : Text) (limit burst mult : ℤ) (m : UnknownMap)
    → (record_request now key limit burst mult m).0
      ≡ verdict limit burst (tally key (slot_at m.window_s now) m +64 pos 1)
unfolding record_request tally
record_request-verdict now key limit burst mult m =
    serve_request-verdict now (slot_at m.window_s now) limit burst mult (lookup key m.counters)

abbrev pub unknown_window : ℕ → FixedWindow
unknown_window w = record {
  State = UnknownMap;
  Request = UnknownRequest;
  key = λ r. r.key;
  window = λ r. slot_at w r.now;
  limit = λ r. r.global_limit;
  burst = λ r. r.burst;
  IsReady = λ m. m.window_s ≡ w;
  init = new_unknown_map w;
  step = λ r m. record_request r.now r.key r.global_limit r.burst r.abuse_multiplier m;
  tally = tally;
  init_ready = window_s-new_unknown_map w;
  step_ready =
      λ r m e. window_s-record_request r.now r.key r.global_limit r.burst r.abuse_multiplier m ∙ e;
  tally_init = tally-new_unknown_map w;
  step_verdict = λ r m e.
      rw (← e) (record_request-verdict r.now r.key r.global_limit r.burst r.abuse_multiplier m);
  tally_step = λ r m j t e.
      rw (← e) (record_request-tally r.now r.key r.global_limit r.burst r.abuse_multiplier m j t);
}
