-- ===== src/Counter/Known/Windows.antt =====
-- KnownMap fills the interface of a fixed-window map, whatever the limits that its requests bring.
use api_ratelimiter.Base.{
  ℕ, ◌≡◌, refl, ◌∙◌, text_eq→, Option, none, some, ℤ, pos, ◌+64◌, Text, text_eq, ◌==◌, arith,
  if◌then◌else◌, Bool-cases, inl, inr,
}
use api_ratelimiter.Base.Dict.{lookup, lookup-insert}
use api_ratelimiter.Clock.{Time, slot_at}
use api_ratelimiter.Counter.Window.{FixedWindow, verdict}
use api_ratelimiter.Counter.Known.{
  KnownCounter, KnownMap, new_known_map, serve_request, record_request,
}

-- A call of RecordRequest: what m.now() returns, and the arguments.
pub record KnownRequest : Type 0 where
  pub now : Time
  pub key : Text
  pub limit : ℤ
  pub burst : ℤ

-- What a counter, if there is one, has counted in a window.
unfoldable pub counted : ℕ → Option KnownCounter → ℤ
counted t none = pos 0
counted t (some c) = if c.slot == t then c.window_count else pos 0

unfoldable pub tally : Text → ℕ → KnownMap → ℤ
unfolding counted
tally j t m = counted t (lookup j m.counters)

serve_request-verdict :
    (now : Time) (s : ℕ) (limit burst : ℤ) (found : Option KnownCounter)
    → (serve_request now s limit burst found).0 ≡ verdict limit burst (counted s found +64 pos 1)
unfolding serve_request counted verdict
serve_request-verdict now s limit burst none = ground arith
serve_request-verdict now s limit burst (some c) = ground arith

serve_request-counted :
    (now : Time) (s t : ℕ) (limit burst : ℤ) (found : Option KnownCounter)
    → counted t (some (serve_request now s limit burst found).1)
      ≡ (if s == t then counted t found +64 pos 1 else pos 0)
unfolding serve_request counted
serve_request-counted now s t limit burst none = ground arith
serve_request-counted now s t limit burst (some c) = ground arith

pub record_request-tally :
    (now : Time) (key : Text) (limit burst : ℤ) (m : KnownMap) (j : Text) (t : ℕ)
    → tally j t (record_request now key limit burst m).1 ≡ (
        if text_eq key j
        then (if slot_at m.window_s now == t then tally j t m +64 pos 1 else pos 0)
        else tally j t m)
unfolding tally record_request
record_request-tally now key limit burst m j t =
    rw lookup-insert (elim (Bool-cases (text_eq key j)) [
      | inl e ↦
          rw (e, serve_request-counted now (slot_at m.window_s now) t limit burst _)
            (rw (text_eq→ key j e))
      | inr e ↦ rw e
    ])

pub window_s-record_request :
    (now : Time) (key : Text) (limit burst : ℤ) (m : KnownMap)
    → (record_request now key limit burst m).1.window_s ≡ m.window_s
unfolding record_request
window_s-record_request now key limit burst m = refl

pub window_s-new_known_map : (w : ℕ) → (new_known_map w).window_s ≡ w
unfolding new_known_map
window_s-new_known_map w = refl

pub tally-new_known_map : (w : ℕ) (j : Text) (t : ℕ) → tally j t (new_known_map w) ≡ pos 0
unfolding tally new_known_map lookup
tally-new_known_map w j t = refl

pub record_request-verdict :
    (now : Time) (key : Text) (limit burst : ℤ) (m : KnownMap)
    → (record_request now key limit burst m).0
      ≡ verdict limit burst (tally key (slot_at m.window_s now) m +64 pos 1)
unfolding record_request tally
record_request-verdict now key limit burst m =
    serve_request-verdict now (slot_at m.window_s now) limit burst (lookup key m.counters)

abbrev pub known_window : ℕ → FixedWindow
known_window w = record {
  State = KnownMap;
  Request = KnownRequest;
  key = λ r. r.key;
  window = λ r. slot_at w r.now;
  limit = λ r. r.limit;
  burst = λ r. r.burst;
  IsReady = λ m. m.window_s ≡ w;
  init = new_known_map w;
  step = λ r m. record_request r.now r.key r.limit r.burst m;
  tally = tally;
  init_ready = window_s-new_known_map w;
  step_ready = λ r m e. window_s-record_request r.now r.key r.limit r.burst m ∙ e;
  tally_init = tally-new_known_map w;
  step_verdict = λ r m e. rw (← e) (record_request-verdict r.now r.key r.limit r.burst m);
  tally_step = λ r m j t e. rw (← e) (record_request-tally r.now r.key r.limit r.burst m j t);
}
