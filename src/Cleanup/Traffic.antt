-- ===== src/Cleanup/Traffic.antt =====
-- A cycle of internal/cleanup/cleanup.go while requests of clients without a limit of their own arrive:
-- seen from the unknown map it is a history of those requests and of DeleteIfInactive calls.
pub mod History
use mathlib.Core.List.{append_assoc}
use api_ratelimiter.Base.{
  ℕ, ◌+◌, ◌≡◌, refl, sym, ap, ◌∙◌, Bool, true, false, Bool-cases, inl, inr, Option, none, some,
  Option-cases, List, [], ◌∷◌, ◌++◌, Text, arith, if◌then◌else◌,
}
use api_ratelimiter.Clock.{Time}
use api_ratelimiter.Counter.Known.{KnownMap, KnownSnapshot}
use api_ratelimiter.Counter.Unknown.{
  UnknownMap, UnknownSnapshot, record_request, delete_if_inactive, get, snapshot,
}
use api_ratelimiter.Counter.Unknown.Windows.{UnknownRequest}
use api_ratelimiter.Counter.Unknown.Sweeps as Sweeps
use api_ratelimiter.Counter.Unknown.Sweeps.{Event, asked, swept, after_events, requests_of}
use api_ratelimiter.Cleanup.{
  CleanupStore, Cleanup, Progress, Noise, clean_unknown, unknown_loop, run_known, run_unknown, run,
  set_db_gauges,
}
use api_ratelimiter.Cleanup.Separate.{run_known_unknown}
use api_ratelimiter.Cleanup.Sweep.{transfers, settled, clean_unknown-unknown}

-- The requests that arrive before the snapshot of the unknown map is taken, before the turn of an
-- entry, and while the record of an entry is sent to Redis, each list the newest first; and what
-- happens to the known map.
pub record Traffic : Type 0 where
  pub known : KnownSnapshot → KnownMap → KnownMap
  pub snapshot_requests : List UnknownRequest
  pub entry_requests : UnknownSnapshot → List UnknownRequest
  pub transfer_requests : UnknownSnapshot → List UnknownRequest

abbrev pub serve_all : List UnknownRequest → UnknownMap → UnknownMap
serve_all [] m = m
serve_all (r ∷ rs) m =
    (record_request r.now r.key r.global_limit r.burst r.abuse_multiplier (serve_all rs m)).1

abbrev pub noise_of : Traffic → Noise
noise_of t = record {
  before_known = t.known;
  before_snapshot = serve_all t.snapshot_requests;
  before_unknown = λ e. serve_all (t.entry_requests e);
  during_transfer = λ e. serve_all (t.transfer_requests e);
}

abbrev pub asked_all : List UnknownRequest → List Event → List Event
asked_all [] es = es
asked_all (r ∷ rs) es = asked r ∷ asked_all rs es

serve_all_append :
    (rs qs : List UnknownRequest) (m : UnknownMap)
    → serve_all rs (serve_all qs m) ≡ serve_all (rs ++ qs) m
serve_all_append [] qs m = refl
serve_all_append (r ∷ rs) qs m =
    ap (λ n. (record_request r.now r.key r.global_limit r.burst r.abuse_multiplier n).1)
      (serve_all_append rs qs m)

after_asked_all :
    (w : ℕ) (rs : List UnknownRequest) (es : List Event)
    → after_events w (asked_all rs es) ≡ serve_all rs (after_events w es)
unfolding after_events Sweeps.handle
after_asked_all w [] es = refl
after_asked_all w (r ∷ rs) es =
    ap (λ n. (record_request r.now r.key r.global_limit r.burst r.abuse_multiplier n).1)
      (after_asked_all w rs es)

requests_of-asked_all :
    (rs : List UnknownRequest) (es : List Event)
    → requests_of (asked_all rs es) ≡ rs ++ requests_of es
unfolding requests_of
requests_of-asked_all [] es = refl
requests_of-asked_all (r ∷ rs) es = ap (◌∷◌ r) (requests_of-asked_all rs es)

module _ (i : CleanupStore) (t : Traffic) (now : Time) where
  -- The requests of the turn of an entry: those of a transfer only when the counter is still there.
  unfoldable pub turn_requests : Bool → UnknownSnapshot → Progress i → List UnknownRequest
  turn_requests up e p =
      if transfers i up e p
      then elim (get e.0 (serve_all (t.entry_requests e) p.state.unknown)) [
        | none ↦ t.entry_requests e
        | some live ↦ t.transfer_requests e ++ t.entry_requests e
      ]
      else t.entry_requests e

  settled-turn_requests :
      (up : Bool) (e : UnknownSnapshot) (p : Progress i)
      → settled i (noise_of t) up e p ≡ serve_all (turn_requests up e p) p.state.unknown
  unfolding settled turn_requests
  settled-turn_requests up e p =
      ground (arith, serve_all_append (t.transfer_requests e) (t.entry_requests e) p.state.unknown)

  -- The history of the loop, in front of the events before it, and the requests in it.
  unfoldable pub loop_events : Bool → List UnknownSnapshot → Progress i → List Event → List Event
  loop_events up [] p h = h
  loop_events up (e ∷ es) p h =
      loop_events up es (clean_unknown i (noise_of t) now up e p)
        (swept e.0 now ∷ asked_all (turn_requests up e p) h)

  unfoldable pub loop_requests : Bool → List UnknownSnapshot → Progress i → List UnknownRequest
  loop_requests up [] p = []
  loop_requests up (e ∷ es) p =
      loop_requests up es (clean_unknown i (noise_of t) now up e p) ++ turn_requests up e p

  unknown_loop_events :
      (w : ℕ) (up : Bool) (es : List UnknownSnapshot) (p : Progress i) (h : List Event)
      → p.state.unknown ≡ after_events w h
      → (unknown_loop i (noise_of t) now up es p).state.unknown
        ≡ after_events w (loop_events up es p h)
  unfolding unknown_loop loop_events after_events Sweeps.handle
  unknown_loop_events w up [] p h q = q
  unknown_loop_events w up (e ∷ es) p h q =
      unknown_loop_events w up es (clean_unknown i (noise_of t) now up e p)
        (swept e.0 now ∷ asked_all (turn_requests up e p) h)
        ((clean_unknown-unknown i (noise_of t) now up e p).0
          ∙ ap (λ m. (delete_if_inactive e.0 now m).1)
              (settled-turn_requests up e p
                ∙ ap (serve_all (turn_requests up e p)) q
                ∙ sym (after_asked_all w (turn_requests up e p) h)))

  requests_of-loop_events :
      (up : Bool) (es : List UnknownSnapshot) (p : Progress i) (h : List Event)
      → requests_of (loop_events up es p h) ≡ loop_requests up es p ++ requests_of h
  unfolding loop_events loop_requests requests_of
  requests_of-loop_events up [] p h = refl
  requests_of-loop_events up (e ∷ es) p h =
      let p' = clean_unknown i (noise_of t) now up e p in
      let rs = turn_requests up e p in
      requests_of-loop_events up es p' (swept e.0 now ∷ asked_all rs h)
      ∙ ap (◌++◌ (loop_requests up es p')) (requests_of-asked_all rs h)
      ∙ sym (append_assoc (loop_requests up es p') rs (requests_of h))

  -- The state in which the loop of runUnknown starts, in a cycle that finds the state s.
  abbrev loop_start : Cleanup i → Progress i
  loop_start s =
      let s1 =
        (run_known i (noise_of t) now (record s {
          metrics = record s.metrics { cleanup_runs_total = s.metrics.cleanup_runs_total + 1 };
        })).state in
      record {
        deleted = 0;
        transferred = 0;
        state = record s1 { unknown = serve_all t.snapshot_requests s1.unknown };
      }

  -- The history of a cycle, in front of the events before it, and the requests in it.
  unfoldable pub cycle_events : Cleanup i → List Event → List Event
  cycle_events s h =
      let p = loop_start s in
      loop_events (i.is_healthy p.state.store) (snapshot p.state.unknown) p
        (asked_all t.snapshot_requests h)

  unfoldable pub cycle_requests : Cleanup i → List UnknownRequest
  cycle_requests s =
      let p = loop_start s in
      loop_requests (i.is_healthy p.state.store) (snapshot p.state.unknown) p ++ t.snapshot_requests

  -- A cycle with requests before the snapshot, before each turn and during each transfer, on a map
  -- that a history of requests and DeleteIfInactive calls has left: it leaves the map that this
  -- history leaves with certain DeleteIfInactive calls and exactly the requests of the cycle behind it.
  pub run-cycle_events :
      (w : ℕ) (finish : Time) (s : Cleanup i) (h : List Event)
      → s.unknown ≡ after_events w h
      → ((run i (noise_of t) now finish s).unknown ≡ after_events w (cycle_events s h))
        × (requests_of (cycle_events s h) ≡ cycle_requests s ++ requests_of h)
  unfolding run run_unknown set_db_gauges cycle_events cycle_requests
  run-cycle_events w finish s h q =
      let p = loop_start s in
      let up = i.is_healthy p.state.store in
      let es = snapshot p.state.unknown in
      (
        unknown_loop_events w up es p (asked_all t.snapshot_requests h) (
            ap (serve_all t.snapshot_requests) (run_known_unknown i (noise_of t) now _ ∙ q)
            ∙ sym (after_asked_all w t.snapshot_requests h)),
        requests_of-loop_events up es p (asked_all t.snapshot_requests h)
            ∙ ap (◌++◌ (loop_requests up es p)) (requests_of-asked_all t.snapshot_requests h)
            ∙ sym (append_assoc (loop_requests up es p) t.snapshot_requests (requests_of h)),
      )
