-- ===== src/Store/Scans/Runs.antt =====
-- The cursor loop of the scans in internal/store/redis.go, against the replies of a server.
use mathlib.Core.List.{append_assoc}
use api_ratelimiter.Base.{◌≤◌, arith, ℕ, zero, suc, ◌≡◌, ap, ◌∙◌, true, List, [], ◌++◌, Text}
use api_ratelimiter.Redis.{Db, value, Redis}
use api_ratelimiter.Store.{Store, observe}
use api_ratelimiter.Store.Scans.{
  Scanner, Scanned, scanned, scan_failed, read_keys, scan_round, after_keys, observed, Round,
  broken, done, again, scan_loop, scan_with,
}

module _ (r : Redis) (c : Scanner r) {A : Type 0} where
  open r use {Server}
  open c use {scan}

  module _ (read : Text → Server → List A × Server) (db : Db) (pattern : Text) where
    -- The replies to n SCAN commands from a cursor on, up to the cursor 0, with the entries read.
    pub data ScanRun : ℕ → ℕ → Server → List A → Server → Type 0 where
      last :
          {cursor : ℕ} {v v1 v2 : Server} {keys : List Text} {es : List A}
          → scan db cursor pattern v ≡ (value (keys, 0), v1)
          → read_keys r c read db pattern keys v1 ≡ (es, v2)
          → ScanRun 1 cursor v es v2
      more :
          {n cursor next : ℕ} {v v1 v2 v3 : Server} {keys : List Text} {es rest : List A}
          → scan db cursor pattern v ≡ (value (keys, suc next), v1)
          → read_keys r c read db pattern keys v1 ≡ (es, v2)
          → ScanRun n (suc next) v2 rest v3
          → ScanRun (suc n) cursor v (es ++ rest) v3

    -- What the loop does with a round.
    next_round : ℕ → Round A Server → Scanned A × Server
    next_round fuel (broken v) = (scan_failed, v)
    next_round fuel (done all v) = (scanned all, v)
    next_round fuel (again next all v) = scan_loop r c read db pattern fuel next all v

    scan_loop-ScanRun :
        (fuel : ℕ) {n cursor : ℕ} {v v' : Server} {es : List A} (out : List A)
        → n ≤ fuel
        → ScanRun n cursor v es v'
        → scan_loop r c read db pattern fuel cursor out v ≡ (scanned (out ++ es), v')
    unfolding scan_loop scan_round after_keys next_round
    scan_loop-ScanRun zero out h (last e d) = absurd (omega arith)
    scan_loop-ScanRun zero out h (more e d s) = absurd (omega arith)
    scan_loop-ScanRun (suc fuel) out h (last e d) =
        ap (next_round fuel)
          (ap (scan_round r c read db pattern out) e ∙ ap (after_keys r c read db pattern out 0) d)
    scan_loop-ScanRun (suc fuel) out h
          (more {next = next} {v3 = v3} {es = es} {rest = rest} e d s) =
        ap (next_round fuel) (
          ap (scan_round r c read db pattern out) e
          ∙ ap (after_keys r c read db pattern out (suc next)) d)
        ∙ scan_loop-ScanRun fuel (out ++ es) (omega arith) s
        ∙ ap (λ l. (scanned l, v3)) (append_assoc out es rest)

    -- Once the server's replies lead back to the cursor 0, after n SCAN commands, a scan with fuel for
    -- n or more rounds returns the entries that were read, in the order of the replies, and observes
    -- a success.
    pub scan_with-ScanRun :
        (op : Text) (fuel n : ℕ) (s : Store r) (es : List A) (server : Server)
        → n ≤ fuel
        → ScanRun n 0 s.server es server
        → scan_with r c read db pattern op fuel s
          ≡ (scanned es, observe r op true (record s { server = server }))
    unfolding scan_with observed
    scan_with-ScanRun op fuel n s es server h run =
        ap (observed r c op s) (scan_loop-ScanRun fuel [] h run)
