-- ===== src/Cleanup/Steps/Begins.antt =====
-- A cycle of internal/cleanup/cleanup.go keeps the instant at which it has started.
use api_ratelimiter.Base.{Bool, Bool-cases, inl, inr, Option-cases, List, [], ◌∷◌, leb_ℤ, ◌&&◌}
use api_ratelimiter.Clock.{Time}
use api_ratelimiter.Counter.Unknown
use api_ratelimiter.Counter.Unknown.{UnknownSnapshot}
use api_ratelimiter.Cleanup.{CleanupStore, Cleanup}
use api_ratelimiter.Cleanup.Steps.{
  Cycle, Stage, Task, idle, busy, asking, answered, scanning, turning, sending, dropping,
  start_turn, work, step,
}

-- What holds of the first instant of the cycle under way.
abbrev pub Begins {ℓ} : (Time → Type ℓ) → Task → Type ℓ
Begins P idle = Unit
Begins P (busy c) = P c.begin

pub Begins-map {ℓ ℓ'} :
    (P : Time → Type ℓ) (Q : Time → Type ℓ') (task : Task)
    → ((begin : Time) → P begin → Q begin)
    → Begins P task
    → Begins Q task
Begins-map P Q idle f p = tt
Begins-map P Q (busy c) f p = f c.begin p

pub Begins-both {ℓ ℓ' ℓ''} :
    (P : Time → Type ℓ) (Q : Time → Type ℓ') (R : Time → Type ℓ'') (task : Task)
    → ((begin : Time) → P begin → Q begin → R begin)
    → Begins P task
    → Begins Q task
    → Begins R task
Begins-both P Q R idle f p q = tt
Begins-both P Q R (busy c) f p q = f c.begin p q

module _ {ℓ} (i : CleanupStore) (P : Time → Type ℓ) where
  start_turn-Begins :
      (c : Cycle) (up : Bool) (e : UnknownSnapshot) (es : List UnknownSnapshot) (s : Cleanup i)
      → P c.begin
      → Begins P (start_turn i c up e es s).0
  unfolding start_turn
  start_turn-Begins c up (key, x) es s b =
      elim (Bool-cases (leb_ℤ s.transfer_threshold x.abuse_hits && up)) [
        | inr d ↦ rw d b
        | inl d ↦ elim (Option-cases (Unknown.get key s.unknown)) [
          | inl e ↦ rw (d, e) b
          | inr (live, e) ↦ rw (d, e) b
        ]
      ]

  pub work-Begins :
      (now : Time) (c : Cycle) (stage : Stage) (s : Cleanup i)
      → P c.begin
      → Begins P (work i now c stage s).0
  unfolding work
  work-Begins now c (asking []) s b = b
  work-Begins now c (asking (e ∷ es)) s b = b
  work-Begins now c (answered key exists es) s b = b
  work-Begins now c (scanning up) s b = b
  work-Begins now c (turning up []) s b = tt
  work-Begins now c (turning up (e ∷ es)) s b = start_turn-Begins c up e es s b
  work-Begins now c (sending up key live es) s b = b
  work-Begins now c (dropping up key es) s b = b

  pub step-Begins :
      (now : Time) (task : Task) (s : Cleanup i)
      → P now
      → Begins P task
      → Begins P (step i now task s).0
  unfolding step
  step-Begins now idle s p b = p
  step-Begins now (busy c) s p b = work-Begins now c c.stage s b
