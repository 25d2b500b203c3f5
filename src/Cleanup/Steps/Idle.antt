-- ===== src/Cleanup/Steps/Idle.antt =====
-- A cycle of internal/cleanup/cleanup.go comes to every counter of the unknown map that is there when
-- it takes the snapshot.
use api_ratelimiter.Base.{
  ◌≡◌, sym, ap, ◌∙◌, ◌⊎◌, inl, inr, Bool, true, Bool-cases, Option, none, some, Option-cases, List,
  [], ◌∷◌, Text, text_eq, text_eq→, ◌||◌, ◌&&◌, leb_ℤ, arith,
}
use api_ratelimiter.Base.Dict.{lookup}
use api_ratelimiter.Clock.{Time}
use api_ratelimiter.Counter.Unknown
use api_ratelimiter.Counter.Unknown.{
  UnknownCounter, UnknownMap, UnknownSnapshot, delete_if_inactive,
}
use api_ratelimiter.Counter.Unknown.Entries.{survivor, delete_if_inactive-survivor}
use api_ratelimiter.Counter.Unknown.Sweeps.{sweep_cases}
use api_ratelimiter.Cleanup.{CleanupStore, Cleanup, drop_if_inactive, count_deleted, count_run}
use api_ratelimiter.Cleanup.Sweep.{has_key, has_key-none}
use api_ratelimiter.Cleanup.Steps.Begins.{Begins, work-Begins}
use api_ratelimiter.Cleanup.Steps.{
  Cycle, Stage, Task, idle, busy, asking, answered, scanning, turning, sending, dropping,
  start_turn, work, step, sweep, swept_key, work_unknown,
}

-- The turn of a key has not come yet, or is not over.
abbrev pub IsPending : Text → Stage → Type 0
IsPending k (asking es) = Unit
IsPending k (answered key exists es) = Unit
IsPending k (scanning up) = Unit
IsPending k (turning up es) = has_key k es ≡ true
IsPending k (sending up key live es) = text_eq key k || has_key k es ≡ true
IsPending k (dropping up key es) = text_eq key k || has_key k es ≡ true

abbrev pub PendingIn : Text → Task → Type 0
PendingIn k idle = ⊥
PendingIn k (busy c) = IsPending k c.stage

module _ (i : CleanupStore) (k : Text) where
  -- The counter of the key would be dropped at an instant.
  abbrev pub IsOver : Time → UnknownMap → Type 0
  IsOver now m = survivor now m.window_s (lookup k m.counters) ≡ none

  dropped :
      (key : Text) (now : Time) (m : UnknownMap)
      → text_eq key k ≡ true
      → IsOver now m
      → lookup k (delete_if_inactive key now m).1.counters ≡ none
  dropped key now m e o = rw (delete_if_inactive-survivor key now m k, e) o

  start_turn-IsPending :
      (c : Cycle) (up : Bool) (e : UnknownSnapshot) (es : List UnknownSnapshot) (s : Cleanup i)
      → IsOver c.begin s.unknown
      → IsPending k (turning up (e ∷ es))
      → (lookup k (start_turn i c up e es s).1.unknown.counters ≡ none)
        ⊎ PendingIn k (start_turn i c up e es s).0
  unfolding start_turn drop_if_inactive count_deleted Unknown.get
  start_turn-IsPending c up (key, x) es s o p = elim (Bool-cases (text_eq key k)) [
    | inl t ↦ elim (Bool-cases (leb_ℤ s.transfer_threshold x.abuse_hits && up)) [
      | inr d ↦ rw d (inl (dropped key c.begin s.unknown t o))
      | inl d ↦ elim (Option-cases (lookup key s.unknown.counters)) [
        | inl e ↦
            rw (d, e) (inl (ap (λ j. lookup j s.unknown.counters) (sym (text_eq→ key k t)) ∙ e))
        | inr (live, e) ↦ rw (d, e) (inr p)
      ]
    ]
    | inr t ↦ elim (Bool-cases (leb_ℤ s.transfer_threshold x.abuse_hits && up)) [
      | inr d ↦ rw d (inr (rw t at p))
      | inl d ↦ elim (Option-cases (lookup key s.unknown.counters)) [
        | inl e ↦ rw (d, e) (inr (rw t at p))
        | inr (live, e) ↦ rw (d, e) (inr p)
      ]
    ]
  ]

  work-IsPending :
      (now : Time) (c : Cycle) (stage : Stage) (s : Cleanup i)
      → IsOver c.begin s.unknown
      → IsPending k stage
      → (lookup k (work i now c stage s).1.unknown.counters ≡ none)
        ⊎ PendingIn k (work i now c stage s).0
  unfolding work drop_if_inactive count_deleted Unknown.snapshot
  work-IsPending now c (asking []) s o p = inr tt
  work-IsPending now c (asking (e ∷ es)) s o p = inr tt
  work-IsPending now c (answered key exists es) s o p = inr tt
  work-IsPending now c (scanning up) s o p = elim (Bool-cases (has_key k s.unknown.counters)) [
    | inl e ↦ inr e
    | inr e ↦ inl (has_key-none k s.unknown.counters e)
  ]
  work-IsPending now c (turning up []) s o p = absurd (ground (arith, p))
  work-IsPending now c (turning up (e ∷ es)) s o p = start_turn-IsPending c up e es s o p
  work-IsPending now c (sending up key live es) s o p = inr p
  work-IsPending now c (dropping up key es) s o p = elim (Bool-cases (text_eq key k)) [
    | inl t ↦ inl (dropped key c.begin s.unknown t o)
    | inr t ↦ inr (rw t at p)
  ]

  -- The cycle under way has started at an instant, and the turn of the key is still to come.
  abbrev pub PendingSince : Time → Task → Type 0
  PendingSince begin idle = ⊥
  PendingSince begin (busy c) = (c.begin ≡ begin) × IsPending k c.stage

  since :
      (begin : Time) (task : Task)
      → PendingIn k task
      → Begins (λ t. t ≡ begin) task
      → PendingSince begin task
  since begin idle p b = p
  since begin (busy c) p b = (b, p)

  -- In a cycle for whose start the counter of a key is over, while the turn of the key has not come:
  -- behind a step the key has no counter, or its turn has still not come.
  pub step-PendingSince :
      (begin now : Time) (task : Task) (s : Cleanup i)
      → IsOver begin s.unknown
      → PendingSince begin task
      → (lookup k (step i now task s).1.unknown.counters ≡ none)
        ⊎ PendingSince begin (step i now task s).0
  unfolding step
  step-PendingSince begin now idle s o p = absurd p
  step-PendingSince begin now (busy c) s o (b, p) =
      elim (work-IsPending now c c.stage s (rw b o) p) [
        | inl e ↦ inl e
        | inr n ↦ inr (
            since begin (work i now c c.stage s).0 n
              (work-Begins i (λ t. t ≡ begin) now c c.stage s b))
      ]

  sweep_kept {ℓ} :
      (P : Option UnknownCounter → Type ℓ) (key : Option Text) (now : Time) (m : UnknownMap)
      → P none
      → P (lookup k m.counters)
      → P (lookup k (sweep i key now m).counters)
  sweep_kept P none now m n p = p
  sweep_kept P (some key) now m n p = elim (sweep_cases key now m k) [
    | inl e ↦ rw e p
    | inr (c, e, a, g) ↦ rw g n
  ]

  -- A step drops the counter of a key or leaves it alone.
  pub step_kept {ℓ} :
      (P : Option UnknownCounter → Type ℓ) (now : Time) (task : Task) (s : Cleanup i)
      → P none
      → P (lookup k s.unknown.counters)
      → P (lookup k (step i now task s).1.unknown.counters)
  unfolding step count_run
  step_kept P now idle s n p = p
  step_kept P now (busy c) s n p =
      rw (work_unknown i now c c.stage s)
        (sweep_kept P (swept_key i c.stage s) c.begin s.unknown n p)
