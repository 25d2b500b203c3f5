-- ===== src/Counter/Window/Admission.antt =====
-- How many requests of one key a fixed window lets through, over a history whose clock never goes
-- back.
use api_ratelimiter.Base.{
  ℕ, suc, ◌+◌, ◌≤◌, ◌<◌, ◌^◌, min, ◌≡◌, refl, inl, inr, Bool-cases, ==_iff, text_eq→, ltb, true,
  List, [], ◌∷◌, pos, +64_pos, Text, text_eq, length, ◌==◌, arith, if◌then◌else◌,
}
use api_ratelimiter.Counter.Window.{FixedWindow, verdict, replay, seen, step-replay}

module _ (w : FixedWindow) where
  open w use {Request, key, window, limit, burst, step}

  -- The requests of a key in a window, and those among them that were let through.
  unfoldable pub requests_in : Text → ℕ → List Request → ℕ
  requests_in j t [] = 0
  requests_in j t (r ∷ h) =
      let n = requests_in j t h in
      if text_eq (key r) j then (if window r == t then suc n else n) else n

  unfoldable pub admitted_in : Text → ℕ → List Request → ℕ
  admitted_in j t [] = 0
  admitted_in j t (r ∷ h) =
      let n = admitted_in j t h in
      if text_eq (key r) j
      then (if window r == t then (if (step r (replay w h)).0.allowed then suc n else n) else n)
      else n

  -- No request of the history is in a later window than t.
  abbrev pub IsBefore : ℕ → List Request → Type 0
  IsBefore t [] = Unit
  IsBefore t (r ∷ h) = (window r ≤ t) × IsBefore t h

  -- The windows of a history never go back.
  abbrev pub IsOrdered : List Request → Type 0
  IsOrdered [] = Unit
  IsOrdered (r ∷ h) = IsBefore (window r) h × IsOrdered h

  -- Every request of the key j comes with the same limit and burst.
  abbrev pub HasQuota : Text → ℕ → ℕ → List Request → Type 0
  HasQuota j l b [] = Unit
  HasQuota j l b (r ∷ h) =
      (text_eq (key r) j ≡ true → (limit r ≡ pos l) × (burst r ≡ pos b)) × HasQuota j l b h

  requests_in_later :
      (j : Text) (s t : ℕ) (h : List Request) → s < t → IsBefore s h → requests_in j t h ≡ 0
  unfolding requests_in
  requests_in_later j s t [] lt b = refl
  requests_in_later j s t (r ∷ h) lt b = ground (arith, requests_in_later j s t h lt b.1, b.0)

  seen-eq-requests_in :
      (j : Text) (t : ℕ) (h : List Request)
      → IsOrdered h
      → IsBefore t h
      → seen w j t h ≡ requests_in j t h
  unfolding seen requests_in
  seen-eq-requests_in j t [] o b = refl
  seen-eq-requests_in j t (r ∷ h) o b =
      ground
        (arith, seen-eq-requests_in j t h o.1 b.1, requests_in_later j (window r) t h, o.0, b.0)

  admitted_step :
      (r : Request) (h : List Request) (l b : ℕ)
      → limit r ≡ pos l
      → burst r ≡ pos b
      → l + b < 2 ^ 63
      → length h + 1 < 2 ^ 63
      → (step r (replay w h)).0.allowed ≡ ltb (seen w (key r) (window r) h) (l + b)
  unfolding verdict
  admitted_step r h l b hl hb q n =
      rw (step-replay w r h n) (rw (hl, hb) (rw (+64_pos l b q) (ground arith)))

  -- Of the requests of a key in a window the first `l + b` are let through, and no other.
  pub admitted_in_window :
      (j : Text) (t l b : ℕ) (h : List Request)
      → IsOrdered h
      → HasQuota j l b h
      → l + b < 2 ^ 63
      → length h < 2 ^ 63
      → admitted_in j t h ≡ min (requests_in j t h) (l + b)
  unfolding requests_in admitted_in
  admitted_in_window j t l b [] o c q n = omega arith
  admitted_in_window j t l b (r ∷ h) o c q n = elim (Bool-cases (text_eq (key r) j)) [
    | inr e ↦ rw e (admitted_in_window j t l b h o.1 c.1 q (omega arith))
    | inl e ↦ elim (Bool-cases (window r == t)) [
      | inr f ↦ rw (e, f) (admitted_in_window j t l b h o.1 c.1 q (omega arith))
      | inl f ↦
          rw
            (
              e,
              f,
              admitted_step r h l b (c.0 e).0 (c.0 e).1 q (omega arith),
              seen-eq-requests_in (key r) (window r) h o.1 o.0,
              text_eq→ (key r) j e,
              (==_iff (window r) t).0 f,
            )
            (ground (arith, admitted_in_window j t l b h o.1 c.1 q (omega arith)))
    ]
  ]
