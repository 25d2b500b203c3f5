-- ===== src/Ip/Dotted.antt =====
-- The IPv4 addresses that net.ParseIP accepts: four octets in their one decimal spelling.
use mathlib.Core.List.{append-nil, append_assoc, cons-ne-nil}
use api_ratelimiter.Base.{
  ℕ, zero, suc, ◌+◌, ◌-◌, ◌*◌, ◌/◌, ◌%◌, ◌<◌, ◌≡◌, ◌≢◌, refl, sym, ap, ◌∙◌, ◌↔◌, Bool, true, false,
  ◌&&◌, Option, none, some, [], ◌∷◌, ◌++◌, Text, ltb, ◌==◌, arith, if◌then◌else◌, Bool-cases, inl,
  inr,
}
use api_ratelimiter.Url.{is_digit}
use api_ratelimiter.Ip.{ipv4_loop, ipv4_valid}

-- The decimal digits of an octet.
unfoldable pub octet : ℕ → Text
octet n =
    if ltb n 10
    then (b'0' + n) ∷ []
    else if ltb n 100
    then (b'0' + n / 10) ∷ (b'0' + n % 10) ∷ []
    else (b'0' + n / 100) ∷ (b'0' + n / 10 % 10) ∷ (b'0' + n % 10) ∷ []

-- A text of octets with k dots between them.
pub data Dotted : ℕ → Text → Type 0 where
  one : {n : ℕ} {s : Text} → n < 256 → s ≡ octet n → Dotted 0 s
  dot : {n k : ℕ} {s t : Text} → n < 256 → s ≡ octet n ++ b'.' ∷ t → Dotted k t → Dotted (suc k) s

octet_grows :
    (n c : ℕ)
    → 0 < n
    → is_digit c ≡ true
    → n * 10 + (c - b'0') < 256
    → octet (n * 10 + (c - b'0')) ≡ octet n ++ c ∷ []
unfolding octet is_digit
octet_grows n c p d h = ground arith

digit_ne_dot : (c : ℕ) → is_digit c ≡ true → (c == b'.') ≡ false
unfolding is_digit
digit_ne_dot c d = ground arith

octet_first : (c : ℕ) → is_digit c ≡ true → octet (c - b'0') ≡ c ∷ []
unfolding octet is_digit
octet_first c d = ground arith

-- In front of an octet: at the start, or behind a dot.
abbrev IsFresh : Option ℕ → Type 0
IsFresh none = Unit
IsFresh (some p) = p ≡ b'.'

abbrev at_start : Option ℕ → Bool
at_start prev = elim prev [ none ↦ true | some p ↦ p == b'.' ]

accepts_digit :
    (prev : Option ℕ) (val pos digits c : ℕ) (s : Text)
    → is_digit c ≡ true
    → ipv4_loop prev val pos digits (c ∷ s) ≡ true
    → ((digits == 1 && val == 0) ≡ false)
      × (val * 10 + (c - b'0') < 256)
      × (ipv4_loop (some c) (val * 10 + (c - b'0')) pos (digits + 1) s ≡ true)
unfolding ipv4_loop
accepts_digit prev val pos digits c s d h = ground arith

accepts_dot :
    (prev : Option ℕ) (val pos digits c : ℕ) (s : Text)
    → is_digit c ≡ false
    → ipv4_loop prev val pos digits (c ∷ s) ≡ true
    → (c ≡ b'.')
      × (at_start prev ≡ false)
      × (s ≢ [])
      × ((pos == 3) ≡ false)
      × (ipv4_loop (some c) 0 (pos + 1) 0 s ≡ true)
unfolding ipv4_loop
accepts_dot prev val pos digits c [] d h = ground arith
accepts_dot prev val pos digits c (x ∷ s) d h =
    (ground arith, ground arith, cons-ne-nil x s, ground arith, ground arith)

zero_tens : (n : ℕ) → n ≡ 0 * 10 + n
zero_tens n = omega arith

no_pad : (digits val : ℕ) → (digits == 1 && val == 0) ≡ false → (val ≡ 0 → digits ≡ 1) → 0 < val
no_pad digits zero h z = absurd (pad_refused digits (z refl) h)
  where
    pad_refused : (n : ℕ) → n ≡ 1 → (n == 1 && ◌==◌ 0 0) ≡ false → ⊥
    pad_refused n e h = ground arith
no_pad digits (suc val) h z = omega arith

too_few :
    (pos k digits p val : ℕ) → pos + suc k ≡ 3 → ipv4_loop (some p) val pos digits [] ≡ true → ⊥
unfolding ipv4_loop
too_few pos k digits p val e h = ground arith

behind_dot :
    (pos : ℕ) {val c : ℕ} {s : Text} (k : ℕ)
    → pos + k ≡ 3
    → (pos == 3) ≡ false
    → c ≡ b'.'
    → val < 256
    → ((j : ℕ) → pos + 1 + j ≡ 3 → Dotted j s)
    → Dotted k (octet val ++ c ∷ s)
behind_dot pos zero e r is_dot v next = absurd (ground arith)
behind_dot pos {val = val} {s = s} (suc j) e r is_dot v next =
    dot v (ap (λ d. octet val ++ d ∷ s) is_dot) (next j (omega arith))

-- What the loop accepts in front of an octet, and inside one with the digits of `val` behind it.
mutual
  accepted_fresh :
      (prev : Option ℕ) (pos k : ℕ) (s : Text)
      → at_start prev ≡ true
      → pos + k ≡ 3
      → s ≢ []
      → ipv4_loop prev 0 pos 0 s ≡ true
      → Dotted k s
  accepted_fresh prev pos k [] f e ne h = absurd (ne refl)
  accepted_fresh prev pos k (c ∷ s) f e ne h = elim (Bool-cases (is_digit c)) [
    | inl d ↦
        let (_, lt, more) = accepts_digit prev 0 pos 0 c s d h in
        rw (sym (ap (λ t. t ++ s) (octet_first c d))) (
          accepted_inside c (c - b'0') pos 1 k s (digit_ne_dot c d) (omega arith) (omega arith)
            (λ _. refl) e (ap (λ v. ipv4_loop (some c) v pos 1 s) (zero_tens (c - b'0')) ∙ more))
    | inr d ↦ absurd (ground (arith, (accepts_dot prev 0 pos 0 c s d h).1))
  ]

  accepted_inside :
      (p val pos digits k : ℕ) (s : Text)
      → (p == b'.') ≡ false
      → val < 256
      → 0 < digits
      → (val ≡ 0 → digits ≡ 1)
      → pos + k ≡ 3
      → ipv4_loop (some p) val pos digits s ≡ true
      → Dotted k (octet val ++ s)
  accepted_inside p val pos digits zero [] np v d z e h = Dotted.one v (append-nil (octet val))
  accepted_inside p val pos digits (suc k) [] np v d z e h = absurd (too_few pos k digits p val e h)
  accepted_inside p val pos digits k (c ∷ s) np v d z e h = elim (Bool-cases (is_digit c)) [
    | inl q ↦
        let (pad, lt, more) = accepts_digit (some p) val pos digits c s q h in
        let positive : 0 < val = no_pad digits val pad z in
        rw (sym (append_assoc (octet val) (c ∷ []) s)) (
          rw (sym (octet_grows val c positive q lt)) (
            accepted_inside c (val * 10 + (c - b'0')) pos (digits + 1) k s (digit_ne_dot c q) lt
              (omega arith) (λ w. absurd (omega arith)) e more))
    | inr q ↦
        let (is_dot, _, rest, room, more) = accepts_dot (some p) val pos digits c s q h in
        behind_dot pos k e room is_dot v
          (λ j g. accepted_fresh (some c) (pos + 1) j s (rw is_dot refl) g rest more)
  ]

ipv4_valid-Dotted : (s : Text) → ipv4_valid s ≡ true → Dotted 3 s
unfolding ipv4_valid ipv4_loop
ipv4_valid-Dotted [] h = absurd (ground arith)
ipv4_valid-Dotted (c ∷ s) h = accepted_fresh none 0 3 (c ∷ s) refl (omega arith) (cons-ne-nil c s) h

reads_digit :
    (prev : Option ℕ) (val pos digits d : ℕ) (s : Text)
    → d < 10
    → (digits == 1 && val == 0) ≡ false
    → val * 10 + d < 256
    → ipv4_loop prev val pos digits ((b'0' + d) ∷ s)
      ≡ ipv4_loop (some (b'0' + d)) (val * 10 + d) pos (digits + 1) s
unfolding ipv4_loop is_digit
reads_digit prev val pos digits d s h g lt = ground arith

reads_digit_as :
    (prev : Option ℕ) (val pos digits d v : ℕ) (s : Text)
    → d < 10
    → (digits == 1 && val == 0) ≡ false
    → val * 10 + d ≡ v
    → v < 256
    → ipv4_loop prev val pos digits ((b'0' + d) ∷ s)
      ≡ ipv4_loop (some (b'0' + d)) v pos (digits + 1) s
reads_digit_as prev val pos digits d v s h g e lt =
    reads_digit prev val pos digits d s h g (omega arith)
    ∙ ap (λ w. ipv4_loop (some (b'0' + d)) w pos (digits + 1) s) e

digit_count : ℕ → ℕ
digit_count n = if ltb n 10 then 1 else if ltb n 100 then 2 else 3

reads_octet :
    (prev : Option ℕ) (n pos : ℕ) (s : Text)
    → n < 256
    → ipv4_loop prev 0 pos 0 (octet n ++ s)
      ≡ ipv4_loop (some (b'0' + n % 10)) n pos (digit_count n) s
unfolding octet digit_count
reads_octet prev n pos s h = elim (Bool-cases (ltb n 10)) [
  | inl a ↦ rw a (
      reads_digit_as prev 0 pos 0 n n s (ground arith) refl (omega arith) h
      ∙ ap (λ d. ipv4_loop (some (b'0' + d)) n pos 1 s) (ground arith))
  | inr a ↦ rw a (elim (Bool-cases (ltb n 100)) [
    | inl b ↦ rw b (
        reads_digit_as prev 0 pos 0 (n / 10) (n / 10) ((b'0' + n % 10) ∷ s) (ground arith) refl
          (omega arith) (omega arith)
        ∙ reads_digit_as (some (b'0' + n / 10)) (n / 10) pos 1 (n % 10) n s (omega arith)
            (ground arith) (omega arith) h)
    | inr b ↦ rw b (
        reads_digit_as prev 0 pos 0 (n / 100) (n / 100) _ (omega arith) refl (omega arith)
          (omega arith)
        ∙ reads_digit_as (some (b'0' + n / 100)) (n / 100) pos 1 (n / 10 % 10) (n / 10) _
            (omega arith) (ground arith) (omega arith) (omega arith)
        ∙ reads_digit_as (some (b'0' + n / 10 % 10)) (n / 10) pos 2 (n % 10) n s (omega arith)
            (ground arith) (omega arith) h)
  ])
]

reads_dot :
    (p val pos digits : ℕ) (s : Text)
    → (p == b'.') ≡ false
    → s ≢ []
    → (pos == 3) ≡ false
    → ipv4_loop (some p) val pos digits (b'.' ∷ s) ≡ ipv4_loop (some b'.') 0 (pos + 1) 0 s
unfolding ipv4_loop is_digit
reads_dot p val pos digits [] h ne r = absurd (ne refl)
reads_dot p val pos digits (x ∷ s) h ne r = rw (h, r) refl

octet-ne-nil : (n : ℕ) (s : Text) → octet n ++ s ≢ []
unfolding octet
octet-ne-nil n s h = ground arith

Dotted-ne-nil : {k : ℕ} {s : Text} → Dotted k s → s ≢ []
Dotted-ne-nil (one {n} v e) h = octet-ne-nil n [] (append-nil (octet n) ∙ sym e ∙ h)
Dotted-ne-nil (dot {n} {t = t} v e d) h = octet-ne-nil n (b'.' ∷ t) (sym e ∙ h)

last_digit : (n : ℕ) → ((b'0' + n % 10) == b'.') ≡ false
last_digit n = ground arith

Dotted-accepted :
    {k : ℕ} (prev : Option ℕ) (pos : ℕ) {s : Text}
    → Dotted k s
    → pos + k ≡ 3
    → ipv4_loop prev 0 pos 0 s ≡ true
Dotted-accepted prev pos (one {n} v e) h =
    ap (ipv4_loop prev 0 pos 0) (e ∙ sym (append-nil (octet n)))
    ∙ reads_octet prev n pos [] v
    ∙ unfold ipv4_loop in ground arith
Dotted-accepted prev pos (dot {n} {t = t} v e d) h =
    ap (ipv4_loop prev 0 pos 0) e
    ∙ reads_octet prev n pos (b'.' ∷ t) v
    ∙ reads_dot (b'0' + n % 10) n pos (digit_count n) t (last_digit n) (Dotted-ne-nil d)
        (ground arith)
    ∙ Dotted-accepted (some b'.') (pos + 1) d (omega arith)

-- The texts of dots and digits that ParseIP takes for an IPv4 address are exactly four octets below
-- 256 with dots between them, each in decimal and without leading zeros.
pub ipv4_valid-iff-Dotted : (s : Text) → (ipv4_valid s ≡ true) ↔ Dotted 3 s
unfolding ipv4_valid
ipv4_valid-iff-Dotted s = (ipv4_valid-Dotted s, λ d. Dotted-accepted none 0 d (omega arith))
