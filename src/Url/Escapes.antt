-- ===== src/Url/Escapes.antt =====
-- QueryUnescape undoes QueryEscape, and escaped text holds none of the bytes that split a URL.
use api_ratelimiter.Base.{
  ℕ, ◌+◌, ◌*◌, ◌/◌, ◌%◌, ◌<◌, ◌≡◌, refl, sym, ap, ◌∙◌, true, false, ◌||◌, some, [], ◌∷◌, ◌++◌, Text,
  All, ◌==◌, ==_iff, arith, Bool-cases, inl, inr,
}
use api_ratelimiter.Url.{
  cons_byte, plus_to_space, query_unescape, is_hex, unhex, upper_hex, is_unreserved, escape_byte,
  query_escape, has_byte,
}

-- A text is a sequence of bytes.
abbrev pub IsBytes : Text → Type 0
IsBytes = All (λ c. c < 256)

upper_hex-is_hex : (n : ℕ) → n < 16 → is_hex (upper_hex n) ≡ true
unfolding is_hex upper_hex
upper_hex-is_hex n h = ground arith

unhex-upper_hex : (n : ℕ) → n < 16 → unhex (upper_hex n) ≡ n
unfolding unhex upper_hex
unhex-upper_hex n h = ground arith

unescape_plain :
    (c : ℕ) (s : Text)
    → (c == b'%') ≡ false
    → query_unescape (c ∷ s) ≡ cons_byte (plus_to_space c) (query_unescape s)
unfolding query_unescape
unescape_plain c [] h = rw h refl
unescape_plain c (a ∷ []) h = rw h refl
unescape_plain c (a ∷ b ∷ s) h = rw h refl

unescape_percent :
    (a b : ℕ) (s : Text)
    → is_hex a ≡ true
    → is_hex b ≡ true
    → query_unescape (b'%' ∷ a ∷ b ∷ s) ≡ cons_byte (unhex a * 16 + unhex b) (query_unescape s)
unfolding query_unescape
unescape_percent a b s h k = rw (h, k) refl

-- A byte that QueryEscape keeps means itself.
unreserved_plain : (c : ℕ) → is_unreserved c ≡ true → ((c == b'%') ≡ false) × (plus_to_space c ≡ c)
unfolding is_unreserved plus_to_space
unreserved_plain c h = (ground arith, ground arith)

query_unescape-escape_byte :
    (c : ℕ) (s : Text)
    → c < 256
    → query_unescape (escape_byte c ++ s) ≡ cons_byte c (query_unescape s)
unfolding escape_byte
query_unescape-escape_byte c s h = elim (Bool-cases (c == b' ')) [
  | inl e ↦ rw e (unescape_plain b'+' s refl ∙ ap (λ d. cons_byte d (query_unescape s)) (space e))
  | inr e ↦ rw e (elim (Bool-cases (is_unreserved c)) [
    | inl u ↦ rw u (
        unescape_plain c s (unreserved_plain c u).0
        ∙ ap (λ d. cons_byte d (query_unescape s)) (unreserved_plain c u).1)
    | inr u ↦ rw u (
        unescape_percent (upper_hex (c / 16)) (upper_hex (c % 16)) s
          (upper_hex-is_hex (c / 16) (omega arith)) (upper_hex-is_hex (c % 16) (omega arith))
        ∙ ap (λ d. cons_byte d (query_unescape s)) hex_digits)
  ])
]
  where
    space : (c == b' ') ≡ true → plus_to_space b'+' ≡ c
    space e = unfold plus_to_space in sym ((==_iff c b' ').0 e)

    hex_digits : unhex (upper_hex (c / 16)) * 16 + unhex (upper_hex (c % 16)) ≡ c
    hex_digits =
        omega
          (arith, unhex-upper_hex (c / 16) (omega arith), unhex-upper_hex (c % 16) (omega arith))

pub query_unescape-query_escape : (s : Text) → IsBytes s → query_unescape (query_escape s) ≡ some s
unfolding query_escape cons_byte
query_unescape-query_escape [] h = unfold query_unescape in refl
query_unescape-query_escape (c ∷ s) h =
    rw (query_unescape-escape_byte c (query_escape s) h.0, query_unescape-query_escape s h.1) refl

upper_hex-is_unreserved : (n : ℕ) → n < 16 → is_unreserved (upper_hex n) ≡ true
unfolding is_unreserved upper_hex
upper_hex-is_unreserved n h = ground arith

differs : (b c : ℕ) → is_unreserved b ≡ false → is_unreserved c ≡ true → (c == b) ≡ false
differs b c u v = elim (Bool-cases (c == b)) [
  | inl e ↦ absurd (ground (arith, sym v ∙ ap is_unreserved ((==_iff c b).0 e) ∙ u))
  | inr e ↦ e
]

-- The bytes of escaped text.
escape_byte_plain :
    (b c : ℕ)
    → is_unreserved b ≡ false
    → (b == b'+') ≡ false
    → (b == b'%') ≡ false
    → c < 256
    → has_byte b (escape_byte c) ≡ false
unfolding escape_byte has_byte
escape_byte_plain b c u p q h = elim (Bool-cases (c == b' ')) [
  | inl e ↦ rw e (rw (flip b'+' p) refl)
  | inr e ↦ rw e (elim (Bool-cases (is_unreserved c)) [
    | inl v ↦ rw v (rw (differs b c u v) refl)
    | inr v ↦ rw v (
        rw
          (
            flip b'%' q,
            differs b (upper_hex (c / 16)) u (upper_hex-is_unreserved (c / 16) (omega arith)),
            differs b (upper_hex (c % 16)) u (upper_hex-is_unreserved (c % 16) (omega arith)),
          )
          refl)
  ])
]
  where
    flip : (d : ℕ) → (b == d) ≡ false → (d == b) ≡ false
    flip d h = ground arith

pub has_byte-append : (b : ℕ) (s t : Text) → has_byte b (s ++ t) ≡ (has_byte b s || has_byte b t)
unfolding has_byte
has_byte-append b [] t = refl
has_byte-append b (c ∷ s) t = ground (arith, has_byte-append b s t)

-- Escaped text holds no byte but unreserved ones, + and %.
pub has_byte-query_escape :
    (b : ℕ) (s : Text)
    → is_unreserved b ≡ false
    → (b == b'+') ≡ false
    → (b == b'%') ≡ false
    → IsBytes s
    → has_byte b (query_escape s) ≡ false
unfolding query_escape
has_byte-query_escape b [] u p q h = unfold has_byte in refl
has_byte-query_escape b (c ∷ s) u p q h =
    rw
      (
        has_byte-append b (escape_byte c) (query_escape s),
        escape_byte_plain b c u p q h.0,
        has_byte-query_escape b s u p q h.1,
      )
      refl
