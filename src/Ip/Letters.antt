-- ===== src/Ip/Letters.antt =====
-- The bytes of a text that net.ParseIP accepts.
use api_ratelimiter.Base.{
  ℕ, zero, suc, ◌+◌, ◌-◌, ◌*◌, ◌≡◌, refl, ap, Bool, true, false, ◌&&◌, ◌||◌, Option, none, some, [],
  ◌∷◌, Text, ◌==◌, arith,
}
use api_ratelimiter.Url.{is_hex, is_digit, unhex}
use api_ratelimiter.Ip.{
  ipv4_loop, ipv4_valid, hex_field, Field, invalid, stop, go_on, after_field, field_step, ipv6_end,
  ipv6_loop, ipv6_valid, first_mark, ip_valid,
}

-- A hexadecimal digit, a dot or a colon.
unfoldable pub is_ip_byte : ℕ → Bool
is_ip_byte c = is_hex c || c == b'.' || c == b':'

unfoldable pub all_ip_bytes : Text → Bool
all_ip_bytes [] = true
all_ip_bytes (c ∷ s) = is_ip_byte c && all_ip_bytes s

digit-is_ip_byte : (c : ℕ) → is_digit c ≡ true → is_ip_byte c ≡ true
unfolding is_digit is_ip_byte is_hex
digit-is_ip_byte c h = ground arith

hex-is_ip_byte : (c : ℕ) → is_hex c ≡ true → is_ip_byte c ≡ true
unfolding is_ip_byte
hex-is_ip_byte c h = ground arith

dot-is_ip_byte : (c : ℕ) → (c == b'.') ≡ true → is_ip_byte c ≡ true
unfolding is_ip_byte
dot-is_ip_byte c h = ground arith

colon-is_ip_byte : (c : ℕ) → (c == b':') ≡ true → is_ip_byte c ≡ true
unfolding is_ip_byte
colon-is_ip_byte c h = ground arith

ipv4_loop-all_ip_bytes :
    (prev : Option ℕ) (val pos digits : ℕ) (s : Text)
    → ipv4_loop prev val pos digits s ≡ true
    → all_ip_bytes s ≡ true
unfolding ipv4_loop all_ip_bytes
ipv4_loop-all_ip_bytes prev val pos digits [] h = refl
ipv4_loop-all_ip_bytes prev val pos digits (c ∷ s) h = ground (
  arith,
  digit-is_ip_byte c,
  dot-is_ip_byte c,
  ipv4_loop-all_ip_bytes (some c) (val * 10 + (c - b'0')) pos (digits + 1) s,
  ipv4_loop-all_ip_bytes (some c) 0 (pos + 1) 0 s,
)

hex_field-all_ip_bytes :
    (off acc : ℕ) (s : Text) (n : ℕ) (rest : Text)
    → hex_field off acc s ≡ some (n, rest)
    → all_ip_bytes rest ≡ true
    → all_ip_bytes s ≡ true
unfolding hex_field all_ip_bytes
hex_field-all_ip_bytes off acc [] n rest h k = refl
hex_field-all_ip_bytes off acc (c ∷ s) n rest h k =
    ground (arith, hex-is_ip_byte c, hex_field-all_ip_bytes (off + 1) (acc * 16 + unhex c) s n rest)

-- The text that a round leaves.
left : Field → Option Text
left invalid = none
left (stop e i rest) = some rest
left (go_on e i rest) = some rest

after_field-left :
    (e : Bool) (i : ℕ) (s rest : Text)
    → left (after_field e i s) ≡ some rest
    → all_ip_bytes rest ≡ true
    → all_ip_bytes s ≡ true
unfolding after_field all_ip_bytes left
after_field-left e i [] rest h k = refl
after_field-left e i (c ∷ []) rest h k = ground arith
after_field-left e i (c ∷ d ∷ []) rest h k = ground (arith, colon-is_ip_byte c, colon-is_ip_byte d)
after_field-left e i (c ∷ d ∷ x ∷ s) rest h k =
    ground (arith, colon-is_ip_byte c, colon-is_ip_byte d)

field_step-left :
    (e : Bool) (i : ℕ) (s rest : Text) (cut : Option (ℕ × Text))
    → ((n : ℕ) (t : Text) → cut ≡ some (n, t) → all_ip_bytes t ≡ true → all_ip_bytes s ≡ true)
    → left (field_step e i s cut) ≡ some rest
    → all_ip_bytes rest ≡ true
    → all_ip_bytes s ≡ true
unfolding field_step left ipv4_valid
field_step-left e i s rest none f h k = ground arith
field_step-left e i s rest (some (zero, t)) f h k = ground arith
field_step-left e i s rest (some (suc off, [])) f h k =
    f (suc off) [] refl (after_field-left e (i + 2) [] rest h k)
field_step-left e i s rest (some (suc off, c ∷ t)) f h k = ground (
  arith,
  f (suc off) (c ∷ t) refl,
  after_field-left e (i + 2) (c ∷ t) rest,
  ipv4_loop-all_ip_bytes none 0 0 0 s,
)

ipv6_end-all_ip_bytes :
    (e : Bool) (i : ℕ) (s : Text) → ipv6_end e i s ≡ true → all_ip_bytes s ≡ true
unfolding ipv6_end all_ip_bytes
ipv6_end-all_ip_bytes e i [] h = refl
ipv6_end-all_ip_bytes e i (c ∷ s) h = ground arith

ipv6_loop-all_ip_bytes :
    (rounds : ℕ) (e : Bool) (i : ℕ) (s : Text)
    → ipv6_loop rounds e i s ≡ true
    → all_ip_bytes s ≡ true
unfolding ipv6_loop left
ipv6_loop-all_ip_bytes zero e i s h = ipv6_end-all_ip_bytes e i s h
ipv6_loop-all_ip_bytes (suc rounds) e i s h =
    round (field_step e i s (hex_field 0 0 s)) (ipv6_loop-all_ip_bytes rounds) refl h
  where
    explained :
        (rest : Text)
        → left (field_step e i s (hex_field 0 0 s)) ≡ some rest
        → all_ip_bytes rest ≡ true
        → all_ip_bytes s ≡ true
    explained rest =
        field_step-left e i s rest (hex_field 0 0 s) (λ n t. hex_field-all_ip_bytes 0 0 s n t)

    round :
        (f : Field)
        → ((e' : Bool) (i' : ℕ) (t : Text)
            → ipv6_loop rounds e' i' t ≡ true
            → all_ip_bytes t ≡ true)
        → field_step e i s (hex_field 0 0 s) ≡ f
        → elim f as (λ _. Bool) [
          | invalid ↦ false
          | stop e' i' rest ↦ ipv6_end e' i' rest
          | go_on e' i' rest ↦ ipv6_loop rounds e' i' rest
        ]
          ≡ true
        → all_ip_bytes s ≡ true
    round invalid ih p q = ground arith
    round (stop e' i' rest) ih p q = explained rest (ap left p) (ipv6_end-all_ip_bytes e' i' rest q)
    round (go_on e' i' rest) ih p q = explained rest (ap left p) (ih e' i' rest q)

ipv6_valid-all_ip_bytes : (s : Text) → ipv6_valid s ≡ true → all_ip_bytes s ≡ true
unfolding ipv6_valid all_ip_bytes
ipv6_valid-all_ip_bytes [] h = refl
ipv6_valid-all_ip_bytes (a ∷ []) h = ipv6_loop-all_ip_bytes 8 false 0 (a ∷ []) h
ipv6_valid-all_ip_bytes (a ∷ b ∷ []) h =
    ground
      (arith, colon-is_ip_byte a, colon-is_ip_byte b, ipv6_loop-all_ip_bytes 8 false 0 (a ∷ b ∷ []))
ipv6_valid-all_ip_bytes (a ∷ b ∷ c ∷ s) h = ground (
  arith,
  colon-is_ip_byte a,
  colon-is_ip_byte b,
  ipv6_loop-all_ip_bytes 8 true 0 (c ∷ s),
  ipv6_loop-all_ip_bytes 8 false 0 (a ∷ b ∷ c ∷ s),
)

first_mark-all_ip_bytes : (whole s : Text) → first_mark whole s ≡ true → all_ip_bytes whole ≡ true
unfolding first_mark ipv4_valid
first_mark-all_ip_bytes whole [] h = ground arith
first_mark-all_ip_bytes whole (c ∷ s) h = ground (
  arith,
  ipv4_loop-all_ip_bytes none 0 0 0 whole,
  ipv6_valid-all_ip_bytes whole,
  first_mark-all_ip_bytes whole s,
)

-- An address is written with hexadecimal digits, dots and colons alone.
pub ip_valid-all_ip_bytes : (s : Text) → ip_valid s ≡ true → all_ip_bytes s ≡ true
unfolding ip_valid
ip_valid-all_ip_bytes s = first_mark-all_ip_bytes s s
