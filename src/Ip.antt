-- ===== src/Ip.antt =====
-- net.ParseIP (Go 1.21) as internal/handler/check.go uses it: whether a text is an address.
pub mod Dotted
pub mod Letters
use api_ratelimiter.Base.{
  ℕ, zero, suc, ◌+◌, ◌-◌, ◌*◌, Bool, true, false, not, ◌&&◌, ◌||◌, Option, none, some, List, [],
  ◌∷◌, Text, ltb, leb, ◌==◌, if◌then◌else◌,
}
use api_ratelimiter.Url.{is_digit, is_hex, unhex, has_byte}

-- The loop of parseIPv4. `prev` is the byte in front, if there is one, `digits` counts the digits
-- of the octet, `val` is its value, and `pos` counts the dots.
unfoldable pub ipv4_loop : Option ℕ → ℕ → ℕ → ℕ → Text → Bool
ipv4_loop prev val pos digits [] = leb 3 pos
ipv4_loop prev val pos digits (c ∷ s) =
    let val' = val * 10 + (c - b'0') in
    let more = ipv4_loop (some c) val' pos (digits + 1) s in
    let next = ipv4_loop (some c) 0 (pos + 1) 0 s in
    if is_digit c
    then if digits == 1 && val == 0 then false else if ltb 255 val' then false else more
    else if c == b'.'
    then if elim prev [ none ↦ true | some p ↦ p == b'.' ] || elim s [ [] ↦ true | _ ↦ false ]
      then false
      else if pos == 3
      then false
      else next
    else false

-- parseIPv4
unfoldable pub ipv4_valid : Text → Bool
ipv4_valid s = ipv4_loop none 0 0 0 s

-- The hexadecimal digits of a field: how many there are, their value and what follows them, or
-- `none` for more than four digits or a value above 65535.
unfoldable pub hex_field : ℕ → ℕ → Text → Option (ℕ × Text)
hex_field off acc [] = some (off, [])
hex_field off acc (c ∷ s) =
    let acc' = acc * 16 + unhex c in
    let rest = hex_field (off + 1) acc' s in
    if is_hex c
    then if ltb 3 off then none else if ltb 65535 acc' then none else rest
    else some (off, c ∷ s)

-- What the loop of parseIPv6 does behind a field: it stops in front of a text, or goes on.
pub data Field : Type 0 where
  invalid : Field
  stop : Bool → ℕ → Text → Field
  go_on : Bool → ℕ → Text → Field

-- From a colon on: `ellipsis` tells whether there was one, `i` counts the bytes of the address.
unfoldable pub after_field : Bool → ℕ → Text → Field
after_field ellipsis i [] = stop ellipsis i []
after_field ellipsis i (c ∷ []) = invalid
after_field ellipsis i (c ∷ d ∷ s) =
    if not (c == b':')
    then invalid
    else if not (d == b':')
    then go_on ellipsis i (d ∷ s)
    else if ellipsis
    then invalid
    else elim s [ [] ↦ stop true i [] | e ∷ t ↦ go_on true i (e ∷ t) ]

-- One round of the loop at s, of which a field of `off` digits is cut off.
unfoldable pub field_step : Bool → ℕ → Text → Option (ℕ × Text) → Field
field_step ellipsis i s none = invalid
field_step ellipsis i s (some (zero, rest)) = invalid
field_step ellipsis i s (some (suc off, [])) = after_field ellipsis (i + 2) []
field_step ellipsis i s (some (suc off, c ∷ rest)) =
    if c == b'.'
    then if not ellipsis && not (i == 12) || ltb 16 (i + 4)
      then invalid
      else if ipv4_valid s
      then stop ellipsis (i + 4) []
      else invalid
    else after_field ellipsis (i + 2) (c ∷ rest)

-- Behind the loop
unfoldable pub ipv6_end : Bool → ℕ → Text → Bool
ipv6_end ellipsis i [] = if ltb i 16 then ellipsis else not ellipsis
ipv6_end ellipsis i (c ∷ s) = false

-- The loop of parseIPv6, at most eight rounds of two bytes.
unfoldable pub ipv6_loop : ℕ → Bool → ℕ → Text → Bool
ipv6_loop zero ellipsis i s = ipv6_end ellipsis i s
ipv6_loop (suc rounds) ellipsis i s = elim (field_step ellipsis i s (hex_field 0 0 s)) [
  | invalid ↦ false
  | stop ellipsis' i' rest ↦ ipv6_end ellipsis' i' rest
  | go_on ellipsis' i' rest ↦ ipv6_loop rounds ellipsis' i' rest
]

-- parseIPv6 without a zone, which ParseIP refuses.
unfoldable pub ipv6_valid : Text → Bool
ipv6_valid [] = ipv6_loop 8 false 0 []
ipv6_valid (a ∷ []) = ipv6_loop 8 false 0 (a ∷ [])
ipv6_valid (a ∷ b ∷ s) =
    if a == b':' && b == b':'
    then elim s [ [] ↦ true | c ∷ t ↦ ipv6_loop 8 true 0 (c ∷ t) ]
    else ipv6_loop 8 false 0 (a ∷ b ∷ s)

-- netip.ParseAddr: the first dot, colon or percent sign decides.
unfoldable pub first_mark : Text → Text → Bool
first_mark whole [] = false
first_mark whole (c ∷ s) =
    let rest = first_mark whole s in
    if c == b'.'
    then ipv4_valid whole
    else if c == b':'
    then not (has_byte b'%' whole) && ipv6_valid whole
    else if c == b'%'
    then false
    else rest

-- net.ParseIP(s) != nil
unfoldable pub ip_valid : Text → Bool
ip_valid s = first_mark s s
