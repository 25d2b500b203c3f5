-- ===== src/Strconv.antt =====
-- The functions of packages strconv and strings that the program applies to text from outside:
-- ParseInt in internal/store/redis.go, ParseUint and TrimSpace in internal/config/config.go.
pub mod RoundTrip
pub mod Octal
use mathlib.Core.List.{reverse}
use api_ratelimiter.Base.{
  ℕ, zero, suc, ◌+◌, ◌-◌, ◌*◌, ◌/◌, ◌%◌, ◌^◌, ◌&&◌, ◌||◌, Bool, Option, none, some, [], ◌∷◌, ℤ, pos,
  negsuc, Text, ltb, leb, ◌==◌, if◌then◌else◌,
}

-- The digits of strconv.ParseInt in base 10.
parse_digits : ℕ → Text → Option ℕ
parse_digits n [] = some n
parse_digits n (c ∷ s) =
    let rest = parse_digits (n * 10 + (c - b'0')) s in
    if leb b'0' c && leb c b'9' then rest else none

parse_magnitude : Text → Option ℕ
unfolding parse_digits
parse_magnitude [] = none
parse_magnitude (c ∷ s) = parse_digits 0 (c ∷ s)

positive : Option ℕ → Option ℤ
positive none = none
positive (some n) = if ltb n (2 ^ 63) then some (pos n) else none

negative : Option ℕ → Option ℤ
negative none = none
negative (some n) =
    if n == 0 then some (pos 0) else if leb n (2 ^ 63) then some (negsuc (n - 1)) else none

-- strconv.ParseInt(s, 10, 64)
unfoldable pub parse_int : Text → Option ℤ
unfolding parse_magnitude positive negative
parse_int [] = none
parse_int (c ∷ s) =
    if c == b'-'
    then negative (parse_magnitude s)
    else if c == b'+'
    then positive (parse_magnitude s)
    else positive (parse_magnitude (c ∷ s))

octal_digits : ℕ → Text → Option ℕ
octal_digits n [] = some n
octal_digits n (c ∷ s) =
    let rest = octal_digits (n * 8 + (c - b'0')) s in
    if leb b'0' c && leb c b'7' then rest else none

in_32_bits : Option ℕ → Option ℕ
in_32_bits none = none
in_32_bits (some n) = if ltb n (2 ^ 32) then some n else none

-- strconv.ParseUint(s, 8, 32)
unfoldable pub parse_octal : Text → Option ℕ
unfolding octal_digits in_32_bits
parse_octal [] = none
parse_octal (c ∷ s) = in_32_bits (octal_digits 0 (c ∷ s))

-- The UTF-8 encodings of the characters that unicode.IsSpace accepts, by length.
is_space_one : ℕ → Bool
is_space_one a = leb 9 a && leb a 13 || a == 32

is_space_two : ℕ → ℕ → Bool
is_space_two a b = a == 0xc2 && (b == 0x85 || b == 0xa0)

is_space_three : ℕ → ℕ → ℕ → Bool
is_space_three a b c =
    a == 0xe1 && b == 0x9a && c == 0x80
    || a == 0xe2 && b == 0x80 && (leb 0x80 c && leb c 0x8a || c == 0xa8 || c == 0xa9 || c == 0xaf)
    || a == 0xe2 && b == 0x81 && c == 0x9f
    || a == 0xe3 && b == 0x80 && c == 0x80

-- Without the spaces in front, and, of a text that stands backwards, without those behind.
trim_front : Text → Text
unfolding is_space_one is_space_two is_space_three
trim_front [] = []
trim_front (a ∷ []) = if is_space_one a then [] else a ∷ []
trim_front (a ∷ b ∷ []) =
    let rest = trim_front (b ∷ []) in
    if is_space_one a then rest else if is_space_two a b then [] else a ∷ b ∷ []
trim_front (a ∷ b ∷ c ∷ s) =
    let rest1 = trim_front (b ∷ c ∷ s) in
    let rest2 = trim_front (c ∷ s) in
    let rest3 = trim_front s in
    if is_space_one a
    then rest1
    else if is_space_two a b
    then rest2
    else if is_space_three a b c
    then rest3
    else a ∷ b ∷ c ∷ s

trim_back : Text → Text
unfolding is_space_one is_space_two is_space_three
trim_back [] = []
trim_back (a ∷ []) = if is_space_one a then [] else a ∷ []
trim_back (a ∷ b ∷ []) =
    let rest = trim_back (b ∷ []) in
    if is_space_one a then rest else if is_space_two b a then [] else a ∷ b ∷ []
trim_back (a ∷ b ∷ c ∷ s) =
    let rest1 = trim_back (b ∷ c ∷ s) in
    let rest2 = trim_back (c ∷ s) in
    let rest3 = trim_back s in
    if is_space_one a
    then rest1
    else if is_space_two b a
    then rest2
    else if is_space_three c b a
    then rest3
    else a ∷ b ∷ c ∷ s

-- strings.TrimSpace(s)
unfoldable pub trim_space : Text → Text
unfolding trim_front trim_back
trim_space s = reverse (trim_back (reverse (trim_front s)))

-- What strconv reads of the digits of a number: they are no digits, they pass 64 bits, or a value.
pub data Magnitude : Type 0 where
  malformed too_large : Magnitude
  magnitude : ℕ → Magnitude

unfoldable pub scan_digits : ℕ → Text → Magnitude
scan_digits n [] = magnitude n
scan_digits n (c ∷ s) =
    let m = n * 10 + (c - b'0') in
    let rest = scan_digits m s in
    if leb b'0' c && leb c b'9' then (if ltb m (2 ^ 64) then rest else too_large) else malformed

unfoldable pub scan_unsigned : Text → Magnitude
scan_unsigned [] = malformed
scan_unsigned (c ∷ s) = scan_digits 0 (c ∷ s)

-- The value for an error is the nearest int64 when the number is out of range, and 0 else.
unfoldable pub at_most_max : Magnitude → ℤ
at_most_max malformed = pos 0
at_most_max too_large = pos (2 ^ 63 - 1)
at_most_max (magnitude n) = if ltb n (2 ^ 63) then pos n else pos (2 ^ 63 - 1)

unfoldable pub at_least_min : Magnitude → ℤ
at_least_min malformed = pos 0
at_least_min too_large = negsuc (2 ^ 63 - 1)
at_least_min (magnitude n) =
    if n == 0 then pos 0 else if leb n (2 ^ 63) then negsuc (n - 1) else negsuc (2 ^ 63 - 1)

-- The first result of strconv.Atoi(s)
unfoldable pub atoi : Text → ℤ
atoi [] = pos 0
atoi (c ∷ s) =
    if c == b'-'
    then at_least_min (scan_unsigned s)
    else if c == b'+'
    then at_most_max (scan_unsigned s)
    else at_most_max (scan_unsigned (c ∷ s))

-- The decimal digits of n in front of a text, for n below 10 ^ fuel.
unfoldable pub put_digits : ℕ → ℕ → Text → Text
put_digits zero n s = s
put_digits (suc fuel) n s =
    let rest = put_digits fuel (n / 10) ((b'0' + n % 10) ∷ s) in
    if ltb n 10 then (b'0' + n) ∷ s else rest

-- strconv.Itoa(i): an int64 has at most 19 digits.
unfoldable pub itoa : ℤ → Text
itoa (pos n) = put_digits 19 n []
itoa (negsuc n) = b'-' ∷ put_digits 19 (n + 1) []
