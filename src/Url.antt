-- ===== src/Url.antt =====
-- What internal/handler/check.go and internal/admin/admin.go use of package net/url (Go 1.21): queries
-- and their escapes here, url.Parse in Url.Parse.
pub mod Parse
pub mod Escapes
pub mod Queries
pub mod Paths
use api_ratelimiter.Base.{
  ℕ, ◌+◌, ◌-◌, ◌*◌, ◌/◌, ◌%◌, Bool, true, false, ◌&&◌, ◌||◌, Option, none, some, List, [], ◌∷◌,
  ◌++◌, Text, ltb, leb, ◌==◌, if◌then◌else◌,
}
use api_ratelimiter.Base.Dict.{Dict, lookup}

abbrev pub between : ℕ → ℕ → ℕ → Bool
between a b c = leb a c && leb c b

-- ishex
unfoldable pub is_hex : ℕ → Bool
is_hex c = between b'0' b'9' c || between b'a' b'f' c || between b'A' b'F' c

-- unhex, of a hexadecimal digit
unfoldable pub unhex : ℕ → ℕ
unhex c =
    if between b'0' b'9' c
    then c - b'0'
    else if between b'a' b'f' c
    then c - b'a' + 10
    else c - b'A' + 10

unfoldable pub is_letter : ℕ → Bool
is_letter c = between b'a' b'z' c || between b'A' b'Z' c

unfoldable pub is_digit : ℕ → Bool
is_digit c = between b'0' b'9' c

-- strings.Contains(s, string(b)) for a byte b
unfoldable pub has_byte : ℕ → Text → Bool
has_byte b [] = false
has_byte b (c ∷ s) = c == b || has_byte b s

-- before, after, _ = strings.Cut(s, sep) for one byte
unfoldable pub cut : ℕ → Text → Text × Text
cut sep [] = ([], [])
cut sep (c ∷ s) =
    let (before, after) = cut sep s in if c == sep then ([], s) else (c ∷ before, after)

cons_byte : ℕ → Option Text → Option Text
cons_byte c none = none
cons_byte c (some s) = some (c ∷ s)

plus_to_space : ℕ → ℕ
plus_to_space c = if c == b'+' then b' ' else c

-- QueryUnescape
unfoldable pub query_unescape : Text → Option Text
unfolding cons_byte plus_to_space is_hex unhex
query_unescape [] = some []
query_unescape (a ∷ []) = if a == b'%' then none else some (plus_to_space a ∷ [])
query_unescape (a ∷ b ∷ []) =
    let rest = query_unescape (b ∷ []) in
    if a == b'%' then none else cons_byte (plus_to_space a) rest
query_unescape (a ∷ b ∷ c ∷ s) =
    let rest = query_unescape (b ∷ c ∷ s) in
    let rest3 = query_unescape s in
    if a == b'%'
    then if is_hex b && is_hex c then cons_byte (unhex b * 16 + unhex c) rest3 else none
    else cons_byte (plus_to_space a) rest

-- The segments between the separators of `&`
unfoldable pub split : ℕ → Text → List Text
split sep [] = [] ∷ []
split sep (c ∷ s) = elim (split sep s) [
  | [] ↦ []
  | part ∷ parts ↦ if c == sep then [] ∷ part ∷ parts else (c ∷ part) ∷ parts
]

both : Option Text → Option Text → Option (Text × Text)
both none v = none
both (some k) none = none
both (some k) (some v) = some (k, v)

unescape_pair : Text × Text → Option (Text × Text)
unfolding both
unescape_pair (key, v) = both (query_unescape key) (query_unescape v)

-- The body of the loop of parseQuery: `none` where it goes on without a value.
unfoldable pub query_pair : Text → Option (Text × Text)
unfolding unescape_pair
query_pair [] = none
query_pair (c ∷ s) = if has_byte b';' (c ∷ s) then none else unescape_pair (cut b'=' (c ∷ s))

add_pair : Option (Text × Text) → Dict Text → Dict Text
add_pair none q = q
add_pair (some p) q = p ∷ q

unfoldable pub query_pairs : List Text → Dict Text
unfolding add_pair
query_pairs [] = []
query_pairs (part ∷ parts) = add_pair (query_pair part) (query_pairs parts)

-- u.Query(), for u.RawQuery: the values in order, errors left out
unfoldable pub query : Text → Dict Text
query raw = query_pairs (split b'&' raw)

-- q.Get(key)
unfoldable pub query_get : Text → Dict Text → Text
query_get key q = elim (lookup key q) [ none ↦ [] | some v ↦ v ]

-- The bytes that QueryEscape keeps.
unfoldable pub is_unreserved : ℕ → Bool
unfolding is_letter is_digit
is_unreserved c = is_letter c || is_digit c || c == b'-' || c == b'_' || c == b'.' || c == b'~'

-- upperhex
unfoldable pub upper_hex : ℕ → ℕ
upper_hex n = if ltb n 10 then b'0' + n else b'A' + (n - 10)

unfoldable pub escape_byte : ℕ → Text
escape_byte c =
    if c == b' '
    then b'+' ∷ []
    else if is_unreserved c
    then c ∷ []
    else b'%' ∷ upper_hex (c / 16) ∷ upper_hex (c % 16) ∷ []

-- QueryEscape
unfoldable pub query_escape : Text → Text
query_escape [] = []
query_escape (c ∷ s) = escape_byte c ++ query_escape s
