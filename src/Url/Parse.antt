-- ===== src/Url/Parse.antt =====
-- url.Parse (Go 1.21), as far as its result is whether there is an error, and the raw query.
use api_ratelimiter.Base.{
  ℕ, ◌+◌, ◌*◌, Bool, true, false, not, ◌&&◌, ◌||◌, Option, none, some, [], ◌∷◌, Text, codes,
  text_eq, has_prefix, drop_text, ltb, leb, ◌==◌, if◌then◌else◌,
}
use api_ratelimiter.Url.{is_hex, unhex, is_letter, is_digit, has_byte, cut}

-- stringContainsCTLByte
unfoldable pub has_control : Text → Bool
has_control [] = false
has_control (c ∷ s) = ltb c b' ' || c == 0x7f || has_control s

-- Whether unescape accepts a path, a fragment or a user: every % begins an escape.
unfoldable pub escapes_valid : Text → Bool
unfolding is_hex
escapes_valid [] = true
escapes_valid (a ∷ []) = not (a == b'%')
escapes_valid (a ∷ b ∷ []) = not (a == b'%') && escapes_valid (b ∷ [])
escapes_valid (a ∷ b ∷ c ∷ s) =
    let rest = escapes_valid (b ∷ c ∷ s) in
    let rest3 = escapes_valid s in if a == b'%' then is_hex b && is_hex c && rest3 else rest

-- getScheme: `none` for a missing scheme, else whether there is one, and what follows it.
scheme_loop : Bool → Text → Text → Option (Bool × Text)
scheme_loop first whole [] = some (false, whole)
scheme_loop first whole (c ∷ s) =
    let rest = scheme_loop false whole s in
    if is_letter c
    then rest
    else if is_digit c || c == b'+' || c == b'-' || c == b'.'
    then if first then some (false, whole) else rest
    else if c == b':'
    then if first then none else some (true, s)
    else some (false, whole)

unfoldable pub get_scheme : Text → Option (Bool × Text)
unfolding scheme_loop is_letter is_digit
get_scheme url = scheme_loop true url url

-- shouldEscape for a byte of a host or a zone below 0x80
host_byte : ℕ → Bool
unfolding is_letter is_digit
host_byte c = is_letter c || is_digit c || has_byte c (codes "!$&'()*+,;=:[]<>\"-_.~")

-- unescape of a host: an escape must stand for a byte from 0x80 on, or for %.
host_valid : Text → Bool
unfolding host_byte is_hex unhex
host_valid [] = true
host_valid (a ∷ []) = not (a == b'%') && (leb 0x80 a || host_byte a)
host_valid (a ∷ b ∷ []) = not (a == b'%') && (leb 0x80 a || host_byte a) && host_valid (b ∷ [])
host_valid (a ∷ b ∷ c ∷ s) =
    let rest = host_valid (b ∷ c ∷ s) in
    let rest3 = host_valid s in
    if a == b'%'
    then is_hex b && is_hex c && (leb 8 (unhex b) || b == b'2' && c == b'5') && rest3
    else (leb 0x80 a || host_byte a) && rest

all_digits : Text → Bool
unfolding is_digit
all_digits [] = true
all_digits (c ∷ s) = is_digit c && all_digits s

-- validOptionalPort
port_valid : Text → Bool
unfolding all_digits
port_valid [] = true
port_valid (c ∷ s) = c == b':' && all_digits s

-- s[i+1:] behind the last byte sep, if there is one
after_last : ℕ → Text → Option Text
after_last sep [] = none
after_last sep (c ∷ s) = elim (after_last sep s) [
  | some t ↦ some t
  | none ↦ if c == sep then some s else none
]

-- s[:i] before the last byte sep
before_last : ℕ → Text → Text
before_last sep [] = []
before_last sep (c ∷ s) = if has_byte sep s then c ∷ before_last sep s else []

-- The index of the first %25: the text in front of it, and the text from it on.
find_zone : Text → Option (Text × Text)
find_zone [] = none
find_zone (c ∷ s) =
    let rest : Option (Text × Text) = elim (find_zone s) [
      | none ↦ none
      | some (before, zone) ↦ some (c ∷ before, zone)
    ] in
    if has_prefix (c ∷ s) (codes "%25") then some ([], c ∷ s) else rest

-- unescape of a zone: an escape must stand for %, a space or a byte that a host may hold.
zone_valid : Text → Bool
unfolding host_byte is_hex unhex
zone_valid [] = true
zone_valid (a ∷ []) = not (a == b'%') && (leb 0x80 a || host_byte a)
zone_valid (a ∷ b ∷ []) = not (a == b'%') && (leb 0x80 a || host_byte a) && zone_valid (b ∷ [])
zone_valid (a ∷ b ∷ c ∷ s) =
    let rest = zone_valid (b ∷ c ∷ s) in
    let rest3 = zone_valid s in
    let v = unhex b * 16 + unhex c in
    if a == b'%'
    then is_hex b
      && is_hex c
      && (b == b'2' && c == b'5' || v == b' ' || ltb v 0x80 && host_byte v)
      && rest3
    else (leb 0x80 a || host_byte a) && rest

-- The host [...] with what stands behind its last bracket.
literal_valid : Text → Option Text → Bool
unfolding port_valid find_zone zone_valid host_valid before_last
literal_valid host none = false
literal_valid host (some port) = port_valid port && elim (find_zone (before_last b']' host)) [
  | none ↦ host_valid host
  | some (before, zone) ↦ host_valid before && zone_valid zone && host_valid (b']' ∷ port)
]

-- parseHost
unfoldable pub host_port_valid : Text → Bool
unfolding literal_valid after_last all_digits host_valid
host_port_valid host =
    if has_prefix host (b'[' ∷ [])
    then literal_valid host (after_last b']' host)
    else elim (after_last b':' host) [ none ↦ true | some port ↦ all_digits port ]
      && host_valid host

-- validUserinfo
user_bytes_valid : Text → Bool
unfolding is_letter is_digit
user_bytes_valid [] = true
user_bytes_valid (c ∷ s) =
    (is_letter c || is_digit c || has_byte c (codes "-._:~!$&'()*+,;=%@")) && user_bytes_valid s

user_valid : Text → Bool
unfolding user_bytes_valid
user_valid user =
    let (name, password) = cut b':' user in
    user_bytes_valid user && escapes_valid name && escapes_valid password

-- parseAuthority
unfoldable pub authority_valid : Text → Bool
unfolding user_valid after_last before_last
authority_valid authority = elim (after_last b'@' authority) [
  | none ↦ host_port_valid authority
  | some host ↦ host_port_valid host && user_valid (before_last b'@' authority)
]

-- authority[i:] at the first slash, or nothing
from_slash : Text → Text
from_slash [] = []
from_slash (c ∷ s) = if c == b'/' then c ∷ s else from_slash s

-- The part of parse behind the scheme and the query.
unfoldable pub rest_valid : Bool → Text → Bool
unfolding from_slash
rest_valid scheme rest =
    if not (has_prefix rest (codes "/")) && scheme
    then true
    else if not (has_prefix rest (codes "/")) && has_byte b':' (cut b'/' rest).0
    then false
    else if (scheme || not (has_prefix rest (codes "///"))) && has_prefix rest (codes "//")
    then (let authority = drop_text rest (codes "//") in
        authority_valid (cut b'/' authority).0 && escapes_valid (from_slash authority))
    else escapes_valid rest

-- parse behind the scheme: strings.Cut at ? and a lone ? at the end both give this raw query.
unfoldable pub parse_cut : Bool → Text × Text → Option Text
parse_cut scheme (path, raw) = if rest_valid scheme path then some raw else none

unfoldable pub parse_rest : Option (Bool × Text) → Option Text
unfolding parse_cut
parse_rest none = none
parse_rest (some (scheme, rest)) = parse_cut scheme (cut b'?' rest)

-- parse, with viaRequest false
unfoldable pub parse_reference : Text → Option Text
parse_reference url =
    if has_control url
    then none
    else if text_eq url (codes "*")
    then some []
    else parse_rest (get_scheme url)

-- The fragment's escapes are checked too.
unfoldable pub with_fragment : Text × Text → Option Text
with_fragment (reference, fragment) =
    if escapes_valid fragment then parse_reference reference else none

-- url.Parse: the raw query, or `none` for an error
unfoldable pub parse_url : Text → Option Text
unfolding with_fragment
parse_url url = with_fragment (cut b'#' url)
