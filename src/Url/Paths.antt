-- ===== src/Url/Paths.antt =====
-- url.Parse on the request URIs that a server logs: a path, and a query behind it.
use api_ratelimiter.Base.{
  ℕ, ◌≡◌, refl, ap, ◌∙◌, true, false, ◌||◌, none, some, [], ◌∷◌, ◌++◌, Text, codes, has_prefix,
  text_eq, ◌==◌, arith, if◌then◌else◌,
}
use api_ratelimiter.Url.{has_byte, cut}
use api_ratelimiter.Url.Escapes.{has_byte-append}
use api_ratelimiter.Url.Queries.{cut-append, cut_whole}
use api_ratelimiter.Url.Parse.{
  has_control, escapes_valid, get_scheme, rest_valid, parse_cut, parse_rest, parse_reference,
  with_fragment, parse_url,
}

-- A path of a request line that url.Parse accepts: one slash, and no byte that ends the path.
pub record IsPath (path : Text) : Type 0 where
  pub one_slash : has_prefix path (codes "//") ≡ false
  pub no_control : has_control path ≡ false
  pub no_fragment : has_byte b'#' path ≡ false
  pub no_query : has_byte b'?' path ≡ false
  pub escapes : escapes_valid path ≡ true

pub has_control-append : (s t : Text) → has_control (s ++ t) ≡ (has_control s || has_control t)
unfolding has_control
has_control-append [] t = refl
has_control-append (c ∷ s) t = ground (arith, has_control-append s t)

has_control_query :
    (path raw : Text)
    → has_control path ≡ false
    → has_control raw ≡ false
    → has_control (path ++ b'?' ∷ raw) ≡ false
has_control_query path raw h k =
    has_control-append path (b'?' ∷ raw) ∙ unfold has_control in rw (h, k) refl

has_byte_query :
    (b : ℕ) (path raw : Text)
    → (b'?' == b) ≡ false
    → has_byte b path ≡ false
    → has_byte b raw ≡ false
    → has_byte b (path ++ b'?' ∷ raw) ≡ false
has_byte_query b path raw q h k =
    has_byte-append b path (b'?' ∷ raw) ∙ unfold has_byte in rw (q, h, k) refl

module _ (p raw : Text) (h : IsPath (b'/' ∷ p)) where
  abbrev path : Text
  path = b'/' ∷ p

  path-rest_valid : rest_valid false path ≡ true
  unfolding rest_valid has_prefix
  path-rest_valid = ground (arith, h.one_slash, h.escapes)

  parse_cut-path : parse_cut false (cut b'?' (path ++ b'?' ∷ raw)) ≡ some raw
  unfolding parse_cut
  parse_cut-path =
      ap (parse_cut false) (cut-append b'?' path raw h.no_query)
      ∙ ap (λ b. if b then some raw else none) path-rest_valid

  parse_reference-path : has_control raw ≡ false → parse_reference (path ++ b'?' ∷ raw) ≡ some raw
  unfolding parse_reference get_scheme parse_rest text_eq
  parse_reference-path c =
      ap (λ b. if b then none else parse_rest (get_scheme (path ++ b'?' ∷ raw)))
        (has_control_query path raw h.no_control c)
      ∙ parse_cut-path

  pub parse_url-path :
      has_control raw ≡ false
      → has_byte b'#' raw ≡ false
      → parse_url (path ++ b'?' ∷ raw) ≡ some raw
  unfolding parse_url with_fragment
  parse_url-path c f =
      ap with_fragment
        (cut_whole b'#' (path ++ b'?' ∷ raw) (has_byte_query b'#' path raw refl h.no_fragment f))
      ∙ unfold escapes_valid in parse_reference-path c
