-- ===== src/Url/Queries.antt =====
-- Query reads back the fields that are written with QueryEscape.
use api_ratelimiter.Base.{
  ℕ, ◌≡◌, refl, ap, ◌∙◌, false, Option-cases, none, some, text_eq_refl, List, [], ◌∷◌, ◌++◌, Text,
  ◌==◌, arith, Bool-cases, inl, inr,
}
use api_ratelimiter.Base.Dict.{Dict, lookup}
use api_ratelimiter.Url.{
  has_byte, cut, split, query_unescape, unescape_pair, both, add_pair, query_pair, query_pairs,
  query, query_escape, is_unreserved, is_letter, is_digit,
}
use api_ratelimiter.Url.Escapes.{
  IsBytes, query_unescape-query_escape, has_byte-query_escape, has_byte-append,
}

pub cut-append : (sep : ℕ) (s t : Text) → has_byte sep s ≡ false → cut sep (s ++ sep ∷ t) ≡ (s, t)
unfolding has_byte cut
cut-append sep [] t h = ground arith
cut-append sep (c ∷ s) t h = ground (arith, cut-append sep s t)

pub cut_whole : (sep : ℕ) (s : Text) → has_byte sep s ≡ false → cut sep s ≡ (s, [])
unfolding has_byte cut
cut_whole sep [] h = refl
cut_whole sep (c ∷ s) h = ground (arith, cut_whole sep s)

split_cons :
    (sep : ℕ) (s : Text) → (part : Text) × (parts : List Text) × (split sep s ≡ part ∷ parts)
unfolding split
split_cons sep [] = ([], [], refl)
split_cons sep (c ∷ s) =
    let (part, parts, e) = split_cons sep s in
    elim (Bool-cases (c == sep)) [
      | inl d ↦ ([], part ∷ parts, rw (e, d) refl)
      | inr d ↦ (c ∷ part, parts, rw (e, d) refl)
    ]

pub split-append :
    (sep : ℕ) (s t : Text) → has_byte sep s ≡ false → split sep (s ++ sep ∷ t) ≡ s ∷ split sep t
unfolding has_byte split
split-append sep [] t h = let (part, parts, e) = split_cons sep t in rw e (ground arith)
split-append sep (c ∷ s) t h = ground (arith, split-append sep s t)

pub split_whole : (sep : ℕ) (s : Text) → has_byte sep s ≡ false → split sep s ≡ s ∷ []
unfolding has_byte split
split_whole sep [] h = refl
split_whole sep (c ∷ s) h = ground (arith, split_whole sep s)

-- A name that stands for itself in a query.
pub record IsName (name : Text) : Type 0 where
  pub plain : query_unescape name ≡ some name
  pub no_equals : has_byte b'=' name ≡ false
  pub no_ampersand : has_byte b'&' name ≡ false
  pub no_semicolon : has_byte b';' name ≡ false

abbrev pub field : Text → Text → Text
field name v = name ++ b'=' ∷ query_escape v

query_pair-cut :
    (name v : Text)
    → has_byte b';' (name ++ b'=' ∷ v) ≡ false
    → query_pair (name ++ b'=' ∷ v) ≡ unescape_pair (cut b'=' (name ++ b'=' ∷ v))
unfolding query_pair
query_pair-cut [] v h = rw h refl
query_pair-cut (c ∷ name) v h = rw h refl

module _ (name v : Text) (n : IsName name) (b : IsBytes v) where
  field_lacks :
      (c : ℕ)
      → has_byte c name ≡ false
      → (b'=' == c) ≡ false
      → has_byte c (query_escape v) ≡ false
      → has_byte c (field name v) ≡ false
  field_lacks c h k l =
      has_byte-append c name (b'=' ∷ query_escape v) ∙ unfold has_byte in rw (h, k, l) refl

  pub query_pair-field : query_pair (field name v) ≡ some (name, v)
  unfolding unescape_pair both
  query_pair-field =
      query_pair-cut name (query_escape v) (
        field_lacks b';' n.no_semicolon refl (
          has_byte-query_escape b';' v (unfold is_unreserved is_letter is_digit in refl) refl refl
            b))
      ∙ ap unescape_pair (cut-append b'=' name (query_escape v) n.no_equals)
      ∙ ap (λ k. both k (query_unescape (query_escape v))) n.plain
      ∙ ap (both (some name)) (query_unescape-query_escape v b)

  field_no_ampersand : has_byte b'&' (field name v) ≡ false
  field_no_ampersand =
      field_lacks b'&' n.no_ampersand refl
        (has_byte-query_escape b'&' v (unfold is_unreserved is_letter is_digit in refl) refl refl b)

  -- A field is read back, in front of others and alone.
  pub query-field_append :
      (rest : Text) → query (field name v ++ b'&' ∷ rest) ≡ (name, v) ∷ query rest
  unfolding query query_pairs add_pair
  query-field_append rest =
      ap query_pairs (split-append b'&' (field name v) rest field_no_ampersand)
      ∙ ap (λ o. add_pair o (query_pairs (split b'&' rest))) query_pair-field

  pub query-field : query (field name v) ≡ (name, v) ∷ []
  unfolding query query_pairs add_pair
  query-field =
      ap query_pairs (split_whole b'&' (field name v) field_no_ampersand)
      ∙ ap (λ o. add_pair o []) query_pair-field

split_parts : (sep : ℕ) (s t : Text) → split sep (s ++ sep ∷ t) ≡ split sep s ++ split sep t
unfolding split
split_parts sep [] t = let (part, parts, e) = split_cons sep t in rw e (ground arith)
split_parts sep (c ∷ s) t =
    let (part, parts, e) = split_cons sep s in
    elim (Bool-cases (c == sep)) [
      | inl d ↦ rw (split_parts sep s t, e, d) refl
      | inr d ↦ rw (split_parts sep s t, e, d) refl
    ]

query_pairs-append : (xs ys : List Text) → query_pairs (xs ++ ys) ≡ query_pairs xs ++ query_pairs ys
unfolding query_pairs add_pair
query_pairs-append [] ys = refl
query_pairs-append (x ∷ xs) ys = elim (Option-cases (query_pair x)) [
  | inl e ↦ rw e (query_pairs-append xs ys)
  | inr (p, e) ↦ rw e (ap (◌∷◌ p) (query_pairs-append xs ys))
]

query-append : (before raw : Text) → query (before ++ b'&' ∷ raw) ≡ query before ++ query raw
unfolding query
query-append before raw =
    ap query_pairs (split_parts b'&' before raw)
    ∙ query_pairs-append (split b'&' before) (split b'&' raw)

lookup_behind :
    (name : Text) (q d : Dict Text) → lookup name q ≡ none → lookup name (q ++ d) ≡ lookup name d
unfolding lookup
lookup_behind name [] d h = refl
lookup_behind name ((k, v) ∷ q) d h = ground (arith, lookup_behind name q d)

-- A query in which a value stands in the first field of a name, among other fields of any form.
pub data FirstField (name v : Text) : Text → Type 0 where
  at_end : FirstField name v (field name v)
  in_front : (rest : Text) → FirstField name v (field name v ++ b'&' ∷ rest)
  behind :
      (before : Text) {raw : Text}
      → lookup name (query before) ≡ none
      → FirstField name v raw
      → FirstField name v (before ++ b'&' ∷ raw)

lookup_name : (name v : Text) (d : Dict Text) → lookup name ((name, v) ∷ d) ≡ some v
unfolding lookup
lookup_name name v d = rw (text_eq_refl name) refl

-- Query and Get read it back.
pub lookup-FirstField :
    (name v : Text) {raw : Text}
    → IsName name
    → IsBytes v
    → FirstField name v raw
    → lookup name (query raw) ≡ some v
lookup-FirstField name v n b at_end =
    ap (lookup name) (query-field name v n b) ∙ lookup_name name v []
lookup-FirstField name v n b (in_front rest) =
    ap (lookup name) (query-field_append name v n b rest) ∙ lookup_name name v (query rest)
lookup-FirstField name v n b (behind before {raw} h f) =
    ap (lookup name) (query-append before raw)
    ∙ lookup_behind name (query before) (query raw) h
    ∙ lookup-FirstField name v n b f
