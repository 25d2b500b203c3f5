-- ===== src/Strconv/Octal.antt =====
-- ParseUint in base 8 as internal/config/config.go uses it: what it reads is a numeral.
use api_ratelimiter.Base.{
  ℕ, ◌+◌, ◌-◌, ◌*◌, ◌^◌, ◌<◌, ◌≡◌, ◌≢◌, refl, ap, ◌∙◌, ◌&&◌, Option, none, some, List, [], ◌∷◌, map,
  Text, leb, Bool-cases, inl, inr, arith, ◌↔◌,
}
use api_ratelimiter.Strconv.{octal_digits, in_32_bits, parse_octal}

-- The number that octal digits stand for, behind a number that stands in front of them.
unfoldable pub value8 : ℕ → List ℕ → ℕ
value8 n [] = n
value8 n (d ∷ ds) = value8 (n * 8 + d) ds

abbrev pub AllBelow8 : List ℕ → Type 0
AllBelow8 [] = Unit
AllBelow8 (d ∷ ds) = (d < 8) × AllBelow8 ds

abbrev pub numeral : List ℕ → Text
numeral = map (λ d. b'0' + d)

-- A text is a numeral of octal digits, at least one, for a number.
pub record IsOctal (s : Text) (v : ℕ) : Type 0 where
  pub digits : List ℕ
  pub some_digit : digits ≢ []
  pub below_8 : AllBelow8 digits
  pub text : s ≡ numeral digits
  pub number : value8 0 digits ≡ v

octal_digits-numeral :
    (n : ℕ) (ds : List ℕ) → AllBelow8 ds → octal_digits n (numeral ds) ≡ some (value8 n ds)
unfolding octal_digits value8
octal_digits-numeral n [] a = refl
octal_digits-numeral n (d ∷ ds) a = ground (arith, a.0, octal_digits-numeral (n * 8 + d) ds a.1)

octal_digits_read :
    (n v : ℕ) (s : Text)
    → octal_digits n s ≡ some v
    → (ds : List ℕ) × AllBelow8 ds × (s ≡ numeral ds) × (value8 n ds ≡ v)
unfolding octal_digits value8
octal_digits_read n v [] e = ([], tt, refl, ground (arith, e))
octal_digits_read n v (c ∷ s) e = elim (Bool-cases (leb b'0' c && leb c b'7')) [
  | inr d ↦ absurd (ground (arith, d, e))
  | inl d ↦
      let (ds, a, t, q) = octal_digits_read (n * 8 + (c - b'0')) v s (ground (arith, d, e)) in
      ((c - b'0') ∷ ds, (ground (arith, d), a), ground (arith, d, t), q)
]

cons_ne_nil : (c : ℕ) (s : Text) → (c ∷ s) ≢ []
cons_ne_nil c s h = ground (arith, h)

fits : (o : Option ℕ) (v : ℕ) → in_32_bits o ≡ some v → (o ≡ some v) × (v < 2 ^ 32)
unfolding in_32_bits
fits none v e = absurd (ground (arith, e))
fits (some n) v e = ground (arith, e)

IsOctal-read : (s : Text) (v : ℕ) → parse_octal s ≡ some v → IsOctal s v × (v < 2 ^ 32)
unfolding parse_octal
IsOctal-read [] v e = absurd (ground (arith, e))
IsOctal-read (c ∷ s) v e =
    let (f, l) = fits (octal_digits 0 (c ∷ s)) v e in
    let (ds, a, t, q) = octal_digits_read 0 v (c ∷ s) f in
    (
      record {
        digits = ds;
        some_digit = λ n. cons_ne_nil c s (t ∙ ap numeral n);
        below_8 = a;
        text = t;
        number = q;
      },
      l,
    )

no_digit : (ds : List ℕ) → ds ≢ [] → [] ≢ numeral ds
no_digit [] n e = n refl
no_digit (d ∷ ds) n e = ground (arith, e)

IsOctal-written : (s : Text) (v : ℕ) → IsOctal s v → v < 2 ^ 32 → parse_octal s ≡ some v
unfolding parse_octal in_32_bits
IsOctal-written [] v o l = absurd (no_digit o.digits o.some_digit o.text)
IsOctal-written (c ∷ s) v o l =
    ap in_32_bits
      (ap (octal_digits 0) o.text ∙ octal_digits-numeral 0 o.digits o.below_8 ∙ ap some o.number)
    ∙ ground (arith, l)

-- ParseUint with base 8 and 32 bits accepts the numerals of numbers below 2 ^ 32.
pub parse_octal-IsOctal :
    (s : Text) (v : ℕ) → (parse_octal s ≡ some v) ↔ (IsOctal s v × (v < 2 ^ 32))
parse_octal-IsOctal s v = (IsOctal-read s v, λ h. IsOctal-written s v h.0 h.1)

pub not-IsOctal : (v : ℕ) → ¬ IsOctal [] v
not-IsOctal v o = no_digit o.digits o.some_digit o.text
