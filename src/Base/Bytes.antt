-- ===== src/Base/Bytes.antt =====
-- Go strings: sequences of bytes, each a number. The operations of Go and of package strings that
-- the source applies to them.
use Prim.Native.Nat.{ℕ}
use Prim.Native.Char.{code}
use Prim.Native.String.{String}
use mathlib.Core.Path.{◌≡◌, refl}
use mathlib.Core.Logic.{◌↔◌, ◌≢◌, inl, inr}
use mathlib.Core.Bool.{Bool, true, false, ◌&&◌, ◌||◌}
use mathlib.Core.List.{List, [], ◌∷◌, ◌++◌}
use native.Mathlib.Omega.{arith}
use api_ratelimiter.Base.Tests.{ltb, ◌==◌, Bool-cases, if◌then◌else◌}

abbrev pub Text : Type 0
Text = List ℕ

-- The bytes of an ASCII literal. `String` has its own `[]` and `∷`.
abbrev pub codes : String → Text
codes String.[] = []
codes (String.◌∷◌ c s) = code c ∷ codes s

-- s == t
unfoldable pub text_eq : Text → Text → Bool
text_eq [] [] = true
text_eq (a ∷ s) (b ∷ t) = a == b && text_eq s t
text_eq _ _ = false

-- s < t, byte by byte
unfoldable pub text_lt : Text → Text → Bool
text_lt [] [] = false
text_lt [] (b ∷ t) = true
text_lt (a ∷ s) [] = false
text_lt (a ∷ s) (b ∷ t) = let rest = text_lt s t in if a == b then rest else ltb a b

-- strings.HasPrefix(s, p)
unfoldable pub has_prefix : Text → Text → Bool
has_prefix s [] = true
has_prefix [] (b ∷ p) = false
has_prefix (a ∷ s) (b ∷ p) = a == b && has_prefix s p

-- strings.Contains(s, p)
unfoldable pub contains : Text → Text → Bool
unfolding has_prefix
contains [] p = has_prefix [] p
contains (a ∷ s) p = let rest = contains s p in has_prefix (a ∷ s) p || rest

-- s[len(p):] of a text that is at least as long
unfoldable pub drop_text : Text → Text → Text
drop_text s [] = s
drop_text [] (b ∷ p) = []
drop_text (a ∷ s) (b ∷ p) = drop_text s p

-- strings.TrimPrefix(s, p)
unfoldable pub trim_prefix : Text → Text → Text
unfolding has_prefix drop_text
trim_prefix s p = if has_prefix s p then drop_text s p else s

pub text_eq→ : (s t : Text) → text_eq s t ≡ true → s ≡ t
unfolding text_eq
text_eq→ [] [] h = refl
text_eq→ (a ∷ s) (b ∷ t) h = ground (arith, text_eq→ s t)
text_eq→ [] (b ∷ t) h = ground arith
text_eq→ (a ∷ s) [] h = ground arith

pub text_eq_refl : (s : Text) → text_eq s s ≡ true
unfolding text_eq
text_eq_refl [] = refl
text_eq_refl (a ∷ s) = ground (arith, text_eq_refl s)

pub text_eq_iff : (s t : Text) → (text_eq s t ≡ true) ↔ (s ≡ t)
text_eq_iff s t = (text_eq→ s t, λ e. rw e (text_eq_refl t))

pub text_ne_sym : (s t : Text) → text_eq s t ≡ false → text_eq t s ≡ false
text_ne_sym s t h = ground (arith, text_eq_iff s t, text_eq_iff t s)

pub has_prefix-append : (p s : Text) → has_prefix (p ++ s) p ≡ true
unfolding has_prefix
has_prefix-append [] [] = refl
has_prefix-append [] (a ∷ s) = refl
has_prefix-append (b ∷ p) s = ground (arith, has_prefix-append p s)

drop_text-append : (p s : Text) → drop_text (p ++ s) p ≡ s
unfolding drop_text
drop_text-append [] [] = refl
drop_text-append [] (a ∷ s) = refl
drop_text-append (b ∷ p) s = drop_text-append p s

-- Trimming takes away the prefix that was put in front.
pub trim_prefix-append : (p s : Text) → trim_prefix (p ++ s) p ≡ s
unfolding trim_prefix
trim_prefix-append p s = rw (has_prefix-append p s) (drop_text-append p s)

pub append_cancel : (p s t : Text) → p ++ s ≡ p ++ t → s ≡ t
append_cancel p s t h = ground (arith, trim_prefix-append p s, trim_prefix-append p t)

pub text_ne : (s t : Text) → s ≢ t → text_eq s t ≡ false
text_ne s t h = elim (Bool-cases (text_eq s t)) [ inl e ↦ absurd (h (text_eq→ s t e)) | inr e ↦ e ]
