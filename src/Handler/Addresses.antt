-- ===== src/Handler/Addresses.antt =====
-- extractIP of internal/handler/check.go: which texts reach the limiter as an address.
use mathlib.Core.List.{cons-ne-nil}
use api_ratelimiter.Base.{
  ℕ, ◌<◌, ◌≡◌, ◌≢◌, ◌↔◌, refl, sym, ap, ◌∙◌, ◌⊎◌, inl, inr, true, false, [], ◌∷◌, ◌++◌, Text, codes,
  arith, if◌then◌else◌, Bool-cases,
}
use api_ratelimiter.Strconv.{trim_space}
use api_ratelimiter.Url.{has_byte}
use api_ratelimiter.Ip.{ip_valid, first_mark, ipv4_valid}
use api_ratelimiter.Ip.Letters.{all_ip_bytes, ip_valid-all_ip_bytes}
use api_ratelimiter.Ip.Dotted.{Dotted, dot, octet, ipv4_valid-iff-Dotted}
use api_ratelimiter.Handler.{CheckRequest, header_get, valid_or_empty, extract_ip}

valid_or_empty_bytes : (v : Text) → all_ip_bytes (valid_or_empty v) ≡ true
unfolding valid_or_empty all_ip_bytes
valid_or_empty_bytes [] = refl
valid_or_empty_bytes (c ∷ v) = elim (Bool-cases (ip_valid (c ∷ v))) [
  | inl e ↦ rw e (ip_valid-all_ip_bytes (c ∷ v) e)
  | inr e ↦ rw e refl
]

-- Whatever X-Real-IP holds, the address that is counted is empty or consists of hexadecimal digits,
-- dots and colons.
pub extract_ip-all_ip_bytes : (r : CheckRequest) → all_ip_bytes (extract_ip r) ≡ true
unfolding extract_ip
extract_ip-all_ip_bytes r = valid_or_empty_bytes (trim_space (header_get (codes "X-Real-Ip") r))

-- Without a colon the text is read as dotted or refused.
first_mark_no_colon :
    (whole s : Text) → has_byte b':' s ≡ false → first_mark whole s ≡ true → ipv4_valid whole ≡ true
unfolding first_mark has_byte
first_mark_no_colon whole [] c h = ground arith
first_mark_no_colon whole (x ∷ s) c h = ground (arith, first_mark_no_colon whole s)

first_mark-octet :
    (whole t : Text) (n : ℕ) → n < 256 → first_mark whole (octet n ++ b'.' ∷ t) ≡ ipv4_valid whole
unfolding first_mark octet
first_mark-octet whole t n h = ground arith

Dotted-ip_valid : (s : Text) → Dotted 3 s → ip_valid s ≡ true
unfolding ip_valid
Dotted-ip_valid s (dot {n} {t = t} v e d) =
    ap (first_mark s) e ∙ first_mark-octet s t n v ∙ (ipv4_valid-iff-Dotted s).1 (dot v e d)

valid_or_empty_lem :
    (v : Text)
    → v ≢ []
    → has_byte b':' v ≡ false
    → ((valid_or_empty v ≡ v) ↔ Dotted 3 v) × ((valid_or_empty v ≡ v) ⊎ (valid_or_empty v ≡ []))
unfolding valid_or_empty first_mark ip_valid
valid_or_empty_lem [] ne c = absurd (ne refl)
valid_or_empty_lem (x ∷ v) ne c = elim (Bool-cases (ip_valid (x ∷ v))) [
  | inl e ↦ (
    (λ _. (ipv4_valid-iff-Dotted (x ∷ v)).0 (first_mark_no_colon (x ∷ v) (x ∷ v) c e), λ _. kept e),
    inl (kept e),
  )
  | inr e ↦ (
    (λ k. absurd (cons-ne-nil x v (sym k ∙ dropped e)), λ d. kept (Dotted-ip_valid (x ∷ v) d)),
    inr (dropped e),
  )
]
  where
    kept : ip_valid (x ∷ v) ≡ true → valid_or_empty (x ∷ v) ≡ x ∷ v
    kept e = ap (λ b. if b then x ∷ v else []) e

    dropped : ip_valid (x ∷ v) ≡ false → valid_or_empty (x ∷ v) ≡ []
    dropped e = ap (λ b. if b then x ∷ v else []) e

-- Where X-Real-IP is, without the spaces around it, a text that is not empty and has no colon: that
-- text is counted as the address exactly when it is four octets below 256 in decimal, without
-- leading zeros and with dots between them, so each IPv4 address has one spelling; any other text is
-- counted as no address.
pub extract_ip-Dotted :
    (r : CheckRequest) (v : Text)
    → trim_space (header_get (codes "X-Real-Ip") r) ≡ v
    → v ≢ []
    → has_byte b':' v ≡ false
    → ((extract_ip r ≡ v) ↔ Dotted 3 v) × ((extract_ip r ≡ v) ⊎ (extract_ip r ≡ []))
unfolding extract_ip
extract_ip-Dotted r v e ne c = rw e (valid_or_empty_lem v ne c)
