-- ===== src/Strconv/RoundTrip.antt =====
-- Atoi reads back what Itoa writes.
use api_ratelimiter.Base.{
  ℕ, All, zero, suc, ◌+◌, ◌*◌, ◌/◌, ◌%◌, ◌^◌, ◌<◌, ◌≡◌, refl, sym, ap, ◌∙◌, Bool-cases, inl, inr,
  true, [], ◌∷◌, pos, Text, ltb, arith,
}
use api_ratelimiter.Strconv.{scan_digits, scan_unsigned, at_most_max, atoi, put_digits, itoa}

below : (n : ℕ) → n < 10 → ltb n 10 ≡ true
below n h = ground arith

scan_digits-cons :
    (n d : ℕ) (s : Text)
    → d < 10
    → n * 10 + d < 2 ^ 64
    → scan_digits n ((b'0' + d) ∷ s) ≡ scan_digits (n * 10 + d) s
unfolding scan_digits
scan_digits-cons n d s h k = ground arith

scan_digits_first : (n : ℕ) (s : Text) → n < 10 → scan_digits 0 ((b'0' + n) ∷ s) ≡ scan_digits n s
scan_digits_first n s h =
    scan_digits-cons 0 n s h (omega arith) ∙ ap (λ m. scan_digits m s) (omega arith)

-- Reading the written digits leads to their number.
scan_digits-put_digits :
    (fuel n : ℕ) (s : Text)
    → 0 < fuel
    → n < 10 ^ fuel
    → n < 2 ^ 64
    → scan_digits 0 (put_digits fuel n s) ≡ scan_digits n s
unfolding put_digits
scan_digits-put_digits zero n s z h k = absurd (omega arith)
scan_digits-put_digits (suc zero) n s z h k =
    rw (below n (omega arith)) (scan_digits_first n s (omega arith))
scan_digits-put_digits (suc (suc fuel)) n s z h k = elim (Bool-cases (ltb n 10)) [
  | inl e ↦ rw e (scan_digits_first n s (ground (arith, e)))
  | inr e ↦ rw e (
      scan_digits-put_digits (suc fuel) (n / 10) ((b'0' + n % 10) ∷ s) (omega arith) (omega arith)
        (omega arith)
      ∙ scan_digits-cons (n / 10) (n % 10) s (omega arith) (omega arith)
      ∙ ap (λ m. scan_digits m s) (omega arith))
]

-- They start with a digit.
put_digits_head :
    (fuel n : ℕ) (s : Text)
    → 0 < fuel
    → n < 10 ^ fuel
    → (d : ℕ) × (t : Text) × (d < 10) × (put_digits fuel n s ≡ (b'0' + d) ∷ t)
unfolding put_digits
put_digits_head zero n s z h = absurd (omega arith)
put_digits_head (suc zero) n s z h = (n, s, omega arith, rw (below n (omega arith)) refl)
put_digits_head (suc (suc fuel)) n s z h = elim (Bool-cases (ltb n 10)) [
  | inl e ↦ (n, s, ground (arith, e), rw e refl)
  | inr e ↦
      rw e (put_digits_head (suc fuel) (n / 10) ((b'0' + n % 10) ∷ s) (omega arith) (omega arith))
]

atoi_digit :
    (d : ℕ) (s : Text)
    → d < 10
    → atoi ((b'0' + d) ∷ s) ≡ at_most_max (scan_digits 0 ((b'0' + d) ∷ s))
unfolding atoi scan_unsigned
atoi_digit d s h = ground arith

-- Atoi reads back what Itoa writes for an int64 that is not negative.
pub atoi-itoa : (n : ℕ) → n < 2 ^ 63 → atoi (itoa (pos n)) ≡ pos n
unfolding itoa at_most_max
atoi-itoa n h =
    let (d, t, lt, e) = put_digits_head 19 n [] (omega arith) (omega arith) in
    ap atoi e
    ∙ atoi_digit d t lt
    ∙ ap (λ s. at_most_max (scan_digits 0 s)) (sym e)
    ∙ ap at_most_max (scan_digits-put_digits 19 n [] (omega arith) (omega arith) (omega arith))
    ∙ unfold scan_digits in ground arith

put_digits-IsBytes :
    (fuel n : ℕ) (s : Text)
    → n < 10 ^ fuel
    → All (λ c. c < 256) s
    → All (λ c. c < 256) (put_digits fuel n s)
unfolding put_digits
put_digits-IsBytes zero n s h b = b
put_digits-IsBytes (suc zero) n s h b = rw (below n (omega arith)) (omega arith, b)
put_digits-IsBytes (suc (suc fuel)) n s h b = elim (Bool-cases (ltb n 10)) [
  | inl e ↦ rw e (ground (arith, e), b)
  | inr e ↦
      rw e (
        put_digits-IsBytes (suc fuel) (n / 10) ((b'0' + n % 10) ∷ s) (omega arith) (omega arith, b))
]

pub itoa-IsBytes : (n : ℕ) → n < 2 ^ 63 → All (λ c. c < 256) (itoa (pos n))
unfolding itoa
itoa-IsBytes n h = put_digits-IsBytes 19 n [] (omega arith) tt
