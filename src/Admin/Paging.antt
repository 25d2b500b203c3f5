-- ===== src/Admin/Paging.antt =====
-- How handleLimits and handleAbuse of internal/admin/admin.go cut their rows into pages. The query's
-- page is the int that strconv.Atoi returns; a result is `none` where Go panics.
use api_ratelimiter.Base.{
  ℕ, zero, suc, ◌+◌, ◌-◌, ◌*◌, ◌^◌, ◌≤◌, ◌<◌, ◌≡◌, refl, ◌∙◌, ap, Bool, ◌||◌, Option, none, some,
  List, [], ◌++◌, ℤ, pos, ◌+ℤ◌, ◌*ℤ◌, i64, ◌+64◌, ◌*64◌, +64_pos, negsuc, pos_part, ltb_ℤ, ltb,
  length, length-drop, drop_all, Bool-cases, inl, inr, take, drop, take-drop, take-nil, sym, false,
  true, take_all, arith, if◌then◌else◌,
}

abbrev pub page_size : ℕ
page_size = 25

-- if page < 1 { page = 1 }
unfoldable pub clamp_page : ℤ → ℤ
clamp_page page = if ltb_ℤ page (pos 1) then pos 1 else page

-- rows[from:to] for a `to` that is at most len(rows); it panics unless 0 <= from <= to.
unfoldable pub slice {ℓ} : {A : Type ℓ} → ℤ → ℤ → List A → Option (List A)
slice from to rows =
    if ltb_ℤ from (pos 0) || ltb_ℤ to from
    then none
    else some (take (pos_part to - pos_part from) (drop (pos_part from) rows))

-- The rows of a page, and whether there is a next page.
pub record Shown {ℓ} (A : Type ℓ) : Type ℓ where
  pub rows : List A
  pub has_next : Bool

-- Rows: rows[from:to], HasNext: to < total
shown_of {ℓ} : {A : Type ℓ} → ℤ → List A → Option (List A) → Option (Shown A)
shown_of to all none = none
shown_of to all (some shown) =
    some (record { rows = shown; has_next = ltb_ℤ to (pos (length all)) })

unfoldable pub show_rows {ℓ} : {A : Type ℓ} → ℤ → ℤ → List A → Option (Shown A)
unfolding shown_of slice
show_rows from to all = shown_of to all (slice from to all)

-- if to > total { to = total }, and the same for from
unfoldable pub at_most : ℤ → ℤ → ℤ
at_most total to = if ltb_ℤ total to then total else to

unfoldable pub page_at {ℓ} : {A : Type ℓ} → ℤ → ℤ → List A → Option (Shown A)
unfolding show_rows at_most
page_at from to all =
    let total = pos (length all) in show_rows (at_most total from) (at_most total to) all

-- The end of both handlers.
unfoldable pub paginate {ℓ} : {A : Type ℓ} → ℤ → List A → Option (Shown A)
unfolding page_at
paginate page all =
    let from = (page +64 negsuc 0) *64 pos page_size in page_at from (from +64 pos page_size) all

-- The bounds that page_at computes, for numbers.
abbrev cut_at : ℕ → ℕ → ℕ
cut_at total n = if ltb total n then total else n

cut_at-window :
    {A : Type 0} (a n : ℕ) (all : List A)
    → take (cut_at (length all) (a + n) - cut_at (length all) a) (drop (cut_at (length all) a) all)
      ≡ take n (drop a all)
cut_at-window a n all = elim (Bool-cases (ltb (length all) a)) [
  | inl e ↦
      ap (λ d. take (cut_at (length all) (a + n) - cut_at (length all) a) d)
        (drop_all (cut_at (length all) a) all (ground arith))
      ∙ take-nil (cut_at (length all) (a + n) - cut_at (length all) a)
      ∙ sym (take-nil n)
      ∙ ap (take n) (sym (drop_all a all (ground arith)))
  | inr e ↦
      ap (λ d. take (cut_at (length all) (a + n) - d) (drop d all)) (cut_at-below e)
      ∙ elim (Bool-cases (ltb (length all) (a + n))) [
        | inl d ↦
            take_all (cut_at (length all) (a + n) - a) (drop a all)
              (ground (arith, length-drop a all))
            ∙ sym (take_all n (drop a all) (ground (arith, length-drop a all)))
        | inr d ↦ ap (λ k. take k (drop a all)) (ground arith)
      ]
]
  where
    cut_at-below : ltb (length all) a ≡ false → cut_at (length all) a ≡ a
    cut_at-below e = ground arith

at_most_number : (t a : ℕ) → at_most (pos t) (pos a) ≡ pos (cut_at t a)
unfolding at_most
at_most_number t a = ground arith

show_rows_number :
    {A : Type 0} (f t : ℕ) (all : List A)
    → f ≤ t
    → show_rows (pos f) (pos t) all
      ≡ some (record { rows = take (t - f) (drop f all); has_next = ltb t (length all) })
unfolding show_rows slice shown_of
show_rows_number f t all h =
    ap (λ b. shown_of (pos t) all (if b then none else some (take (t - f) (drop f all)))) in_bounds
    ∙ ap (λ b. some (record { rows = take (t - f) (drop f all); has_next = b })) (ground arith)
  where
    in_bounds : (ltb_ℤ (pos f) (pos 0) || ltb_ℤ (pos t) (pos f)) ≡ false
    in_bounds = ground arith

page_at_lem :
    {A : Type 0} (a n : ℕ) (all : List A)
    → page_at (pos a) (pos (a + n)) all
      ≡ some (record { rows = take n (drop a all); has_next = ltb (a + n) (length all) })
unfolding page_at
page_at_lem a n all =
    ap (λ f. show_rows f (at_most (pos (length all)) (pos (a + n))) all)
      (at_most_number (length all) a)
    ∙ ap (λ t. show_rows (pos (cut_at (length all) a)) t all) (at_most_number (length all) (a + n))
    ∙ show_rows_number (cut_at (length all) a) (cut_at (length all) (a + n)) all (ground arith)
    ∙ ap
        (λ r. some (record { rows = r; has_next = ltb (cut_at (length all) (a + n)) (length all) }))
        (cut_at-window a n all)
    ∙ ap (λ b. some (record { rows = take n (drop a all); has_next = b })) (ground arith)

from_number : (p : ℕ) → suc p * 25 < 2 ^ 63 → (pos (suc p) +64 negsuc 0) *64 pos 25 ≡ pos (p * 25)
unfolding ◌+64◌ ◌*64◌ i64 ◌+ℤ◌ ◌*ℤ◌
from_number p h = ground arith

pub paginate_lem :
    {A : Type 0} (p : ℕ) (all : List A)
    → suc p * 25 < 2 ^ 63
    → paginate (pos (suc p)) all
      ≡ some
          (record { rows = take 25 (drop (p * 25) all); has_next = ltb (p * 25 + 25) (length all) })
unfolding paginate
paginate_lem p all h =
    ap (λ f. page_at f (f +64 pos 25) all) (from_number p h)
    ∙ ap (λ t. page_at (pos (p * 25)) t all) (+64_pos (p * 25) 25 (omega arith))
    ∙ page_at_lem (p * 25) 25 all

-- A start that wrapped to a negative number panics.
slice_negative : {A : Type 0} (k : ℕ) (to : ℤ) (all : List A) → slice (negsuc k) to all ≡ none
unfolding slice
slice_negative k to all =
    ap (λ b. if b || ltb_ℤ to (negsuc k) then none else some (take (pos_part to - 0) (drop 0 all)))
      negative
  where
    negative : ltb_ℤ (negsuc k) (pos 0) ≡ true
    negative = ground arith

at_most_negative : (t k : ℕ) → at_most (pos t) (negsuc k) ≡ negsuc k
unfolding at_most
at_most_negative t k = ground arith

page_at_negative : {A : Type 0} (k : ℕ) (to : ℤ) (all : List A) → page_at (negsuc k) to all ≡ none
unfolding page_at show_rows shown_of
page_at_negative k to all =
    ap (λ f. show_rows f (at_most (pos (length all)) to) all) (at_most_negative (length all) k)
    ∙ ap (shown_of (at_most (pos (length all)) to) all)
        (slice_negative k (at_most (pos (length all)) to) all)

pub paginate_wraps : {A : Type 0} (all : List A) → paginate (pos 368934881474191034) all ≡ none
unfolding paginate ◌+64◌ ◌*64◌ i64 ◌+ℤ◌ ◌*ℤ◌
paginate_wraps all = page_at_negative 9223372036854775790 (negsuc 9223372036854775765) all

-- The rows on the first n pages of a handler, one page after the other.
unfoldable pub pages_upto {ℓ} : {A : Type ℓ} → (ℤ → List A) → ℕ → List A
pages_upto page zero = []
pages_upto page (suc n) = pages_upto page n ++ page (pos (suc n))

-- Pages that each show their slice show the rows once each, in order.
pub pages_upto-take :
    {A : Type 0} (page : ℤ → List A) (all : List A)
    → ((p : ℕ) → suc p * 25 < 2 ^ 63 → page (pos (suc p)) ≡ take 25 (drop (p * 25) all))
    → (n : ℕ) → n * 25 < 2 ^ 63
    → pages_upto page n ≡ take (n * 25) all
unfolding pages_upto
pages_upto-take page all h zero b = refl
pages_upto-take page all h (suc n) b =
    ap (λ s. s ++ page (pos (suc n))) (pages_upto-take page all h n (omega arith))
    ∙ ap (λ s. take (n * 25) all ++ s) (h n b)
    ∙ take-drop (n * 25) 25 all
    ∙ ap (λ k. take k all) (omega arith)

pub pages_upto_all :
    {A : Type 0} (page : ℤ → List A) (all : List A)
    → ((p : ℕ) → suc p * 25 < 2 ^ 63 → page (pos (suc p)) ≡ take 25 (drop (p * 25) all))
    → (n : ℕ) → n * 25 < 2 ^ 63
    → length all ≤ n * 25
    → pages_upto page n ≡ all
pages_upto_all page all h n b c = pages_upto-take page all h n b ∙ take_all (n * 25) all c
