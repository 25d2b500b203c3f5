-- ===== src/Admin/Sort.antt =====
-- sort.Slice over the rows of the tables. The comparisons of internal/admin/admin.go order all rows,
-- so that the sorted slice does not depend on how sort.Slice works; here it inserts row by row.
use mathlib.Core.List.{Permᴰ}
use api_ratelimiter.Base.{
  ◌≡◌, refl, inl, inr, ◌∙◌, Bool, true, false, List, [], ◌∷◌, map, Text, text_lt, arith,
  if◌then◌else◌, Bool-cases,
}

module _ {ℓ} {A : Type ℓ} (less : A → A → Bool) where
  unfoldable pub insert_by : A → List A → List A
  insert_by x [] = x ∷ []
  insert_by x (y ∷ ys) = let rest = insert_by x ys in if less x y then x ∷ y ∷ ys else y ∷ rest

  unfoldable pub sort_by : List A → List A
  sort_by [] = []
  sort_by (x ∷ xs) = insert_by x (sort_by xs)

-- A strict total order.
pub record IsOrder {ℓ} {A : Type ℓ} (less : A → A → Bool) : Type ℓ where
  pub asym : (x y : A) → less x y ≡ true → less y x ≡ false
  pub trans : (x y z : A) → less x y ≡ true → less y z ≡ true → less x z ≡ true
  pub total : (x y : A) → less x y ≡ false → less y x ≡ false → x ≡ y

module _ {ℓ} {A : Type ℓ} {less : A → A → Bool} (o : IsOrder less) where
  insert_by_comm :
      (x y : A) (l : List A)
      → insert_by less x (insert_by less y l) ≡ insert_by less y (insert_by less x l)
  unfolding insert_by
  insert_by_comm x y [] = ground (arith, o.asym x y, o.asym y x, o.total x y)
  insert_by_comm x y (z ∷ l) = ground (
    arith,
    insert_by_comm x y l,
    o.asym x y,
    o.asym y x,
    o.total x y,
    o.trans x y z,
    o.trans y x z,
  )

text_lt_asym : (s t : Text) → text_lt s t ≡ true → text_lt t s ≡ false
unfolding text_lt
text_lt_asym [] [] h = refl
text_lt_asym [] (b ∷ t) h = refl
text_lt_asym (a ∷ s) [] h = ground arith
text_lt_asym (a ∷ s) (b ∷ t) h = ground (arith, text_lt_asym s t)

text_lt_trans : (s t u : Text) → text_lt s t ≡ true → text_lt t u ≡ true → text_lt s u ≡ true
unfolding text_lt
text_lt_trans [] [] u h k = k
text_lt_trans [] (b ∷ t) [] h k = ground arith
text_lt_trans [] (b ∷ t) (c ∷ u) h k = refl
text_lt_trans (a ∷ s) [] u h k = ground arith
text_lt_trans (a ∷ s) (b ∷ t) [] h k = ground arith
text_lt_trans (a ∷ s) (b ∷ t) (c ∷ u) h k = ground (arith, text_lt_trans s t u)

text_lt_total : (s t : Text) → text_lt s t ≡ false → text_lt t s ≡ false → s ≡ t
unfolding text_lt
text_lt_total [] [] h k = refl
text_lt_total [] (b ∷ t) h k = ground arith
text_lt_total (a ∷ s) [] h k = ground arith
text_lt_total (a ∷ s) (b ∷ t) h k = ground (arith, text_lt_total s t)

pub text_lt-IsOrder : IsOrder text_lt
text_lt-IsOrder = record { asym = text_lt_asym; trans = text_lt_trans; total = text_lt_total }

module _ {ℓ} {A : Type ℓ} {less : A → A → Bool} (o : IsOrder less) where
  -- The sorted list does not depend on the order of the rows.
  pub sort_by-perm : {xs ys : List A} → Permᴰ xs ys → sort_by less xs ≡ sort_by less ys
  unfolding sort_by
  sort_by-perm Permᴰ.nil = refl
  sort_by-perm (Permᴰ.cons e p) = rw (e, sort_by-perm p)
  sort_by-perm (Permᴰ.swap {a' = a'} {b' = b'} {l = l} e f) =
      rw (e, f) (insert_by_comm o b' a' (sort_by less l))
  sort_by-perm (Permᴰ.trans p q) = sort_by-perm p ∙ sort_by-perm q

module _ {ℓ κ} {A : Type ℓ} {K : Type κ} (less : A → A → Bool) (f : K → A) where
  abbrev pub less_at : K → K → Bool
  less_at j k = less (f j) (f k)

  insert_by-map :
      (k : K) (l : List K) → insert_by less (f k) (map f l) ≡ map f (insert_by less_at k l)
  unfolding insert_by
  insert_by-map k [] = refl
  insert_by-map k (j ∷ l) = elim (Bool-cases (less (f k) (f j))) [
    | inl e ↦ rw e
    | inr e ↦ rw (e, insert_by-map k l)
  ]

  pub sort_by-map : (l : List K) → sort_by less (map f l) ≡ map f (sort_by less_at l)
  unfolding sort_by
  sort_by-map [] = refl
  sort_by-map (k ∷ l) = rw (sort_by-map l) (insert_by-map k (sort_by less_at l))
