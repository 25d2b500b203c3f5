-- ===== src/Base/Dict.antt =====
-- Go's `map[string]V` as an association list. The order of its entries stands for the order in
-- which one `range` over the map happens to meet them, and no theorem depends on it.
use api_ratelimiter.Base.Tests.{if◌then◌else◌, Bool-cases}
use api_ratelimiter.Base.Lists.{length}
use api_ratelimiter.Base.Bytes.{Text, text_eq, text_eq_iff, text_eq_refl, text_eq→, text_ne_sym}
use Prim.Native.Nat.{suc}
use mathlib.Core.Path.{◌≡◌, refl, ap}
use mathlib.Core.Logic.{inl, inr}
use mathlib.Core.Bool.{false}
use mathlib.Core.Option.{Option, none, some}
use mathlib.Core.List.{List, [], ◌∷◌}
use native.Mathlib.Omega.{arith}

abbrev pub Dict {ℓ} : Type ℓ → Type ℓ
Dict V = List (Text × V)

module _ {ℓ} {V : Type ℓ} where
  -- m[k], with the `ok` of the two-value form
  unfoldable pub lookup : Text → Dict V → Option V
  lookup k [] = none
  lookup k ((j, v) ∷ m) = if text_eq j k then some v else lookup k m

  -- m[k] = v
  unfoldable pub insert : Text → V → Dict V → Dict V
  insert k v [] = (k, v) ∷ []
  insert k v ((j, w) ∷ m) = if text_eq j k then (k, v) ∷ m else (j, w) ∷ insert k v m

  -- delete(m, k)
  unfoldable pub erase : Text → Dict V → Dict V
  erase k [] = []
  erase k ((j, v) ∷ m) = let rest = erase k m in if text_eq j k then rest else (j, v) ∷ rest

  -- No entry has the key k.
  abbrev pub Fresh : Text → Dict V → Type 0
  Fresh k [] = Unit
  Fresh k ((j, v) ∷ m) = (text_eq j k ≡ false) × Fresh k m

  -- No key stands twice.
  abbrev pub IsMap : Dict V → Type 0
  IsMap [] = Unit
  IsMap ((j, v) ∷ m) = Fresh j m × IsMap m

  pub lookup-insert :
      (k j : Text) (v : V) (m : Dict V)
      → lookup j (insert k v m) ≡ (if text_eq k j then some v else lookup j m)
  unfolding lookup insert
  lookup-insert k j v [] = refl
  lookup-insert k j v ((i, w) ∷ m) =
      ground (arith, text_eq_iff k j, text_eq_iff i k, text_eq_iff i j, lookup-insert k j v m)

  pub lookup-erase :
      (k j : Text) (m : Dict V) → lookup j (erase k m) ≡ (if text_eq k j then none else lookup j m)
  unfolding lookup erase
  lookup-erase k j [] = ground arith
  lookup-erase k j ((i, w) ∷ m) =
      ground (arith, text_eq_iff k j, text_eq_iff i k, text_eq_iff i j, lookup-erase k j m)

  pub lookup-insert_self : (k : Text) (v : V) (m : Dict V) → lookup k (insert k v m) ≡ some v
  lookup-insert_self k v m = simp (lookup-insert, text_eq_refl)

  Fresh-insert :
      (j k : Text) (v : V) (m : Dict V) → text_eq k j ≡ false → Fresh j m → Fresh j (insert k v m)
  unfolding insert
  Fresh-insert j k v [] h f = (h, tt)
  Fresh-insert j k v ((i, w) ∷ m) h f = elim (Bool-cases (text_eq i k)) [
    | inl e ↦ rw e (h, f.1)
    | inr e ↦ rw e (f.0, Fresh-insert j k v m h f.1)
  ]

  pub insert-IsMap : (k : Text) (v : V) (m : Dict V) → IsMap m → IsMap (insert k v m)
  unfolding insert
  insert-IsMap k v [] h = (tt, tt)
  insert-IsMap k v ((i, w) ∷ m) h = elim (Bool-cases (text_eq i k)) [
    | inl e ↦ rw e (rw (text_eq→ i k e) at h.0, h.1)
    | inr e ↦ rw e (Fresh-insert i k v m (text_ne_sym i k e) h.0, insert-IsMap k v m h.1)
  ]

  Fresh-erase : (j k : Text) (m : Dict V) → Fresh j m → Fresh j (erase k m)
  unfolding erase
  Fresh-erase j k [] f = tt
  Fresh-erase j k ((i, w) ∷ m) f = elim (Bool-cases (text_eq i k)) [
    | inl e ↦ rw e (Fresh-erase j k m f.1)
    | inr e ↦ rw e (f.0, Fresh-erase j k m f.1)
  ]

  pub erase-IsMap : (k : Text) (m : Dict V) → IsMap m → IsMap (erase k m)
  unfolding erase
  erase-IsMap k [] h = tt
  erase-IsMap k ((i, w) ∷ m) h = elim (Bool-cases (text_eq i k)) [
    | inl e ↦ rw e (erase-IsMap k m h.1)
    | inr e ↦ rw e (Fresh-erase i k m h.0, erase-IsMap k m h.1)
  ]

  pub erase_of_Fresh : (k : Text) (m : Dict V) → Fresh k m → erase k m ≡ m
  unfolding erase
  erase_of_Fresh k [] f = refl
  erase_of_Fresh k ((i, w) ∷ m) f = rw (f.0, erase_of_Fresh k m f.1)

  -- Deleting a key that is there takes one entry away.
  pub length-erase :
      (k : Text) (v : V) (m : Dict V)
      → IsMap m
      → lookup k m ≡ some v
      → length m ≡ suc (length (erase k m))
  unfolding lookup erase
  length-erase k v [] h e = cc
  length-erase k v ((i, w) ∷ m) h e = elim (Bool-cases (text_eq i k)) [
    | inl q ↦ rw (q, erase_of_Fresh k m (rw (text_eq→ i k q) at h.0))
    | inr q ↦ rw q (ap suc (length-erase k v m h.1 (rw q at e)))
  ]

  pub length-insert :
      (k : Text) (v : V) (m : Dict V)
      → length (insert k v m) ≡ elim (lookup k m) [ none ↦ suc (length m) | some _ ↦ length m ]
  unfolding lookup insert
  length-insert k v [] = refl
  length-insert k v ((i, w) ∷ m) = ground (arith, length-insert k v m)
