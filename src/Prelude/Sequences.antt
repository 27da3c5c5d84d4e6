-- ===== src/Prelude/Sequences.antt =====
-- Filters and concatenations of lists.
use Prim.Native.Nat.{◌+◌}
use mathlib.Core.Path.{◌≡◌, refl, subst}
use mathlib.Core.Bool.{Bool, false, ◌||◌}
use mathlib.Core.List.{List, [], ◌∷◌, ◌++◌}
use native.Mathlib.Omega.{arith}
use robia_back.Prelude.Tests.{if◌then◌else◌, Bool-cases}
use robia_back.Prelude.Lists.{length, any, All}
use mathlib.Core.Logic.{inl, inr}

module _ {ℓ} {A : Type ℓ} where
  -- `Array.prototype.filter`
  abbrev pub filter : (A → Bool) → List A → List A
  filter p [] = []
  filter p (x ∷ xs) = let rest = filter p xs in if p x then x ∷ rest else rest

  pub length-append : (xs ys : List A) → length (xs ++ ys) ≡ length xs + length ys
  length-append [] ys = omega arith
  length-append (x ∷ xs) ys = ground (arith, length-append xs ys)

  pub any-append : (p : A → Bool) (xs ys : List A) → any p (xs ++ ys) ≡ (any p xs || any p ys)
  any-append p [] ys = refl
  any-append p (x ∷ xs) ys = ground (arith, any-append p xs ys)

  pub filter-append :
      (p : A → Bool) (xs ys : List A) → filter p (xs ++ ys) ≡ filter p xs ++ filter p ys
  filter-append p [] ys = refl
  filter-append p (x ∷ xs) ys = ground (arith, filter-append p xs ys)

module _ {ℓ κ} {A : Type ℓ} (P : A → Type κ) where
  pub All-concat : (xs ys : List A) → All P xs → All P ys → All P (xs ++ ys)
  All-concat [] ys h k = k
  All-concat (x ∷ xs) ys h k = (h.0, All-concat xs ys h.1 k)

  pub All-filter : (p : A → Bool) (xs : List A) → All P xs → All P (filter p xs)
  All-filter p [] h = tt
  All-filter p (x ∷ xs) h = elim (Bool-cases (p x)) [
    | inl e ↦ rw e (h.0, All-filter p xs h.1)
    | inr e ↦ rw e (All-filter p xs h.1)
  ]

pub All-map {ℓ κ} :
    {A : Type ℓ} {P Q : A → Type κ} (f : (x : A) → P x → Q x) (xs : List A) → All P xs → All Q xs
All-map f [] h = tt
All-map f (x ∷ xs) h = (f x h.0, All-map f xs h.1)

module _ {ℓ κ} {A : Type ℓ} (Q : A → Type κ) where
  -- What holds of the filtered elements, and of those that the filter removes, holds of all.
  pub All-unfilter :
      (p : A → Bool) (xs : List A) → ((x : A) → p x ≡ false → Q x) → All Q (filter p xs) → All Q xs
  All-unfilter p [] f h = tt
  All-unfilter p (x ∷ xs) f h = elim (Bool-cases (p x)) [
    | inl e ↦
        let kept =
          subst (All Q) (let same : filter p (x ∷ xs) ≡ x ∷ filter p xs = rw e refl in same) h in
        (kept.0, All-unfilter p xs f kept.1)
    | inr e ↦ (
      f x e,
      All-unfilter p xs f
          (subst (All Q) (let same : filter p (x ∷ xs) ≡ filter p xs = rw e refl in same) h),
    )
  ]
