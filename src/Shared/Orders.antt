-- ===== src/Shared/Orders.antt =====
-- Python's order of texts and of tuples of them, and sorted.

use mathlib.Core.Path.{◌≡◌, refl, sym, ◌∙◌, subst}
use mathlib.Core.Logic.{inl, inr}
use mathlib.Core.Bool.{Bool, true, false, not, ◌&&◌}
use mathlib.Core.Option.{Option, none, some}
use mathlib.Core.List.{List, [], ◌∷◌}
use htn_llm_rtl_gen.Shared.Tests.{
  Eq, ltb, ◌==◌, nat_eq, list_eq, contains, some_injective, Bool-cases, Option-cases, if◌then◌else◌,
}
use htn_llm_rtl_gen.Shared.Lists.{filter, all, All}
use htn_llm_rtl_gen.Shared.Text.{Str}

-- `xs < ys` of two sequences whose elements are compared by `lt`
unfoldable pub precedes {ℓ} : {A : Type ℓ} ⦃e : Eq A⦄ → (A → A → Bool) → List A → List A → Bool
precedes lt xs [] = false
precedes lt [] (y ∷ ys) = true
precedes lt (x ∷ xs) (y ∷ ys) = let later = precedes lt xs ys in if x == y then later else lt x y

-- `s < t` of two texts, and of two tuples of texts
unfoldable pub text_lt : Str → Str → Bool
unfolding precedes
text_lt = precedes ltb

unfoldable pub tuple_lt : List Str → List Str → Bool
unfolding precedes text_lt
tuple_lt = precedes text_lt

module _ {ℓ} {A : Type ℓ} (lt : A → A → Bool) where
  -- `x` before the first element that it is not greater than
  unfoldable pub place_in : A → List A → List A
  place_in x [] = x ∷ []
  place_in x (y ∷ ys) = let later = place_in x ys in if lt y x then y ∷ later else x ∷ y ∷ ys

  -- `sorted(xs)`, which keeps the order of equal elements
  unfoldable pub sorted : List A → List A
  unfolding place_in
  sorted [] = []
  sorted (x ∷ xs) = place_in x (sorted xs)

  -- the first of the least elements
  unfoldable pub least : List A → Option A
  least [] = none
  least (x ∷ xs) = elim (least xs) [ none ↦ some x | some y ↦ if lt y x then some y else some x ]

-- the elements, each once, in the order of their last occurrences
unfoldable pub distinct {ℓ} : {A : Type ℓ} ⦃e : Eq A⦄ → List A → List A
distinct [] = []
distinct (x ∷ xs) = let rest = distinct xs in if contains xs x then rest else x ∷ rest

-- `set(xs) - set(ys)`
unfoldable pub minus : List Str → List Str → List Str
minus xs ys = filter (λ x. not (contains ys x)) xs

-- the two sets of names are equal
unfoldable pub same_set : List Str → List Str → Bool
same_set xs ys = all (contains ys) xs && all (contains xs) ys

module _ {ℓ} {A : Type ℓ} (lt : A → A → Bool) (y : A) where
  least_alone : (xs : List A) → least lt xs ≡ none → least lt (y ∷ xs) ≡ some y
  unfolding least
  least_alone xs e = rw (least, e) refl

  least_later :
      (z : A) (xs : List A) → least lt xs ≡ some z → lt z y ≡ true → least lt (y ∷ xs) ≡ some z
  unfolding least
  least_later z xs e b = rw (least, e, b) refl

  least_first :
      (z : A) (xs : List A) → least lt xs ≡ some z → lt z y ≡ false → least lt (y ∷ xs) ≡ some y
  unfolding least
  least_first z xs e b = rw (least, e, b) refl

-- What holds of all the elements holds of a least one.
module _ {ℓ κ} {A : Type ℓ} (lt : A → A → Bool) (P : A → Type κ) where
  pub least-All : (xs : List A) {x : A} → All P xs → least lt xs ≡ some x → P x
  unfolding least
  least-All [] h k = cc k
  least-All (y ∷ xs) {x} h k = elim (Option-cases (least lt xs)) [
    | inl e ↦ subst P (some_injective (sym (least_alone lt y xs e) ∙ k)) h.0
    | inr (z, e) ↦ elim (Bool-cases (lt z y)) [
      | inl b ↦ least-All xs h.1 (e ∙ (sym (least_later lt y z xs e b) ∙ k))
      | inr b ↦ subst P (some_injective (sym (least_first lt y z xs e b) ∙ k)) h.0
    ]
  ]

  place_in-All : (x : A) (xs : List A) → P x → All P xs → All P (place_in lt x xs)
  unfolding place_in
  place_in-All x [] h k = (h, tt)
  place_in-All x (y ∷ xs) h k = elim (Bool-cases (lt y x)) [
    | inl e ↦ rw (place_in, e) (k.0, place_in-All x xs h k.1)
    | inr e ↦ rw (place_in, e) (h, (k.0, k.1))
  ]

  pub sorted-All : (xs : List A) → All P xs → All P (sorted lt xs)
  unfolding sorted
  sorted-All [] h = tt
  sorted-All (x ∷ xs) h = place_in-All x (sorted lt xs) h.0 (sorted-All xs h.1)

module _ {ℓ κ} {A : Type ℓ} ⦃e : Eq A⦄ (P : A → Type κ) where
  pub distinct-All : (xs : List A) → All P xs → All P (distinct xs)
  unfolding distinct
  distinct-All [] h = tt
  distinct-All (x ∷ xs) h = elim (Bool-cases (contains xs x)) [
    | inl b ↦ rw (distinct, b) (distinct-All xs h.1)
    | inr b ↦ rw (distinct, b) (h.0, distinct-All xs h.1)
  ]
