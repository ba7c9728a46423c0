-- ===== src/Shared/Lists.antt =====
-- Lists measured and indexed by native numbers, under the library's names.
use Prim.Native.Nat.{ℕ, zero, suc, ◌+◌, ◌≤◌}
use mathlib.Core.Path.{◌≡◌, refl, ap, subst}
use mathlib.Core.Logic.{◌≢◌, inl, inr}
use mathlib.Core.Bool.{Bool, true, false, ◌||◌}
use mathlib.Core.List.{List, [], ◌∷◌, ◌++◌, map}
use mathlib.Core.Option.{Option, none, some}
use native.Mathlib.Omega.{arith}
use htn_llm_rtl_gen.Shared.Tests.{
  Eq, contains, contains-nil, contains_cases, contains_head, contains_tail, Bool-cases,
  if◌then◌else◌,
}

-- `range(a, a + k)`
unfoldable pub range_of : ℕ → ℕ → List ℕ
range_of a zero = []
range_of a (suc k) = a ∷ range_of (suc a) k

module _ {ℓ} {A : Type ℓ} where
  abbrev pub length : List A → ℕ
  length [] = 0
  length (x ∷ xs) = suc (length xs)

  abbrev pub get_elem? : List A → ℕ → Option A
  get_elem? [] i = none
  get_elem? (x ∷ xs) zero = some x
  get_elem? (x ∷ xs) (suc i) = get_elem? xs i

  abbrev pub take : ℕ → List A → List A
  take zero xs = []
  take (suc n) [] = []
  take (suc n) (x ∷ xs) = x ∷ take n xs

  abbrev pub drop : ℕ → List A → List A
  drop zero xs = xs
  drop (suc n) [] = []
  drop (suc n) (x ∷ xs) = drop n xs

  abbrev pub replicate : ℕ → A → List A
  replicate zero a = []
  replicate (suc n) a = a ∷ replicate n a

  -- `[x for x in xs if p(x)]`
  unfoldable pub filter : (A → Bool) → List A → List A
  filter p [] = []
  filter p (x ∷ xs) = let rest = filter p xs in if p x then x ∷ rest else rest

  -- `any(p(x) for x in xs)` and `all(p(x) for x in xs)`
  unfoldable pub any : (A → Bool) → List A → Bool
  any p [] = false
  any p (x ∷ xs) = if p x then true else any p xs

  unfoldable pub all : (A → Bool) → List A → Bool
  all p [] = true
  all p (x ∷ xs) = if p x then all p xs else false

  abbrev pub is_empty : List A → Bool
  is_empty [] = true
  is_empty (_ ∷ _) = false

  -- Every element satisfies `P`.
  abbrev pub All {κ} : (A → Type κ) → List A → Type κ
  All P [] = Unit
  All P (x ∷ xs) = P x × All P xs

  -- No element occurs twice.
  abbrev pub Distinct : List A → Type ℓ
  Distinct [] = Unit
  Distinct (x ∷ xs) = All (λ y. x ≢ y) xs × Distinct xs

module _ {ℓ} {A : Type ℓ} where
  pub length-append : (xs ys : List A) → length (xs ++ ys) ≡ length xs + length ys
  length-append [] ys = omega arith
  length-append (x ∷ xs) ys = omega (arith, length-append xs ys)

  pub All-map {κ μ} :
      {P : A → Type κ} {Q : A → Type μ} (f : (a : A) → P a → Q a) (xs : List A)
      → All P xs
      → All Q xs
  All-map f [] h = tt
  All-map f (x ∷ xs) h = (f x h.0, All-map f xs h.1)

  pub All-append {κ} : (P : A → Type κ) (xs ys : List A) → All P xs → All P ys → All P (xs ++ ys)
  All-append P [] ys h k = k
  All-append P (x ∷ xs) ys h k = (h.0, All-append P xs ys h.1 k)

  pub take_all : (n : ℕ) (xs : List A) → length xs ≤ n → take n xs ≡ xs
  take_all zero [] h = refl
  take_all zero (x ∷ xs) h = absurd (omega arith)
  take_all (suc n) [] h = refl
  take_all (suc n) (x ∷ xs) h = ap (λ t. x ∷ t) (take_all n xs (omega arith))

  -- What a filter keeps passes its test.
  pub filter-All : (p : A → Bool) (xs : List A) → All (λ x. p x ≡ true) (filter p xs)
  unfolding filter
  filter-All p [] = tt
  filter-All p (x ∷ xs) = elim (Bool-cases (p x)) [
    | inl e ↦ rw (filter, e) (e, filter-All p xs)
    | inr e ↦ rw (filter, e) (filter-All p xs)
  ]

  -- So does what held of all that it was given.
  pub filter-All_with {κ} :
      (P : A → Type κ) (p : A → Bool) (xs : List A)
      → All P xs
      → All (λ x. P x × (p x ≡ true)) (filter p xs)
  unfolding filter
  filter-All_with P p [] h = tt
  filter-All_with P p (x ∷ xs) h = elim (Bool-cases (p x)) [
    | inl e ↦ rw (filter, e) ((h.0, e), filter-All_with P p xs h.1)
    | inr e ↦ rw (filter, e) (filter-All_with P p xs h.1)
  ]

  pub map-All {κ μ} :
      {B : Type κ} (P : B → Type μ) (f : A → B) (xs : List A)
      → All (λ x. P (f x)) xs
      → All P (map f xs)
  map-All P f [] h = tt
  map-All P f (x ∷ xs) h = (h.0, map-All P f xs h.1)

module _ {ℓ} {A : Type ℓ} ⦃e : Eq A⦄ where
  -- What holds of all the elements holds of each.
  pub contains-All {κ} :
      (P : A → Type κ) (xs : List A) (a : A) → All P xs → contains xs a ≡ true → P a
  contains-All P [] a h k = cc (k, contains-nil a)
  contains-All P (x ∷ xs) a h k = elim (contains_cases x a xs k) [
    | inl e ↦ subst P e h.0
    | inr later ↦ contains-All P xs a h.1 later
  ]

  -- Each of the elements is one of them.
  pub contains-own : (xs : List A) → All (λ x. contains xs x ≡ true) xs
  contains-own [] = tt
  contains-own (x ∷ xs) =
      (contains_head x xs, All-map (λ y h. contains_tail x y xs h) xs (contains-own xs))

  -- What `xs ++ ys` holds, `xs` or `ys` does.
  pub contains-append :
      (xs ys : List A) (v : A) → contains (xs ++ ys) v ≡ (contains xs v || contains ys v)
  unfolding contains
  contains-append [] ys v = refl
  contains-append (x ∷ xs) ys v = ground (arith, contains-append xs ys v)

  pub contains-append_left :
      (xs ys : List A) (v : A) → contains xs v ≡ true → contains (xs ++ ys) v ≡ true
  contains-append_left xs ys v h = ground (arith, contains-append xs ys v)

module _ {ℓ} {A : Type ℓ} (p : A → Bool) where
  pub all-All : (xs : List A) → all p xs ≡ true → All (λ x. p x ≡ true) xs
  unfolding all
  all-All [] h = tt
  all-All (x ∷ xs) h = elim (Bool-cases (p x)) [
    | inl e ↦ (e, all-All xs (rw (all, e) at h))
    | inr e ↦ cc (rw (all, e) at h)
  ]

  pub any-All : (xs : List A) → any p xs ≡ false → All (λ x. p x ≡ false) xs
  unfolding any
  any-All [] h = tt
  any-All (x ∷ xs) h = elim (Bool-cases (p x)) [
    | inl e ↦ cc (rw (any, e) at h)
    | inr e ↦ (e, any-All xs (rw (any, e) at h))
  ]
