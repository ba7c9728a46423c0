-- ===== src/Recogniser/Names/Unique.antt =====
-- Every prefix gets a name, and no two prefixes share one.
use htn_llm_rtl_gen.Recogniser.Machine.{bit_eq, Bits}
use htn_llm_rtl_gen.Recogniser.Names.Placed.{IsNamed, name_outputs-IsPlaced, name_groups-IsNamed}
use htn_llm_rtl_gen.Recogniser.Names.{name_outputs, name_groups, distinct, values, state_names}
use htn_llm_rtl_gen.Shared.{
  ℕ, suc, ◌≤◌, ◌≡◌, refl, sym, ap, ◌∙◌, ◌≢◌, inl, inr, true, false, some, List, [], ◌∷◌, arith,
  Dict, lookup, length, All, Distinct, ◌==◌, eq_iff, nat_eq, list_eq, pair_eq, eq_of_beq, contains,
  Bool-cases, Str, ok,
}

-- Taking out what occurs again makes a list with repetitions shorter.
length-distinct : (xs : List Str) → length (distinct xs) ≤ length xs
unfolding distinct
length-distinct [] = omega arith
length-distinct (x ∷ xs) = ground (arith, length-distinct xs)

missing-All : (x : Str) (xs : List Str) → contains xs x ≡ false → All (λ y. x ≢ y) xs
unfolding contains
missing-All x [] h = tt
missing-All x (y ∷ ys) h = (λ e. ground (arith, eq_iff y x), missing-All x ys (ground arith))

distinct-Distinct : (xs : List Str) → length (distinct xs) ≡ length xs → Distinct xs
unfolding distinct
distinct-Distinct [] h = tt
distinct-Distinct (x ∷ xs) h = elim (Bool-cases (contains xs x)) [
  | inl again ↦ absurd (omega (arith, length-distinct xs, rw again at h))
  | inr once ↦ (missing-All x xs once, distinct-Distinct xs (omega (arith, rw once at h)))
]

All-lookup :
    (n : Str) (x : Bits) (names : Dict Bits Str)
    → All (λ y. n ≢ y) (values names)
    → lookup x names ≢ some n
unfolding lookup
All-lookup n x [] h e = cc
All-lookup n x ((j, m) ∷ names) h e = elim (Bool-cases (j == x)) [
  | inl same ↦ h.0 (sym (cc (rw same at e)))
  | inr other ↦ All-lookup n x names h.1 (rw other at e)
]

Distinct-lookup :
    (x y : Bits) (n : Str) (names : Dict Bits Str)
    → Distinct (values names)
    → lookup x names ≡ some n
    → lookup y names ≡ some n
    → x ≡ y
unfolding lookup
Distinct-lookup x y n [] d p q = cc
Distinct-lookup x y n ((j, m) ∷ names) d p q = elim (Bool-cases (j == x)) [
  | inl at_x ↦ elim (Bool-cases (j == y)) [
    | inl at_y ↦ sym (eq_of_beq at_x) ∙ eq_of_beq at_y
    | inr below ↦
        let e : m ≡ n = cc (rw at_x at p) in
        absurd (All-lookup m y names d.0 (rw below at q ∙ ap some (sym e)))
  ]
  | inr below ↦ elim (Bool-cases (j == y)) [
    | inl at_y ↦
        let e : m ≡ n = cc (rw at_y at q) in
        absurd (All-lookup m x names d.0 (rw below at p ∙ ap some (sym e)))
    | inr also_below ↦ Distinct-lookup x y n names d.1 (rw below at p) (rw also_below at q)
  ]
]

length-values : (names : Dict Bits Str) → length (values names) ≡ length names
length-values [] = refl
length-values ((x, name) ∷ names) = ap suc (length-values names)

-- The state of the first loop when it is done, from which the second starts.
abbrev after_outputs : List Bits → List (Str × Bits) → Dict Bits Str × Dict ℕ (List Bits)
after_outputs prefixes recognised = name_outputs recognised prefixes ([], [])

state_names_inv :
    (prefixes : List Bits) (recognised : List (Str × Bits)) (names : Dict Bits Str)
    → state_names prefixes recognised ≡ ok names
    → (names
        ≡ name_groups (after_outputs prefixes recognised).1 (after_outputs prefixes recognised).0)
      × (length (distinct (values names)) ≡ length names)
unfolding state_names
state_names_inv prefixes recognised names h = ground arith

module _ (prefixes : List Bits) (recognised : List (Str × Bits)) where
  -- Where the names are given, every prefix has one, and no two prefixes share one.
  pub state_names_lem :
      (names : Dict Bits Str)
      → state_names prefixes recognised ≡ ok names
      → ((x : Bits) → contains prefixes x ≡ true → (name : Str) × (lookup x names ≡ some name))
        × ((x y : Bits) (name : Str)
            → lookup x names ≡ some name
            → lookup y names ≡ some name
            → x ≡ y)
  state_names_lem names named =
      let (made, once) = state_names_inv prefixes recognised names named in
      (
        (λ x h. rw made (named_by_groups x h)),
        λ x y name.
            Distinct-lookup x y name names
              (distinct-Distinct (values names) (once ∙ sym (length-values names))),
      )
    where
      named_by_groups :
          (x : Bits)
          → contains prefixes x ≡ true
          → IsNamed
              (name_groups
                (after_outputs prefixes recognised).1
                (after_outputs prefixes recognised).0)
              x
      named_by_groups x h = elim (name_outputs-IsPlaced recognised prefixes ([], []) x (inl h)) [
        | inl named ↦ name_groups-IsNamed _ _ x (inr named)
        | inr there ↦ name_groups-IsNamed _ _ x (inl there)
      ]
