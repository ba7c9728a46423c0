-- ===== src/Lift/Tying/Choices.antt =====
-- What a candidate of the tying loop is: it binds a variable at least, each a variable of the method.
use htn_llm_rtl_gen.Loops.{Fact}
use htn_llm_rtl_gen.Lift.{Columns, is_variable}
use htn_llm_rtl_gen.Lift.Tying.{
  constants, named_first, choices, each_with, product, unbound_in, Condition, Candidate,
  candidate_lt, all_pick, candidates_from, candidates, names,
}
use mathlib.Core.Path.{subst}
use htn_llm_rtl_gen.Shared.{
  ℕ, ◌≡◌, refl, sym, inl, inr, Bool, true, false, not, ◌&&◌, some, List, [], ◌∷◌, map, arith,
  is_empty, All, All-map, All-append, contains-All, least, least-All, starts_with, ◌==◌, nat_eq,
  if◌then◌else◌, list_eq, pair_eq, contains, contains_tail, contains_head, Bool-cases, Str, codes,
  strip_prefix,
}

-- An element of a reading: a constant, or a variable of the method.
abbrev IsChoice : Columns → Str → Type 0
IsChoice variables x = is_variable x ≡ true → contains (names variables) x ≡ true

abbrev IsNamed : Columns → Str → Type 0
IsNamed variables x = contains (names variables) x ≡ true

named_first-IsNamed :
    (a : Str) (variables : Columns) → All (IsNamed variables) (named_first a variables)
unfolding named_first
named_first-IsNamed a [] = tt
named_first-IsNamed a ((v, []) ∷ variables) =
    All-map (λ x h. contains_tail v x (names variables) h) (named_first a variables)
      (named_first-IsNamed a variables)
named_first-IsNamed a ((v, y ∷ col) ∷ variables) = elim (Bool-cases (y == a)) [
  | inl e ↦
      rw (named_first, e)
        (
          contains_head v (names variables),
          All-map (λ x h. contains_tail v x (names variables) h) (named_first a variables)
              (named_first-IsNamed a variables),
        )
  | inr e ↦
      rw (named_first, e)
        (All-map (λ x h. contains_tail v x (names variables) h) (named_first a variables)
          (named_first-IsNamed a variables))
]

constant_no_variable : (a : Str) → contains constants a ≡ true → is_variable a ≡ false
unfolding is_variable starts_with strip_prefix codes
constant_no_variable a h =
    contains-All (λ c. is_variable c ≡ false) constants a (refl, (refl, (refl, (refl, tt)))) h

constant-IsChoice :
    (variables : Columns) (a : Str) (b : Bool)
    → contains constants a ≡ b
    → All (IsChoice variables) (if b then a ∷ [] else [])
constant-IsChoice variables a true h = ((λ v. cc (v, constant_no_variable a h)), tt)
constant-IsChoice variables a false h = tt

choices-IsChoice : (variables : Columns) (a : Str) → All (IsChoice variables) (choices variables a)
unfolding choices
choices-IsChoice variables a =
    All-append (IsChoice variables) (named_first a variables) _
      (All-map (λ x h v. h) (named_first a variables) (named_first-IsNamed a variables))
      (constant-IsChoice variables a (contains constants a) refl)

cons-All :
    (P : Str → Type 0) (x : Str) (rests : List (List Str))
    → P x
    → All (All P) rests
    → All (All P) (map (λ r. x ∷ r) rests)
cons-All P x [] h k = tt
cons-All P x (r ∷ rests) h k = ((h, k.0), cons-All P x rests h k.1)

each_with-All :
    (P : Str → Type 0) (xs : List Str) (rests : List (List Str))
    → All P xs
    → All (All P) rests
    → All (All P) (each_with xs rests)
unfolding each_with
each_with-All P [] rests h k = tt
each_with-All P (x ∷ xs) rests h k =
    All-append (All P) (map (λ r. x ∷ r) rests) (each_with xs rests) (cons-All P x rests h.0 k)
      (each_with-All P xs rests h.1 k)

product-All :
    (variables : Columns) (args : List Str)
    → All (All (IsChoice variables)) (product (map (choices variables) args))
unfolding product
product-All variables [] = (tt, tt)
product-All variables (a ∷ args) =
    each_with-All (IsChoice variables) (choices variables a)
      (product (map (choices variables) args)) (choices-IsChoice variables a)
      (product-All variables args)

abbrev pub IsNew : Columns → List Str → Str → Type 0
IsNew variables bound x = (contains (names variables) x ≡ true) × (contains bound x ≡ false)

unbound_in_taken :
    (x : Str) (bound reading : List Str)
    → (is_variable x && not (contains bound x) && not (contains (unbound_in bound reading) x))
      ≡ true
    → unbound_in bound (x ∷ reading) ≡ x ∷ unbound_in bound reading
unfolding unbound_in
unbound_in_taken x bound reading e = rw (unbound_in, e) refl

unbound_in_passed :
    (x : Str) (bound reading : List Str)
    → (is_variable x && not (contains bound x) && not (contains (unbound_in bound reading) x))
      ≡ false
    → unbound_in bound (x ∷ reading) ≡ unbound_in bound reading
unfolding unbound_in
unbound_in_passed x bound reading e = rw (unbound_in, e) refl

fresh_variable :
    (x : Str) (bound : List Str) (b : Bool)
    → (is_variable x && not (contains bound x) && b) ≡ true
    → (is_variable x ≡ true) × (contains bound x ≡ false)
fresh_variable x bound b h = (ground arith, ground arith)

unbound_in-IsNamed :
    (variables : Columns) (bound reading : List Str)
    → All (IsChoice variables) reading
    → All (IsNew variables bound) (unbound_in bound reading)
unfolding unbound_in
unbound_in-IsNamed variables bound [] h = tt
unbound_in-IsNamed variables bound (x ∷ reading) h =
    elim (Bool-cases
      (is_variable x && not (contains bound x) && not (contains (unbound_in bound reading) x))) [
        | inl e ↦ subst (All (IsNew variables bound)) (sym (unbound_in_taken x bound reading e)) (
          (h.0 (fresh_variable x bound _ e).0, (fresh_variable x bound _ e).1),
          unbound_in-IsNamed variables bound reading h.1,
        )
        | inr e ↦
            subst (All (IsNew variables bound)) (sym (unbound_in_passed x bound reading e))
              (unbound_in-IsNamed variables bound reading h.1)
      ]

module _ (weigh : List Str → List ℕ) (examples : List (List Fact)) (variables : Columns)
    (bound : List Str) where
  -- The condition binds a variable, binds only variables of the method, and picks them out.
  abbrev pub IsCandidate : Condition → Type 0
  IsCandidate c =
      (is_empty (unbound_in bound c.1) ≡ false)
      × All (IsNew variables bound) (unbound_in bound c.1)
      × (all_pick variables bound c 0 examples ≡ true)

  candidates_from-All :
      (pred : Str) (readings : List (List Str))
      → All (All (IsChoice variables)) readings
      → All (λ c. IsCandidate c.1) (candidates_from weigh examples variables bound pred readings)
  unfolding candidates_from
  candidates_from-All pred [] h = tt
  candidates_from-All pred (reading ∷ readings) h =
      elim (Bool-cases (
        not (is_empty (unbound_in bound reading))
        && all_pick variables bound (pred, reading) 0 examples)) [
          | inr e ↦ rw (candidates_from, e) (candidates_from-All pred readings h.1)
          | inl e ↦
              rw (candidates_from, e)
                (
                  (ground arith, unbound_in-IsNamed variables bound reading h.0, ground arith),
                  candidates_from-All pred readings h.1,
                )
        ]

  candidates-All :
      (facts : List Fact)
      → All (λ c. IsCandidate c.1) (candidates weigh examples variables bound facts)
  unfolding candidates
  candidates-All [] = tt
  candidates-All ([] ∷ facts) = candidates-All facts
  candidates-All ((pred ∷ args) ∷ facts) =
      All-append (λ c. IsCandidate c.1)
        (candidates_from weigh examples variables bound pred
          (product (map (choices variables) args)))
        (candidates weigh examples variables bound facts)
        (candidates_from-All pred (product (map (choices variables) args))
          (product-All variables args))
        (candidates-All facts)

  -- So is the one that the loop takes.
  pub least-IsCandidate :
      (facts : List Fact) {c : Candidate}
      → least candidate_lt (candidates weigh examples variables bound facts) ≡ some c
      → IsCandidate c.1
  least-IsCandidate facts h =
      least-All candidate_lt (λ c. IsCandidate c.1)
        (candidates weigh examples variables bound facts) (candidates-All facts) h
