-- ===== src/Lift/Apart/Distinguished.antt =====
-- tell_apart of eval/lift.py tells any two cases apart.
use htn_llm_rtl_gen.Lift.Apart.{LearnedCase, Kind, pairs_with, pairs_from, permutations, tell_apart}
use htn_llm_rtl_gen.Lift.Apart.Marks.{Lacked, Tells, Comes}
use htn_llm_rtl_gen.Lift.Apart.Pairs.{Fits, tell_pairs-Fits, tell_pairs-Comes}
use mathlib.Core.Path.{subst}
use htn_llm_rtl_gen.Shared.{
  contains-nil, some_injective, ℕ, zero, suc, ◌+◌, ◌≤◌, ◌<◌, ◌≡◌, ◌≢◌, ◌⊎◌, sym, ◌∙◌, inl, inr,
  true, some, List, [], ◌∷◌, map, arith, length, get_elem?, All, contains-append,
  contains-append_left, contains_cases, contains_head, contains_tail, range_of, ◌==◌, eq_iff,
  nat_eq, beq_of_ne, Bool-cases, list_eq, pair_eq, contains, ok,
}

pairs_with-contains :
    (i j : ℕ) (js : List ℕ)
    → i ≢ j
    → contains js j ≡ true
    → contains (pairs_with i js) (i, j) ≡ true
unfolding pairs_with
pairs_with-contains i j [] h k = cc (k, contains-nil j)
pairs_with-contains i j (n ∷ js) h k = elim (contains_cases n j js k) [
  | inl e ↦
      subst (λ x. contains (pairs_with i (n ∷ js)) (i, x) ≡ true) e
        (rw (pairs_with, beq_of_ne (λ q. h (q ∙ e))) (contains_head (i, n) (pairs_with i js)))
  | inr later ↦ elim (Bool-cases (i == n)) [
    | inl q ↦ rw (pairs_with, q) (pairs_with-contains i j js h later)
    | inr q ↦
        rw (pairs_with, q)
          (contains_tail (i, n) (i, j) (pairs_with i js) (pairs_with-contains i j js h later))
  ]
]

pairs_from-contains :
    (i j : ℕ) (is js : List ℕ)
    → i ≢ j
    → contains is i ≡ true
    → contains js j ≡ true
    → contains (pairs_from is js) (i, j) ≡ true
unfolding pairs_from
pairs_from-contains i j [] js h k l = cc (k, contains-nil i)
pairs_from-contains i j (n ∷ is) js h k l = elim (contains_cases n i is k) [
  | inl e ↦
      contains-append_left (pairs_with n js) (pairs_from is js) (i, j)
        (subst (λ x. contains (pairs_with x js) (i, j) ≡ true) (sym e)
          (pairs_with-contains i j js h l))
  | inr later ↦ ground (
    arith,
    contains-append (pairs_with n js) (pairs_from is js) (i, j),
    pairs_from-contains i j is js h later l,
  )
]

range_of-contains : (a k i : ℕ) → a ≤ i → i < a + k → contains (range_of a k) i ≡ true
unfolding range_of contains
range_of-contains a zero i h l = absurd (omega arith)
range_of-contains a (suc k) i h l = ground (arith, eq_iff a i, range_of-contains (suc a) k i)

get_elem?_lt : {A : Type 0} (xs : List A) (i : ℕ) {x : A} → get_elem? xs i ≡ some x → i < length xs
get_elem?_lt [] i h = cc h
get_elem?_lt (x ∷ xs) zero h = omega arith
get_elem?_lt (x ∷ xs) (suc i) h = omega (arith, get_elem?_lt xs i h)

permutations-contains :
    (n i j : ℕ) → i ≢ j → i < n → j < n → contains (permutations n) (i, j) ≡ true
unfolding permutations
permutations-contains n i j h k l =
    pairs_from-contains i j (range_of 0 n) (range_of 0 n) h
      (range_of-contains 0 n i (omega arith) (omega (arith, k)))
      (range_of-contains 0 n j (omega arith) (omega (arith, l)))

told_apart :
    (a b : LearnedCase) (x y : List Kind) → Comes a b y → Comes b a x → Tells a b y ⊎ Tells b a x
unfolding Comes
told_apart a b x y (inl told) later = inl told
told_apart a b x y (inr first) (inl told) = inr told
told_apart a b x y (inr (none_held, k, ks, held)) (inr (none_back, k', ks', back)) =
    absurd (cc (held, none_back))

no_absences : (cases : List LearnedCase) → Fits cases (map (λ c. []) cases)
unfolding Fits
no_absences [] n b x at_b at_x = cc at_b
no_absences (c ∷ cases) zero b x at_b at_x =
    subst (All (Lacked b.examples)) (some_injective at_x) tt
no_absences (c ∷ cases) (suc n) b x at_b at_x = no_absences cases n b x at_b at_x

-- Where tell_apart returns, of any two cases one has an absent fact about the module that every
-- example of the other has; and no example of a case has a fact that is absent from it.
pub tell_apart-Tells :
    (cases : List LearnedCase) {absents : List (List Kind)} (i j : ℕ) (a b : LearnedCase)
    (x y : List Kind)
    → tell_apart cases ≡ ok absents
    → i ≢ j
    → get_elem? cases i ≡ some a
    → get_elem? cases j ≡ some b
    → get_elem? absents i ≡ some x
    → get_elem? absents j ≡ some y
    → (Tells a b y ⊎ Tells b a x) × All (Lacked b.examples) y
unfolding tell_apart Fits
tell_apart-Tells cases i j a b x y h differ at_a at_b at_x at_y =
    let start = map (λ c. []) cases in
    let pairs = permutations (length cases) in
    let in_range = get_elem?_lt cases i at_a in
    let in_range' = get_elem?_lt cases j at_b in
    (
      told_apart a b x y
          (tell_pairs-Comes cases pairs start i j a b y
            (permutations-contains (length cases) i j differ in_range in_range') h at_a at_b at_y)
          (tell_pairs-Comes cases pairs start j i b a x
            (permutations-contains (length cases) j i (λ e. differ (sym e)) in_range' in_range) h
            at_b at_a at_x),
      tell_pairs-Fits cases pairs start h (no_absences cases) j b y at_b at_y,
    )
