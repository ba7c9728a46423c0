-- ===== src/Lift/Tying/Tied.antt =====
-- The tying loop ends, and the conditions that it adds tie the variables one after another.
use htn_llm_rtl_gen.Loops.{Fact}
use htn_llm_rtl_gen.Lift.{Columns}
use htn_llm_rtl_gen.Lift.Tying.{
  unbound_in, Condition, candidate_lt, candidates, only_tentative, names, tie,
}
use htn_llm_rtl_gen.Lift.Tying.Choices.{IsNew, IsCandidate, least-IsCandidate}
use htn_llm_rtl_gen.Shared.{
  ℕ, zero, suc, ◌≤◌, ◌<◌, ◌≡◌, refl, ◌⊎◌, inl, inr, true, false, List, [], ◌∷◌, ◌++◌, arith, length,
  filter, all, is_empty, All, filter-All, least, minus, same_set, ◌>>=◌, Result, nat_eq,
  if◌then◌else◌, list_eq, pair_eq, contains, contains-nil, contains_cases, contains_tail,
  contains_head, Bool-cases, Option-cases, Str, codes, join, cannot_lift, ok, err,
}

contains-append :
    (xs ys : List Str) (x : Str)
    → (contains xs x ≡ true) ⊎ (contains ys x ≡ true)
    → contains (xs ++ ys) x ≡ true
contains-append [] ys x (inl h) = absurd (cc (h, contains-nil x))
contains-append [] ys x (inr h) = h
contains-append (y ∷ xs) ys x (inr h) =
    contains_tail y x (xs ++ ys) (contains-append xs ys x (inr h))
contains-append (y ∷ xs) ys x (inl h) = elim (contains_cases y x xs h) [
  | inl e ↦ cc (e, contains_head y (xs ++ ys))
  | inr later ↦ contains_tail y x (xs ++ ys) (contains-append xs ys x (inl later))
]

-- How many of the names are not bound.
abbrev left : List Str → List Str → ℕ
left bound ns = length (minus ns bound)

left_in :
    (bound ns : List Str) (n : Str) → contains bound n ≡ true → left bound (n ∷ ns) ≡ left bound ns
unfolding minus filter
left_in bound ns n e = rw (minus, filter, e) refl

left_out :
    (bound ns : List Str) (n : Str)
    → contains bound n ≡ false
    → left bound (n ∷ ns) ≡ suc (left bound ns)
unfolding minus filter
left_out bound ns n e = rw (minus, filter, e) refl

left_le : (bound ns : List Str) (n : Str) → left bound (n ∷ ns) ≤ suc (left bound ns)
left_le bound ns n = elim (Bool-cases (contains bound n)) [
  | inl e ↦ omega (arith, left_in bound ns n e)
  | inr e ↦ omega (arith, left_out bound ns n e)
]

left-append : (bound new ns : List Str) → left (bound ++ new) ns ≤ left bound ns
unfolding minus filter
left-append bound new [] = omega arith
left-append bound new (n ∷ ns) = elim (Bool-cases (contains bound n)) [
  | inl e ↦ omega (
    arith,
    left_in bound ns n e,
    left_in (bound ++ new) ns n (contains-append bound new n (inl e)),
    left-append bound new ns,
  )
  | inr e ↦
      omega (arith, left_out bound ns n e, left_le (bound ++ new) ns n, left-append bound new ns)
]

-- A name more that is bound leaves fewer.
left-append_lt :
    (bound new ns : List Str) (x : Str)
    → contains ns x ≡ true
    → contains bound x ≡ false
    → contains new x ≡ true
    → left (bound ++ new) ns < left bound ns
left-append_lt bound new [] x h b k = absurd (cc (h, contains-nil x))
left-append_lt bound new (n ∷ ns) x h b k = elim (contains_cases n x ns h) [
  | inl e ↦ omega (
    arith,
    left_out bound ns n (cc (e, b)),
    left_in (bound ++ new) ns n (contains-append bound new n (inr (cc (e, k)))),
    left-append bound new ns,
  )
  | inr later ↦ elim (Bool-cases (contains bound n)) [
    | inl e ↦ omega (
      arith,
      left_in bound ns n e,
      left_in (bound ++ new) ns n (contains-append bound new n (inl e)),
      left-append_lt bound new ns x later b k,
    )
    | inr e ↦ omega (
      arith,
      left_out bound ns n e,
      left_le (bound ++ new) ns n,
      left-append_lt bound new ns x later b k,
    )
  ]
]

binds :
    (variables : Columns) (bound new : List Str)
    → is_empty new ≡ false
    → All (IsNew variables bound) new
    → left (bound ++ new) (names variables) < left bound (names variables)
binds variables bound [] h k = absurd (cc h)
binds variables bound (x ∷ new) h k =
    left-append_lt bound (x ∷ new) (names variables) x k.0.0 k.0.1 (contains_head x new)

all-names :
    (bound : List Str) (xs : Columns)
    → all (contains bound) (names xs) ≡ true
    → All (λ x. contains bound x.0 ≡ true) xs
unfolding all
all-names bound [] h = tt
all-names bound (x ∷ xs) h = elim (Bool-cases (contains bound x.0)) [
  | inl e ↦ (e, all-names bound xs (ground (arith, e)))
  | inr e ↦ absurd (ground (arith, e))
]

same_set-All :
    (bound : List Str) (xs : Columns)
    → same_set bound (names xs) ≡ true
    → All (λ x. contains bound x.0 ≡ true) xs
unfolding same_set
same_set-All bound xs h = all-names bound xs (ground arith)

module _ (weigh : List Str → List ℕ) (examples : List (List Fact)) (variables : Columns) where
  -- A candidate leaves fewer of the variables to bind.
  candidate_binds :
      (bound : List Str) (c : Condition)
      → IsCandidate weigh examples variables bound c
      → left (bound ++ unbound_in bound c.1) (names variables) < left bound (names variables)
  candidate_binds bound c h = binds variables bound (unbound_in bound c.1) h.0 h.1

  -- Each condition binds variables of the method that the earlier ones leave unbound, and in every
  -- example it picks out the names of the variables; `end` is what is bound after them all.
  abbrev pub Tied : List Str → List Condition → List Str → Type 0
  Tied bound [] end = bound ≡ end
  Tied bound (c ∷ conditions) end =
      IsCandidate weigh examples variables bound c
      × Tied (bound ++ unbound_in bound c.1) conditions end

  -- The loop ties all the variables that are left at its end, or says that it cannot.
  abbrev pub Settled : List Str → Result (Columns × List Condition) → Type 0
  Settled bound r =
      ((kept : Columns) × (conditions : List Condition) × (end : List Str) × (r
          ≡ ok (kept, conditions))
        × Tied bound conditions end
        × All (λ v. contains end v.0 ≡ true) kept)
      ⊎ ((names_left : Str) × (r ≡ err (cannot_lift names_left)))

  Settled-after :
      (bound : List Str) (c : Condition) (r : Result (Columns × List Condition))
      → IsCandidate weigh examples variables bound c
      → Settled (bound ++ unbound_in bound c.1) r
      → Settled bound (do rest ← r; ok (rest.0, c ∷ rest.1))
  Settled-after bound c r h (inl (kept, conditions, end, e, tied, all_bound)) =
      inl (kept, c ∷ conditions, end, rw e refl, (h, tied), all_bound)
  Settled-after bound c r h (inr (why, e)) = inr (why, rw e refl)

  Settled-without :
      (tentative bound : List Str)
      → Settled bound (
          if only_tentative weigh examples variables tentative bound
          then ok (filter (λ v. contains bound v.0) variables, [])
          else err (cannot_lift (join (codes ", ") (minus (names variables) bound))))
  Settled-without tentative bound =
      elim (Bool-cases (only_tentative weigh examples variables tentative bound)) [
        | inl e ↦ rw e (
            inl (
              filter (λ v. contains bound v.0) variables,
              [],
              bound,
              refl,
              refl,
              filter-All (λ v. contains bound v.0) variables,
            ))
        | inr e ↦ rw e (inr (join (codes ", ") (minus (names variables) bound), refl))
      ]

  -- With a round more than there are variables to bind, the tying loop ends: it returns conditions each
  -- of which binds a variable or more of those that are left and picks out its facts in every example,
  -- all the variables that it keeps are bound at its end, or it says that it cannot tie them.
  pub tie_settles :
      (fuel : ℕ) (tentative bound : List Str) (facts : List Fact)
      → left bound (names variables) < fuel
      → Settled bound (tie weigh examples variables fuel tentative bound facts)
  unfolding tie
  tie_settles zero tentative bound facts h = absurd (omega arith)
  tie_settles (suc fuel) tentative bound facts h =
      elim (Bool-cases (same_set bound (names variables))) [
        | inl e ↦
            rw (tie, e) (inl (variables, [], bound, refl, refl, same_set-All bound variables e))
        | inr e ↦
            elim (Option-cases
              (least candidate_lt (candidates weigh examples variables bound facts))) [
                | inl n ↦ rw (tie, e, n) (Settled-without tentative bound)
                | inr (c, f) ↦
                    let candidate = least-IsCandidate weigh examples variables bound facts f in
                    rw (tie, e, f)
                      (Settled-after bound c.1
                        (tie weigh examples variables fuel tentative
                          (bound ++ unbound_in bound c.1.1) facts)
                        candidate
                        (tie_settles fuel tentative (bound ++ unbound_in bound c.1.1) facts
                          (omega (arith, candidate_binds bound c.1 candidate))))
              ]
      ]
