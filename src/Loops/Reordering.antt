-- ===== src/Loops/Reordering.antt =====
-- Example.in_order of eval/lift_loops.py. What the planner and the templates make of a list is a
-- parameter: `plan`, and of a plan its lines of code and its state.
use htn_llm_rtl_gen.Plan.Reading.{Step}
use mathlib.Core.Path.{subst}
use htn_llm_rtl_gen.Shared.{
  ℕ, suc, ◌+◌, ◌≡◌, refl, sym, ap, ◌∙◌, ◌⊎◌, inl, inr, Bool, true, not, ◌&&◌, Option, none, some,
  List, [], ◌∷◌, ◌++◌, arith, Dict, lookup, length, filter, text_lt, tuple_lt, place_in, sorted,
  starts_with, ltb, ◌==◌, eq_iff, nat_eq, if◌then◌else◌, list_eq, pair_eq, Bool-cases, Option-cases,
  Eq, Str, codes,
}

module _ (rank : Dict Str ℕ) (is_task : Str → Bool) where
  -- `next((rank[a] for a in st[1] if a in rank), -1)`, a unit more
  unfoldable pub first_rank : List Str → ℕ
  first_rank [] = 0
  first_rank (a ∷ args) = elim (lookup a rank) [ some k ↦ suc k | none ↦ first_rank args ]

  -- by the chain the decision is about, then by its name and its arguments
  unfoldable pub decision_lt : Step → Step → Bool
  decision_lt s t =
      if first_rank s.1 == first_rank t.1
      then (if s.0 == t.0 then tuple_lt s.1 t.1 else text_lt s.0 t.0)
      else ltb (first_rank s.1) (first_rank t.1)

  unfoldable pub is_decision : Step → Bool
  is_decision s = starts_with (codes "analyze_") s.0 && not (is_task s.0)

  -- the loop: `run` is the decisions that stand before the step
  unfoldable pub reorder_from : List Step → List Step → List Step
  reorder_from run [] = sorted decision_lt run
  reorder_from run (s ∷ steps) =
      let longer = reorder_from (run ++ s ∷ []) steps in
      let rest = reorder_from [] steps in
      if is_decision s then longer else sorted decision_lt run ++ s ∷ rest

module _ {P C S : Type 0} ⦃same_code : Eq C⦄ ⦃same_state : Eq S⦄ (plan : List Step → Option P)
    (code_of : P → C) (state_of : P → S) where
  -- the list that is kept; `before` is the plan of `steps`
  unfoldable pub kept_order : P → List Step → List Step → List Step
  kept_order before steps out = elim (plan out) [
    | none ↦ steps
    | some after ↦
        if (code_of after == code_of before) && (state_of after == state_of before)
        then out
        else steps
  ]

  unfoldable pub in_order : Dict Str ℕ → (Str → Bool) → P → List Step → List Step
  in_order rank is_task before steps = kept_order before steps (reorder_from rank is_task [] steps)

-- How often a step stands in a list.
abbrev pub count : Step → List Step → ℕ
count s steps = length (filter (λ t. t == s) steps)

filter-append :
    (p : Step → Bool) (xs ys : List Step)
    → length (filter p (xs ++ ys)) ≡ length (filter p xs) + length (filter p ys)
unfolding filter
filter-append p [] ys = omega arith
filter-append p (x ∷ xs) ys = ground (arith, filter-append p xs ys)

both_true : (a b : Bool) → (a && b) ≡ true → (a ≡ true) × (b ≡ true)
both_true a b h = (ground arith, ground arith)

filter_nil : (p : Step → Bool) → length (filter p []) ≡ 0
unfolding filter
filter_nil p = refl

module _ (lt : Step → Step → Bool) (p : Step → Bool) where
  count-place_in :
      (x : Step) (xs : List Step)
      → length (filter p (place_in lt x xs)) ≡ length (filter p (x ∷ xs))
  unfolding place_in filter
  count-place_in x [] = refl
  count-place_in x (y ∷ ys) = ground (arith, count-place_in x ys)

  count-sorted : (xs : List Step) → length (filter p (sorted lt xs)) ≡ length (filter p xs)
  unfolding sorted filter
  count-sorted [] = refl
  count-sorted (x ∷ xs) = count-place_in x (sorted lt xs) ∙ ground (arith, count-sorted xs)

module _ (rank : Dict Str ℕ) (is_task : Str → Bool) (p : Step → Bool) where
  count-reorder_from :
      (run steps : List Step)
      → length (filter p (reorder_from rank is_task run steps))
        ≡ length (filter p run) + length (filter p steps)
  unfolding reorder_from
  count-reorder_from run [] =
      rw (count-sorted (decision_lt rank is_task) p run) (omega (arith, filter_nil p))
  count-reorder_from run (s ∷ steps) = elim (Bool-cases (is_decision rank is_task s)) [
    | inl e ↦
        rw (reorder_from, e)
          (count-reorder_from (run ++ s ∷ []) steps
            ∙ omega (arith, filter-append p run (s ∷ []), filter-append p (s ∷ []) steps))
    | inr e ↦
        rw (reorder_from, e)
          (omega (
            arith,
            filter-append p (sorted (decision_lt rank is_task) run)
                (s ∷ reorder_from rank is_task [] steps),
            filter-append p (s ∷ []) (reorder_from rank is_task [] steps),
            filter-append p (s ∷ []) steps,
            count-sorted (decision_lt rank is_task) p run,
            count-reorder_from [] steps,
            filter_nil p,
          ))
  ]

module _ {P C S : Type 0} ⦃same_code : Eq C⦄ ⦃same_state : Eq S⦄ (plan : List Step → Option P)
    (code_of : P → C) (state_of : P → S) where
  -- The list is as it was, or it comes to the same code and the same state.
  abbrev pub Same : P → List Step → List Step → Type 0
  Same before steps out =
      (out ≡ steps)
      ⊎ ((after : P) × (plan out ≡ some after)
          × (code_of after ≡ code_of before)
          × (state_of after ≡ state_of before))

  order_taken :
      (before : P) (steps out : List Step) (after : P)
      → plan out ≡ some after
      → ((code_of after == code_of before) && (state_of after == state_of before)) ≡ true
      → kept_order plan code_of state_of before steps out ≡ out
  unfolding kept_order
  order_taken before steps out after e b = rw (kept_order, e, b) refl

  kept_order-Same :
      (before : P) (steps out : List Step)
      → Same before steps (kept_order plan code_of state_of before steps out)
        × ((kept_order plan code_of state_of before steps out ≡ steps)
            ⊎ (kept_order plan code_of state_of before steps out ≡ out))
  unfolding kept_order
  kept_order-Same before steps out = elim (Option-cases (plan out)) [
    | inl e ↦ rw (kept_order, e) (inl refl, inl refl)
    | inr (after, e) ↦
        elim (Bool-cases
          ((code_of after == code_of before) && (state_of after == state_of before))) [
            | inr b ↦ rw (kept_order, e, b) (inl refl, inl refl)
            | inl b ↦
                subst (λ o. Same before steps o × ((o ≡ steps) ⊎ (o ≡ out)))
                  (sym (order_taken before steps out after e b))
                  (
                    inr (
                      after,
                      e,
                      (eq_iff (code_of after) (code_of before)).0 (both_true _ _ b).0,
                      (eq_iff (state_of after) (state_of before)).0 (both_true _ _ b).1,
                    ),
                    inr refl,
                  )
          ]
  ]

  -- in_order gives back the list, or one that comes to the same code and state as the list; each step
  -- stands in it as often as in the list.
  pub in_order_lem :
      (rank : Dict Str ℕ) (is_task : Str → Bool) (before : P) (steps : List Step)
      → Same before steps (in_order plan code_of state_of rank is_task before steps)
        × ((s : Step)
            → count s (in_order plan code_of state_of rank is_task before steps) ≡ count s steps)
  unfolding in_order
  in_order_lem rank is_task before steps =
      let (same, which) = kept_order-Same before steps (reorder_from rank is_task [] steps) in
      (
        same,
        λ s. elim which [
          | inl e ↦ ap (count s) e
          | inr e ↦
              ap (count s) e
              ∙ (count-reorder_from rank is_task (λ t. t == s) [] steps
                  ∙ omega (arith, filter_nil (λ t. t == s)))
        ],
      )
