-- ===== src/Learning/Unmet.antt =====
-- Problem.holds of eval/learn_steps.py against unmet of eval/learn_ground.py.
use htn_llm_rtl_gen.Shared.{
  ◌≡◌, refl, sym, ap, inl, inr, Bool, true, false, ◌&&◌, List, [], ◌∷◌, ◌++◌, Dict, lookup, all,
  is_empty, ◌>>=◌, get, Result, nat_eq, if◌then◌else◌, list_eq, pair_eq, contains, Bool-cases,
  Option-cases, Str, codes, ok, err,
}
use htn_llm_rtl_gen.Problem.Sexpr.{Sexpr}
use htn_llm_rtl_gen.Loops.{Fact}
use htn_llm_rtl_gen.Plan.Reading.{Step}
use htn_llm_rtl_gen.Learning.{
  ActionForm, plain_fact, absent_fact, binding, ground_fact, condition_parts, state_after,
  part_holds, holds, part_unmet, all_unmet, unmet,
}

part_holds-unmet :
    (bind : Dict Str Str) (state : List Fact) (p : Sexpr)
    → part_holds bind state p ≡ is_empty (part_unmet bind state p)
unfolding part_holds part_unmet codes
part_holds-unmet bind state p = elim (Option-cases (plain_fact p)) [
  | inr (f, e) ↦ elim (Bool-cases (contains state (ground_fact bind f))) [
    | inl y ↦ rw (part_holds, part_unmet, e, y) refl
    | inr n ↦ rw (part_holds, part_unmet, e, n) refl
  ]
  | inl e ↦ elim (Option-cases (absent_fact p)) [
    | inl k ↦ rw (part_holds, part_unmet, e, k) refl
    | inr (f, k) ↦ elim (Bool-cases (contains state (ground_fact bind f))) [
      | inl y ↦ rw (part_holds, part_unmet, e, k, y) refl
      | inr n ↦ rw (part_holds, part_unmet, e, k, n) refl
    ]
  ]
]

is_empty-append : (xs ys : List Str) → is_empty (xs ++ ys) ≡ (is_empty xs && is_empty ys)
is_empty-append [] ys = refl
is_empty-append (x ∷ xs) ys = refl

by_cases : (a b : Bool) → (if a then b else false) ≡ (a && b)
by_cases true b = refl
by_cases false b = refl

all_hold :
    (bind : Dict Str Str) (state : List Fact) (ps : List Sexpr)
    → all (part_holds bind state) ps ≡ is_empty (all_unmet bind state ps)
unfolding all all_unmet
all_hold bind state [] = refl
all_hold bind state (p ∷ ps) =
    rw
      (
        is_empty-append (part_unmet bind state p) (all_unmet bind state ps),
        sym (part_holds-unmet bind state p),
        sym (all_hold bind state ps),
      )
      (by_cases (part_holds bind state p) (all (part_holds bind state) ps))

holds-again :
    (actions : Dict Str ActionForm) (state : List Fact) (name : Str) (args : List Str)
    → holds actions state name args ≡ (
        (get name actions >>= λ a.
        ok (all_unmet (binding a.params args) state (condition_parts a.condition)))
        >>= λ out. ok (is_empty out))
unfolding holds
holds-again actions state name args = elim (Option-cases (lookup name actions)) [
  | inl e ↦ rw (holds, get, e) refl
  | inr (a, e) ↦
      rw (holds, get, e)
        (ap (λ b. ok b) (all_hold (binding a.params args) state (condition_parts a.condition)))
]

-- The two readings of a precondition agree: after any plan, holds says that an action's precondition
-- holds where unmet, which works from the facts and the plan, has nothing to report, and each raises
-- where the other does.
pub holds-unmet :
    (actions : Dict Str ActionForm) (facts : List Fact) (plan : List Step) (name : Str)
    (args : List Str)
    → (state_after actions facts plan >>= λ state. holds actions state name args)
      ≡ (unmet actions facts plan name args >>= λ out. ok (is_empty out))
unfolding unmet
holds-unmet actions facts plan name args =
    after (state_after actions facts plan) (λ state. holds actions state name args) _
      (λ out. ok (is_empty out)) (λ state. holds-again actions state name args)
  where
    after :
        (m : Result (List Fact)) (f : List Fact → Result Bool) (g : List Fact → Result (List Str))
        (r : List Str → Result Bool)
        → ((s : List Fact) → f s ≡ (g s >>= r))
        → (m >>= f) ≡ ((m >>= g) >>= r)
    after (err e) f g r h = refl
    after (ok s) f g r h = h s
