-- ===== src/Learning/Testing.antt =====
-- The names stage of test_steps of eval/learn_ground.py: what is wrong with the steps of an answer
-- before the planner is asked.
use htn_llm_rtl_gen.Shared.{
  ℕ, suc, ◌-◌, Bool, true, false, not, Option, none, some, List, [], ◌∷◌, ◌++◌, map, Dict, lookup,
  length, filter, any, is_empty, ◌>>=◌, get, Result, starts_with, ◌==◌, nat_eq, if◌then◌else◌,
  list_eq, pair_eq, Str, codes, ok,
}
use htn_llm_rtl_gen.Plan.Reading.{Step}
use htn_llm_rtl_gen.Learning.Menu.{Signature}

-- Why a step is refused, with what its message names; the nearest names of the domain are difflib's,
-- and are left out.
pub data Wrong : Type 0 where
  has_variable unknown_name : Wrong
  method_name : Str → Wrong
  takes : ℕ → ℕ → Wrong
  not_names : List Str → Wrong
  other_type : ℕ → Str → Str → Wrong

-- `any(a.startswith("?") for a in args)`
unfoldable pub has_question : List Str → Bool
has_question args = any (starts_with (codes "?")) args

-- the arguments whose type is not the one wanted, from the place `j`
unfoldable pub type_errors : Dict Str Str → ℕ → List Str → List Str → Result (List Wrong)
type_errors names j [] wanted = ok []
type_errors names j (a ∷ args) [] = ok []
type_errors names j (a ∷ args) (want ∷ wanted) = do
  found ← if want == codes "object" then ok want else get a names
  rest ← type_errors names (suc j) args wanted
  ok (if want == found then rest else other_type j found want ∷ rest)

-- a name that the domain does not have
unfoldable pub unknown_step : Dict Str Str → Str → Wrong
unknown_step of_method name = elim (lookup (codes "m_" ++ name) of_method) [
  | none ↦ unknown_name
  | some task ↦ method_name task
]

-- the names that the problem does not have
unfoldable pub strangers : Dict Str Str → List Str → List Str
strangers names args = filter (λ a. elim (lookup a names) [ none ↦ true | some _ ↦ false ]) args

-- what is wrong with one step
unfoldable pub wrong_with :
    Dict Str Signature → Dict Str Str → Dict Str Str → Step → Result (List Wrong)
unfolding has_question unknown_step strangers type_errors
wrong_with known names of_method (name, args) =
    let types_wrong = λ (s : Signature). type_errors names 1 args s.types in
    if has_question args then ok (has_variable ∷ []) else elim (lookup name known) [
      | none ↦ ok (unknown_step of_method name ∷ [])
      | some s ↦
          if not (length args == length s.types)
          then ok (takes (length s.types) (length args) ∷ [])
          else if not (is_empty (strangers names args))
          then ok (not_names (strangers names args) ∷ [])
          else types_wrong s
    ]

-- `wrong`, with the number of each step
unfoldable pub wrong_from :
    Dict Str Signature → Dict Str Str → Dict Str Str → ℕ → List Step → Result (List (ℕ × Wrong))
unfolding wrong_with
wrong_from known names of_method i [] = ok []
wrong_from known names of_method i (s ∷ steps) = do
  here ← wrong_with known names of_method s
  rest ← wrong_from known names of_method (suc i) steps
  ok (map (λ w. (i, w)) here ++ rest)

-- the loop over the steps, which are numbered from 1
unfoldable pub wrong_steps :
    Dict Str Signature → Dict Str Str → Dict Str Str → List Step → Result (List (ℕ × Wrong))
unfolding wrong_from
wrong_steps known names of_method steps = wrong_from known names of_method 1 steps

-- `first_wrong`, counted from 0
unfoldable pub first_wrong : List (ℕ × Wrong) → Option ℕ
first_wrong [] = none
first_wrong ((i, w) ∷ wrong) = some (i - 1)
