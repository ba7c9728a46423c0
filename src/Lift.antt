-- ===== src/Lift.antt =====
-- eval/lift.py: the facts of a problem that tie the variables of a method to its module.
pub mod Tying
pub mod Picking
pub mod Apart
use htn_llm_rtl_gen.Loops.{Fact}
use htn_llm_rtl_gen.Shared.{
  ℕ, Bool, false, not, Option, none, some, List, [], ◌∷◌, arith, Dict, lookup, insert, get_elem?,
  all, starts_with, ◌==◌, nat_eq, if◌then◌else◌, list_eq, pair_eq, contains, Str, codes,
}

-- The variables, and the name that each stands for in each example.
abbrev pub Columns : Type 0
Columns = Dict Str (List Str)

unfoldable pub is_variable : Str → Bool
is_variable r = starts_with (codes "?") r

-- `a == variables[r][k]`; a bound variable has a name in each example
unfoldable pub stands_for : Columns → ℕ → Str → Str → Bool
stands_for variables k r a = elim (lookup r variables) [
  | none ↦ false
  | some col ↦ elim (get_elem? col k) [ none ↦ false | some x ↦ a == x ]
]

-- `seen.setdefault(r, a) == a`, and `seen` after it
unfoldable pub see : Str → Str → Dict Str Str → Option (Dict Str Str)
see r a seen = elim (lookup r seen) [
  | none ↦ some (insert r a seen)
  | some b ↦ if b == a then some seen else none
]

module _ (variables : Columns) (k : ℕ) (bound : List Str) where
  -- one argument of a fact against one of the reading
  unfoldable pub match_arg : Str → Str → Dict Str Str → Option (Dict Str Str)
  match_arg a r seen =
      if not (is_variable r)
      then (if a == r then some seen else none)
      else if contains bound r
      then (if stands_for variables k r a then some seen else none)
      else see r a seen

  -- the loop over `zip(fact[1:], reading)`, which are of one length
  unfoldable pub match_args : List Str → List Str → Dict Str Str → Option (Dict Str Str)
  match_args [] [] seen = some seen
  match_args (a ∷ args) (r ∷ reading) seen = elim (match_arg a r seen) [
    | none ↦ none
    | some seen' ↦ match_args args reading seen'
  ]
  match_args _ _ seen = none

  unfoldable pub match_fact : Str → List Str → Fact → Option (Dict Str Str)
  match_fact pred reading [] = none
  match_fact pred reading (p ∷ args) = if p == pred then match_args args reading [] else none

  -- `matches`
  unfoldable pub matches_of : Str → List Str → List Fact → List (Dict Str Str)
  matches_of pred reading [] = []
  matches_of pred reading (f ∷ facts) =
      let rest = matches_of pred reading facts in
      elim (match_fact pred reading f) [ none ↦ rest | some seen ↦ seen ∷ rest ]

  unfoldable pub only_one : List (Dict Str Str) → Bool
  only_one (seen ∷ []) = all (λ e. stands_for variables k e.0 e.1) seen
  only_one _ = false

  -- Does the pattern, with the bound variables filled in, match exactly one fact, and is it the one
  -- that the examples hold?
  unfoldable pub picks_out : Str → List Str → List Fact → Bool
  picks_out pred reading facts = only_one (matches_of pred reading facts)
