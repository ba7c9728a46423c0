-- ===== src/Series.antt =====
-- eval/pseries.py: the arms of the series, the step numbers of a plan tree, and its parts.
pub mod Kept
pub mod Arms
pub mod Planned
pub mod Outline
pub mod Wording
pub mod Requests
use htn_llm_rtl_gen.Shared.{
  ℕ, ◌+◌, ◌-◌, Bool, true, false, List, [], ◌∷◌, ◌++◌, map, arith, length, drop, is_empty, ◌>>=◌,
  Result, ◌==◌, nat_eq, if◌then◌else◌, list_eq, pair_eq, Str, codes, join, words, show_nat,
  but_last, crash, ok, err,
}

-- A node of a plan tree: an action with the number of its step, or a task with the method that
-- decomposed it and its children. Each has its token.
mutual
  pub data Node : Type 0 where
    action : Str → ℕ → Node
    task : Str → Str → Nodes → Node

  pub data Nodes : Type 0 where
    no_nodes : Nodes
    more_nodes : Node → Nodes → Nodes

unfoldable mutual
  pub step_numbers : Node → List ℕ
  step_numbers (action token n) = n ∷ []
  step_numbers (task token method children) = numbers_in children

  pub numbers_in : Nodes → List ℕ
  numbers_in no_nodes = []
  numbers_in (more_nodes n ns) = step_numbers n ++ numbers_in ns

unfoldable pub node_list : Nodes → List Node
node_list no_nodes = []
node_list (more_nodes n ns) = n ∷ node_list ns

abbrev pub is_action : Node → Bool
is_action (action token n) = true
is_action (task token method children) = false

-- the loop over the children: the groups, and what is carried at its end
unfoldable pub grouped : List Node → List Node → List (List Node) × List Node
grouped carry [] = ([], carry)
grouped carry (n ∷ ns) =
    let carried = grouped (carry ++ n ∷ []) ns in
    let rest = grouped [] ns in
    if is_action n then carried else ((carry ++ n ∷ []) ∷ rest.0, rest.1)

-- `groups[-1] += carry`, or a group of its own
unfoldable pub join_carry : List (List Node) → List Node → List (List Node)
join_carry [] carry = carry ∷ []
join_carry (g ∷ []) carry = (g ++ carry) ∷ []
join_carry (g ∷ h ∷ gs) carry = g ∷ join_carry (h ∷ gs) carry

unfoldable pub groups_of : Nodes → List (List Node)
groups_of children =
    let found = grouped [] (node_list children) in
    if is_empty found.1 then found.0 else join_carry found.0 found.1

abbrev pub token_of : Node → Str
token_of (action token n) = token
token_of (task token method children) = token

-- `n["token"][1:-1].split()[0]`
unfoldable pub first_word : Node → Result Str
first_word n = elim (words (but_last (drop 1 (token_of n)))) [ [] ↦ err crash | w ∷ ws ↦ ok w ]

unfoldable pub first_words : List Node → Result (List Str)
first_words [] = ok []
first_words (n ∷ ns) =
    if is_action n
    then first_words ns
    else (first_word n >>= λ w. first_words ns >>= λ ws. ok (w ∷ ws))

pub record PlanPart : Type 0 where
  pub title : Str
  pub nodes : List Node
  pub steps : List ℕ

unfoldable pub title_of : List Node → Result Str
title_of [] = err crash
title_of (n ∷ ns) = first_words (n ∷ ns) >>= λ compound.
    if is_empty compound then first_word n else ok (join (codes ", ") compound)

unfoldable pub numbers_of : List Node → List ℕ
numbers_of [] = []
numbers_of (n ∷ ns) = step_numbers n ++ numbers_of ns

unfoldable pub parts_from : List (List Node) → Result (List PlanPart)
parts_from [] = ok []
parts_from (g ∷ gs) = do
  title ← title_of g
  parts ← parts_from gs
  ok (record { title = title; nodes = g; steps = numbers_of g } ∷ parts)

-- the plan cut at the children of the task at the top
unfoldable pub parts_of : Nodes → Result (List PlanPart)
parts_of children = parts_from (groups_of children)

-- `runs`: the last of them is from `a` to `b`
unfoldable pub runs_from : ℕ → ℕ → List ℕ → List (ℕ × ℕ)
runs_from a b [] = (a, b) ∷ []
runs_from a b (n ∷ ns) =
    let longer = runs_from a n ns in
    let another = runs_from n n ns in if b + 1 == n then longer else (a, b) ∷ another

unfoldable pub runs : List ℕ → List (ℕ × ℕ)
runs [] = []
runs (n ∷ ns) = runs_from n n ns

unfoldable pub show_run : ℕ × ℕ → Str
show_run (a, b) = if a == b then show_nat a else show_nat a ++ (codes "-" ++ show_nat b)

unfoldable pub step_ranges : List ℕ → Str
step_ranges numbers =
    (if length numbers == 1 then codes "step " else codes "steps ")
    ++ join (codes ", ") (map show_run (runs numbers))
