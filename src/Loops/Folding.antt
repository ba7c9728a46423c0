-- ===== src/Loops/Folding.antt =====
-- fold, flatten and shape of eval/lift_loops.py.
pub mod Kept
use htn_llm_rtl_gen.Loops.{
  Chain, Placed, Items, no_items, step_item, loop_item, Groups, no_groups, group,
}
use htn_llm_rtl_gen.Loops.Growing.{Group, Run, grow}
use htn_llm_rtl_gen.Shared.{
  ℕ, zero, suc, ◌+◌, Bool, true, not, ◌&&◌, Option, none, some, List, [], ◌∷◌, ◌++◌, arith, length,
  drop, filter, ◌>>=◌, Result, ltb, leb, ◌==◌, nat_eq, if◌then◌else◌, list_eq, pair_eq, contains,
  Str, out_of_fuel, ok, err,
}

-- the fewest groups that a loop over the chain has; `min_groups` is 2 at each call
unfoldable pub groups_needed : List Str → Chain → ℕ
groups_needed forced chain = if contains forced chain.next then 1 else 2

-- the test of the loop over the chains
unfoldable pub is_better : ℕ → Run → Option (Chain × Run) → Bool
is_better groups_needed run best =
    leb groups_needed (length run.groups)
    && (elim best [ none ↦ true | some b ↦ ltb b.1.taken run.taken ])

-- the loop over `all_chains`: the chain whose run is the longest, the first of them on a tie
unfoldable pub best_of :
    List Str → List Placed → Option (Chain × Run) → List Chain → Option (Chain × Run)
best_of forced steps best [] = best
best_of forced steps best (chain ∷ chains) =
    let run = grow steps chain in
    let kept = best_of forced steps best chains in
    let replaced = best_of forced steps (some (chain, run)) chains in
    if is_better (groups_needed forced chain) run best then replaced else kept

-- `[c for c in all_chains if c.next != chain.next]`
unfoldable pub other_chains : Chain → List Chain → List Chain
other_chains chain chains = filter (λ c. not (c.next == chain.next)) chains

-- the relations of the loops among the items
unfoldable pub loops_in : Items → List Str
loops_in no_items = []
loops_in (step_item s items) = loops_in items
loops_in (loop_item c position gs items) = c.next ∷ loops_in items

unfoldable pub loops_inside : Groups → List Str
unfolding loops_in
loops_inside no_groups = []
loops_inside (group e items gs) = loops_in items ++ loops_inside gs

module _ (inner : List Chain → List Str → List Placed → Result Items) where
  -- `fold(g, rest, forced)` for each group
  unfoldable pub fold_groups : List Chain → List Str → List Group → Result Groups
  fold_groups rest forced [] = ok no_groups
  fold_groups rest forced ((e, g) ∷ gs) = do
    items ← inner rest forced g
    folded ← fold_groups rest forced gs
    ok (group e items folded)

  -- a loop that one group's steps form, every group's steps form
  unfoldable pub fold_run : List Chain → List Group → Result Groups
  fold_run rest gs = do folded ← fold_groups rest [] gs; fold_groups rest (loops_inside folded) gs

  -- the loop over the steps; each round takes one step at least
  unfoldable pub fold_from : List Chain → List Str → ℕ → List Placed → Result Items
  fold_from chains forced fuel [] = ok no_items
  fold_from chains forced zero (s ∷ steps) = err out_of_fuel
  fold_from chains forced (suc fuel) (s ∷ steps) = elim (best_of forced (s ∷ steps) none chains) [
    | none ↦ do items ← fold_from chains forced fuel steps; ok (step_item s items)
    | some (chain, run) ↦ do
      groups ← fold_run (other_chains chain chains) run.groups
      items ← fold_from chains forced fuel (drop run.taken (s ∷ steps))
      ok (loop_item chain run.position groups items)
  ]

-- fold. A loop inside a loop is over a chain less, so that one more than the number of chains is enough
-- fuel.
unfoldable pub fold : ℕ → List Chain → List Str → List Placed → Result Items
fold zero chains forced steps = err out_of_fuel
fold (suc depth) chains forced steps = fold_from (fold depth) chains forced (length steps) steps

unfoldable mutual
  pub flatten : Items → List Placed
  flatten no_items = []
  flatten (step_item s items) = s ∷ flatten items
  flatten (loop_item c position gs items) = flatten_groups gs ++ flatten items

  pub flatten_groups : Groups → List Placed
  flatten_groups no_groups = []
  flatten_groups (group e items gs) = flatten items ++ flatten_groups gs

-- an item of a shape: the name of a step, or a loop by its chain
pub data ShapePart : Type 0 where
  named looped : Str → ShapePart

unfoldable pub shape : Items → List ShapePart
shape no_items = []
shape (step_item s items) = named s.name ∷ shape items
shape (loop_item c position gs items) = looped c.next ∷ shape items
