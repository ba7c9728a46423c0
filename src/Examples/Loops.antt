-- ===== src/Examples/Loops.antt =====
-- eval/lift.py and eval/lift_loops.py at concrete inputs.
use htn_llm_rtl_gen.Loops.{
  Fact, Chain, Placed, Items, no_items, step_item, loop_item, no_groups, group,
}
use htn_llm_rtl_gen.Loops.Growing.{
  grow, grow_from, element, chain_position, first_place, fixed_place, set_default, is_last,
  append_last,
}
use htn_llm_rtl_gen.Loops.Folding.{
  fold, fold_from, fold_run, fold_groups, best_of, is_better, groups_needed, other_chains, loops_in,
  loops_inside, flatten,
}
use htn_llm_rtl_gen.Loops.Folding.Kept.{fold-Kept}
use htn_llm_rtl_gen.Plan.Reading.{Step}
use htn_llm_rtl_gen.Loops.Reordering.{
  count, Same, in_order, in_order_lem, kept_order, reorder_from, is_decision, decision_lt,
  first_rank,
}
use htn_llm_rtl_gen.Loops.Ordering.{
  chain_of, edges_of, is_path, order_of, walk, named_chain, marked_by, ties, names_only,
}
use htn_llm_rtl_gen.Loops.Ordering.Paths.{Linked}
use htn_llm_rtl_gen.Loops.Ordering.Named.{NamesEnds, chain_of-path}
use htn_llm_rtl_gen.Shared.{
  Dict, false, strip_prefix, Option, sorted, place_in, starts_with, tuple_lt, text_lt, ℕ, ◌+◌, ◌≡◌,
  refl, some, List, [], ◌∷◌, arith, lookup, insert, insert_all, length, filter, all, Distinct,
  precedes, text_lt, least, distinct, minus, nat_eq, list_beq, list_eq, pair_eq, contains, Str,
  codes, ok,
}

abbrev in_chain : Chain
in_chain = record {
  first = codes "first_listed";
  next = codes "listed_after";
  last = codes "last_listed";
  order = codes "A" ∷ codes "B" ∷ codes "C" ∷ [];
}

abbrev placed : Str → Str → ℕ → Placed
placed n e i = record { name = n; args = codes "m" ∷ e ∷ []; index = i }

abbrev listed_steps : List Placed
listed_steps =
    record { name = codes "open"; args = codes "m" ∷ []; index = 0 }
    ∷ placed (codes "declare") (codes "A") 1
    ∷ placed (codes "declare") (codes "B") 2
    ∷ record { name = codes "close"; args = codes "m" ∷ []; index = 3 }
    ∷ []

fold-Kept_example :
    (items : Items) × (fold 2 (in_chain ∷ []) [] listed_steps ≡ ok items)
    × (flatten items ≡ listed_steps)
fold-Kept_example = fold-Kept 2 (in_chain ∷ []) [] listed_steps (omega arith)

abbrev facts : List Fact
facts =
    (codes "first_listed" ∷ codes "m" ∷ codes "A" ∷ [])
    ∷ (codes "listed_after" ∷ codes "A" ∷ codes "B" ∷ [])
    ∷ (codes "last_listed" ∷ codes "m" ∷ codes "B" ∷ [])
    ∷ []

abbrev states : Chain
states = record {
  first = codes "first_listed";
  next = codes "listed_after";
  last = codes "last_listed";
  order = codes "A" ∷ codes "B" ∷ [];
}

abbrev one_edge : List (Str × Str)
one_edge = (codes "A", codes "B") ∷ []

states_found : chain_of [] (codes "m") facts [] (codes "listed_after") one_edge ≡ some states
unfolding chain_of is_path order_of walk named_chain marked_by ties names_only insert_all insert
    lookup minus distinct contains list_beq filter all least text_lt precedes codes edges_of
states_found = refl

chain_of-path_example :
    (states.next ≡ codes "listed_after")
    × Distinct states.order
    × Linked one_edge states.order
    × (length states.order ≡ length one_edge + 1)
    × NamesEnds [] (codes "m") facts states 1
chain_of-path_example =
    chain_of-path [] (codes "m") facts [] (codes "listed_after") one_edge states_found

abbrev folded_steps : Items
folded_steps =
    step_item (record { name = codes "open"; args = codes "m" ∷ []; index = 0 })
      (loop_item in_chain ((codes "declare", 1) ∷ [])
        (group (codes "A") (step_item (placed (codes "declare") (codes "A") 1) no_items) (
          group (codes "B") (step_item (placed (codes "declare") (codes "B") 2) no_items)
            no_groups))
        (step_item (record { name = codes "close"; args = codes "m" ∷ []; index = 3 }) no_items))

one_loop : fold 2 (in_chain ∷ []) [] listed_steps ≡ ok folded_steps
unfolding fold fold_from fold_run fold_groups best_of is_better groups_needed other_chains loops_in
    loops_inside grow grow_from element chain_position first_place fixed_place set_default is_last
    append_last contains list_beq codes lookup insert filter
one_loop = refl

abbrev decisions : List Step
decisions =
    (codes "analyze_state", codes "B" ∷ [])
    ∷ (codes "analyze_state", codes "A" ∷ [])
    ∷ (codes "write_module_end", [])
    ∷ []

abbrev ranks : Dict Str ℕ
ranks = (codes "A", 0) ∷ (codes "B", 1) ∷ []

abbrev itself : List Step → Option (List Step)
itself steps = some steps

abbrev measure : List Step → ℕ
measure steps = length steps

in_order_lem_example :
    Same itself measure measure decisions decisions
      (in_order itself measure measure ranks (λ n. false) decisions decisions)
    × ((s : Step)
        → count s (in_order itself measure measure ranks (λ n. false) decisions decisions)
          ≡ count s decisions)
in_order_lem_example = in_order_lem itself measure measure ranks (λ n. false) decisions decisions

in_chain_order :
    in_order itself measure measure ranks (λ n. false) decisions decisions
    ≡ (codes "analyze_state", codes "A" ∷ [])
      ∷ (codes "analyze_state", codes "B" ∷ [])
      ∷ (codes "write_module_end", [])
      ∷ []
unfolding in_order kept_order reorder_from is_decision decision_lt first_rank sorted place_in
    starts_with strip_prefix codes list_beq lookup tuple_lt text_lt precedes
in_chain_order = refl
