-- ===== src/Examples/Series.antt =====
-- eval/pseries.py at concrete inputs.
use htn_llm_rtl_gen.Series.{
  Node, action, task, Nodes, no_nodes, more_nodes, step_numbers, numbers_in, node_list, grouped,
  join_carry, groups_of, first_word, first_words, PlanPart, title_of, numbers_of, parts_from,
  parts_of, runs_from, runs, show_run, step_ranges,
}
use htn_llm_rtl_gen.Series.Arms.{
  formats, deliveries, trees, descriptions, arm_name, parse_arm, parse_arm-arm_name,
}
use htn_llm_rtl_gen.Shared.{
  ◌≡◌, refl, true, List, [], ◌∷◌, nat_eq, list_beq, list_eq, pair_eq, contains, codes, is_space,
  join, words_from, words, show_digits, show_nat, but_last, ok,
}

abbrev header_node : Node
header_node = action (codes "(write_module_header m)") 1

abbrev ports_node : Node
ports_node = task (codes "(declare_ports m)") (codes "m_ports") (
    more_nodes (action (codes "(write_input_decl m x)") 2)
      (more_nodes (action (codes "(write_output_decl m z)") 3) no_nodes))

abbrev tree : Nodes
tree =
    more_nodes header_node
      (more_nodes ports_node (more_nodes (action (codes "(write_module_end m)") 4) no_nodes))

abbrev one_part : List PlanPart
one_part =
    record {
      title = codes "declare_ports";
      nodes = header_node ∷ ports_node ∷ action (codes "(write_module_end m)") 4 ∷ [];
      steps = 1 ∷ 2 ∷ 3 ∷ 4 ∷ [];
    }
    ∷ []

tree_parts : parts_of tree ≡ ok one_part
unfolding parts_of parts_from groups_of grouped node_list join_carry title_of first_words first_word
    numbers_of step_numbers numbers_in words words_from is_space but_last codes join
tree_parts = refl

ranges_text : step_ranges (3 ∷ 4 ∷ 5 ∷ 9 ∷ []) ≡ codes "steps 3-5, 9"
unfolding step_ranges runs runs_from show_run join codes show_nat show_digits
ranges_text = refl

nl_format : contains formats (codes "nl") ≡ true
unfolding contains list_beq codes
nl_format = refl

micro_delivery : contains deliveries (codes "micro") ≡ true
unfolding contains list_beq codes
micro_delivery = refl

with_tree : contains trees (codes "tree") ≡ true
unfolding contains list_beq codes
with_tree = refl

with_description : contains descriptions (codes "desc") ≡ true
unfolding contains list_beq codes
with_description = refl

parse_arm-arm_name_example :
    parse_arm (arm_name (codes "nl") (codes "micro") (codes "tree") (codes "desc"))
    ≡ ok (
        (codes "format", codes "nl")
        ∷ (codes "delivery", codes "micro")
        ∷ (codes "tree", codes "tree")
        ∷ (codes "description", codes "desc")
        ∷ [])
parse_arm-arm_name_example =
    parse_arm-arm_name (codes "nl") (codes "micro") (codes "tree") (codes "desc") nl_format
      micro_delivery with_tree with_description
