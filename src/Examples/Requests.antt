-- ===== src/Examples/Requests.antt =====
-- The requests of eval/pseries.py at a concrete plan.
use htn_llm_rtl_gen.Series.{
  Node, action, task, Nodes, no_nodes, more_nodes, step_numbers, numbers_in, numbers_of,
  step_ranges, show_run, runs_from, runs, parts_of, parts_from, groups_of, grouped, node_list,
  join_carry, title_of, first_words, first_word,
}
use htn_llm_rtl_gen.Series.Kept.{concat}
use htn_llm_rtl_gen.Series.Arms.{parse_arm, arm_of}
use htn_llm_rtl_gen.Series.Planned.{
  Domain, load_plan, render_step, render_steps, render_schema, planned_steps, planned_step,
  only_child, leaves, leaf_lt, numbered_steps, step_line, step_numbered, last_step, say, format,
  format_from, format_char, spoken_arguments, spoken, number_said, digits_alone, schema_line,
  schema_from,
}
use htn_llm_rtl_gen.Series.Outline.{nodes_of, render_tree, pad_of, task_line, flush_run}
use htn_llm_rtl_gen.Series.Outline.Rows.{
  OutlineRow, row_line, row_entries, entries_in, render_tree_lem,
}
use htn_llm_rtl_gen.Series.Wording.{
  new_line, no_description, part_head, micro_intro, intro_symbolic, micro_final, rtllm_close,
}
use htn_llm_rtl_gen.Series.Requests.{
  BenchmarkProblem, in_turns, build_request, lead_of, plan_preamble, request_of, micro_request,
  turns_from, turn_text, opening, tree_lines, final_turn, children_of, intermediate_max_new_tokens,
}
use htn_llm_rtl_gen.Series.Requests.Told.{ShownIn}
use htn_llm_rtl_gen.Series.Requests.Loaded.{build_request-load_plan}
use htn_llm_rtl_gen.Plan.Reading.{Step}
use mathlib.Core.List.{Perm}
use htn_llm_rtl_gen.Shared.{
  range_of, ◌≡◌, refl, List, [], ◌∷◌, ◌++◌, map, Dict, lookup, insert, insert_all, length, all,
  precedes, text_lt, place_in, sorted, get, lstrip, rstrip, nat_eq, list_beq, list_eq, pair_eq,
  contains, Str, codes, is_space, is_digit, join, words_from, words, show_digits, show_nat, prepend,
  split_on, strip_prefix, but_last, not_an_arm, ok, err,
}
use htn_llm_rtl_gen.Learning.Answers.{show_step}

abbrev sample_domain : Domain
sample_domain = record {
  params =
      (
        codes "analyze_wrap_point",
        (codes "module", codes "module") ∷ (codes "last", codes "value") ∷ [],
      )
      ∷ (codes "write_interface", (codes "module", codes "module") ∷ [])
      ∷ (codes "write_end", (codes "module", codes "module") ∷ [])
      ∷ [];
  legend = codes "nN is the number N.";
  sentence =
      (codes "analyze_wrap_point", codes "The counter of {module} wraps at {last}.")
      ∷ (codes "write_interface", codes "Write the ports of {module}.")
      ∷ (codes "write_end", codes "End {module}.")
      ∷ [];
}

abbrev sample_plan : Str
sample_plan = join new_line (
    codes "(analyze_wrap_point m n11)"
    ∷ codes "(write_interface m)"
    ∷ codes "(write_end m)"
    ∷ []
    ∷ [])

abbrev sample_steps : List Step
sample_steps =
    (codes "analyze_wrap_point", codes "m" ∷ codes "n11" ∷ [])
    ∷ (codes "write_interface", codes "m" ∷ [])
    ∷ (codes "write_end", codes "m" ∷ [])
    ∷ []

abbrev decide : Node
decide =
    task (codes "(decide m)") (codes "m_decide")
      (more_nodes (action (codes "(analyze_wrap_point m n11)") 1) no_nodes)

abbrev write_out : Node
write_out = task (codes "(write_out m)") (codes "m_write") (
    more_nodes (action (codes "(write_interface m)") 2)
      (more_nodes (action (codes "(write_end m)") 3) no_nodes))

abbrev below : Nodes
below = more_nodes decide (more_nodes write_out no_nodes)

abbrev whole : Node
whole = task (codes "(implement_module m)") (codes "m_implement") below

abbrev root_node : Node
root_node = task (codes "(__top__)") [] (more_nodes whole no_nodes)

abbrev no_problem : BenchmarkProblem
no_problem = record { system = codes "You write Verilog."; extra = [] }

loaded : load_plan sample_plan root_node ≡ ok (sample_steps, whole)
unfolding load_plan planned_steps split_on join codes lstrip is_space planned_step words but_last
    rstrip only_child list_beq sorted leaves leaf_lt numbered_steps show_step place_in precedes
    text_lt prepend words_from
loaded = refl

outline :
    render_tree (whole ∷ [])
    ≡ codes "(implement_module m) by m_implement"
      ∷ codes "  (decide m) by m_decide"
      ∷ codes "    step 1"
      ∷ codes "  (write_out m) by m_write"
      ∷ codes "    steps 2-3"
      ∷ []
unfolding render_tree nodes_of flush_run codes task_line pad_of step_ranges join runs runs_from
    show_run show_nat
outline = refl

sentences :
    render_steps sample_domain sample_steps (1 ∷ 2 ∷ []) (codes "nl")
    ≡ ok (codes "1. The counter of m wraps at 11." ∷ codes "2. Write the ports of m." ∷ [])
unfolding render_steps step_line step_numbered last_step render_step show_nat show_digits codes join
    show_step list_beq lookup say format format_from format_char spoken_arguments spoken number_said
    digits_alone insert_all insert strip_prefix all is_digit
sentences = refl

schema :
    render_schema sample_domain
      ((codes "write_end", codes "m" ∷ []) ∷ (codes "write_end", codes "n" ∷ []) ∷ [])
    ≡ ok (codes "nN is the number N." ∷ codes "(write_end :module): End :module." ∷ [])
unfolding render_schema schema_from contains schema_line lookup list_beq codes format format_from
    format_char insert_all insert show_step join
schema = refl

abbrev first_turn : Str
first_turn = join new_line (
    codes "Please act as a professional verilog designer."
    ∷ []
    ∷ codes "Implement the Verilog module that the plan below describes."
    ∷ []
    ∷ codes
        "A plan for this module was worked out in advance. It is a list of steps, in order. A step named analyze_... records a design decision that has already been made; a step named write_... is a piece of code to write."
    ∷ []
    ∷ codes
        "The plan has 2 parts, and I will give you one part at a time. For each part, reply with what that part asks for and nothing more: the Verilog its steps describe, or a one-line acknowledgement if it only records design decisions. After the last part I will ask for the complete module."
    ∷ []
    ∷ codes "Part 1 of 2 (decide):"
    ∷ codes "1. (analyze_wrap_point m n11)"
    ∷ [])

abbrev second_turn : Str
second_turn = join new_line (
    codes "Part 2 of 2 (write_out):"
    ∷ codes "2. (write_interface m)"
    ∷ codes "3. (write_end m)"
    ∷ [])

abbrev final_words : Str
final_words =
    codes
      "That was the whole plan. Now write the complete module, following the plan. Give me the complete code."

built :
    build_request
      (codes "p-s0-micro-notree-nodesc")
      (codes "rtllm-2")
      no_problem
      sample_domain
      sample_steps
      whole
    ≡ ok (in_turns (codes "You write Verilog.") (first_turn ∷ second_turn ∷ final_words ∷ []) 512)
unfolding build_request parse_arm arm_of split_on prepend contains lead_of plan_preamble
    no_description request_of micro_request parts_of parts_from groups_of grouped node_list
    join_carry title_of first_words first_word numbers_of step_numbers numbers_in words words_from
    is_space but_last turns_from turn_text opening part_head micro_intro intro_symbolic tree_lines
    final_turn micro_final rtllm_close children_of intermediate_max_new_tokens render_steps
    step_line step_numbered last_step render_step show_nat show_digits codes join show_step list_beq
    lookup
built = refl

no_level :
    build_request
      (codes "p-s9-micro-notree-nodesc")
      (codes "rtllm-2")
      no_problem
      sample_domain
      sample_steps
      whole
    ≡ err (not_an_arm (codes "p-s9-micro-notree-nodesc"))
unfolding build_request parse_arm arm_of split_on codes list_beq contains
no_level = refl

render_tree_lem_example :
    (rows : List OutlineRow) × (render_tree (whole ∷ []) ≡ map row_line rows)
    × (concat (map row_entries rows) ≡ entries_in 0 (nodes_of (whole ∷ [])))
render_tree_lem_example = render_tree_lem (whole ∷ [])

build_request-load_plan_example :
    (levels : Dict Str Str) × (fmt final : Str) × (chunks : List (List Str)) × (texts lines : List
      Str)
    × (parse_arm (codes "p-s0-micro-notree-nodesc") ≡ ok levels)
    × (get (codes "format") levels ≡ ok fmt)
    × (first_turn ∷ second_turn ∷ final_words ∷ [] ≡ texts ++ final ∷ [])
    × ShownIn chunks texts
    × (render_steps sample_domain sample_steps (range_of 1 (length sample_steps)) fmt ≡ ok lines)
    × Perm (concat chunks) lines
build_request-load_plan_example =
    build_request-load_plan (codes "p-s0-micro-notree-nodesc") (codes "rtllm-2") sample_plan
      no_problem sample_domain root_node (codes "(implement_module m)") (codes "m_implement") below
      sample_steps loaded built
