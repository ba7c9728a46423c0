-- ===== src/Examples/Learning.antt =====
-- eval/learn_steps.py and unmet of eval/learn_ground.py at a small problem.
use htn_llm_rtl_gen.Shared.{
  ◌≡◌, Option, ◌↔◌, refl, true, false, some, List, [], ◌∷◌, ◌++◌, Dict, lookup, insert, insert_all,
  length, drop, filter, any, all, is_empty, All, precedes, text_lt, tuple_lt, sorted, distinct,
  minus, ◌>>=◌, starts_with, nat_eq, list_beq, list_eq, pair_eq, contains, Str, codes, is_space,
  is_digit, join, strip_prefix, ok,
}
use htn_llm_rtl_gen.Plan.Rendering.{render, ports_of, widths_of, write_steps, write_step, act}
use htn_llm_rtl_gen.Plan.Templates.{
  lines_of, state_block, output_block, counter_block, generator_block,
}
use htn_llm_rtl_gen.Plan.Actions.{arg, f_string}
use htn_llm_rtl_gen.Rules.{is_word_char, is_module_item, case_label}
use htn_llm_rtl_gen.Rules.Blocks.{close_block, after_closer}
use htn_llm_rtl_gen.Problem.Sexpr.{Sexpr, atom, list, nil, cons}
use htn_llm_rtl_gen.Loops.{Fact}
use htn_llm_rtl_gen.Plan.Reading.{Step}
use htn_llm_rtl_gen.Learning.{ActionForm, fact_kind, state_after, holds, unmet, unused_facts}
use htn_llm_rtl_gen.Learning.Unmet.{holds-unmet}
use htn_llm_rtl_gen.Learning.Progress.{UsesFact, Reads, unused_facts_exact}
use htn_llm_rtl_gen.Learning.Matching.{extend}
use htn_llm_rtl_gen.Learning.Matching.Sound.{Within, Met, extend-Met}
use htn_llm_rtl_gen.Learning.Menu.{
  Signature, TrainingProblem, plan_of, code_of, lines_or_none, Entry,
}
use htn_llm_rtl_gen.Learning.Menu.Offering.Changes.{Offered}
use htn_llm_rtl_gen.Learning.Menu.Offering.Ahead.{menu, walked, walk_steps}
use htn_llm_rtl_gen.Learning.Menu.Walked.{Standing, menu-Offered, walk_steps-Standing}

abbrev fact : Str → Str → Sexpr
fact k x = list (cons (atom k) (cons (atom x) nil))

abbrev header_form : ActionForm
header_form = record {
  params = codes "?m" ∷ [];
  condition = fact (codes "module_name") (codes "?m");
  effects = fact (codes "header_written") (codes "?m") ∷ [];
}

abbrev end_form : ActionForm
end_form = record {
  params = codes "?m" ∷ [];
  condition =
      list (cons (atom (codes "and")) (cons (fact (codes "header_written") (codes "?m")) nil));
  effects = fact (codes "ended") (codes "?m") ∷ [];
}

abbrev small_domain : Dict Str ActionForm
small_domain =
    (codes "write_module_header", header_form) ∷ (codes "write_module_end", end_form) ∷ []

abbrev small_facts : List Fact
small_facts = (codes "module_name" ∷ codes "m" ∷ []) ∷ []

abbrev header_step : Step
header_step = (codes "write_module_header", codes "m" ∷ [])

abbrev end_step : Step
end_step = (codes "write_module_end", codes "m" ∷ [])

holds-unmet_example :
    (state_after small_domain small_facts (header_step ∷ []) >>= λ s.
    holds small_domain s (codes "write_module_end") (codes "m" ∷ []))
    ≡ (unmet small_domain small_facts (header_step ∷ []) (codes "write_module_end") (codes "m" ∷ [])
        >>= λ out. ok (is_empty out))
holds-unmet_example =
    holds-unmet small_domain small_facts (header_step ∷ []) (codes "write_module_end")
      (codes "m" ∷ [])

end_needs :
    unmet small_domain small_facts [] (codes "write_module_end") (codes "m" ∷ [])
    ≡ ok (codes "it needs the fact (header_written m), which is not true at this point" ∷ [])
unfolding unmet lookup list_beq codes contains insert_all insert join
end_needs = refl

-- of a fact that the header uses and one that it does not, the second is unused
abbrev other_fact : Fact
other_fact = codes "header_written" ∷ codes "n" ∷ []

unused_later :
    unused_facts small_domain (small_facts ++ other_fact ∷ []) (header_step ∷ [])
    ≡ ok (other_fact ∷ [])
unfolding unused_facts lookup list_beq codes any filter contains insert_all insert
unused_later = refl

unused_facts_exact_example : (contains (other_fact ∷ []) other_fact ≡ true) ↔ (
    (contains (small_facts ++ other_fact ∷ []) other_fact ≡ true)
    × Reads (fact_kind other_fact) small_domain
    × ¬ UsesFact small_domain other_fact (header_step ∷ []))
unused_facts_exact_example =
    unused_facts_exact small_domain (small_facts ++ other_fact ∷ []) (header_step ∷ []) unused_later
      other_fact

abbrev edge_atoms : List Fact
edge_atoms = (codes "next" ∷ codes "?a" ∷ codes "?b" ∷ []) ∷ (codes "named" ∷ codes "?b" ∷ []) ∷ []

abbrev edge_state : List Fact
edge_state = (codes "next" ∷ codes "S" ∷ codes "T" ∷ []) ∷ []

edge_found :
    extend (codes "named" ∷ []) edge_state edge_atoms []
    ≡ ((codes "?a", codes "S") ∷ (codes "?b", codes "T") ∷ []) ∷ []
unfolding extend list_beq codes starts_with strip_prefix lookup insert contains
edge_found = refl

extend-Met_example :
    All
      (λ c. Within [] c × All (Met (codes "named" ∷ []) edge_state c) edge_atoms)
      (extend (codes "named" ∷ []) edge_state edge_atoms [])
extend-Met_example = extend-Met (codes "named" ∷ []) edge_state edge_atoms []

abbrev one_module : Signature
one_module = record { is_task = false; types = codes "module" ∷ [] }

abbrev small_problem : TrainingProblem
small_problem = record {
  facts = small_facts;
  actions = small_domain;
  signatures =
      (codes "write_module_header", one_module) ∷ (codes "write_module_end", one_module) ∷ [];
  names = (codes "m", codes "module") ∷ [];
  carry_out = λ steps. some steps;
  says = λ name args. ok name;
  added_lines = λ old new. drop (length old) new;
}

small_walk : walk_steps small_problem (header_step ∷ end_step ∷ []) ≡ ok (walked (1 ∷ 1 ∷ []))
unfolding walk_steps list_beq contains codes starts_with strip_prefix lookup insert insert_all any
    all filter is_space is_digit join sorted distinct text_lt tuple_lt precedes minus render
    ports_of widths_of write_steps write_step lines_of is_word_char is_module_item case_label
    close_block after_closer act arg f_string state_block output_block counter_block generator_block
small_walk = refl

walk_steps-Standing_example : Standing small_problem (header_step ∷ end_step ∷ [])
walk_steps-Standing_example =
    walk_steps-Standing small_problem (header_step ∷ end_step ∷ []) small_walk

-- after the header, the only entry is the one that closes the module
abbrev end_entry : Entry
end_entry = record {
  step = end_step;
  is_task = false;
  plan = header_step ∷ end_step ∷ [];
  adds = codes "endmodule" ∷ [];
  facts = (codes "ended" ∷ codes "m" ∷ []) ∷ [];
  says = codes "write_module_end" ∷ [];
  closes = true;
}

small_menu : menu small_problem (header_step ∷ []) ≡ ok (end_entry ∷ [])
unfolding menu list_beq contains codes starts_with strip_prefix lookup insert insert_all any all
    filter is_space is_digit join sorted distinct text_lt tuple_lt precedes minus render ports_of
    widths_of write_steps write_step lines_of is_word_char is_module_item case_label close_block
    after_closer act arg f_string state_block output_block counter_block generator_block
small_menu = refl

nothing_added : (ls : List Str) → small_problem.added_lines ls ls ≡ []
nothing_added [] = refl
nothing_added (line ∷ ls) = nothing_added ls

menu-Offered_example :
    (before : List Step) × (plan_of small_problem (header_step ∷ []) ≡ some before)
    × (state : List Fact) × (state_after small_domain small_facts before ≡ ok state)
    × (code : Option (List Str)) × (code_of before ≡ ok code)
    × All
        (Offered small_problem (header_step ∷ []) before state (lines_or_none code))
        (end_entry ∷ [])
menu-Offered_example = menu-Offered small_problem (header_step ∷ []) nothing_added small_menu
