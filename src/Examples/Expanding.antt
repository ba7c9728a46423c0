-- ===== src/Examples/Expanding.antt =====
-- The expansion of sequences of rtl_designs/problem_compiler.py at concrete inputs.
use htn_llm_rtl_gen.Completing.{Draft, is_fact, kind_of}
use htn_llm_rtl_gen.Completing.Expanding.{
  expand_sequences, expand, recognised_of, add_kind, drop_expanded, drop_states, is_state_type,
  state_objects, names_of, child_fact, child_facts, output_facts, keep_facts, hold_facts, bits_of,
  start_of, holding_of, word_bit, listed_states, listed_after, last_of, chain_facts, all_complete,
  list_states, expansion_note,
}
use htn_llm_rtl_gen.Completing.Expanding.Listed.{listed_states_exact}
use htn_llm_rtl_gen.Completing.Expanding.ReadBack.{states_from-listed_after}
use htn_llm_rtl_gen.Completing.Expanding.Correct.{Yields}
use htn_llm_rtl_gen.Completing.Expanding.Whole.{IsExpanded, expand_sequences_lem}
use htn_llm_rtl_gen.Recogniser.Machine.{
  b0, b1, bit_eq, Bits, fail_links, step, step_from, mark, unsnoc, explore, reachable_prefixes,
}
use htn_llm_rtl_gen.Recogniser.Machine.Run.{run}
use htn_llm_rtl_gen.Recogniser.Sequence.{
  bit_of, plain_bits, some_plain_bits, count_of, part_bits, parts_bits, bits_or_none, sequence_bits,
}
use htn_llm_rtl_gen.Recogniser.Names.{
  outputs_at, append_at, place, name_outputs, match_name, name_group, name_groups, distinct,
  state_names,
}
use htn_llm_rtl_gen.Recogniser.Prefixes.{
  lex_before, before, insert_sorted, sorted_set, cuts, all_cuts, prefixes_of, ends_with, ends_of,
}
use htn_llm_rtl_gen.Problem.Sexpr.{atom}
use htn_llm_rtl_gen.StateEncoding.{states_from}
use htn_llm_rtl_gen.Shared.{
  String, ◌≡◌, refl, ◌↔◌, true, List, [], ◌∷◌, Dict, lookup, insert, insert_all, filter, Distinct,
  Result, ◌==◌, nat_eq, list_beq, list_eq, pair_eq, ne_of_beq, contains, Str, codes, join,
  show_digits, show_nat, prepend, split_on, strip_prefix, upper, ok, err,
}

-- A recogniser of 011 that starts as though a 0 had come.
abbrev flagged : Draft
flagged = record {
  name = atom (codes "p");
  module_name = codes "m";
  objects = [];
  facts =
      (codes "recognises" ∷ codes "m" ∷ codes "flag" ∷ codes "seq011" ∷ [])
      ∷ (codes "reset_as_previous" ∷ codes "m" ∷ codes "zero" ∷ [])
      ∷ [];
  declared = [];
  notes = [];
}

expand_sequences_lem_example : Yields (IsExpanded flagged) (expand_sequences flagged)
expand_sequences_lem_example = expand_sequences_lem flagged

abbrev facts_of_kind : String → Result Draft → List (List Str)
facts_of_kind kind (ok d) = filter (λ f. kind_of f == codes kind) d.facts
facts_of_kind kind (err e) = []

test_first :
    facts_of_kind "first_listed" (expand_sequences flagged)
    ≡ (codes "first_listed" ∷ codes "m" ∷ codes "M1" ∷ []) ∷ []
unfolding expand_sequences expand recognised_of add_kind drop_expanded drop_states is_state_type
    state_objects names_of child_fact child_facts output_facts keep_facts hold_facts bits_of
    start_of holding_of word_bit listed_states listed_after last_of chain_facts all_complete
    list_states expansion_note fail_links step step_from mark unsnoc explore reachable_prefixes
    sequence_bits parts_bits part_bits some_plain_bits plain_bits bit_of count_of bits_or_none
    outputs_at append_at place name_outputs match_name name_group name_groups distinct state_names
    lex_before before insert_sorted sorted_set cuts all_cuts prefixes_of ends_with ends_of is_fact
    kind_of contains filter lookup insert list_beq codes split_on prepend strip_prefix show_nat
    show_digits upper join
test_first = refl

abbrev flag_011 : Str × Bits
flag_011 = (codes "flag", b0 ∷ b1 ∷ b1 ∷ [])

zero_in : contains (prefixes_of (flag_011 ∷ [])) (b0 ∷ []) ≡ true
unfolding contains prefixes_of sorted_set insert_sorted before lex_before all_cuts cuts list_beq
zero_in = refl

-- The output is kept while the input is 1.
listed_states_exact_example :
    (fail : Dict Bits Bits) × (fail_links
        (prefixes_of (flag_011 ∷ []))
        ((flag_011.1, b1) ∷ [])
        (prefixes_of (flag_011 ∷ []))
        []
      ≡ ok fail)
    × ((seen : List Bits) × (reachable_prefixes
            (prefixes_of (flag_011 ∷ []))
            ((flag_011.1, b1) ∷ [])
            (b0 ∷ [])
          ≡ ok seen)
        × ((later : List Bits) × (listed_states (prefixes_of (flag_011 ∷ [])) seen (b0 ∷ [])
              ≡ (b0 ∷ []) ∷ later))
        × Distinct (listed_states (prefixes_of (flag_011 ∷ [])) seen (b0 ∷ []))
        × ((y : Bits)
            → (contains (listed_states (prefixes_of (flag_011 ∷ [])) seen (b0 ∷ [])) y ≡ true) ↔ (
                (w : Bits) × (run
                    (prefixes_of (flag_011 ∷ []))
                    ((flag_011.1, b1) ∷ [])
                    fail
                    (b0 ∷ [])
                    w
                  ≡ ok y))))
listed_states_exact_example =
    listed_states_exact flag_011 [] ((flag_011.1, b1) ∷ []) (b0 ∷ []) zero_in

abbrev m1_flag : List Str
m1_flag = codes "M2" ∷ codes "S_FLAG" ∷ []

m1_flag-Distinct : Distinct (codes "M1" ∷ m1_flag)
unfolding codes list_beq
m1_flag-Distinct = ((ne_of_beq refl, (ne_of_beq refl, tt)), ((ne_of_beq refl, tt), (tt, tt)))

states_from-listed_after_example :
    states_from (insert_all (listed_after (codes "M1") m1_flag) []) (codes "M1")
    ≡ ok (codes "M1" ∷ m1_flag)
states_from-listed_after_example = states_from-listed_after (codes "M1") m1_flag m1_flag-Distinct
