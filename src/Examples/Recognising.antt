-- ===== src/Examples/Recognising.antt =====
-- The recogniser of rtl_designs/problem_compiler.py at concrete inputs.
use htn_llm_rtl_gen.Recogniser.Machine.{
  b0, b1, bit_eq, Bits, fail_links, step, step_from, mark, unsnoc, explore, reachable_prefixes,
}
use htn_llm_rtl_gen.Recogniser.Machine.Run.{run}
use htn_llm_rtl_gen.Recogniser.Machine.Longest.{longest, run-longest}
use htn_llm_rtl_gen.Recogniser.Machine.Reach.Exact.{reachable_prefixes_exact}
use htn_llm_rtl_gen.Recogniser.Sequence.{
  bit_of, plain_bits, some_plain_bits, count_of, part_bits, parts_bits, bits_or_none, sequence_bits,
}
use htn_llm_rtl_gen.Recogniser.Sequence.Printed.{
  Part, plain, sequence_name, sequence_bits-sequence_name, part_value, parts_value,
}
use htn_llm_rtl_gen.Recogniser.Names.{
  outputs_at, append_at, place, name_outputs, match_name, name_group, name_groups, distinct,
  state_names,
}
use htn_llm_rtl_gen.Recogniser.Names.Unique.{state_names_lem}
use htn_llm_rtl_gen.Recogniser.Prefixes.{
  lex_before, before, insert_sorted, sorted_set, cuts, all_cuts, prefixes_of, ends_with, ends_of,
}
use htn_llm_rtl_gen.Recogniser.Prefixes.Ordered.{
  prefixes_of-IsClosed, prefixes_of-ShortestFirst, prefixes_of-empty,
}
use htn_llm_rtl_gen.Recogniser.Detect.{run_detects}
use htn_llm_rtl_gen.Shared.{
  ◌≡◌, refl, ◌↔◌, true, none, some, List, [], ◌∷◌, ◌++◌, Dict, lookup, insert, length, filter, all,
  nat_eq, list_beq, list_eq, pair_eq, contains, Str, codes, is_digit, join, show_nat, read_digits,
  read_nat, prepend, split_on, strip_prefix, upper, ok,
}

abbrev flag : Str × Bits
flag = (codes "flag", b0 ∷ b1 ∷ b1 ∷ [])

abbrev three : List Bits
three = prefixes_of (flag ∷ [])

listed : three ≡ [] ∷ (b0 ∷ []) ∷ (b0 ∷ b1 ∷ []) ∷ (b0 ∷ b1 ∷ b1 ∷ []) ∷ []
unfolding prefixes_of sorted_set insert_sorted before lex_before all_cuts cuts list_beq
listed = refl

run-longest_example :
    (fail : Dict Bits Bits) × (fail_links three [] three [] ≡ ok fail)
    × ((w : Bits) → run three [] fail [] w ≡ ok (longest three w))
run-longest_example =
    run-longest three (prefixes_of-IsClosed (flag ∷ [])) (prefixes_of-empty flag [])
      (prefixes_of-ShortestFirst (flag ∷ []))

start_in : contains three (b0 ∷ []) ≡ true
unfolding contains prefixes_of sorted_set insert_sorted before lex_before all_cuts cuts list_beq
start_in = refl

-- The machine that keeps its output while the bit is one, and starts as if a zero had come.
reachable_prefixes_exact_example :
    (fail : Dict Bits Bits) × (fail_links three ((flag.1, b1) ∷ []) three [] ≡ ok fail)
    × ((seen : List Bits) × (reachable_prefixes three ((flag.1, b1) ∷ []) (b0 ∷ []) ≡ ok seen)
        × ((y : Bits)
            → (contains seen y ≡ true)
              ↔ ((w : Bits) × (run three ((flag.1, b1) ∷ []) fail (b0 ∷ []) w ≡ ok y))))
reachable_prefixes_exact_example =
    reachable_prefixes_exact three ((flag.1, b1) ∷ []) (b0 ∷ []) (prefixes_of-IsClosed (flag ∷ []))
      (prefixes_of-ShortestFirst (flag ∷ [])) (prefixes_of-empty flag []) start_in

all_reached :
    reachable_prefixes three [] (b0 ∷ [])
    ≡ ok ([] ∷ (b0 ∷ b1 ∷ b1 ∷ []) ∷ (b0 ∷ b1 ∷ []) ∷ (b0 ∷ []) ∷ [])
unfolding reachable_prefixes fail_links explore step_from step unsnoc mark prefixes_of sorted_set
    insert_sorted before lex_before all_cuts cuts contains lookup insert list_beq
all_reached = refl

flag_in : contains three flag.1 ≡ true
unfolding contains prefixes_of sorted_set insert_sorted before lex_before all_cuts cuts list_beq
flag_in = refl

flag_once : length (ends_of three flag.1) ≡ 1
unfolding ends_of ends_with filter prefixes_of sorted_set insert_sorted before lex_before all_cuts
    cuts list_beq
flag_once = refl

run_detects_example :
    (fail : Dict Bits Bits) × (fail_links three [] three [] ≡ ok fail)
    × ((w : Bits) → (run three [] fail [] w ≡ ok flag.1) ↔ ((u : Bits) × (w ≡ u ++ flag.1)))
run_detects_example = run_detects flag [] flag.1 flag_in flag_once

sequence_bits-sequence_name_example :
    sequence_bits (sequence_name (plain b0 []) (Part.run b1 3 ∷ []))
    ≡ some (part_value (plain b0 []) ++ parts_value (Part.run b1 3 ∷ []))
unfolding part_value parts_value
sequence_bits-sequence_name_example =
    sequence_bits-sequence_name (plain b0 []) (Part.run b1 3 ∷ []) (cc)

abbrev two_names : Dict Bits Str
two_names = (b1 ∷ [], codes "S_FLAG") ∷ ([], codes "M0") ∷ []

name_two : state_names ([] ∷ (b1 ∷ []) ∷ []) ((codes "flag", b1 ∷ []) ∷ []) ≡ ok two_names
unfolding state_names name_outputs place outputs_at append_at name_groups name_group match_name
    distinct contains lookup insert upper join show_nat codes list_beq
name_two = refl

state_names_lem_example :
    ((x : Bits)
      → contains ([] ∷ (b1 ∷ []) ∷ []) x ≡ true
      → (name : Str) × (lookup x two_names ≡ some name))
    × ((x y : Bits) (name : Str)
        → lookup x two_names ≡ some name
        → lookup y two_names ≡ some name
        → x ≡ y)
state_names_lem_example =
    state_names_lem ([] ∷ (b1 ∷ []) ∷ []) ((codes "flag", b1 ∷ []) ∷ []) two_names name_two

test_plain : sequence_bits (codes "seq0110") ≡ some (b0 ∷ b1 ∷ b1 ∷ b0 ∷ [])
unfolding sequence_bits parts_bits part_bits some_plain_bits plain_bits bit_of count_of bits_or_none
    split_on prepend strip_prefix read_nat read_digits is_digit codes all
test_plain = refl

test_run : sequence_bits (codes "seq0_1x3_0") ≡ some (b0 ∷ b1 ∷ b1 ∷ b1 ∷ b0 ∷ [])
unfolding sequence_bits parts_bits part_bits some_plain_bits plain_bits bit_of count_of bits_or_none
    split_on prepend strip_prefix read_nat read_digits is_digit codes all
test_run = refl

test_empty : sequence_bits (codes "seq1x0") ≡ none
unfolding sequence_bits parts_bits part_bits some_plain_bits plain_bits bit_of count_of bits_or_none
    split_on prepend strip_prefix read_nat read_digits is_digit codes all
test_empty = refl
