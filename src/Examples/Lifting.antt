-- ===== src/Examples/Lifting.antt =====
-- eval/lift.py and Lifter.tell of eval/lift_loops.py at concrete inputs.
use htn_llm_rtl_gen.Loops.{Fact, no_items}
use htn_llm_rtl_gen.Lift.{
  Columns, is_variable, stands_for, see, match_arg, match_args, match_fact, matches_of, only_one,
  picks_out,
}
use htn_llm_rtl_gen.Lift.Picking.{filled, picks_out_unique}
use htn_llm_rtl_gen.Lift.Tying.{
  case_weight, apart, names, tie, candidates, candidates_from, product, choices, named_first,
  unbound_in, all_pick, candidate_lt, each_with, only_tentative,
}
use htn_llm_rtl_gen.Lift.Tying.Tied.{Settled, tie_settles}
use htn_llm_rtl_gen.Loops.Telling.{
  Row, Sign, rules_out, tell, signs, sign_lt, sign_key, choose, common, foreign_in, literals,
  literals_from, concerns, readings, known_as, known_with, value_of, rank, does_nothing, is_kind,
  wanted, match_any, grounded, plainness,
}
use htn_llm_rtl_gen.Loops.Telling.Told.{tell-Chosen}
use mathlib.Core.Path.{subst}
use htn_llm_rtl_gen.Shared.{
  ◌≡◌, refl, true, false, List, [], ◌∷◌, map, arith, lookup, insert, length, filter, any, all, All,
  precedes, text_lt, tuple_lt, sorted, least, distinct, minus, same_set, starts_with, ◌==◌, nat_eq,
  if◌then◌else◌, list_beq, list_eq, pair_eq, contains, contains_single, Str, codes, join,
  strip_prefix, ok,
}

abbrev facts : List Fact
facts =
    (codes "clock_of" ∷ codes "m" ∷ codes "clk" ∷ [])
    ∷ (codes "first_port" ∷ codes "m" ∷ codes "clk" ∷ [])
    ∷ (codes "next_port" ∷ codes "clk" ∷ codes "rst" ∷ [])
    ∷ []

abbrev columns : Columns
columns = (codes "?m", codes "m" ∷ []) ∷ (codes "?v1", codes "clk" ∷ []) ∷ []

abbrev value : Str → Str
value r = if r == codes "?m" then codes "m" else codes "clk"

module_named : stands_for columns 0 (codes "?m") (value (codes "?m")) ≡ true
unfolding stands_for lookup codes list_beq
module_named = refl

module_bound :
    (r : Str) → contains (codes "?m" ∷ []) r ≡ true → stands_for columns 0 r (value r) ≡ true
module_bound r h =
    subst (λ x. stands_for columns 0 x (value x) ≡ true) (contains_single (codes "?m") r h)
      module_named

picks_clock :
    picks_out columns 0 (codes "?m" ∷ []) (codes "clock_of") (codes "?m" ∷ codes "?v1" ∷ []) facts
    ≡ true
unfolding picks_out matches_of match_fact match_args match_arg see only_one stands_for is_variable
    starts_with strip_prefix codes contains list_beq lookup insert all
picks_clock = refl

clock_reading :
    contains facts (
      codes "clock_of"
      ∷ map (filled columns 0 (codes "?m" ∷ []) value) (codes "?m" ∷ codes "?v1" ∷ []))
    ≡ true
unfolding contains list_beq codes is_variable starts_with strip_prefix
clock_reading = refl

picks_out_unique_example :
    All
      (λ r. is_variable r ≡ true → stands_for columns 0 r (value r) ≡ true)
      (codes "?m" ∷ codes "?v1" ∷ [])
picks_out_unique_example =
    picks_out_unique columns 0 (codes "?m" ∷ []) value (codes "clock_of")
      (codes "?m" ∷ codes "?v1" ∷ []) facts picks_clock module_bound clock_reading

one_unbound : length (minus (names columns) (codes "?m" ∷ [])) ≡ 1
unfolding minus filter contains list_beq codes
one_unbound = refl

tie_settles_example :
    Settled case_weight
      (facts ∷ [])
      columns
      (codes "?m" ∷ [])
      (tie case_weight (facts ∷ []) columns 3 [] (codes "?m" ∷ []) facts)
tie_settles_example =
    tie_settles case_weight (facts ∷ []) columns 3 [] (codes "?m" ∷ []) facts
      (omega (arith, one_unbound))

tied_clock :
    tie case_weight (facts ∷ []) columns 3 [] (codes "?m" ∷ []) facts
    ≡ ok (columns, (codes "clock_of", codes "?m" ∷ codes "?v1" ∷ []) ∷ [])
unfolding tie same_set all contains list_beq codes least candidates candidates_from product choices
    named_first unbound_in is_variable starts_with strip_prefix all_pick picks_out candidate_lt
    each_with only_tentative match_arg match_args match_fact matches_of only_one see stands_for
    insert lookup filter minus precedes text_lt tuple_lt join case_weight apart
tied_clock = refl

abbrev port_row : Str → Str → Row
port_row kind e = record {
  items = no_items;
  state = (kind ∷ e ∷ []) ∷ [];
  values = (codes "?m", codes "m") ∷ (codes "?e", e) ∷ [];
  present = [];
  absent = [];
}

abbrev inputs : List Row
inputs = port_row (codes "input_port") (codes "x") ∷ []

abbrev outputs : List Row
outputs = port_row (codes "output_port") (codes "z") ∷ []

abbrev is_input : List Sign
is_input = ((codes "input_port" ∷ codes "?e" ∷ []), true) ∷ []

told_inputs : tell [] [] inputs outputs ≡ ok is_input
unfolding tell signs sign_lt sign_key choose common foreign_in literals literals_from concerns
    readings known_as known_with value_of rank does_nothing is_kind wanted match_any grounded
    plainness rules_out sorted filter distinct contains list_beq codes lookup product any
    is_variable starts_with strip_prefix all precedes
told_inputs = refl

tell-Chosen_example :
    All (λ s. All (λ r. rules_out [] [] inputs outputs s r ≡ false) inputs) is_input
    × All (λ r. any (λ s. rules_out [] [] inputs outputs s r) is_input ≡ true) outputs
tell-Chosen_example = tell-Chosen [] [] inputs outputs told_inputs
