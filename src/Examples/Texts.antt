-- ===== src/Examples/Texts.antt =====
-- The texts that rtl_designs/state_encoding.py reads, at concrete inputs.
use htn_llm_rtl_gen.StateEncoding.{
  encoding, value_names, code_facts, code_width, bit_length, bits_within, width_name, value_name,
  states_from, follow,
}
use htn_llm_rtl_gen.StateEncoding.Rewriting.{
  rewrite, rewrite_found, insert_lines, split_lines, closes, block,
}
use htn_llm_rtl_gen.StateEncoding.Search.{
  up_to_close, second_group, two_groups, match_pair, search, matches, find_all, states_after,
  states_of,
}
use htn_llm_rtl_gen.StateEncoding.Stripping.{
  mark_line, type_ends, values_end, is_value_line, is_width_line, is_generated, is_mark, strip_from,
  strip_generated, strip_generated_lem,
}
use htn_llm_rtl_gen.StateEncoding.Search.Fixed.{is_plain, plain_word, plain_word-IsPlain}
use htn_llm_rtl_gen.StateEncoding.Search.Facts.{named_pair, pairs_of}
use htn_llm_rtl_gen.StateEncoding.Search.Emitted.{states_linked, states_in, states_of-emit}
use htn_llm_rtl_gen.Problem.Sexpr.{atom}
use htn_llm_rtl_gen.Problem.Reading.{Problem}
use htn_llm_rtl_gen.Problem.Emitting.{emit}
use htn_llm_rtl_gen.Problem.Emitting.Lines.{IsAtom}
use htn_llm_rtl_gen.Problem.Emitting.Tree.{IsWritable}
use htn_llm_rtl_gen.Shared.{
  ◌≢◌, show_nat, show_digits, join, split_on, prepend, is_digit, ◌≡◌, refl, true, false, some, List,
  [], ◌∷◌, ◌++◌, lookup, insert, insert_all, nat_eq, list_beq, list_eq, pair_eq, Str, codes,
  is_space, is_digit, strip_prefix, ok, run_of, lstrip, rstrip, after_digits, some_digits,
  starts_with,
}

abbrev key : Str
key = codes "next_prefix"

abbrev chain : Str
chain = codes "(initial_state m A)\n(next_prefix A B)\n(next_prefix B C)\n"

test_chain : states_of chain ≡ ok (some (codes "m", codes "A" ∷ codes "B" ∷ codes "C" ∷ []))
unfolding states_of states_after search find_all matches match_pair two_groups second_group
    up_to_close run_of strip_prefix is_space codes states_from follow insert_all insert lookup
    list_beq
test_chain = refl

abbrev listed : Problem
listed = record {
  name = atom (codes "p");
  module_name = codes "m";
  objects = (codes "A" ∷ codes "B" ∷ [], atom (codes "state")) ∷ [];
  facts =
      (codes "listed_after" ∷ codes "A" ∷ codes "B" ∷ [])
      ∷ (codes "first_listed" ∷ codes "m" ∷ codes "A" ∷ [])
      ∷ [];
}

token_of : (w : Str) → plain_word w ≡ true → w ≢ [] → IsAtom w
token_of w h n = (n, plain_word-IsPlain w h)

listed-IsWritable : IsWritable listed
unfolding codes plain_word is_plain is_space list_beq
listed-IsWritable =
    let m = token_of (codes "m") refl cc in
    let a = token_of (codes "A") refl cc in
    let b = token_of (codes "B") refl cc in
    record {
      name = token_of (codes "p") refl cc;
      module_name = m;
      objects = ((cc, (a, (b, tt)), (refl, (refl, tt)), token_of (codes "state") refl cc), tt);
      facts = (
        (cc, (token_of (codes "listed_after") refl cc, (a, (b, tt)))),
        ((cc, (token_of (codes "first_listed") refl cc, (m, (a, tt)))), tt),
      );
    }

-- Python would write a list in brackets; no list occurs here.
states_of-emit_example : states_of (emit (λ items. []) listed) ≡ states_in listed.facts
states_of-emit_example = states_of-emit (λ items. []) listed listed-IsWritable

test_listed : states_in listed.facts ≡ ok (some (codes "m", codes "A" ∷ codes "B" ∷ []))
unfolding states_in states_linked pairs_of named_pair states_from follow insert_all insert lookup
    codes list_beq
test_listed = refl

-- A parenthesis that follows at once is read as a part of the state.
test_parenthesis : states_of (codes "(first_listed m A))") ≡ ok (some (codes "m", codes "A)" ∷ []))
unfolding states_of states_after search find_all matches match_pair two_groups second_group
    up_to_close run_of strip_prefix is_space codes states_from follow insert_all insert lookup
    list_beq
test_parenthesis = refl

abbrev code_line : Str
code_line = codes "    (state_code A n0)"

marked : is_mark (codes "    " ++ mark_line) ≡ true
unfolding is_mark lstrip rstrip is_space codes list_beq
marked = refl

code_generated : is_generated code_line ≡ true
unfolding is_generated starts_with is_value_line is_width_line lstrip strip_prefix is_space codes
code_generated = refl

close_kept : is_generated (codes "  )") ≡ false
unfolding is_generated starts_with is_value_line is_width_line lstrip strip_prefix is_space codes
close_kept = refl

strip_generated_lem_example :
    (strip_generated
        (codes "  (:init" ∷ (codes "    " ++ mark_line) ∷ ((code_line ∷ []) ++ codes "  )" ∷ []))
      ≡ strip_generated (codes "  (:init" ∷ codes "  )" ∷ []))
    × ((lines : List Str) → strip_generated (strip_generated lines) ≡ strip_generated lines)
strip_generated_lem_example =
    strip_generated_lem (codes "  (:init" ∷ []) (code_line ∷ []) (codes "    " ++ mark_line)
      (codes "  )") [] marked (code_generated, tt) close_kept

test_values : is_generated (codes "    n0 n1 n2 - value") ≡ true
unfolding is_generated starts_with is_value_line is_width_line values_end type_ends some_digits
    after_digits is_digit lstrip strip_prefix is_space codes
test_values = refl

test_widths : is_generated (codes "    bits2 - width") ≡ true
unfolding is_generated starts_with is_value_line is_width_line values_end type_ends some_digits
    after_digits is_digit lstrip strip_prefix is_space codes
test_widths = refl

abbrev problem_text : Str
problem_text =
    codes
      "(define\n  (:objects\n    a - port\n  )\n  (:init\n    (initial_state m A)\n    (next_prefix A B)\n  )\n)\n"

test_rewrite :
    rewrite problem_text
    ≡ ok (
        codes "(define\n  (:objects\n    a - port\n"
        ++ (codes "    ; state encoding, computed by rtl_designs/state_encoding.py\n"
            ++ (codes
                  "    n0 n1 - value\n    bits1 - width\n  )\n  (:init\n    (initial_state m A)\n"
                ++ (codes
                      "    (next_prefix A B)\n    ; state encoding, computed by rtl_designs/state_encoding.py\n"
                    ++ codes
                        "    (state_width m bits1)\n    (state_code A n0)\n    (state_code B n1)\n  )\n)\n"))))
unfolding rewrite rewrite_found insert_lines split_lines closes block strip_generated strip_from
    is_mark is_generated starts_with is_value_line is_width_line values_end type_ends some_digits
    after_digits is_digit lstrip rstrip states_of states_after search find_all matches match_pair
    two_groups second_group up_to_close run_of strip_prefix is_space codes states_from follow
    insert_all insert lookup list_beq encoding value_names code_facts code_width bit_length
    bits_within width_name value_name show_nat show_digits join split_on prepend
test_rewrite = refl
