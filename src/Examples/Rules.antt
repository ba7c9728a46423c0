-- ===== src/Examples/Rules.antt =====
-- The rules of eval/learn_steps.py at concrete modules.
use htn_llm_rtl_gen.Shared.{
  ℕ, ◌≡◌, refl, Bool, true, false, some, List, [], ◌∷◌, ◌++◌, Dict, lookup, insert, filter, any,
  all, is_empty, sorted, distinct, minus, lstrip, rstrip, starts_with, nat_eq, list_beq, list_eq,
  pair_eq, contains, Str, codes, is_space, is_digit, strip_prefix, ok,
}
use htn_llm_rtl_gen.Rules.{case_label, cut_comment, is_module_item, is_word_char}
use htn_llm_rtl_gen.Rules.Blocks.{Opener, well_formed, close_block, after_closer}
use htn_llm_rtl_gen.Rules.Blocks.Nested.{nest, marks_of_lines}
use htn_llm_rtl_gen.Rules.Blocks.Nested.Closing.{well_formed-Nested}
use htn_llm_rtl_gen.Rules.Declared.{declared_names, declared_before_use}
use htn_llm_rtl_gen.Rules.Declared.Ordered.{Ordered, declared_before_use-Ordered}
use htn_llm_rtl_gen.Rules.Drivers.{one_driver, undriven}
use htn_llm_rtl_gen.Rules.Drivers.Owned.{Driven, one_driver-Driven}
use htn_llm_rtl_gen.Rules.Repeats.{no_repeat, empty_blocks, is_statement, closers_in, openers_in}
use htn_llm_rtl_gen.Rules.Repeats.Fresh.{text_of, levels}
use htn_llm_rtl_gen.Rules.Repeats.Fresh.Repeated.{no_repeat-refused}

abbrev design : List Str
design =
    codes "module m(clk, d, q);"
    ∷ codes "input clk;"
    ∷ codes "input [1:0] d;"
    ∷ codes "output reg q;"
    ∷ codes "always @(posedge clk) begin"
    ∷ codes "  case (d)"
    ∷ codes "    2'b00: q <= 1'b1;"
    ∷ codes "    default: q <= 1'b0;"
    ∷ codes "  endcase"
    ∷ codes "end"
    ∷ codes "endmodule"
    ∷ []

design_formed : well_formed design ≡ ok true
unfolding well_formed starts_with strip_prefix codes is_space list_beq is_word_char is_module_item
    contains any case_label close_block after_closer
design_formed = refl

design_declared : declared_before_use design ≡ true
unfolding declared_before_use codes is_space is_digit is_word_char contains list_beq all filter
    lookup insert
design_declared = refl

design_driven : one_driver design ≡ true
unfolding one_driver contains list_beq codes is_space is_word_char filter lookup insert
design_driven = refl

design_fresh : no_repeat design ≡ true
unfolding no_repeat codes is_space list_beq is_word_char filter contains
design_fresh = refl

unclosed : well_formed (codes "always @(*) begin" ∷ codes "endmodule" ∷ []) ≡ ok false
unfolding well_formed starts_with strip_prefix codes is_space list_beq is_word_char is_module_item
    contains any
unclosed = refl

else_alone : well_formed (codes "always @(*) begin" ∷ codes "  else q = 1;" ∷ []) ≡ ok false
unfolding well_formed starts_with strip_prefix codes is_space list_beq is_word_char is_module_item
    contains any case_label
else_alone = refl

design_names : declared_names design ≡ codes "clk" ∷ codes "d" ∷ codes "q" ∷ []
unfolding declared_names contains list_beq codes is_space is_word_char filter
design_names = refl

never_assigned :
    undriven (
      codes "reg [1:0] s, n;"
      ∷ codes "always @(*) begin"
      ∷ codes "  if (s == 2'b01) n = 2'b10;"
      ∷ codes "end"
      ∷ [])
    ≡ codes "s" ∷ []
unfolding undriven sorted distinct minus filter contains list_beq codes is_space is_digit
    is_word_char
never_assigned = refl

two_blocks :
    one_driver (codes "reg a;" ∷ codes "always @(*) a = 1;" ∷ codes "always @(*) a = 0;" ∷ [])
    ≡ false
unfolding one_driver contains list_beq codes is_space is_word_char filter lookup insert
two_blocks = refl

nothing_inside : empty_blocks (codes "always @(*) begin" ∷ codes "end" ∷ []) ≡ (0, 1) ∷ []
unfolding empty_blocks codes is_space any is_word_char list_beq
nothing_inside = refl

well_formed-Nested_example :
    (b : Bool) × (well_formed design ≡ ok b)
    × (b ≡ true → (open_now : List Opener) × (nest [] (marks_of_lines design) ≡ some open_now))
well_formed-Nested_example = well_formed-Nested design

declared_before_use-Ordered_example : Ordered [] design
declared_before_use-Ordered_example = declared_before_use-Ordered design design_declared

one_driver-Driven_example : (owners : Dict Str ℕ) × Driven owners 0 design
one_driver-Driven_example = one_driver-Driven design design_driven

abbrev opened_block : List Str
opened_block = codes "always @(posedge clk) begin" ∷ []

abbrev first_time : Str
first_time = codes "  q <= 1;"

abbrev between : List Str
between = codes "  if (d) begin" ∷ codes "    p <= 1;" ∷ codes "  end" ∷ []

abbrev second_time : Str
second_time = codes "  q <= 1; // again"

block_open : levels 0 opened_block ≡ some 1
unfolding levels lstrip rstrip cut_comment codes is_space closers_in filter is_word_char list_beq
    openers_in
block_open = refl

same_block : levels 0 (first_time ∷ between) ≡ some 0
unfolding levels lstrip rstrip cut_comment codes is_space closers_in filter is_word_char list_beq
    openers_in
same_block = refl

not_blank : is_empty (text_of first_time) ≡ false
unfolding lstrip rstrip cut_comment codes is_space
not_blank = refl

states_it : is_statement (text_of first_time) ≡ true
unfolding is_statement list_beq lstrip rstrip cut_comment codes is_space is_word_char filter
    contains
states_it = refl

same_text : text_of second_time ≡ text_of first_time
unfolding codes cut_comment rstrip is_space
same_text = refl

no_repeat-refused_example :
    no_repeat (opened_block ++ ((first_time ∷ between) ++ second_time ∷ [])) ≡ false
no_repeat-refused_example =
    no_repeat-refused opened_block between [] first_time second_time 0 block_open same_block
      not_blank states_it same_text
