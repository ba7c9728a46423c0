-- ===== src/Examples/Rendering.antt =====
-- rtl_designs/plan_to_verilog.py at concrete inputs.
use htn_llm_rtl_gen.StateEncoding.{code_width, value_names, width_name}
use htn_llm_rtl_gen.Plan.Reading.{Step, after_first, depth_found, is_zero, read_plan}
use htn_llm_rtl_gen.Plan.Reading.Printed.{IsName, IsStep, printed, read_plan-printed}
use htn_llm_rtl_gen.Plan.Actions.{state_param, f_string, arg}
use htn_llm_rtl_gen.Plan.Templates.{
  lines_of, state_block, output_block, counter_block, generator_block,
}
use htn_llm_rtl_gen.Plan.Templates.Coding.{parameter_line, state_param-code}
use htn_llm_rtl_gen.Plan.Rendering.{
  render, write_steps, write_step, ports_of, widths_of, act, branch_after,
}
use htn_llm_rtl_gen.Plan.Rendering.Analysis.{is_analysis, render-filter}
use htn_llm_rtl_gen.Plan.Rendering.Moore.{moore_line, moore_steps, write_steps-moore}
use htn_llm_rtl_gen.Shared.{
  ◌^◌, ◌<◌, ◌≡◌, refl, ◌≢◌, true, false, not, ◌&&◌, some, List, [], ◌∷◌, arith, lookup, get_elem?,
  filter, all, All, starts_with, digits_of, ◌==◌, eq_iff, nat_eq, list_beq, list_eq, pair_eq,
  contains, Str, codes, is_space, is_digit, join, show_digits, show_nat, strip_prefix, IsFree, ok,
}

abbrev small_plan : List Step
small_plan =
    (codes "analyze_kind", codes "m" ∷ [])
    ∷ (codes "write_module_header", codes "m" ∷ [])
    ∷ (codes "write_input_decl", codes "m" ∷ codes "x" ∷ [])
    ∷ (codes "write_module_end", codes "m" ∷ [])
    ∷ []

render-filter_example : render (filter (λ s. not (is_analysis s)) small_plan) ≡ render small_plan
render-filter_example = render-filter small_plan

abbrev report : Str
report = codes "Plan found at depth 2\nPlan:\n(write_input_decl m x)_0\n(write_module_end)_1\n"

abbrev reported : List Step
reported =
    (codes "write_input_decl", codes "m" ∷ codes "x" ∷ []) ∷ (codes "write_module_end", []) ∷ []

report_plan : after_first (codes "Plan:") report ≡ some (b'\n' ∷ printed 0 reported)
unfolding after_first codes strip_prefix join show_nat show_digits
report_plan = refl

report_depth : is_zero (depth_found report) ≡ false
unfolding is_zero depth_found codes strip_prefix digits_of list_beq is_digit
report_depth = refl

write_steps-moore_example :
    write_steps [] []
      ((codes "write_moore_output_assign", codes "m" ∷ codes "z" ∷ codes "B" ∷ [])
        ∷ moore_steps (codes "m") (codes "z") (codes "D" ∷ []))
      ([], false)
    ≡ ok (moore_line (codes "z") (codes "B" ∷ codes "D" ∷ []) ∷ [], false)
write_steps-moore_example =
    write_steps-moore [] [] (codes "m") (codes "z") (codes "B") (codes "D" ∷ []) [] false

moore_text :
    moore_line (codes "z") (codes "B" ∷ codes "D" ∷ [])
    ≡ codes "assign z = (ST_cr == B) | (ST_cr == D);"
unfolding codes join
moore_text = refl

abbrev three_states : List Str
three_states = codes "A" ∷ codes "B" ∷ codes "C" ∷ []

state_param-code_example :
    (v : Str) × (get_elem? (value_names 0 three_states) 2 ≡ some v)
    × (lines_of [] [] false state_param (codes "m" ∷ codes "C" ∷ v ∷ width_name (code_width 3) ∷ [])
        ≡ ok (parameter_line (codes "C") (code_width 3) 2 ∷ []))
    × (2 < 2 ^ code_width 3)
state_param-code_example = state_param-code [] [] false (codes "m") three_states 2 refl

rendered : render small_plan ≡ ok (codes "module m(x);\ninput x;\nendmodule\n")
unfolding render ports_of widths_of write_steps write_step act lines_of branch_after starts_with
    strip_prefix codes list_beq lookup contains f_string join arg state_block output_block
    counter_block generator_block
rendered = refl

unspaced :
    (w : Str)
    → all (λ c. not (is_space c) && not (c == b')')) w ≡ true
    → All (λ c. is_space c ≡ false) w
unfolding all
unspaced [] h = tt
unspaced (c ∷ w) h = (ground arith, unspaced w (ground arith))

unclosed : (w : Str) → all (λ c. not (is_space c) && not (c == b')')) w ≡ true → IsFree b')' w
unfolding all
unclosed [] h = tt
unclosed (c ∷ w) h = (ground (arith, eq_iff c b')'), unclosed w (ground arith))

-- The characters of a name of the report.
plain : (w : Str) → all (λ c. not (is_space c) && not (c == b')')) w ≡ true → w ≢ [] → IsName w
plain w h n = ((n, unspaced w h), unclosed w h)

report_steps : All IsStep reported
unfolding all is_space codes
report_steps = (
  (
    plain (codes "write_input_decl") refl (λ e. cc e),
    (plain (codes "m") refl (λ e. cc e), (plain (codes "x") refl (λ e. cc e), tt)),
  ),
  ((plain (codes "write_module_end") refl (λ e. cc e), tt), tt),
)

read_plan-printed_example : read_plan report ≡ ok reported
read_plan-printed_example =
    read_plan-printed report 0 reported report_steps report_plan report_depth
