-- ===== src/Plan/Templates.antt =====
-- render of rtl_designs/plan_to_verilog.py: the lines that each action of a plan writes.
pub mod Coding
use htn_llm_rtl_gen.Plan.Reading.{number}
use htn_llm_rtl_gen.Plan.Actions.{
  Action, module_header, input_decl, output_reg_decl, output_decl, output_reg_vector_decl,
  register_decl, state_param, state_regs, state_register_async, state_register_sync,
  next_state_open, state_case, next_state_default, next_state_close, output_open,
  output_reset_clause, output_assert, output_default, output_close, moore_output_assign,
  clocked_block_open_async, clocked_block_open_sync, clocked_block_close, counter_reset,
  counter_enable_open, counter_wrap, counter_free_open, counter_enable_close, counter_free_close,
  counter_hold, generator_reset, direction_case_open, rising_phase, falling_phase,
  direction_case_close, module_end, f_string, arg, cur, nxt, active, show_top, sensitivity,
  bit_digits,
}
use htn_llm_rtl_gen.Shared.{
  ℕ, ◌+◌, ◌-◌, ◌*◌, ◌<◌, String, Bool, true, false, ◌&&◌, List, [], ◌∷◌, arith, Dict, ◌>>=◌, get,
  Result, ◌==◌, nat_eq, if◌then◌else◌, list_eq, pair_eq, Str, codes, join, show_nat, crash, ok, err,
}

module _ (widths : Dict Str ℕ) (ports : List Str) where
  -- `value` as a literal sized for the port or register `target`
  unfoldable pub lit : Str → Str → Result Str
  lit target value = do
    w ← get target widths
    n ← number value
    ok (f_string (show_nat w ∷ codes "'d" ∷ show_nat n ∷ []))

  unfoldable pub generator_reset_lines : List Str → Result (List Str)
  generator_reset_lines (m ∷ rst ∷ pol ∷ d ∷ dv ∷ w ∷ wv ∷ []) = do
    direction ← lit d dv
    wave ← lit w wv
    ok (
        f_string (codes "  if (" ∷ active rst pol ∷ codes ") begin" ∷ [])
        ∷ f_string (codes "    " ∷ d ∷ codes " <= " ∷ direction ∷ codes ";" ∷ [])
        ∷ f_string (codes "    " ∷ w ∷ codes " <= " ∷ wave ∷ codes ";" ∷ [])
        ∷ codes "  end else begin"
        ∷ [])
  generator_reset_lines _ = err crash

  unfoldable pub phase_lines : String → List Str → Result (List Str)
  phase_lines step (m ∷ d ∷ phase ∷ w ∷ limit ∷ next ∷ []) = do
    here ← lit d phase
    end ← lit w limit
    to ← lit d next
    ok (
        f_string (
          codes "      "
          ∷ here
          ∷ codes ": if ("
          ∷ w
          ∷ codes " == "
          ∷ end
          ∷ codes ") "
          ∷ d
          ∷ codes " <= "
          ∷ to
          ∷ codes ";"
          ∷ [])
        ∷ f_string (
            codes "        else "
            ∷ w
            ∷ codes " <= "
            ∷ w
            ∷ codes " "
            ∷ codes step
            ∷ codes " 1'b1;"
            ∷ [])
        ∷ [])
  phase_lines step _ = err crash

  unfoldable pub generator_block : Action → List Str → Result (List Str)
  generator_block generator_reset a = generator_reset_lines a
  generator_block direction_case_open a = do
    d ← arg 1 a
    ok (f_string (codes "    case (" ∷ d ∷ codes ")" ∷ []) ∷ [])
  generator_block rising_phase a = phase_lines "+" a
  generator_block falling_phase a = phase_lines "-" a
  generator_block direction_case_close a = ok (codes "    endcase" ∷ codes "  end" ∷ [])
  generator_block module_end a = ok (codes "endmodule" ∷ [])
  generator_block _ a = ok []

  unfoldable pub clocked_open : Bool → List Str → Result (List Str)
  clocked_open asynchronous (m ∷ clk ∷ rst ∷ pol ∷ []) = ok (
      f_string (codes "always @(" ∷ sensitivity asynchronous clk rst pol ∷ codes ") begin" ∷ [])
      ∷ [])
  clocked_open asynchronous _ = err crash

  unfoldable pub counter_reset_line : List Str → Result (List Str)
  counter_reset_line (m ∷ cnt ∷ rst ∷ pol ∷ v ∷ []) = do
    value ← lit cnt v
    ok (
        f_string (
          codes "  if ("
          ∷ active rst pol
          ∷ codes ") "
          ∷ cnt
          ∷ codes " <= "
          ∷ value
          ∷ codes ";"
          ∷ [])
        ∷ [])
  counter_reset_line _ = err crash

  unfoldable pub counter_wrap_lines : List Str → Result (List Str)
  counter_wrap_lines (m ∷ cnt ∷ top ∷ to ∷ []) = do
    last ← lit cnt top
    first ← lit cnt to
    ok (
        f_string (
          codes "    if ("
          ∷ cnt
          ∷ codes " == "
          ∷ last
          ∷ codes ") "
          ∷ cnt
          ∷ codes " <= "
          ∷ first
          ∷ codes ";"
          ∷ [])
        ∷ f_string (codes "    else " ∷ cnt ∷ codes " <= " ∷ cnt ∷ codes " + 1'b1;" ∷ [])
        ∷ [])
  counter_wrap_lines _ = err crash

  unfoldable pub counter_block : Action → List Str → Result (List Str)
  counter_block clocked_block_open_async a = clocked_open true a
  counter_block clocked_block_open_sync a = clocked_open false a
  counter_block clocked_block_close a = ok (codes "end" ∷ [])
  counter_block counter_reset a = counter_reset_line a
  counter_block counter_enable_open a = do
    e ← arg 1 a
    ok (f_string (codes "  else if (" ∷ e ∷ codes ") begin" ∷ []) ∷ [])
  counter_block counter_wrap a = counter_wrap_lines a
  counter_block counter_free_open a = ok (codes "  else begin" ∷ [])
  counter_block counter_enable_close a = ok (codes "  end" ∷ [])
  counter_block counter_free_close a = ok (codes "  end" ∷ [])
  counter_block counter_hold a = do
    c ← arg 1 a
    ok (f_string (codes "  else " ∷ c ∷ codes " <= " ∷ c ∷ codes ";" ∷ []) ∷ [])
  counter_block other a = generator_block other a

  unfoldable pub output_reset_line : List Str → Result (List Str)
  output_reset_line (m ∷ o ∷ rst ∷ pol ∷ []) =
      ok (f_string (codes "  if (" ∷ active rst pol ∷ codes ") " ∷ o ∷ codes " = 1'b0;" ∷ []) ∷ [])
  output_reset_line _ = err crash

  -- `branch` is output_branch_open
  unfoldable pub output_assert_line : Bool → List Str → Result (List Str)
  output_assert_line branch (m ∷ o ∷ s ∷ inp ∷ b ∷ []) = do
    digit ← get b bit_digits
    ok (
        f_string (
          codes "  "
          ∷ (if branch then codes "else if" else codes "if")
          ∷ codes " ("
          ∷ cur
          ∷ codes " == "
          ∷ s
          ∷ codes " && "
          ∷ inp
          ∷ codes " == 1'b"
          ∷ digit
          ∷ codes ") "
          ∷ o
          ∷ codes " = 1'b1;"
          ∷ [])
        ∷ [])
  output_assert_line branch _ = err crash

  unfoldable pub moore_assign_line : List Str → Result (List Str)
  moore_assign_line (m ∷ o ∷ st ∷ []) = ok (
      f_string (codes "assign " ∷ o ∷ codes " = (" ∷ cur ∷ codes " == " ∷ st ∷ codes ");" ∷ [])
      ∷ [])
  moore_assign_line _ = err crash

  unfoldable pub output_block : Bool → Action → List Str → Result (List Str)
  output_block branch output_open a = ok (codes "always @(*) begin" ∷ [])
  output_block branch output_reset_clause a = output_reset_line a
  output_block branch output_assert a = output_assert_line branch a
  output_block branch output_default a = do
    o ← arg 1 a
    ok (f_string (codes "  else " ∷ o ∷ codes " = 1'b0;" ∷ []) ∷ [])
  output_block branch output_close a = ok (codes "end" ∷ [])
  output_block branch moore_output_assign a = moore_assign_line a
  output_block branch other a = counter_block other a

  unfoldable pub state_register : Bool → List Str → Result (List Str)
  state_register asynchronous (m ∷ clk ∷ rst ∷ pol ∷ s0 ∷ []) = ok (
      f_string (codes "always @(" ∷ sensitivity asynchronous clk rst pol ∷ codes ") begin" ∷ [])
      ∷ f_string
          (codes "  if (" ∷ active rst pol ∷ codes ") " ∷ cur ∷ codes " <= " ∷ s0 ∷ codes ";" ∷ [])
      ∷ f_string (codes "  else " ∷ cur ∷ codes " <= " ∷ nxt ∷ codes ";" ∷ [])
      ∷ codes "end"
      ∷ [])
  state_register asynchronous _ = err crash

  unfoldable pub state_case_line : List Str → Result (List Str)
  state_case_line (m ∷ s ∷ inp ∷ t0 ∷ t1 ∷ []) = ok (
      f_string (
        codes "    "
        ∷ s
        ∷ codes ": if ("
        ∷ inp
        ∷ codes " == 1'b0) "
        ∷ nxt
        ∷ codes " = "
        ∷ t0
        ∷ codes "; else "
        ∷ nxt
        ∷ codes " = "
        ∷ t1
        ∷ codes ";"
        ∷ [])
      ∷ [])
  state_case_line _ = err crash

  unfoldable pub state_block : Bool → Action → List Str → Result (List Str)
  state_block branch state_register_async a = state_register true a
  state_block branch state_register_sync a = state_register false a
  state_block branch next_state_open a =
      ok (codes "always @(*) begin" ∷ f_string (codes "  case (" ∷ cur ∷ codes ")" ∷ []) ∷ [])
  state_block branch state_case a = state_case_line a
  state_block branch next_state_default a = do
    s ← arg 1 a
    ok (f_string (codes "    default: " ∷ nxt ∷ codes " = " ∷ s ∷ codes ";" ∷ []) ∷ [])
  state_block branch next_state_close a = ok (codes "  endcase" ∷ codes "end" ∷ [])
  state_block branch other a = output_block branch other a

  -- the lines that an action adds; `moore_output_also` adds none
  unfoldable pub lines_of : Bool → Action → List Str → Result (List Str)
  lines_of branch module_header a = do
    m ← arg 0 a
    ok (f_string (codes "module " ∷ m ∷ codes "(" ∷ join (codes ", ") ports ∷ codes ");" ∷ []) ∷ [])
  lines_of branch input_decl a = do
    p ← arg 1 a
    ok (f_string (codes "input " ∷ p ∷ codes ";" ∷ []) ∷ [])
  lines_of branch output_reg_decl a = do
    p ← arg 1 a
    ok (f_string (codes "output reg " ∷ p ∷ codes ";" ∷ []) ∷ [])
  lines_of branch output_decl a = do
    p ← arg 1 a
    ok (f_string (codes "output " ∷ p ∷ codes ";" ∷ []) ∷ [])
  lines_of branch output_reg_vector_decl a = do
    p ← arg 1 a
    w ← get p widths
    ok (f_string (codes "output reg [" ∷ show_top w ∷ codes ":0] " ∷ p ∷ codes ";" ∷ []) ∷ [])
  lines_of branch register_decl a = do
    r ← arg 1 a
    w ← get r widths
    ok (f_string (codes "reg [" ∷ show_top w ∷ codes ":0] " ∷ r ∷ codes ";" ∷ []) ∷ [])
  lines_of branch state_param a = do
    s ← arg 1 a
    w ← arg 3 a
    bits ← number w
    v ← arg 2 a
    n ← number v
    ok (
        f_string (
          codes "parameter "
          ∷ s
          ∷ codes " = "
          ∷ show_nat bits
          ∷ codes "'d"
          ∷ show_nat n
          ∷ codes ";"
          ∷ [])
        ∷ [])
  lines_of branch state_regs a = do
    w ← arg 1 a
    n ← number w
    ok (
        f_string
          (codes "reg [" ∷ show_top n ∷ codes ":0] " ∷ cur ∷ codes ", " ∷ nxt ∷ codes ";" ∷ [])
        ∷ [])
  lines_of branch other a = state_block branch other a
