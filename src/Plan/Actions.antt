-- ===== src/Plan/Actions.antt =====
-- The actions that render of rtl_designs/plan_to_verilog.py has a template for, and the parts of its
-- templates.
use htn_llm_rtl_gen.Shared.{
  ℕ, zero, suc, Bool, none, some, List, [], ◌∷◌, ◌++◌, Dict, get_elem?, Result, ◌==◌, nat_eq,
  if◌then◌else◌, list_eq, pair_eq, Str, codes, show_nat, crash, ok, err,
}

-- The actions that have a template, `write_` left out.
pub data Action : Type 0 where
  module_header input_decl output_reg_decl output_decl output_reg_vector_decl register_decl : Action
  state_param state_regs state_register_async state_register_sync : Action
  next_state_open state_case next_state_default next_state_close : Action
  output_open output_reset_clause output_assert output_default output_close : Action
  moore_output_assign moore_output_also : Action
  clocked_block_open_async clocked_block_open_sync clocked_block_close : Action
  counter_reset counter_enable_open counter_wrap counter_free_open : Action
  counter_enable_close counter_free_close counter_hold : Action
  generator_reset direction_case_open rising_phase falling_phase direction_case_close : Action
  module_end : Action

abbrev pub actions : Dict Str Action
actions =
    (codes "write_module_header", module_header)
    ∷ (codes "write_input_decl", input_decl)
    ∷ (codes "write_output_reg_decl", output_reg_decl)
    ∷ (codes "write_output_decl", output_decl)
    ∷ (codes "write_output_reg_vector_decl", output_reg_vector_decl)
    ∷ (codes "write_register_decl", register_decl)
    ∷ (codes "write_state_param", state_param)
    ∷ (codes "write_state_regs", state_regs)
    ∷ (codes "write_state_register_async", state_register_async)
    ∷ (codes "write_state_register_sync", state_register_sync)
    ∷ (codes "write_next_state_open", next_state_open)
    ∷ (codes "write_state_case", state_case)
    ∷ (codes "write_next_state_default", next_state_default)
    ∷ (codes "write_next_state_close", next_state_close)
    ∷ (codes "write_output_open", output_open)
    ∷ (codes "write_output_reset_clause", output_reset_clause)
    ∷ (codes "write_output_assert", output_assert)
    ∷ (codes "write_output_default", output_default)
    ∷ (codes "write_output_close", output_close)
    ∷ (codes "write_moore_output_assign", moore_output_assign)
    ∷ (codes "write_moore_output_also", moore_output_also)
    ∷ (codes "write_clocked_block_open_async", clocked_block_open_async)
    ∷ (codes "write_clocked_block_open_sync", clocked_block_open_sync)
    ∷ (codes "write_clocked_block_close", clocked_block_close)
    ∷ (codes "write_counter_reset", counter_reset)
    ∷ (codes "write_counter_enable_open", counter_enable_open)
    ∷ (codes "write_counter_wrap", counter_wrap)
    ∷ (codes "write_counter_free_open", counter_free_open)
    ∷ (codes "write_counter_enable_close", counter_enable_close)
    ∷ (codes "write_counter_free_close", counter_free_close)
    ∷ (codes "write_counter_hold", counter_hold)
    ∷ (codes "write_generator_reset", generator_reset)
    ∷ (codes "write_direction_case_open", direction_case_open)
    ∷ (codes "write_rising_phase", rising_phase)
    ∷ (codes "write_falling_phase", falling_phase)
    ∷ (codes "write_direction_case_close", direction_case_close)
    ∷ (codes "write_module_end", module_end)
    ∷ []

-- an f-string, by its parts
unfoldable pub f_string : List Str → Str
f_string [] = []
f_string (p ∷ ps) = p ++ f_string ps

-- `a[i]`
unfoldable pub arg : ℕ → List Str → Result Str
arg i args = elim (get_elem? args i) [ none ↦ err crash | some a ↦ ok a ]

abbrev pub cur : Str
cur = codes "ST_cr"

abbrev pub nxt : Str
nxt = codes "ST_nt"

unfoldable pub active : Str → Str → Str
active rst pol = if pol == codes "active_high" then rst else codes "!" ++ rst

-- `{n - 1}` of a width
unfoldable pub show_top : ℕ → Str
show_top zero = codes "-1"
show_top (suc n) = show_nat n

-- what a block is sensitive to
unfoldable pub sensitivity : Bool → Str → Str → Str → Str
sensitivity asynchronous clk rst pol =
    if asynchronous
    then f_string (
        codes "posedge "
        ∷ clk
        ∷ codes " or "
        ∷ (if pol == codes "active_high" then codes "posedge" else codes "negedge")
        ∷ codes " "
        ∷ rst
        ∷ [])
    else codes "posedge " ++ clk

-- `{"zero": "0", "one": "1"}`
abbrev pub bit_digits : Dict Str Str
bit_digits = (codes "zero", codes "0") ∷ (codes "one", codes "1") ∷ []
