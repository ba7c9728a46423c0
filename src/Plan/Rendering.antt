-- ===== src/Plan/Rendering.antt =====
-- render of rtl_designs/plan_to_verilog.py: the module that a plan comes to.
pub mod Analysis
pub mod Moore
use htn_llm_rtl_gen.Plan.Reading.{Step, number}
use htn_llm_rtl_gen.Plan.Actions.{
  Action, output_reset_clause, output_assert, output_close, moore_output_also, actions, f_string,
  arg, cur,
}
use htn_llm_rtl_gen.Plan.Templates.{lines_of}
use htn_llm_rtl_gen.Shared.{
  ℕ, ◌+◌, Bool, true, false, Option, none, some, List, [], ◌∷◌, ◌++◌, arith, Dict, lookup, insert,
  ◌>>=◌, Result, starts_with, ◌==◌, nat_eq, if◌then◌else◌, list_eq, pair_eq, contains, Str, codes,
  join, but_last, crash, no_template, ok, err,
}

abbrev pub port_decls : List Str
port_decls =
    codes "write_input_decl"
    ∷ codes "write_output_reg_decl"
    ∷ codes "write_output_decl"
    ∷ codes "write_output_reg_vector_decl"
    ∷ []

abbrev pub width_decls : List Str
width_decls = codes "write_output_reg_vector_decl" ∷ codes "write_register_decl" ∷ []

-- `[a[1] for n, a in steps if n in PORT_DECLS]`
unfoldable pub ports_of : List Step → Result (List Str)
ports_of [] = ok []
ports_of ((n, a) ∷ steps) = elim (contains port_decls n) [
  | false ↦ ports_of steps
  | true ↦ do p ← arg 1 a; rest ← ports_of steps; ok (p ∷ rest)
]

-- `{a[1]: number(a[2]) for ...}`, in addition to `widths`
unfoldable pub widths_of : List Step → Dict Str ℕ → Result (Dict Str ℕ)
widths_of [] widths = ok widths
widths_of ((n, a) ∷ steps) widths = elim (contains width_decls n) [
  | false ↦ widths_of steps widths
  | true ↦ do
    target ← arg 1 a
    bits ← arg 2 a
    w ← number bits
    widths_of steps (insert target w widths)
]

-- the last line that starts with `key`, less its last character, is followed by `more`
unfoldable pub extend_last : Str → Str → List Str → Option (List Str)
extend_last key more [] = none
extend_last key more (l ∷ ls) = elim (extend_last key more ls) [
  | some ls' ↦ some (l ∷ ls')
  | none ↦ if starts_with key l then some ((but_last l ++ more) ∷ ls) else none
]

-- an output that is 1 in one more state
unfoldable pub also : List Str → List Str → Result (List Str)
also (m ∷ o ∷ st ∷ []) out =
    elim (extend_last (f_string (codes "assign " ∷ o ∷ codes " = " ∷ []))
      (f_string (codes " | (" ∷ cur ∷ codes " == " ∷ st ∷ codes ");" ∷ [])) out) [
        | none ↦ err crash
        | some lines ↦ ok lines
      ]
also _ out = err crash

-- output_branch_open after an action
unfoldable pub branch_after : Action → Bool → Bool
branch_after output_reset_clause branch = true
branch_after output_assert branch = true
branch_after output_close branch = false
branch_after _ branch = branch

-- `out` and output_branch_open
abbrev pub Written : Type 0
Written = List Str × Bool

module _ (widths : Dict Str ℕ) (ports : List Str) where
  unfoldable pub act : Action → List Str → Written → Result Written
  act moore_output_also a (out, branch) = do lines ← also a out; ok (lines, branch)
  act action a (out, branch) = do
    lines ← lines_of widths ports branch action a
    ok (out ++ lines, branch_after action branch)

  -- the body of the loop
  unfoldable pub write_step : Step → Written → Result Written
  write_step (name, a) written =
      if starts_with (codes "analyze_") name then ok written else elim (lookup name actions) [
        | none ↦ err (no_template name)
        | some action ↦ act action a written
      ]

  unfoldable pub write_steps : List Step → Written → Result Written
  write_steps [] written = ok written
  write_steps (step ∷ steps) written = do next ← write_step step written; write_steps steps next

unfoldable pub render : List Step → Result Str
render steps = do
  ports ← ports_of steps
  widths ← widths_of steps []
  written ← write_steps widths ports steps ([], false)
  ok (join (codes "\n") written.0 ++ codes "\n")
