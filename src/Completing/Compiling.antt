-- ===== src/Completing/Compiling.antt =====
-- complete and compile_text of rtl_designs/problem_compiler.py.
pub mod Raises
use htn_llm_rtl_gen.Shared.{but_last, crash}
use htn_llm_rtl_gen.Completing.{Draft, with_facts, with_note, declare, is_fact}
use htn_llm_rtl_gen.Completing.Declaring.{
  drop_written, is_value_name, is_width_name, is_bitseq_name, declare_missing, third_args,
  check_expects, name_input,
}
use htn_llm_rtl_gen.Completing.Expanding.{expand_sequences}
use htn_llm_rtl_gen.Problem.Sexpr.{Sexpr, Sexprs, atom}
use htn_llm_rtl_gen.Problem.Reading.{Problem, read}
use htn_llm_rtl_gen.Problem.Emitting.{emit}
use htn_llm_rtl_gen.StateEncoding.{encoding}
use htn_llm_rtl_gen.StateEncoding.Search.{states_of}
use htn_llm_rtl_gen.Shared.{
  not, Option, none, some, List, [], ◌∷◌, ◌++◌, map, length, drop, filter, is_empty, ◌>>=◌, Result,
  nat_eq, if◌then◌else◌, list_eq, pair_eq, contains, Str, codes, words, show_nat, strip_prefix, ok,
  err,
}

-- `line.rsplit(" - ", 1)`, where there is a dash
unfoldable pub split_last : Str → Option (Str × Str)
split_last [] = none
split_last (c ∷ cs) = elim (split_last cs) [
  | some (a, b) ↦ some (c ∷ a, b)
  | none ↦ elim (strip_prefix (codes " - ") (c ∷ cs)) [ none ↦ none | some t ↦ some ([], t) ]
]

-- `for line in enc_objects`
unfoldable pub declare_lines : List Str → Draft → Result Draft
declare_lines [] d = ok d
declare_lines (line ∷ lines) d = elim (split_last line) [
  | none ↦ err crash
  | some (ns, type) ↦
      let new = filter (λ n. not (contains d.declared n)) (words ns) in
      declare_lines lines (if is_empty new then d else declare new (atom type) d)
]

-- `f[1:-1].split()`
unfoldable pub fact_of_line : Str → List Str
fact_of_line line = words (but_last (drop 1 line))

abbrev pub problem_of : Draft → Problem
problem_of d = record {
  name = d.name;
  module_name = d.module_name;
  objects = d.objects;
  facts = d.facts;
}

-- `notes`, `facts` and `declared` at the start of complete
unfoldable pub all_names : List (List Str × Sexpr) → List Str
all_names [] = []
all_names ((names, t) ∷ os) = names ++ all_names os

unfoldable pub draft_of : Problem → Draft
draft_of p = record {
  name = p.name;
  module_name = p.module_name;
  objects = p.objects;
  facts = p.facts;
  declared = all_names p.objects;
  notes = [];
}

-- `if found:`
unfoldable pub encode_found : Draft → Option (Str × List Str) → Result Draft
encode_found d none = ok d
encode_found d (some (machine, states)) = do
  let lines = encoding machine states
  e ← declare_lines lines.0 d
  ok (
      with_note (codes "encoded " ++ (show_nat (length states) ++ codes " states"))
        (with_facts (e.facts ++ map fact_of_line lines.1) e))

module _ (show_list : Sexprs → Str) where
  -- the last step
  unfoldable pub encode : Draft → Result Draft
  encode d = do found ← states_of (emit show_list (problem_of d)); encode_found d found

  unfoldable pub complete : Problem → Result Draft
  complete p = do
    values ← declare_missing is_value_name "value" (drop_written (draft_of p))
    widths ← declare_missing is_width_name "width" values
    d ← declare_missing is_bitseq_name "bitseq" widths
    checked ←
        check_expects (third_args (filter (is_fact "accept_state" 3) d.facts))
          (filter (is_fact "expects" 3) d.facts)
    e ← expand_sequences (name_input d)
    encode e

  -- (compiled text, facts, notes)
  unfoldable pub compile_text : Str → Result (Str × List (List Str) × List Str)
  compile_text text = do
    p ← read text
    d ← complete p
    ok (emit show_list (problem_of d), d.facts, d.notes)
