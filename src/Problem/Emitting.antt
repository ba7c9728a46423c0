-- ===== src/Problem/Emitting.antt =====
-- `emit` of rtl_designs/problem_compiler.py: a problem in the layout of the hand-written ones.
pub mod Lines
pub mod Tree
pub mod Sections
pub mod RoundTrip
use htn_llm_rtl_gen.Problem.Sexpr.{Sexpr, Sexprs, atom, list}
use htn_llm_rtl_gen.Problem.Reading.{Problem}
use htn_llm_rtl_gen.Shared.{
  ◌+◌, ◌-◌, List, [], ◌∷◌, ◌++◌, arith, nat_eq, list_eq, pair_eq, Str, codes, join,
}

-- `show_list` is Python's text of a list, which `emit` writes where a name or a type is no token.
module _ (show_list : Sexprs → Str) where
  unfoldable pub show_sexpr : Sexpr → Str
  show_sexpr (atom w) = w
  show_sexpr (list items) = show_list items

  -- `f"    {' '.join(names)} - {type_}"`
  unfoldable pub object_lines : List (List Str × Sexpr) → List Str
  object_lines [] = []
  object_lines ((names, t) ∷ objects) =
      (codes "    " ++ (join (codes " ") names ++ (codes " - " ++ show_sexpr t)))
      ∷ object_lines objects

  -- `f"    ({' '.join(f)})"`
  unfoldable pub fact_lines : List (List Str) → List Str
  fact_lines [] = []
  fact_lines (f ∷ facts) = (codes "    (" ++ (join (codes " ") f ++ codes ")")) ∷ fact_lines facts

  unfoldable pub emit_lines : Problem → List Str
  emit_lines p =
      (codes "(define (problem " ++ (show_sexpr p.name ++ codes ")"))
      ∷ codes "  (:domain rtl_fsm)"
      ∷ codes "  (:objects"
      ∷ (object_lines p.objects
          ++ (codes "  )"
              ∷ codes "  (:htn"
              ∷ codes "    :parameters ()"
              ∷ (codes "    :subtasks (and (implement_module " ++ (p.module_name ++ codes "))"))
              ∷ codes "  )"
              ∷ codes "  (:init"
              ∷ (fact_lines p.facts ++ codes "  )" ∷ codes ")" ∷ [])))

  unfoldable pub emit : Problem → Str
  emit p = join (codes "\n") (emit_lines p) ++ codes "\n"
