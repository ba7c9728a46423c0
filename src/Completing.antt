-- ===== src/Completing.antt =====
-- complete of rtl_designs/problem_compiler.py: the parts of a problem that its author leaves out.
-- Here is the problem while `complete` works on it, with what is declared and the notes so far.
pub mod Expanding
pub mod Declaring
pub mod Compiling
use htn_llm_rtl_gen.Problem.Sexpr.{Sexpr}
use htn_llm_rtl_gen.Shared.{
  ℕ, ◌+◌, String, Bool, ◌&&◌, List, [], ◌∷◌, ◌++◌, arith, length, ◌==◌, nat_eq, list_eq, pair_eq,
  Str, codes,
}

-- `problem`, `declared` and `notes`; a fact is never empty.
pub record Draft : Type 0 where
  pub name : Sexpr
  pub module_name : Str
  pub objects : List (List Str × Sexpr)
  pub facts : List (List Str)
  pub declared : List Str
  pub notes : List Str

abbrev pub with_facts : List (List Str) → Draft → Draft
with_facts facts d = record {
  name = d.name;
  module_name = d.module_name;
  objects = d.objects;
  facts = facts;
  declared = d.declared;
  notes = d.notes;
}

abbrev pub with_note : Str → Draft → Draft
with_note note d = record {
  name = d.name;
  module_name = d.module_name;
  objects = d.objects;
  facts = d.facts;
  declared = d.declared;
  notes = d.notes ++ note ∷ [];
}

-- `problem["objects"].append((names, t))` and `declared.update(names)`
abbrev pub declare : List Str → Sexpr → Draft → Draft
declare names t d = record {
  name = d.name;
  module_name = d.module_name;
  objects = d.objects ++ (names, t) ∷ [];
  facts = d.facts;
  declared = d.declared ++ names;
  notes = d.notes;
}

-- `f[0]`; a fact is never empty
unfoldable pub kind_of : List Str → Str
kind_of [] = []
kind_of (k ∷ args) = k

-- `f[0] == kind and len(f) == n`
unfoldable pub is_fact : String → ℕ → List Str → Bool
is_fact kind n f = (kind_of f == codes kind) && (length f == n)
