-- ===== src/Problem/Reading.antt =====
-- `read` of rtl_designs/problem_compiler.py: the parts of a problem that the compiler works on.
use htn_llm_rtl_gen.Problem.Sexpr.{Sexpr, Sexprs, atom, list, nil, cons, parse_sexpr}
use htn_llm_rtl_gen.Shared.{
  Option, none, some, List, [], ◌∷◌, ◌++◌, Dict, lookup, insert, ◌>>=◌, Result, if◌then◌else◌, ◌==◌,
  nat_eq, list_eq, pair_eq, Str, codes, not_a_define, malformed_objects, object_without_type,
  no_task, no_section, ok, err,
}

-- `module` is `module_name` here. A name and a type are what the file has in their place, which `read`
-- does not check to be a token.
pub record Problem : Type 0 where
  pub name : Sexpr
  pub module_name : Str
  pub objects : List (List Str × Sexpr)
  pub facts : List (List Str)

-- s[1:] of a section
abbrev pub tail_of : Sexprs → Sexprs
tail_of nil = nil
tail_of (cons x xs) = xs

-- `{s[0]: s for s in tree[1:] if isinstance(s, list) and s and isinstance(s[0], str)}`
unfoldable pub sections_of : Sexprs → Dict Str Sexprs → Dict Str Sexprs
sections_of nil d = d
sections_of (cons (list (cons (atom key) items)) xs) d =
    sections_of xs (insert key (cons (atom key) items) d)
sections_of (cons _ xs) d = sections_of xs d

-- The loop over the items of (:objects ...).
unfoldable pub read_objects :
    Sexprs → List Str → List (List Str × Sexpr) → Result (List (List Str × Sexpr))
read_objects nil [] objects = ok objects
read_objects nil (n ∷ pending) objects = err object_without_type
read_objects (cons (list x) xs) pending objects = err malformed_objects
read_objects (cons (atom a) nil) pending objects = err object_without_type
read_objects (cons (atom a) (cons t xs)) pending objects =
    let typed = read_objects xs [] (objects ++ (pending, t) ∷ []) in
    let longer = read_objects (cons t xs) (pending ++ a ∷ []) objects in
    if a == codes "-" then typed else longer

-- `len(node) == 2 and node[0] == "implement_module" and isinstance(node[1], str)`
unfoldable pub task_here : Sexprs → Option Str
task_here (cons (atom head) (cons (atom m) nil)) =
    if head == codes "implement_module" then some m else none
task_here _ = none

-- `find_task`, and its loop over the children. A token is never empty, so what is found is true.
unfoldable mutual
  pub find_task : Sexpr → Option Str
  find_task (atom w) = none
  find_task (list items) = elim (task_here items) [ some m ↦ some m | none ↦ find_task_in items ]

  pub find_task_in : Sexprs → Option Str
  find_task_in nil = none
  find_task_in (cons x xs) = elim (find_task x) [ some m ↦ some m | none ↦ find_task_in xs ]

-- the tokens of a list that holds nothing else
unfoldable pub words_of : Sexprs → Option (List Str)
words_of nil = some []
words_of (cons (atom w) xs) = elim (words_of xs) [ none ↦ none | some ws ↦ some (w ∷ ws) ]
words_of (cons (list x) xs) = none

-- `[f for f in ... if isinstance(f, list) and f and all(isinstance(x, str) for x in f)]`
unfoldable pub facts_of : Sexprs → List (List Str)
facts_of nil = []
facts_of (cons (atom w) xs) = facts_of xs
facts_of (cons (list nil) xs) = facts_of xs
facts_of (cons (list (cons x items)) xs) =
    let rest = facts_of xs in elim (words_of (cons x items)) [ none ↦ rest | some f ↦ f ∷ rest ]

-- `sections["problem"][1] if len(sections["problem"]) > 1 else "problem"`
unfoldable pub name_of : Sexprs → Sexpr
name_of (cons head (cons x xs)) = x
name_of _ = atom (codes "problem")

-- `[(n, t) for n, t in objects if n]`
unfoldable pub named_objects : List (List Str × Sexpr) → List (List Str × Sexpr)
named_objects [] = []
named_objects (([], t) ∷ objects) = named_objects objects
named_objects ((n ∷ ns, t) ∷ objects) = (n ∷ ns, t) ∷ named_objects objects

-- `for need in (...): if need not in sections: raise`
abbrev need : Str → Dict Str Sexprs → Result Sexprs
need key sections = elim (lookup key sections) [ none ↦ err (no_section key) | some s ↦ ok s ]

abbrev pub found_task : Option Str → Result Str
found_task none = err no_task
found_task (some m) = ok m

unfoldable pub read_sections : Dict Str Sexprs → Result Problem
read_sections sections = do
  problem ← need (codes "problem") sections
  objects_section ← need (codes ":objects") sections
  htn ← need (codes ":htn") sections
  init ← need (codes ":init") sections
  objects ← read_objects (tail_of objects_section) [] []
  module_name ← found_task (find_task (list htn))
  ok (record {
    name = name_of problem;
    module_name = module_name;
    objects = named_objects objects;
    facts = facts_of (tail_of init);
  })

unfoldable pub read_tree : Sexpr → Result Problem
read_tree (list (cons (atom head) forms)) =
    if head == codes "define" then read_sections (sections_of forms []) else err not_a_define
read_tree _ = err not_a_define

unfoldable pub read : Str → Result Problem
read text = do tree ← parse_sexpr text; read_tree tree
