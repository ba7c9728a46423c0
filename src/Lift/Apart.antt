-- ===== src/Lift/Apart.antt =====
-- eval/lift.py: what tells the cases of a family apart, and the text of a method.
pub mod Marks
pub mod Pairs
pub mod Distinguished
use htn_llm_rtl_gen.Loops.{Fact}
use htn_llm_rtl_gen.Lift.Tying.{Condition}
use htn_llm_rtl_gen.Plan.Reading.{Step}
use htn_llm_rtl_gen.Learning.Answers.{show_step}
use htn_llm_rtl_gen.Shared.{
  ℕ, zero, suc, Bool, not, none, some, List, [], ◌∷◌, ◌++◌, map, Dict, get, length, get_elem?,
  filter, any, all, is_empty, text_lt, sorted, distinct, range_of, ◌>>=◌, Result, ltb, ◌==◌, nat_eq,
  if◌then◌else◌, list_eq, pair_eq, contains, Str, codes, join, show_nat, cannot_lift, crash, ok,
  err,
}

-- What is used of an example here: the facts of its problem, which are not empty, and its module.
pub record CaseExample : Type 0 where
  pub facts : List Fact
  pub module_name : Str

pub record LearnedCase : Type 0 where
  pub name : Str
  pub examples : List CaseExample

-- a predicate with the place of the module among its arguments
abbrev pub Kind : Type 0
Kind = Str × ℕ

unfoldable pub places_of : Str → Str → ℕ → List Str → List Kind
places_of m pred i [] = []
places_of m pred i (a ∷ args) =
    let rest = places_of m pred (suc i) args in if a == m then (pred, i) ∷ rest else rest

-- `here`
unfoldable pub kinds_from : Str → List Fact → List Kind
kinds_from m [] = []
kinds_from m ([] ∷ facts) = kinds_from m facts
kinds_from m ((pred ∷ args) ∷ facts) = places_of m pred 0 args ++ kinds_from m facts

unfoldable pub kinds_of : CaseExample → List Kind
kinds_of e = kinds_from e.module_name e.facts

-- `every`, which is None where there is no example
unfoldable pub held_by_every : List CaseExample → Result (List Kind)
held_by_every [] = err crash
held_by_every (e ∷ es) = ok (filter (λ k. all (λ d. contains (kinds_of d) k) es) (kinds_of e))

unfoldable pub held_by_some : List CaseExample → Kind → Bool
held_by_some es k = any (λ e. contains (kinds_of e) k) es

unfoldable pub kind_lt : Kind → Kind → Bool
kind_lt (p, i) (q, j) = if p == q then ltb i j else text_lt p q

-- `sorted(every_a - some_b)`
unfoldable pub marks_between : LearnedCase → LearnedCase → Result (List Kind)
marks_between a b = do
  every ← held_by_every a.examples
  ok (sorted kind_lt (distinct (filter (λ k. not (held_by_some b.examples k)) every)))

-- where `a` has no mark that `b` lacks, `b` must have one
unfoldable pub untold : LearnedCase → LearnedCase → List Kind → List Kind → Result (List Kind)
untold a b absent back =
    if is_empty back then err (cannot_lift (a.name ++ (codes " and " ++ b.name))) else ok absent

-- `b["absent"]` with a mark
unfoldable pub noted : List Kind → Kind → List Kind
noted absent k = if contains absent k then absent else absent ++ k ∷ []

unfoldable pub tell_marks : LearnedCase → LearnedCase → List Kind → List Kind → Result (List Kind)
tell_marks a b absent [] = marks_between b a >>= untold a b absent
tell_marks a b absent (k ∷ ks) = ok (noted absent k)

-- the absences of `b` after the pair of `a` and `b`
unfoldable pub tell_pair : LearnedCase → LearnedCase → List Kind → Result (List Kind)
tell_pair a b absent = marks_between a b >>= tell_marks a b absent

-- `itertools.permutations(methods, 2)`, by the places of the methods
unfoldable pub pairs_with : ℕ → List ℕ → List (ℕ × ℕ)
pairs_with i [] = []
pairs_with i (j ∷ js) = let rest = pairs_with i js in if i == j then rest else (i, j) ∷ rest

unfoldable pub pairs_from : List ℕ → List ℕ → List (ℕ × ℕ)
pairs_from [] js = []
pairs_from (i ∷ is) js = pairs_with i js ++ pairs_from is js

unfoldable pub permutations : ℕ → List (ℕ × ℕ)
permutations n = pairs_from (range_of 0 n) (range_of 0 n)

unfoldable pub at_place {ℓ} : {A : Type ℓ} → List A → ℕ → Result A
at_place xs i = elim (get_elem? xs i) [ none ↦ err crash | some x ↦ ok x ]

unfoldable pub put_at {ℓ} : {A : Type ℓ} → ℕ → A → List A → List A
put_at i y [] = []
put_at zero y (x ∷ xs) = y ∷ xs
put_at (suc i) y (x ∷ xs) = x ∷ put_at i y xs

-- the loop over the pairs; `absents` are the absences of the methods, in their order
unfoldable pub tell_pairs :
    List LearnedCase → List (ℕ × ℕ) → List (List Kind) → Result (List (List Kind))
tell_pairs cases [] absents = ok absents
tell_pairs cases ((i, j) ∷ pairs) absents = do
  a ← at_place cases i
  b ← at_place cases j
  absent ← at_place absents j
  told ← tell_pair a b absent
  tell_pairs cases pairs (put_at j told absents)

unfoldable pub tell_apart : List LearnedCase → Result (List (List Kind))
tell_apart cases = tell_pairs cases (permutations (length cases)) (map (λ c. []) cases)

-- the names of the arguments of an absence, with their types
unfoldable pub absent_arguments : ℕ → ℕ → List Str → List (Str × Str)
absent_arguments place i [] = []
absent_arguments place i (t ∷ types) =
    ((if i == place then codes "?m" else codes "?x" ++ show_nat i), t)
    ∷ absent_arguments place (suc i) types

-- those that are not the module
unfoldable pub other_arguments : ℕ → ℕ → List (Str × Str) → List (Str × Str)
other_arguments place i [] = []
other_arguments place i (a ∷ args) =
    let rest = other_arguments place (suc i) args in if i == place then rest else a ∷ rest

unfoldable pub typed_names : List (Str × Str) → List Str
typed_names = map (λ x. x.0 ++ (codes " - " ++ x.1))

-- the literal that says that no fact of the predicate has the module there
unfoldable pub literal_of : Str → ℕ → List (Str × Str) → Str
literal_of pred place args =
    let others = other_arguments place 0 args in
    let atom =
      codes "(" ++ (pred ++ (codes " " ++ (join (codes " ") (map (λ x. x.0) args) ++ codes ")"))) in
    if is_empty others
    then codes "(not " ++ (atom ++ codes ")")
    else codes "(not (exists ("
      ++ (join (codes " ") (typed_names others) ++ (codes ") " ++ (atom ++ codes "))")))

unfoldable pub absent_literal : Dict Str (List Str) → Kind → Result Str
absent_literal pred_types (pred, place) =
    get pred pred_types >>= λ types. ok (literal_of pred place (absent_arguments place 0 types))

-- `m["absent_text"]`
unfoldable pub absent_texts : Dict Str (List Str) → List Kind → Result (List Str)
absent_texts pred_types [] = ok []
absent_texts pred_types (k ∷ ks) = do
  literal ← absent_literal pred_types k
  rest ← absent_texts pred_types ks
  ok (literal ∷ rest)

-- What hddl uses of a method.
pub record LearnedMethod : Type 0 where
  pub name : Str
  pub types : Dict Str Str
  pub conditions : List Condition
  pub absent_text : List Str
  pub subtasks : List Step

unfoldable pub subtask_lines : ℕ → List Step → List Str
subtask_lines i [] = []
subtask_lines i (s ∷ steps) =
    (codes "      (t" ++ (show_nat i ++ (codes " " ++ (show_step s ++ codes ")"))))
    ∷ subtask_lines (suc i) steps

unfoldable pub hddl : LearnedMethod → Str
hddl m = join (b'\n' ∷ []) (
    (codes "(:method " ++ m.name)
    ∷ (codes "    :parameters (" ++ (join (codes " ") (typed_names m.types) ++ codes ")"))
    ∷ codes "    :task (implement_module ?m)"
    ∷ (codes "    :precondition (and "
        ++ (join (codes " ") (map show_step m.conditions ++ m.absent_text) ++ codes ")"))
    ∷ codes "    :ordered-subtasks (and"
    ∷ join (b'\n' ∷ []) (subtask_lines 1 m.subtasks)
    ∷ codes "    )"
    ∷ codes "  )"
    ∷ [])
