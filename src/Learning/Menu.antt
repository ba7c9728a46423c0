-- ===== src/Learning/Menu.antt =====
-- Problem.code and Problem.menu of eval/learn_steps.py: what can be done after a list of steps. The
-- planner, the sentences of the gloss and difflib's comparison are fields of the problem.
pub mod Offering
pub mod Walked
use htn_llm_rtl_gen.Shared.{
  ℕ, ◌+◌, ◌*◌, Bool, true, false, not, ◌&&◌, ◌||◌, Option, none, some, List, [], ◌∷◌, ◌++◌, map,
  arith, Dict, length, filter, is_empty, text_lt, tuple_lt, sorted, distinct, ◌>>=◌, Result, lstrip,
  rstrip, starts_with, ltb, ◌==◌, nat_eq, if◌then◌else◌, list_eq, pair_eq, contains, Eq, Str, codes,
  crash, ok, err,
}
use htn_llm_rtl_gen.Loops.{Fact}
use htn_llm_rtl_gen.Plan.Reading.{Step, splitlines}
use htn_llm_rtl_gen.Plan.Rendering.{render}
use htn_llm_rtl_gen.Rules.Blocks.{well_formed}
use htn_llm_rtl_gen.Rules.Declared.{declared_before_use}
use htn_llm_rtl_gen.Rules.Drivers.{one_driver}
use htn_llm_rtl_gen.Rules.Repeats.{no_repeat}
use htn_llm_rtl_gen.Learning.{ActionForm, state_after, holds}

-- a task of the domain or an action, with the types of its parameters
pub record Signature : Type 0 where
  pub is_task : Bool
  pub types : List Str

-- A training problem. `carry_out` is what the planner gives for the problem with these steps as its task
-- network, and `added_lines` the lines that difflib.ndiff marks as added.
pub record TrainingProblem : Type 0 where
  pub facts : List Fact
  pub actions : Dict Str ActionForm
  pub signatures : Dict Str Signature
  pub names : Dict Str Str
  pub carry_out : List Step → Option (List Step)
  pub says : Str → List Str → Result Str
  pub added_lines : List Str → List Str → List Str

-- `self._plans`, which starts with the plan of no steps, and Problem.plan
unfoldable pub plan_of : TrainingProblem → List Step → Option (List Step)
plan_of p [] = some []
plan_of p (s ∷ ss) = p.carry_out (s ∷ ss)

-- a plan where the source goes through it or applies a method to it
abbrev pub needed : {A : Type 0} → Option A → Result A
needed none = err crash
needed (some a) = ok a

-- `text.strip("\n")`
unfoldable pub strip_newlines : Str → Str
strip_newlines text = drop_right (drop_left text)
  where
    drop_left : Str → Str
    drop_left [] = []
    drop_left (c ∷ cs) = if c == 10 then drop_left cs else c ∷ cs

    drop_right : Str → Str
    drop_right [] = []
    drop_right (c ∷ cs) =
        let rest = drop_right cs in if is_empty rest && (c == 10) then [] else c ∷ rest

abbrev starts_module : List Str → Bool
starts_module [] = true
starts_module (line ∷ lines) = starts_with (codes "module ") line

-- the four rules, each asked where the ones before it are met
unfoldable pub may_stand : List Str → Result Bool
unfolding well_formed declared_before_use one_driver no_repeat
may_stand lines = do
  formed ← well_formed lines
  ok (formed && declared_before_use lines && one_driver lines && no_repeat lines)

-- Problem.code: the lines of a plan, or `none` where they cannot stand
unfoldable pub code_of : List Step → Result (Option (List Str))
unfolding render strip_newlines splitlines may_stand
code_of plan = elim (render plan) [
  | err e ↦ ok none
  | ok text ↦
      let lines = splitlines (strip_newlines text) in
      if starts_module lines
      then (may_stand lines >>= λ stands. ok (if stands then some lines else none))
      else ok none
]

-- `self.code(...) or []`
abbrev pub lines_or_none : Option (List Str) → List Str
lines_or_none none = []
lines_or_none (some lines) = lines

-- the names of a type, sorted; every name is an `object`
unfoldable pub pool_of : Dict Str Str → Str → List Str
pool_of names type_ =
    let listed = sorted (λ p q. text_lt p.0 q.0) names in
    map (λ p. p.0) (if type_ == codes "object" then listed else filter (λ p. p.1 == type_) listed)

unfoldable pub pool_size : List (List Str) → ℕ
pool_size [] = 1
pool_size (pool ∷ pools) = length pool * pool_size pools

-- `itertools.product(*pools)`
unfoldable pub tuples : List (List Str) → List (List Str)
tuples [] = [] ∷ []
tuples (pool ∷ pools) = with_each pool (tuples pools)
  where
    with_each : List Str → List (List Str) → List (List Str)
    with_each [] rest = []
    with_each (x ∷ xs) rest = map (λ ys. x ∷ ys) rest ++ with_each xs rest

-- the arguments that a name may take: all for a task, and for an action those that it holds with
unfoldable pub fitting :
    TrainingProblem → List Fact → Str → Bool → List (List Str) → Result (List Step)
unfolding holds
fitting p state name is_task [] = ok []
fitting p state name is_task (args ∷ more) = do
  fits ← if is_task then ok true else holds p.actions state name args
  rest ← fitting p state name is_task more
  ok (if fits then (name, args) ∷ rest else rest)

-- `if size == 0 or size > 4000: continue`
abbrev is_skipped : ℕ → Bool
is_skipped n = (n == 0) || ltb 4000 n

unfoldable pub candidates_in :
    TrainingProblem → List Fact → List (Str × Signature) → Result (List Step)
unfolding fitting pool_of pool_size tuples
candidates_in p state [] = ok []
candidates_in p state ((name, s) ∷ more) = do
  let pools = map (pool_of p.names) s.types
  here ←
      if is_skipped (pool_size pools) then ok [] else fitting p state name s.is_task (tuples pools)
  rest ← candidates_in p state more
  ok (here ++ rest)

-- `candidates`
unfoldable pub possible_steps : TrainingProblem → List Fact → Result (List Step)
unfolding candidates_in
possible_steps p state = candidates_in p state (sorted (λ s t. text_lt s.0 t.0) p.signatures)

-- an entry of a menu
pub record Entry : Type 0 where
  pub step : Step
  pub is_task : Bool
  pub plan : List Step
  pub adds : List Str
  pub facts : List Fact
  pub says : List Str
  pub closes : Bool

-- `after[:len(before)] == before`, and what follows
unfoldable pub beyond {ℓ} : {A : Type ℓ} ⦃e : Eq A⦄ → List A → List A → Option (List A)
beyond [] after = some after
beyond (s ∷ before) [] = none
beyond (s ∷ before) (t ∷ after) = if s == t then beyond before after else none

unfoldable pub sentences : (Str → List Str → Result Str) → List Step → Result (List Str)
sentences says [] = ok []
sentences says ((name, args) ∷ plan) = do
  told ← says name args
  rest ← sentences says plan
  ok (told ∷ rest)

unfoldable pub ends_module : List Str → Bool
ends_module [] = false
ends_module (line ∷ []) = lstrip (rstrip line) == codes "endmodule"
ends_module (line ∷ next ∷ lines) = ends_module (next ∷ lines)

-- `sorted(new_facts)`, the facts of a state that an earlier one has not
unfoldable pub new_facts : List Fact → List Fact → List Fact
new_facts after before = sorted tuple_lt (distinct (filter (λ f. not (contains before f)) after))

-- an entry that changes something
abbrev pub unless_idle : Entry → Option Entry
unless_idle e = if is_empty e.adds && is_empty e.facts then none else some e

unfoldable pub entry_with :
    TrainingProblem
    → List Fact
    → List Str
    → Step
    → Bool
    → List Step
    → List Step
    → List Str
    → Result (Option Entry)
unfolding state_after new_facts sentences ends_module
entry_with p state lines step is_task after added new_lines = do
  reached ← state_after p.actions p.facts after
  let adds = p.added_lines lines new_lines
  let new = new_facts reached state
  told ← if is_empty adds && is_empty new then ok [] else sentences p.says added
  ok (
      unless_idle (record {
        step = step;
        is_task = is_task;
        plan = after;
        adds = adds;
        facts = new;
        says = told;
        closes = ends_module new_lines;
      }))

-- the body of the loop over the candidates, for a plan that goes on from the one before: its code must
-- be able to stand
unfoldable pub entry_after :
    TrainingProblem
    → List Fact
    → List Str
    → Step
    → Bool
    → List Step
    → List Step
    → Result (Option Entry)
unfolding code_of entry_with
entry_after p state lines step is_task after added = do
  code ← code_of after
  elim code [
    | none ↦ ok none
    | some new_lines ↦ entry_with p state lines step is_task after added new_lines
  ]
