-- ===== src/Learning.antt =====
-- The actions of the domain as eval/learn_steps.py and eval/learn_ground.py read them: the state that
-- a plan comes to, and which preconditions hold in it.
pub mod Unmet
pub mod Progress
pub mod Matching
pub mod Menu
pub mod Answers
pub mod Replies
pub mod Testing
use htn_llm_rtl_gen.Shared.{
  ◌+◌, Bool, true, not, ◌&&◌, Option, none, some, List, [], ◌∷◌, ◌++◌, map, arith, Dict, lookup,
  insert_all, filter, any, all, is_empty, ◌>>=◌, get, Result, starts_with, ◌==◌, nat_eq,
  if◌then◌else◌, list_eq, pair_eq, contains, Eq, Str, codes, join, crash, ok, err,
}
use htn_llm_rtl_gen.Problem.Sexpr.{Sexpr, Sexprs, atom, list, nil, cons}
use htn_llm_rtl_gen.Loops.{Fact}
use htn_llm_rtl_gen.Plan.Reading.{Step}

-- The values of action_forms of eval/learn_ground.py: the names of the parameters, the
-- precondition, and the effects.
pub record ActionForm : Type 0 where
  pub params : List Str
  pub condition : Sexpr
  pub effects : List Sexpr

unfoldable pub atoms_of : Sexprs → Option (List Str)
atoms_of nil = some []
atoms_of (cons (list xs) rest) = none
atoms_of (cons (atom w) rest) = elim (atoms_of rest) [ none ↦ none | some ws ↦ some (w ∷ ws) ]

-- The elements of a form where `all(isinstance(x, str) for x in part)`. The elements of a text are its
-- characters.
unfoldable pub strings_of : Sexpr → Option (List Str)
unfolding atoms_of
strings_of (atom w) = some (map (λ c. c ∷ []) w)
strings_of (list xs) = atoms_of xs

abbrev pub items_of : Sexprs → List Sexpr
items_of nil = []
items_of (cons x xs) = x ∷ items_of xs

-- `pre[1:] if pre[:1] == ["and"] else ([pre] if pre else [])`
unfoldable pub condition_parts : Sexpr → List Sexpr
condition_parts (atom []) = []
condition_parts (atom (c ∷ w)) = atom (c ∷ w) ∷ []
condition_parts (list nil) = []
condition_parts (list (cons (list xs) rest)) = list (cons (list xs) rest) ∷ []
condition_parts (list (cons (atom w) rest)) =
    if w == codes "and" then items_of rest else list (cons (atom w) rest) ∷ []

-- a plain fact: `part and all(isinstance(x, str) for x in part)`
unfoldable pub plain_fact : Sexpr → Option Fact
unfolding strings_of
plain_fact part = elim (strings_of part) [
  | none ↦ none
  | some ws ↦ if is_empty ws then none else some ws
]

-- the negation of one: `len(part) == 2 and part[0] == "not" and all(... for x in part[1])`
unfoldable pub absent_fact : Sexpr → Option Fact
unfolding strings_of
absent_fact (list (cons (atom w) (cons part nil))) =
    if w == codes "not" then strings_of part else none
absent_fact part = none

unfoldable pub plain_of : List Sexpr → List Fact
unfolding plain_fact
plain_of [] = []
plain_of (p ∷ ps) =
    let rest = plain_of ps in elim (plain_fact p) [ none ↦ rest | some f ↦ f ∷ rest ]

-- the plain facts of an action's precondition
abbrev pub plain_facts : ActionForm → List Fact
plain_facts a = plain_of (condition_parts a.condition)

-- `dict(zip(params, args))`
unfoldable pub binding : List Str → List Str → Dict Str Str
binding params args = insert_all (zipped params args) []
  where
    zipped : List Str → List Str → List (Str × Str)
    zipped [] ys = []
    zipped (x ∷ xs) [] = []
    zipped (x ∷ xs) (y ∷ ys) = (x, y) ∷ zipped xs ys

-- `tuple(bind.get(x, x) for x in part)`
abbrev pub value_in : Dict Str Str → Str → Str
value_in bind x = elim (lookup x bind) [ none ↦ x | some v ↦ v ]

abbrev pub ground_fact : Dict Str Str → Fact → Fact
ground_fact bind part = map (value_in bind) part

-- the facts that an action adds; a list inside an effect is no key of `bind`
unfoldable pub added_facts : Dict Str Str → List Sexpr → Result (List Fact)
unfolding strings_of
added_facts bind [] = ok []
added_facts bind (e ∷ es) = do
  part ← elim (strings_of e) [ none ↦ err crash | some ws ↦ ok ws ]
  rest ← added_facts bind es
  ok (ground_fact bind part ∷ rest)

-- Problem.state: the facts after a plan. A set of facts is a list of them.
unfoldable pub state_after : Dict Str ActionForm → List Fact → List Step → Result (List Fact)
unfolding added_facts binding
state_after actions facts [] = ok facts
state_after actions facts ((name, args) ∷ plan) = do
  a ← get name actions
  new ← added_facts (binding a.params args) a.effects
  state_after actions (facts ++ new) plan

-- one part of a precondition, for Problem.holds
unfoldable pub part_holds : Dict Str Str → List Fact → Sexpr → Bool
unfolding plain_fact absent_fact
part_holds bind state part = elim (plain_fact part) [
  | some f ↦ contains state (ground_fact bind f)
  | none ↦ elim (absent_fact part) [
    | none ↦ true
    | some f ↦ not (contains state (ground_fact bind f))
  ]
]

unfoldable pub holds : Dict Str ActionForm → List Fact → Str → List Str → Result Bool
unfolding part_holds condition_parts binding
holds actions state name args = do
  a ← get name actions
  ok (all (part_holds (binding a.params args) state) (condition_parts a.condition))

-- one part of a precondition, for unmet: why it does not hold
unfoldable pub part_unmet : Dict Str Str → List Fact → Sexpr → List Str
unfolding plain_fact absent_fact
part_unmet bind state part = elim (plain_fact part) [
  | some f ↦
      if contains state (ground_fact bind f)
      then []
      else (codes "it needs the fact ("
          ++ (join (codes " ") (ground_fact bind f) ++ codes "), which is not true at this point"))
        ∷ []
  | none ↦ elim (absent_fact part) [
    | none ↦ []
    | some f ↦
        if contains state (ground_fact bind f)
        then (codes "it needs ("
            ++ (join (codes " ") (ground_fact bind f) ++ codes ") not to be true, and it is"))
          ∷ []
        else []
  ]
]

unfoldable pub all_unmet : Dict Str Str → List Fact → List Sexpr → List Str
unfolding part_unmet
all_unmet bind state [] = []
all_unmet bind state (p ∷ ps) = part_unmet bind state p ++ all_unmet bind state ps

-- unmet of eval/learn_ground.py, `actions` being what action_forms gives
unfoldable pub unmet :
    Dict Str ActionForm → List Fact → List Step → Str → List Str → Result (List Str)
unfolding all_unmet condition_parts binding state_after
unmet actions facts plan name args = do
  state ← state_after actions facts plan
  a ← get name actions
  ok (all_unmet (binding a.params args) state (condition_parts a.condition))

-- what keeps only a part of an action's plain facts: `used` of the facts that a plan has used
unfoldable pub used_by : Dict Str ActionForm → List Step → Result (List Fact)
unfolding binding condition_parts plain_of
used_by actions [] = ok []
used_by actions ((name, args) ∷ plan) = do
  a ← get name actions
  rest ← used_by actions plan
  ok (map (ground_fact (binding a.params args)) (plain_facts a) ++ rest)

abbrev pub fact_kind : Fact → Str
fact_kind [] = []
fact_kind (k ∷ args) = k

-- `usable` and `wanted`: the kinds of fact that actions of a set of names read
unfoldable pub kinds_read : (Str → Bool) → Dict Str ActionForm → List Str
unfolding plain_of condition_parts
kinds_read chosen [] = []
kinds_read chosen ((name, a) ∷ actions) =
    let rest = kinds_read chosen actions in
    if chosen name then map fact_kind (plain_facts a) ++ rest else rest

-- Problem.unused_facts after a plan; `f[0]` raises where a fact is empty
unfoldable pub unused_facts : Dict Str ActionForm → List Fact → List Step → Result (List Fact)
unfolding used_by kinds_read
unused_facts actions facts plan = do
  used ← used_by actions plan
  let usable = kinds_read (λ _. true) actions
  fs ← if any is_empty facts then err crash else ok facts
  ok (filter (λ f. contains usable (fact_kind f) && not (contains used f)) fs)

abbrev pub analyze_prefix : Str
analyze_prefix = codes "analyze_"

abbrev pub write_prefix : Str
write_prefix = codes "write_"

-- `elif name.startswith("write_")`
abbrev is_write : Str → Bool
is_write name = not (starts_with analyze_prefix name) && starts_with write_prefix name

-- `recorded` and `used` of Problem.unused_decisions
unfoldable pub decisions_in : Dict Str ActionForm → List Step → Result (List Fact × List Fact)
unfolding binding condition_parts plain_of added_facts
decisions_in actions [] = ok ([], [])
decisions_in actions ((name, args) ∷ plan) = do
  a ← get name actions
  let bind = binding a.params args
  new ← if starts_with analyze_prefix name then added_facts bind a.effects else ok []
  (recorded, used) ← decisions_in actions plan
  let reads = map (ground_fact bind) (plain_facts a)
  ok (new ++ recorded, if is_write name then reads ++ used else used)

-- `dict.fromkeys(xs)`, which keeps the first of equal elements, after those seen
unfoldable pub firsts {ℓ} : {A : Type ℓ} ⦃e : Eq A⦄ → List A → List A → List A
firsts seen [] = []
firsts seen (x ∷ xs) =
    let fresh = firsts (x ∷ seen) xs in
    let old = firsts seen xs in if contains seen x then old else x ∷ fresh

-- Problem.unused_decisions after a plan
unfoldable pub unused_decisions : Dict Str ActionForm → List Step → Result (List Fact)
unfolding decisions_in kinds_read firsts
unused_decisions actions plan = do
  (recorded, used) ← decisions_in actions plan
  let wanted = kinds_read (starts_with write_prefix) actions
  ok (filter (λ f. contains wanted (fact_kind f) && not (contains used f)) (firsts [] recorded))
