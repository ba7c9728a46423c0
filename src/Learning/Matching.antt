-- ===== src/Learning/Matching.antt =====
-- Problem._extend, needed_for and declaration_pending of eval/learn_steps.py: what facts that are not
-- used yet, or are recorded by a decision, may be used for.
pub mod Sound
use htn_llm_rtl_gen.Shared.{
  ◌+◌, Bool, false, not, ◌&&◌, ◌||◌, Option, none, some, List, [], ◌∷◌, ◌++◌, map, arith, Dict,
  lookup, insert, length, any, is_empty, text_lt, sorted, minus, ◌>>=◌, Result, starts_with, ◌==◌,
  nat_eq, if◌then◌else◌, list_eq, pair_eq, contains, Str, codes, ok,
}
use htn_llm_rtl_gen.Loops.{Fact}
use htn_llm_rtl_gen.Learning.{ActionForm, plain_facts, fact_kind, write_prefix, firsts}

abbrev pub Bind : Type 0
Bind = Dict Str Str

abbrev pub args_of : Fact → List Str
args_of [] = []
args_of (k ∷ args) = args

abbrev pub is_placeholder : Str → Bool
is_placeholder x = starts_with (codes "?") x

-- `all(b.setdefault(x, v) == v if x.startswith("?") else x == v for x, v in zip(...))`
unfoldable pub meet : List Str → List Str → Bind → Option Bind
meet [] vs b = some b
meet (x ∷ xs) [] b = some b
meet (x ∷ xs) (v ∷ vs) b =
    let passed = meet xs vs b in
    let bound = meet xs vs (insert x v b) in
    if is_placeholder x
    then elim (lookup x b) [ none ↦ bound | some w ↦ if w == v then passed else none ]
    else if x == v
    then passed
    else none

-- a fact that an atom of a precondition may stand for, under a binding
unfoldable pub meet_fact : Fact → Bind → Fact → Option Bind
unfolding meet
meet_fact a b fact =
    if (fact_kind fact == fact_kind a) && (length fact == length a)
    then meet (args_of a) (args_of fact) b
    else none

unfoldable pub meetings : Fact → Bind → List Fact → List Bind
unfolding meet_fact
meetings a b [] = []
meetings a b (fact ∷ state) =
    let rest = meetings a b state in elim (meet_fact a b fact) [ none ↦ rest | some c ↦ c ∷ rest ]

-- the bindings that one atom leads to: the atom is left unmatched only where `recorded` has its kind
unfoldable pub extend_one : List Str → List Fact → Fact → Bind → List Bind
unfolding meetings
extend_one recorded state a b =
    let found = meetings a b state in
    if is_empty found && contains recorded (fact_kind a) then b ∷ [] else found

unfoldable pub each_extended : (Bind → List Bind) → List Bind → List Bind
each_extended f [] = []
each_extended f (b ∷ bs) = f b ++ each_extended f bs

-- Problem._extend, `recorded` being the kinds of fact that some step records
unfoldable pub extend : List Str → List Fact → List Fact → Bind → List Bind
unfolding extend_one each_extended
extend recorded state [] b = b ∷ []
extend recorded state (a ∷ atoms) b =
    each_extended (extend recorded state atoms) (extend_one recorded state a b)

-- each atom, with the others: `[b for b in atoms if b is not a]`
unfoldable pub with_others : List Fact → List Fact → List (Fact × List Fact)
with_others before [] = []
with_others before (a ∷ atoms) = (a, before ++ atoms) ∷ with_others (before ++ a ∷ []) atoms

-- the bindings of one fact and one atom, extended to the others
unfoldable pub uses_of_fact : List Str → List Fact → Fact → List (Fact × List Fact) → List Bind
unfolding meet_fact extend
uses_of_fact recorded state fact [] = []
uses_of_fact recorded state fact ((a, others) ∷ atoms) =
    let rest = uses_of_fact recorded state fact atoms in
    elim (meet_fact a [] fact) [ none ↦ rest | some b ↦ extend recorded state others b ++ rest ]

unfoldable pub uses_of_facts : List Str → List Fact → List Fact → List Fact → List Bind
unfolding uses_of_fact with_others
uses_of_facts recorded state [] atoms = []
uses_of_facts recorded state (fact ∷ facts) atoms =
    uses_of_fact recorded state fact (with_others [] atoms)
    ++ uses_of_facts recorded state facts atoms

-- `set(params) - {x for a in atoms for x in a[1:]}`
unfoldable pub untied : List Str → List Fact → List Str
unfolding minus
untied params atoms = minus params (tied atoms)
  where
    tied : List Fact → List Str
    tied [] = []
    tied (a ∷ rest) = args_of a ++ tied rest

abbrev pub bound_in : Bind → Str → Str
bound_in b x = elim (lookup x b) [ none ↦ codes "?" | some v ↦ v ]

unfoldable pub told_each :
    (Str → List Str → Result Str) → Str → List Str → List Bind → Result (List Str)
told_each says name params [] = ok []
told_each says name params (b ∷ bs) = do
  told ← says name (map (bound_in b) params)
  rest ← told_each says name params bs
  ok (told ∷ rest)

-- The loop of Problem.needed_for over the actions, sorted by name; `says` gives the sentence of an
-- action of the gloss.
unfoldable pub needed_in :
    (Str → List Str → Result Str)
    → List Str
    → List Fact
    → List Fact
    → Dict Str ActionForm
    → Result (List Str)
unfolding told_each uses_of_facts untied
needed_in says recorded state facts [] = ok []
needed_in says recorded state facts ((name, a) ∷ actions) = do
  let atoms = plain_facts a
  let uses =
      if starts_with write_prefix name && is_empty (untied a.params atoms)
      then uses_of_facts recorded state facts atoms
      else []
  told ← told_each says name a.params uses
  rest ← needed_in says recorded state facts actions
  ok (told ++ rest)

unfoldable pub by_name : Str × ActionForm → Str × ActionForm → Bool
unfolding text_lt
by_name p q = text_lt p.0 q.0

-- Problem.needed_for, of the state after the list and the facts that the decision records
unfoldable pub needed_for :
    (Str → List Str → Result Str)
    → List Str
    → Dict Str ActionForm
    → List Fact
    → List Fact
    → Result (List Str)
unfolding needed_in by_name firsts
needed_for says recorded actions state facts = do
  told ← needed_in says recorded (state ++ facts) facts (sorted by_name actions)
  ok (firsts [] told)

-- `not {full.get(x) for x in params} & declared`
abbrev names_none : List Str → List Str → Bind → Bool
names_none params declared b =
    not (any (λ x. elim (lookup x b) [ none ↦ false | some v ↦ contains declared v ]) params)

-- The loop of Problem.declaration_pending over the declaring actions; one that the domain has not is
-- passed by.
unfoldable pub pending_in :
    List Str → List Fact → List Str → List Fact → Dict Str ActionForm → List Str → Bool
unfolding uses_of_facts
pending_in recorded state declared unused actions [] = false
pending_in recorded state declared unused actions (name ∷ names) =
    let rest = pending_in recorded state declared unused actions names in
    elim (lookup name actions) [
      | none ↦ rest
      | some a ↦
          any (names_none a.params declared) (uses_of_facts recorded state unused (plain_facts a))
          || rest
    ]
