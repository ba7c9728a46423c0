-- ===== src/Learning/Menu/Offering/Ahead.antt =====
-- Problem.menu of eval/learn_steps.py where it looks ahead, fills, opens, and walk.
use htn_llm_rtl_gen.Shared.{
  ℕ, suc, Bool, true, false, not, ◌||◌, Option, none, some, List, [], ◌∷◌, ◌++◌, map, length,
  filter, any, all, is_empty, sorted, ◌>>=◌, Result, lstrip, rstrip, ◌==◌, nat_eq, if◌then◌else◌,
  list_eq, pair_eq, contains, Str, codes, join, ok,
}
use htn_llm_rtl_gen.Loops.{Fact}
use htn_llm_rtl_gen.Plan.Reading.{Step}
use htn_llm_rtl_gen.Rules.{word_runs, is_closer}
use htn_llm_rtl_gen.Learning.{unused_decisions, firsts}
use htn_llm_rtl_gen.Learning.Menu.{TrainingProblem, plan_of, code_of, lines_or_none, Entry, beyond}
use htn_llm_rtl_gen.Learning.Menu.Offering.{kept_by, shown, entry_lt, menu_now}

-- Problem.fills
unfoldable pub fills : Entry → Entry → Result Bool
unfolding code_of beyond is_closer
fills opener entry = do
  first ← code_of opener.plan
  second ← code_of entry.plan
  ok (elim (beyond (lines_or_none first) (lines_or_none second)) [
    | none ↦ false
    | some new ↦ any (λ x. not (is_closer (lstrip (rstrip x)))) new
  ])

-- `any(self.fills(e, n) for n in ...)`
unfoldable pub any_fills : Entry → List Entry → Result Bool
unfolding fills
any_fills e [] = ok false
any_fills e (n ∷ entries) = do here ← fills e n; if here then ok true else any_fills e entries

-- `re.search(r"\b(begin|case)\b", " ".join(e["adds"]))`
unfoldable pub opens_block : Entry → Bool
unfolding word_runs
opens_block e =
    any (λ w. (w == codes "begin") || (w == codes "case")) (word_runs (join (codes " ") e.adds))

abbrev pub decisions_of : TrainingProblem → List Step → Result (List Fact)
decisions_of p steps =
    unused_decisions p.actions (elim (plan_of p steps) [ none ↦ [] | some plan ↦ plan ])

abbrev facts_minus : List Fact → List Fact → List Fact
facts_minus fs gs = filter (λ f. not (contains gs f)) fs

module _ (p : TrainingProblem) (done : List Step) where
  -- a step that opens a block leaves something to put in it
  unfoldable pub leaves_room : Entry → Result Bool
  unfolding opens_block any_fills menu_now
  leaves_room e =
      if opens_block e then (menu_now p (done ++ e.step ∷ []) >>= any_fills e) else ok true

-- `writes(prefix, step)`: the decisions that the step writes into the code
unfoldable pub writes : TrainingProblem → List Step → Step → Result (List Fact)
unfolding unused_decisions plan_of
writes p prefix step = do
  before ← decisions_of p prefix
  after ← decisions_of p (prefix ++ step ∷ [])
  ok (facts_minus before after)

-- `set().union(*[writes(prefix, e["step"]) for e in entries])`
unfoldable pub all_writes : TrainingProblem → List Step → List Entry → Result (List Fact)
unfolding writes
all_writes p prefix [] = ok []
all_writes p prefix (e ∷ entries) = do
  here ← writes p prefix e.step
  rest ← all_writes p prefix entries
  ok (here ++ rest)

-- `keeps`: every decision that could be written now can be written after the entry
unfoldable pub keeps : TrainingProblem → List Step → List Fact → Entry → Result Bool
unfolding writes all_writes menu_now
keeps p done writable e = if is_empty writable || is_empty e.adds then ok true else do
  here ← writes p done e.step
  let after = done ++ e.step ∷ []
  next ← if is_empty here then menu_now p after else ok []
  still ← all_writes p after next
  ok (not (is_empty here) || all (contains still) writable)

-- Problem.menu with `look_ahead=True`
unfoldable pub menu : TrainingProblem → List Step → Result (List Entry)
unfolding shown kept_by leaves_room keeps all_writes entry_lt
menu p done = do
  entries ← shown p done
  roomy ← kept_by (leaves_room p done) entries
  pending ← decisions_of p done
  writable ← if is_empty pending then ok [] else all_writes p done roomy
  free ← kept_by (keeps p done writable) roomy
  ok (sorted entry_lt free)

-- Problem.opens: the first lines of the code that a decision makes possible
unfoldable pub opened_lines : List Step → List Entry → List Str
opened_lines now [] = []
opened_lines now (e ∷ entries) =
    let rest = opened_lines now entries in
    elim e.adds [
      | [] ↦ rest
      | x ∷ xs ↦ if contains now e.step then rest else lstrip (rstrip x) ∷ rest
    ]

unfoldable pub opens : TrainingProblem → List Step → Entry → Result (List Str)
unfolding menu opened_lines firsts
opens p done e = do
  now ← menu p done
  later ← menu p (done ++ e.step ∷ [])
  ok (firsts [] (opened_lines (map (λ d. d.step) now) later))

-- the test of walk: the entry of the menu that comes to the same plan
unfoldable pub on_offer : List Step → List Entry → Bool
on_offer target entries = any (λ e. e.plan == target) entries

-- What walk returns: the sizes of the menus, or the first step that is not on offer and its index.
pub data Walk : Type 0 where
  walked : List ℕ → Walk
  stopped : Step → ℕ → Walk

abbrev pub add_size : ℕ → Walk → Walk
add_size n (walked sizes) = walked (n ∷ sizes)
add_size n (stopped step k) = stopped step k

-- `target is not None and target == problem.plan(done)`
abbrev pub same_as_before : Option (List Step) → Option (List Step) → Bool
same_as_before none before = false
same_as_before (some target) none = false
same_as_before (some target) (some before) = target == before

-- the loop of walk, from step `k`; `done` is the list so far
unfoldable pub walk_from : TrainingProblem → List Step → ℕ → List Step → Result Walk
unfolding menu plan_of on_offer
walk_from p done k [] = ok (walked [])
walk_from p done k (step ∷ steps) =
    let next = walk_from p (done ++ step ∷ []) (suc k) steps in
    let target = plan_of p (done ++ step ∷ []) in
    if same_as_before target (plan_of p done) then next else do
      entries ← menu p done
      elim target [
        | none ↦ ok (stopped step k)
        | some plan ↦
            if on_offer plan entries
            then (next >>= λ w. ok (add_size (length entries) w))
            else ok (stopped step k)
      ]

unfoldable pub walk_steps : TrainingProblem → List Step → Result Walk
unfolding walk_from
walk_steps p steps = walk_from p [] 0 steps
