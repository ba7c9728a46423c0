-- ===== src/Learning/Menu/Offering.antt =====
-- Problem.menu and walk of eval/learn_steps.py: which entries are offered.
pub mod Offered
pub mod Changes
pub mod Ahead
use htn_llm_rtl_gen.Shared.{
  ℕ, ◌+◌, Bool, true, not, ◌&&◌, ◌||◌, Option, none, some, List, [], ◌∷◌, ◌++◌, arith, Dict, lookup,
  length, filter, any, is_empty, text_lt, sorted, minus, ◌>>=◌, get, Result, lstrip, rstrip,
  starts_with, leb, ◌==◌, nat_eq, if◌then◌else◌, list_eq, pair_eq, Str, codes, join, ok,
}
use htn_llm_rtl_gen.Problem.Sexpr.{Sexpr, atom, list, nil, cons}
use htn_llm_rtl_gen.Loops.{Fact}
use htn_llm_rtl_gen.Plan.Reading.{Step}
use htn_llm_rtl_gen.Plan.Rendering.{port_decls}
use htn_llm_rtl_gen.Rules.Declared.{declared_names}
use htn_llm_rtl_gen.Rules.Drivers.{undriven}
use htn_llm_rtl_gen.Learning.{
  ActionForm, strings_of, condition_parts, state_after, unused_facts, unused_decisions,
}
use htn_llm_rtl_gen.Learning.Matching.{pending_in, args_of}
use htn_llm_rtl_gen.Learning.Menu.{
  TrainingProblem, plan_of, needed, code_of, lines_or_none, possible_steps, Entry, beyond,
  entry_after,
}

-- the code, the facts and the sentences of two entries are the same
unfoldable pub same_effect : Entry → Entry → Bool
same_effect d e = (d.adds == e.adds) && (d.facts == e.facts) && (d.says == e.says)

-- `seen`: of two entries that do the same, the first is kept, unless only the other is a task
unfoldable pub enter : Entry → List Entry → List Entry
unfolding same_effect
enter e [] = e ∷ []
enter e (d ∷ entries) =
    let later = enter e entries in
    if same_effect d e
    then (if e.is_task && not d.is_task then e ∷ entries else d ∷ entries)
    else d ∷ later

abbrev pub enter_some : Option Entry → List Entry → List Entry
enter_some none entries = entries
enter_some (some e) entries = enter e entries

module _ (p : TrainingProblem) (done : List Step) where
  -- the plan of a candidate where it goes on from the plan before, and the steps that it adds
  unfoldable pub plan_after : List Step → Step → Option (List Step × List Step)
  unfolding plan_of beyond
  plan_after before step = elim (plan_of p (done ++ step ∷ [])) [
    | none ↦ none
    | some after ↦ elim (beyond before after) [ none ↦ none | some added ↦ some (after, added) ]
  ]

  unfoldable pub entry_of : List Step → List Fact → List Str → Step → Result (Option Entry)
  unfolding plan_after entry_after
  entry_of before state lines step = elim (plan_after before step) [
    | none ↦ ok none
    | some (after, added) ↦ do
      s ← get step.0 p.signatures
      entry_after p state lines step s.is_task after added
  ]

  -- the loop over the candidates
  unfoldable pub entries_from :
      List Step → List Fact → List Str → List Step → List Entry → Result (List Entry)
  unfolding entry_of enter
  entries_from before state lines [] entries = ok entries
  entries_from before state lines (step ∷ steps) entries = do
    e ← entry_of before state lines step
    entries_from before state lines steps (enter_some e entries)

  -- whether an entry may close the module
  unfoldable pub may_close : Entry → Result Bool
  unfolding plan_of unused_facts unused_decisions code_of undriven
  may_close e = if not e.closes then ok true else do
    plan ← needed (plan_of p (done ++ e.step ∷ []))
    facts ← unused_facts p.actions p.facts plan
    decisions ← if is_empty facts then unused_decisions p.actions plan else ok []
    code ← code_of e.plan
    lines ← if is_empty facts && is_empty decisions then needed code else ok []
    ok (is_empty facts && is_empty decisions && is_empty (undriven lines))

-- `[e for e in entries if test(e)]`, of a test that may raise
unfoldable pub kept_by : (Entry → Result Bool) → List Entry → Result (List Entry)
kept_by test [] = ok []
kept_by test (e ∷ entries) = do
  keep ← test e
  rest ← kept_by test entries
  ok (if keep then e ∷ rest else rest)

-- `self.free`: some parameter stands in no plain fact of the precondition
unfoldable pub is_free : ActionForm → Bool
unfolding strings_of condition_parts minus
is_free a = not (is_empty (minus a.params (tied (condition_parts a.condition))))
  where
    tied : List Sexpr → List Str
    tied [] = []
    tied (x ∷ xs) = elim (strings_of x) [ none ↦ tied xs | some ws ↦ args_of ws ++ tied xs ]

-- MAX_FREE and MAX_TIED
unfoldable pub most : TrainingProblem → Str → ℕ
unfolding is_free
most p name = elim (lookup name p.actions) [ none ↦ 40 | some a ↦ if is_free a then 2 else 40 ]

-- the entries whose step has no more ways to fill it in than are shown
unfoldable pub few_enough : TrainingProblem → List Entry → List Entry
unfolding most
few_enough p entries =
    filter (λ e. leb (length (filter (λ d. d.step.0 == e.step.0) entries)) (most p e.step.0))
      entries

-- `self.recorded`; an effect that does not start with a name raises where the problem is made
unfoldable pub recorded_kinds : Dict Str ActionForm → List Str
recorded_kinds [] = []
recorded_kinds ((name, a) ∷ actions) = firsts_of a.effects (recorded_kinds actions)
  where
    firsts_of : List Sexpr → List Str → List Str
    firsts_of [] rest = rest
    firsts_of (atom [] ∷ es) rest = firsts_of es rest
    firsts_of (atom (c ∷ w) ∷ es) rest = (c ∷ []) ∷ firsts_of es rest
    firsts_of (list nil ∷ es) rest = firsts_of es rest
    firsts_of (list (cons (atom w) xs) ∷ es) rest = w ∷ firsts_of es rest
    firsts_of (list (cons (list ys) xs) ∷ es) rest = firsts_of es rest

-- DECLARES of rtl_designs/plan_to_verilog.py
abbrev pub declares : List Str
declares =
    port_decls
    ++ (codes "write_register_decl" ∷ codes "write_state_param" ∷ codes "write_state_regs" ∷ [])

-- Problem.declaration_pending
unfoldable pub declaration_pending : TrainingProblem → List Step → List Fact → Result Bool
unfolding plan_of unused_facts code_of declared_names pending_in recorded_kinds
declaration_pending p done state = do
  plan ← needed (plan_of p done)
  unused ← unused_facts p.actions p.facts plan
  code ← code_of plan
  ok (
      pending_in (recorded_kinds p.actions) state (declared_names (lines_or_none code)) unused
        p.actions declares)

-- an entry that begins an always block or an assign
unfoldable pub begins_code : Entry → Bool
begins_code e =
    any
      (λ x.
        let t = lstrip (rstrip x) in
        starts_with (codes "always") t || starts_with (codes "assign") t)
      e.adds

-- the menu before it looks ahead
unfoldable pub shown : TrainingProblem → List Step → Result (List Entry)
unfolding plan_of state_after code_of possible_steps entries_from kept_by may_close few_enough
    declaration_pending begins_code
shown p done = do
  before ← needed (plan_of p done)
  state ← state_after p.actions p.facts before
  code ← code_of before
  steps ← possible_steps p state
  entries ← entries_from p done before state (lines_or_none code) steps []
  open_ended ← kept_by (may_close p done) entries
  let few = few_enough p open_ended
  pending ← declaration_pending p done state
  ok (if pending then filter (λ e. not (begins_code e)) few else few)

-- the order of a menu: by the step as text
unfoldable pub entry_lt : Entry → Entry → Bool
unfolding text_lt
entry_lt d e =
    text_lt (join (codes " ") (d.step.0 ∷ d.step.1)) (join (codes " ") (e.step.0 ∷ e.step.1))

-- Problem.menu with `look_ahead=False`
unfoldable pub menu_now : TrainingProblem → List Step → Result (List Entry)
unfolding shown entry_lt
menu_now p done = do entries ← shown p done; ok (sorted entry_lt entries)
