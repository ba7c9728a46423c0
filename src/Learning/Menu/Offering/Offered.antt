-- ===== src/Learning/Menu/Offering/Offered.antt =====
-- What every entry of a menu of eval/learn_steps.py satisfies.
use htn_llm_rtl_gen.Shared.{
  ◌≡◌, refl, ap, ◌∙◌, inl, inr, Bool, true, false, not, ◌&&◌, Option, none, some, List, [], ◌∷◌,
  ◌++◌, filter, is_empty, All, All-map, filter-All_with, get, >>=-eq-ok, ok_injective, Result,
  nat_eq, if◌then◌else◌, list_eq, pair_eq, Bool-cases, Option-cases, some_injective, Str, ok,
}
use mathlib.Core.Path.{subst}
use htn_llm_rtl_gen.Loops.{Fact}
use htn_llm_rtl_gen.Plan.Reading.{Step}
use htn_llm_rtl_gen.Learning.{unused_facts, unused_decisions, state_after}
use htn_llm_rtl_gen.Rules.Drivers.{undriven}
use htn_llm_rtl_gen.Learning.Menu.{
  TrainingProblem, plan_of, needed, code_of, lines_or_none, possible_steps, new_facts, Entry,
  beyond, unless_idle, entry_with, entry_after, ends_module,
}
use htn_llm_rtl_gen.Learning.Menu.Offering.{
  same_effect, enter, enter_some, plan_after, entry_of, entries_from, may_close, kept_by,
  few_enough, declaration_pending, begins_code, shown,
}

-- What an entry comes to, after a plan with a state and lines: the planner carries its step out; its
-- code can stand; and its lines and its facts, not both none, are read from that code and that state.
pub record Sound (p : TrainingProblem) (done before : List Step) (state : List Fact)
    (old : List Str) (e : Entry) : Type 0 where
  pub planned : plan_of p (done ++ e.step ∷ []) ≡ some e.plan
  pub goes_on : (added : List Step) × (beyond before e.plan ≡ some added)
  pub stands :
      (lines : List Str) × (code_of e.plan ≡ ok (some lines))
      × (e.adds ≡ p.added_lines old lines)
      × (e.closes ≡ ends_module lines)
  pub reaches :
      (reached : List Fact) × (state_after p.actions p.facts e.plan ≡ ok reached)
      × (e.facts ≡ new_facts reached state)
  pub changes : (is_empty e.adds && is_empty e.facts) ≡ false

-- An entry that closes the module leaves no fact of the design unused, no decision unwritten and no
-- register undriven.
abbrev pub Complete : TrainingProblem → List Step → Entry → Type 0
Complete p done e =
    e.closes ≡ true
    → (plan : List Step) × (plan_of p (done ++ e.step ∷ []) ≡ some plan)
      × (unused_facts p.actions p.facts plan ≡ ok [])
      × (unused_decisions p.actions plan ≡ ok [])
      × (lines : List Str) × (code_of e.plan ≡ ok (some lines))
      × (undriven lines ≡ [])

abbrev pub Found : TrainingProblem → List Step → List Step → List Fact → List Str → Entry → Type 0
Found p done before state old e = Sound p done before state old e × Complete p done e

enter-All : (P : Entry → Type 0) (e : Entry) (es : List Entry) → P e → All P es → All P (enter e es)
unfolding enter
enter-All P e [] h k = (h, tt)
enter-All P e (d ∷ es) h (k, ks) = elim (Bool-cases (same_effect d e)) [
  | inr other ↦ rw (enter, other) (k, enter-All P e es h ks)
  | inl same ↦ elim (Bool-cases (e.is_task && not d.is_task)) [
    | inl task ↦ rw (enter, same, task) (h, ks)
    | inr not_task ↦ rw (enter, same, not_task) (k, ks)
  ]
]

pub kept-All :
    (P : Entry → Type 0) (test : Entry → Result Bool) (es : List Entry) {out : List Entry}
    → All P es
    → kept_by test es ≡ ok out
    → All (λ e. P e × (test e ≡ ok true)) out
unfolding kept_by
kept-All P test [] h k = subst (All (λ e. P e × (test e ≡ ok true))) (ok_injective k) tt
kept-All P test (e ∷ es) {out} (h, hs) k =
    let (keep, te, k1) = >>=-eq-ok (test e) _ k in
    let (rest, re, k2) = >>=-eq-ok (kept_by test es) _ k1 in
    chosen keep rest te (ok_injective k2) (kept-All P test es hs re)
  where
    chosen :
        (keep : Bool) (rest : List Entry)
        → test e ≡ ok keep
        → (if keep then e ∷ rest else rest) ≡ out
        → All (λ e. P e × (test e ≡ ok true)) rest
        → All (λ e. P e × (test e ≡ ok true)) out
    chosen true rest te same hs = subst (All (λ e. P e × (test e ≡ ok true))) same ((h, te), hs)
    chosen false rest te same hs = subst (All (λ e. P e × (test e ≡ ok true))) same hs

module _ (p : TrainingProblem) (done before : List Step) (state : List Fact)
    (lines : List Str) where
  unless_idle_inv :
      (d : Entry) {e : Entry}
      → unless_idle d ≡ some e
      → (d ≡ e) × ((is_empty d.adds && is_empty d.facts) ≡ false)
  unless_idle_inv d k = elim (Bool-cases (is_empty d.adds && is_empty d.facts)) [
    | inl idle ↦ cc (rw (unless_idle, idle) at k)
    | inr busy ↦ (some_injective (rw (unless_idle, busy) at k), busy)
  ]

  entry_with-Sound :
      (step : Step) (is_task : Bool) (after added : List Step) (new_lines : List Str) {e : Entry}
      → plan_of p (done ++ step ∷ []) ≡ some after
      → beyond before after ≡ some added
      → code_of after ≡ ok (some new_lines)
      → entry_with p state lines step is_task after added new_lines ≡ ok (some e)
      → Sound p done before state lines e
  unfolding entry_with
  entry_with-Sound step is_task after added new_lines planned on code k =
      let (reached, er, k1) = >>=-eq-ok (state_after p.actions p.facts after) _ k in
      let (told, et, k2) =
        >>=-eq-ok _
          (λ told. ok (
            unless_idle (record {
              step = step;
              is_task = is_task;
              plan = after;
              adds = p.added_lines lines new_lines;
              facts = new_facts reached state;
              says = told;
              closes = ends_module new_lines;
            })))
          k1 in
      let (same, busy) = unless_idle_inv _ (ok_injective k2) in
      subst (Sound p done before state lines) same (record {
        planned = planned;
        goes_on = (added, on);
        stands = (new_lines, code, refl, refl);
        reaches = (reached, er, refl);
        changes = busy;
      })

  -- the entry of a step whose plan goes on from the plan before
  entry_after-Sound :
      (step : Step) (is_task : Bool) (after added : List Step) {e : Entry}
      → plan_of p (done ++ step ∷ []) ≡ some after
      → beyond before after ≡ some added
      → entry_after p state lines step is_task after added ≡ ok (some e)
      → Sound p done before state lines e
  unfolding entry_after
  entry_after-Sound step is_task after added {e} planned on k =
      let (code, ec, k1) = >>=-eq-ok (code_of after) _ k in with_code code ec k1
    where
      with_code :
          (code : Option (List Str))
          → code_of after ≡ ok code
          → (elim code as (λ _. Result (Option Entry)) [
            | none ↦ ok none
            | some l ↦ entry_with p state lines step is_task after added l
          ])
            ≡ ok (some e)
          → Sound p done before state lines e
      with_code none c h = cc h
      with_code (some l) c h = entry_with-Sound step is_task after added l planned on c h

  plan_after_inv :
      (step : Step) {after added : List Step}
      → plan_after p done before step ≡ some (after, added)
      → (plan_of p (done ++ step ∷ []) ≡ some after) × (beyond before after ≡ some added)
  unfolding plan_after
  plan_after_inv step k = elim (Option-cases (plan_of p (done ++ step ∷ []))) [
    | inl e ↦ cc (rw (plan_after, e) at k)
    | inr (after, e) ↦ elim (Option-cases (beyond before after)) [
      | inl b ↦ cc (rw (plan_after, e, b) at k)
      | inr (added, b) ↦
          let same = some_injective (rw (plan_after, e, b) at k) in
          (e ∙ ap (λ x. some x.0) same, subst (λ x. beyond before x.0 ≡ some x.1) same b)
    ]
  ]

  entry_of-Sound :
      (step : Step) {e : Entry}
      → entry_of p done before state lines step ≡ ok (some e)
      → Sound p done before state lines e
  unfolding entry_of
  entry_of-Sound step k = elim (Option-cases (plan_after p done before step)) [
    | inl none_such ↦ cc (rw (entry_of, none_such) at k)
    | inr ((after, added), found) ↦
        let (planned, on) = plan_after_inv step found in
        let (s, es, k1) = >>=-eq-ok (get step.0 p.signatures) _ (rw (entry_of, found) at k) in
        entry_after-Sound step s.is_task after added planned on k1
  ]

  entries_from-Sound :
      (steps : List Step) (entries : List Entry) {out : List Entry}
      → All (Sound p done before state lines) entries
      → entries_from p done before state lines steps entries ≡ ok out
      → All (Sound p done before state lines) out
  unfolding entries_from
  entries_from-Sound [] entries h k =
      subst (All (Sound p done before state lines)) (ok_injective k) h
  entries_from-Sound (step ∷ steps) entries h k =
      let (o, eo, k1) = >>=-eq-ok (entry_of p done before state lines step) _ k in
      entries_from-Sound steps (enter_some o entries) (entered o eo) k1
    where
      entered :
          (o : Option Entry)
          → entry_of p done before state lines step ≡ ok o
          → All (Sound p done before state lines) (enter_some o entries)
      entered none c = h
      entered (some e) c =
          enter-All (Sound p done before state lines) e entries (entry_of-Sound step c) h

all_empty :
    {A B C : Type 0} (xs : List A) (ys : List B) (zs : List C)
    → (is_empty xs && is_empty ys && is_empty zs) ≡ true
    → (xs ≡ []) × (ys ≡ []) × (zs ≡ [])
all_empty [] [] [] h = (refl, refl, refl)
all_empty [] [] (z ∷ zs) h = cc h
all_empty [] (y ∷ ys) zs h = cc h
all_empty (x ∷ xs) ys zs h = cc h

pub needed_inv : {A : Type 0} (o : Option A) {a : A} → needed o ≡ ok a → o ≡ some a
needed_inv none h = cc h
needed_inv (some a) h = ap (λ x. some x) (ok_injective h)

-- an entry that may_close lets through
may_close-Complete :
    (p : TrainingProblem) (done : List Step) (e : Entry)
    → may_close p done e ≡ ok true
    → Complete p done e
unfolding may_close
may_close-Complete p done e k c =
    let (plan, ep, k1) =
      >>=-eq-ok (needed (plan_of p (done ++ e.step ∷ []))) _ (rw (may_close, c) at k) in
    let (facts, ef, k2) = >>=-eq-ok (unused_facts p.actions p.facts plan) _ k1 in
    let (decisions, ed, k3) =
      >>=-eq-ok (if is_empty facts then unused_decisions p.actions plan else ok []) _ k2 in
    let (code, ec, k4) = >>=-eq-ok (code_of e.plan) _ k3 in
    let (lines, el, k5) =
      >>=-eq-ok (if is_empty facts && is_empty decisions then needed code else ok []) _ k4 in
    let (f0, d0, u0) = all_empty facts decisions (undriven lines) (ok_injective k5) in
    let ed' =
      subst (λ x. (if is_empty x then unused_decisions p.actions plan else ok []) ≡ ok decisions) f0
        ed in
    let el' =
      subst (λ x. (if is_empty x && is_empty decisions then needed code else ok []) ≡ ok lines) f0
        el in
    let el'' = subst (λ x. (if is_empty x then needed code else ok []) ≡ ok lines) d0 el' in
    (
      plan,
      needed_inv (plan_of p (done ++ e.step ∷ [])) ep,
      ef ∙ ap (λ x. ok x) f0,
      ed' ∙ ap (λ x. ok x) d0,
      lines,
      ec ∙ ap (λ x. ok x) (needed_inv code el''),
      u0,
    )

filter-kept :
    (P : Entry → Type 0) (test : Entry → Bool) (es : List Entry) → All P es → All P (filter test es)
filter-kept P test es h =
    All-map {Q = P} (λ e k. k.0) (filter test es) (filter-All_with P test es h)

unless_pending :
    (P : Entry → Type 0) (pending : Bool) (few : List Entry) {es : List Entry}
    → All P few
    → (if pending then filter (λ e. not (begins_code e)) few else few) ≡ es
    → All P es
unless_pending P true few h k = subst (All P) k (filter-kept P (λ e. not (begins_code e)) few h)
unless_pending P false few h k = subst (All P) k h

-- what shown gives, by the plan so far, its state and its code
pub shown-Found :
    (p : TrainingProblem) (done : List Step) {es : List Entry}
    → shown p done ≡ ok es
    → (before : List Step) × (plan_of p done ≡ some before)
      × (state : List Fact) × (state_after p.actions p.facts before ≡ ok state)
      × (code : Option (List Str)) × (code_of before ≡ ok code)
      × All (Found p done before state (lines_or_none code)) es
unfolding shown few_enough
shown-Found p done {es} k =
    let (before, eb, k1) = >>=-eq-ok (needed (plan_of p done)) _ k in
    let (state, st, k2) = >>=-eq-ok (state_after p.actions p.facts before) _ k1 in
    let (code, ec, k3) = >>=-eq-ok (code_of before) _ k2 in
    let (steps, eq, k4) = >>=-eq-ok (possible_steps p state) _ k3 in
    let old = lines_or_none code in
    let (entries, ee, k5) = >>=-eq-ok (entries_from p done before state old steps []) _ k4 in
    let (closing, ek, k6) = >>=-eq-ok (kept_by (may_close p done) entries) _ k5 in
    let (pending, ep, k7) = >>=-eq-ok (declaration_pending p done state) _ k6 in
    let sound = entries_from-Sound p done before state old steps [] tt ee in
    let both =
      All-map {Q = Found p done before state old} (λ e (s, m). (s, may_close-Complete p done e m))
        closing (kept-All (Sound p done before state old) (may_close p done) entries sound ek) in
    (
      before,
      needed_inv (plan_of p done) eb,
      state,
      st,
      code,
      ec,
      unless_pending (Found p done before state old) pending (few_enough p closing)
          (filter-kept (Found p done before state old) _ closing both) (ok_injective k7),
    )
