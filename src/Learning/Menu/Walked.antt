-- ===== src/Learning/Menu/Walked.antt =====
-- What the menus of eval/learn_steps.py offer, and what a list that walks through them comes to.
use htn_llm_rtl_gen.Shared.{
  ℕ, suc, ◌≡◌, refl, sym, ap, ◌∙◌, inl, inr, Bool, true, Option, none, some, List, [], ◌∷◌, ◌++◌,
  append_assoc, append-nil, length, any, is_empty, All, All-map, sorted-All, >>=-eq-ok,
  ok_injective, ◌==◌, nat_eq, if◌then◌else◌, list_eq, pair_eq, eq_of_beq, Bool-cases, Option-cases,
  Str, codes, join, ok,
}
use mathlib.Core.Path.{subst}
use htn_llm_rtl_gen.Plan.Rendering.{render, ports_of, widths_of, write_steps}
use htn_llm_rtl_gen.Plan.Reading.{Step}
use htn_llm_rtl_gen.Learning.Menu.{TrainingProblem, plan_of, code_of, lines_or_none, Entry}
use htn_llm_rtl_gen.Learning.Menu.Offering.{kept_by, shown, entry_lt}
use htn_llm_rtl_gen.Learning.Menu.Offering.Offered.{Found, kept-All, shown-Found}
use htn_llm_rtl_gen.Learning.Menu.Offering.Changes.{Offered, Found-Offered}
use htn_llm_rtl_gen.Loops.{Fact}
use htn_llm_rtl_gen.Learning.{state_after}
use htn_llm_rtl_gen.Learning.Menu.Offering.Ahead.{
  decisions_of, leaves_room, keeps, all_writes, menu, walked, stopped, Walk, add_size,
  same_as_before, on_offer, walk_from, walk_steps,
}

forget : (P Q : Entry → Type 0) (es : List Entry) → All (λ e. P e × Q e) es → All P es
forget P Q es h = All-map {Q = P} (λ e k. k.0) es h

-- what a menu's entries come to, after the plan so far, its state and its lines
menu-Found :
    (p : TrainingProblem) (done : List Step) {es : List Entry}
    → menu p done ≡ ok es
    → (before : List Step) × (plan_of p done ≡ some before)
      × (state : List Fact) × (state_after p.actions p.facts before ≡ ok state)
      × (code : Option (List Str)) × (code_of before ≡ ok code)
      × All (Found p done before state (lines_or_none code)) es
unfolding menu
menu-Found p done k =
    let (entries, ee, k1) = >>=-eq-ok (shown p done) _ k in
    let (roomy, er, k2) = >>=-eq-ok (kept_by (leaves_room p done) entries) _ k1 in
    let (pending, ep, k3) = >>=-eq-ok (decisions_of p done) _ k2 in
    let (writable, ew, k4) =
      >>=-eq-ok (if is_empty pending then ok [] else all_writes p done roomy) _ k3 in
    let (free, ef, k5) = >>=-eq-ok (kept_by (keeps p done writable) roomy) _ k4 in
    let (before, eb, state, st, code, ec, all_of) = shown-Found p done ee in
    let found = Found p done before state (lines_or_none code) in
    let roomy_all = forget found _ roomy (kept-All found (leaves_room p done) entries all_of er) in
    let free_all =
      forget found _ free (kept-All found (keeps p done writable) roomy roomy_all ef) in
    (
      before,
      eb,
      state,
      st,
      code,
      ec,
      subst (All found) (ok_injective k5) (sorted-All entry_lt found free free_all),
    )

-- Where ndiff marks no line as added of two equal lists, every entry of a menu is a step that the planner
-- can carry out after the list so far, going on from its plan. The code that it comes to can stand,
-- and is not the code so far or comes with a fact that the state so far has not. Its lines are those
-- that ndiff marks as added, its facts those that the state it comes to has and the state so far has
-- not, and it closes the module exactly where the last line of its code, stripped, is `endmodule`;
-- there no fact is unused, no decision unwritten and no register undriven.
pub menu-Offered :
    (p : TrainingProblem) (done : List Step) {es : List Entry}
    → ((ls : List Str) → p.added_lines ls ls ≡ [])
    → menu p done ≡ ok es
    → (before : List Step) × (plan_of p done ≡ some before)
      × (state : List Fact) × (state_after p.actions p.facts before ≡ ok state)
      × (code : Option (List Str)) × (code_of before ≡ ok code)
      × All (Offered p done before state (lines_or_none code)) es
menu-Offered p done {es} same_lines k =
    let (before, eb, state, st, code, ec, found) = menu-Found p done k in
    let old = lines_or_none code in
    (
      before,
      eb,
      state,
      st,
      code,
      ec,
      All-map {Q = Offered p done before state old}
          (λ e h. Found-Offered p done before state old e same_lines h) es found,
    )

-- the plan of a list stands: the planner gives it, and its code can stand
abbrev pub Standing : TrainingProblem → List Step → Type 0
Standing p done =
    (plan : List Step) × (plan_of p done ≡ some plan)
    × (lines : List Str) × (code_of plan ≡ ok (some lines))

any-found :
    (P : Entry → Type 0) (test : Entry → Bool) (es : List Entry)
    → All P es
    → any test es ≡ true
    → (e : Entry) × P e × (test e ≡ true)
unfolding any
any-found P test [] h k = cc k
any-found P test (e ∷ es) (h, hs) k = elim (Bool-cases (test e)) [
  | inl y ↦ (e, h, y)
  | inr n ↦ any-found P test es hs (rw (any, n) at k)
]

same_plan :
    (target before : Option (List Step)) → same_as_before target before ≡ true → target ≡ before
same_plan none before k = cc k
same_plan (some target) none k = cc k
same_plan (some target) (some before) k = ap (λ x. some x) (eq_of_beq k)

nothing_yet : (p : TrainingProblem) → Standing p []
unfolding plan_of code_of render ports_of widths_of write_steps join codes
nothing_yet p = ([], refl, [], refl)

-- a step of a walk that is on the menu
offer-Standing :
    (p : TrainingProblem) (done : List Step) (step : Step) (plan : List Step) {es : List Entry}
    → menu p done ≡ ok es
    → plan_of p (done ++ step ∷ []) ≡ some plan
    → on_offer plan es ≡ true
    → Standing p (done ++ step ∷ [])
unfolding on_offer
offer-Standing p done step plan {es} em ep offered =
    let (before, eb, state, st, code, ec, all_of) = menu-Found p done em in
    let (e, (sound, _), same) =
      any-found (Found p done before state (lines_or_none code)) (λ d. d.plan == plan) es all_of
        offered in
    let (lines, stands, _, _) = sound.stands in
    (plan, ep, lines, subst (λ x. code_of x ≡ ok (some lines)) (eq_of_beq same) stands)

walked_inv :
    (n : ℕ) (w : Walk) {sizes : List ℕ}
    → add_size n w ≡ walked sizes
    → (rest : List ℕ) × (w ≡ walked rest)
walked_inv n (walked rest) h = (rest, refl)
walked_inv n (stopped s k) h = cc h

walk_from-Standing :
    (p : TrainingProblem) (done : List Step) (k : ℕ) (steps : List Step) {sizes : List ℕ}
    → Standing p done
    → walk_from p done k steps ≡ ok (walked sizes)
    → Standing p (done ++ steps)
unfolding walk_from
walk_from-Standing p done k [] h w = subst (Standing p) (sym (append-nil done)) h
walk_from-Standing p done k (step ∷ steps) (plan, ep, lines, el) w =
    let longer = append_assoc done (step ∷ []) steps in
    elim (Bool-cases (same_as_before (plan_of p (done ++ step ∷ [])) (plan_of p done))) [
      | inl idle ↦ subst (Standing p) longer (
          walk_from-Standing p (done ++ step ∷ []) (suc k) steps
            (plan, same_plan (plan_of p (done ++ step ∷ [])) (plan_of p done) idle ∙ ep, lines, el)
            (rw (walk_from, idle) at w))
      | inr busy ↦
          let (es, em, w1) = >>=-eq-ok (menu p done) _ (rw (walk_from, busy) at w) in
          elim (Option-cases (plan_of p (done ++ step ∷ []))) [
            | inl e ↦ cc (rw e at w1)
            | inr (next, e) ↦ elim (Bool-cases (on_offer next es)) [
              | inr n ↦ cc (rw (e, n) at w1)
              | inl y ↦
                  let (walk', ew, w2) =
                    >>=-eq-ok (walk_from p (done ++ step ∷ []) (suc k) steps) _ (rw (e, y) at w1) in
                  let (rest, er) = walked_inv (length es) walk' (ok_injective w2) in
                  subst (Standing p) longer (
                    walk_from-Standing p (done ++ step ∷ []) (suc k) steps
                      (offer-Standing p done step next em e y) (ew ∙ ap (λ x. ok x) er))
            ]
          ]
    ]

-- A list of steps that can be walked through the menus comes to a plan whose code can stand.
pub walk_steps-Standing :
    (p : TrainingProblem) (steps : List Step) {sizes : List ℕ}
    → walk_steps p steps ≡ ok (walked sizes)
    → Standing p steps
unfolding walk_steps
walk_steps-Standing p steps w = walk_from-Standing p [] 0 steps (nothing_yet p) w
