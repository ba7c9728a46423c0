-- ===== src/Learning/Menu/Offering/Changes.antt =====
-- What an entry of a menu of eval/learn_steps.py changes: the lines and the facts it comes to beside those
-- of the plan before it.
use htn_llm_rtl_gen.Shared.{
  ◌≡◌, ◌≢◌, refl, sym, ap, ◌∙◌, inl, inr, ◌⊎◌, ◌↔◌, Bool, true, false, not, ◌&&◌, some, List, [],
  ◌∷◌, ◌++◌, filter, is_empty, ok_injective, arith, place_in, sorted, distinct, tuple_lt, contains,
  contains_head, some_injective, nat_eq, if◌then◌else◌, list_eq, pair_eq, Bool-cases, eq_iff,
  eq_of_beq, Str, ok, codes, lstrip, rstrip, ◌==◌,
}
use mathlib.Core.Path.{subst}
use htn_llm_rtl_gen.Loops.{Fact}
use htn_llm_rtl_gen.Plan.Reading.{Step}
use htn_llm_rtl_gen.Learning.{unused_facts, unused_decisions, state_after}
use htn_llm_rtl_gen.Learning.Progress.{filter_iff}
use htn_llm_rtl_gen.Rules.Drivers.{undriven}
use htn_llm_rtl_gen.Learning.Menu.{
  TrainingProblem, plan_of, code_of, new_facts, Entry, beyond, ends_module,
}
use htn_llm_rtl_gen.Learning.Menu.Offering.Offered.{Found}

-- the last line closes the module
abbrev pub Closing : List Str → Type 0
Closing lines =
    (first : List Str) × (last : Str) × (lines ≡ first ++ last ∷ [])
    × (lstrip (rstrip last) ≡ codes "endmodule")

ends_module-last :
    (first : List Str) (last : Str)
    → lstrip (rstrip last) ≡ codes "endmodule"
    → ends_module (first ++ last ∷ []) ≡ true
unfolding ends_module
ends_module-last [] last h = (eq_iff (lstrip (rstrip last)) (codes "endmodule")).1 h
ends_module-last (x ∷ []) last h = (eq_iff (lstrip (rstrip last)) (codes "endmodule")).1 h
ends_module-last (x ∷ y ∷ first) last h = ends_module-last (y ∷ first) last h

ends_module-Closing : (lines : List Str) → ends_module lines ≡ true → Closing lines
unfolding ends_module
ends_module-Closing [] h = cc h
ends_module-Closing (line ∷ []) h = ([], line, refl, eq_of_beq h)
ends_module-Closing (line ∷ next ∷ lines) h =
    let (first, last, e, c) = ends_module-Closing (next ∷ lines) h in
    (line ∷ first, last, ap (λ ls. line ∷ ls) e, c)

closes_iff : (lines : List Str) {b : Bool} → b ≡ ends_module lines → (b ≡ true) ↔ Closing lines
closes_iff lines e = (
  λ h. ends_module-Closing lines (sym e ∙ h),
  λ (first, last, cut, h). e ∙ (ap ends_module cut ∙ ends_module-last first last h),
)

contains-place_in :
    (x : Fact) (xs : List Fact) (f : Fact)
    → contains (place_in tuple_lt x xs) f ≡ contains (x ∷ xs) f
unfolding place_in contains
contains-place_in x [] f = refl
contains-place_in x (y ∷ xs) f = elim (Bool-cases (tuple_lt y x)) [
  | inl e ↦ rw (place_in, e) (ground (arith, contains-place_in x xs f))
  | inr e ↦ rw (place_in, e) refl
]

contains-sorted : (xs : List Fact) (f : Fact) → contains (sorted tuple_lt xs) f ≡ contains xs f
unfolding sorted contains
contains-sorted [] f = refl
contains-sorted (x ∷ xs) f =
    contains-place_in x (sorted tuple_lt xs) f
    ∙ ap (λ b. if x == f then true else b) (contains-sorted xs f)

contains-distinct : (xs : List Fact) (f : Fact) → contains (distinct xs) f ≡ contains xs f
unfolding distinct contains
contains-distinct [] f = refl
contains-distinct (x ∷ xs) f = elim (Bool-cases (contains xs x)) [
  | inr e ↦ rw (distinct, e) (ap (λ b. if x == f then true else b) (contains-distinct xs f))
  | inl e ↦ elim (Bool-cases (x == f)) [
    | inr n ↦ rw (distinct, e, n) (contains-distinct xs f)
    | inl y ↦
        rw (distinct, e, y)
          (contains-distinct xs f ∙ subst (λ g. contains xs g ≡ true) (eq_of_beq y) e)
  ]
]

-- what the facts of an entry are
new_facts_iff :
    (after before : List Fact) (f : Fact)
    → (contains (new_facts after before) f ≡ true)
      ↔ ((contains after f ≡ true) × (contains before f ≡ false))
unfolding new_facts
new_facts_iff after before f =
    let missing : Fact → Bool = λ g. not (contains before g) in
    let same =
      contains-sorted (distinct (filter missing after)) f
      ∙ contains-distinct (filter missing after) f in
    let (kept, keep) = filter_iff missing after f in
    (
      λ h. let (here, new) = kept (sym same ∙ h) in (here, (turned (contains before f)).0 new),
      λ (here, new). same ∙ keep (here, (turned (contains before f)).1 new),
    )
  where
    turned : (b : Bool) → (not b ≡ true) ↔ (b ≡ false)
    turned b = (λ h. ground arith, λ h. ground arith)

-- What an entry offers, after a plan with a state and lines. The planner carries its step out and goes on
-- from the plan; its code can stand; that code is not the lines so far, or its state has a fact that
-- the state so far has not; and where that code ends with `endmodule` it leaves no fact unused, no
-- decision unwritten and no register undriven.
pub record Offered (p : TrainingProblem) (done before : List Step) (state : List Fact)
    (old : List Str) (e : Entry) : Type 0 where
  pub planned : plan_of p (done ++ e.step ∷ []) ≡ some e.plan
  pub goes_on : (added : List Step) × (e.plan ≡ before ++ added)
  pub lines : List Str
  pub stands : code_of e.plan ≡ ok (some lines)
  pub adds : e.adds ≡ p.added_lines old lines
  pub ends : (e.closes ≡ true) ↔ Closing lines
  pub reached : List Fact
  pub reaches : state_after p.actions p.facts e.plan ≡ ok reached
  pub gains :
      (f : Fact)
      → (contains e.facts f ≡ true) ↔ ((contains reached f ≡ true) × (contains state f ≡ false))
  pub changes :
      (lines ≢ old) ⊎ ((f : Fact) × (contains reached f ≡ true) × (contains state f ≡ false))
  pub completes :
      Closing lines
      → (unused_facts p.actions p.facts e.plan ≡ ok [])
        × (unused_decisions p.actions e.plan ≡ ok [])
        × (undriven lines ≡ [])

beyond-append :
    (before after : List Step) {added : List Step}
    → beyond before after ≡ some added
    → after ≡ before ++ added
unfolding beyond
beyond-append [] after h = some_injective h
beyond-append (s ∷ before) [] h = cc h
beyond-append (s ∷ before) (t ∷ after) {added} h = elim (Bool-cases (s == t)) [
  | inr n ↦ cc (rw n at h)
  | inl y ↦
      let later = beyond-append before after (rw y at h) in
      ap (λ x. x ∷ after) (sym (eq_of_beq y)) ∙ ap (λ xs. s ∷ xs) later
]

not_both : (b c : Bool) → (b && c) ≡ false → (b ≡ false) ⊎ (c ≡ false)
not_both b c h = ground arith

one_of : (fs : List Fact) → is_empty fs ≡ false → (f : Fact) × (contains fs f ≡ true)
one_of [] h = cc h
one_of (f ∷ fs) h = (f, contains_head f fs)

-- what is found out about an entry is what it offers, where ndiff marks no line of equal texts
pub Found-Offered :
    (p : TrainingProblem) (done before : List Step) (state : List Fact) (old : List Str) (e : Entry)
    → ((ls : List Str) → p.added_lines ls ls ≡ [])
    → Found p done before state old e
    → Offered p done before state old e
Found-Offered p done before state old e same_lines (s, complete) =
    let (added, on) = s.goes_on in
    let (lines, code, adds, closes) = s.stands in
    let (reached, reaches, facts) = s.reaches in
    let gains : (f : Fact)
        → (contains e.facts f ≡ true) ↔ ((contains reached f ≡ true) × (contains state f ≡ false)) =
      λ f.
        subst
          (λ fs.
            (contains fs f ≡ true) ↔ ((contains reached f ≡ true) × (contains state f ≡ false)))
          (sym facts) (new_facts_iff reached state f) in
    record {
      planned = s.planned;
      goes_on = (added, beyond-append before e.plan on);
      lines = lines;
      stands = code;
      adds = adds;
      ends = closes_iff lines closes;
      reached = reached;
      reaches = reaches;
      gains = gains;
      changes = elim (not_both (is_empty e.adds) (is_empty e.facts) s.changes) [
        | inl some_line ↦ inl (other_lines lines adds some_line)
        | inr some_fact ↦
            let (f, here) = one_of e.facts some_fact in
            let (there, new) = (gains f).0 here in inr (f, there, new)
      ];
      completes = λ ends. all_done lines code (complete ((closes_iff lines closes).1 ends));
    }
  where
    other_lines :
        (lines : List Str)
        → e.adds ≡ p.added_lines old lines
        → is_empty e.adds ≡ false
        → lines ≢ old
    other_lines lines adds h k = cc (h, adds, k, same_lines old)

    all_done :
        (lines : List Str)
        → code_of e.plan ≡ ok (some lines)
        → ((plan : List Step) × (plan_of p (done ++ e.step ∷ []) ≡ some plan)
            × (unused_facts p.actions p.facts plan ≡ ok [])
            × (unused_decisions p.actions plan ≡ ok [])
            × (ls : List Str) × (code_of e.plan ≡ ok (some ls))
            × (undriven ls ≡ []))
        → (unused_facts p.actions p.facts e.plan ≡ ok [])
          × (unused_decisions p.actions e.plan ≡ ok [])
          × (undriven lines ≡ [])
    all_done lines code (plan, planned, facts, decisions, ls, code', driven) =
        let same = some_injective (sym planned ∙ s.planned) in
        let one = some_injective (ok_injective (sym code' ∙ code)) in
        (
          subst (λ x. unused_facts p.actions p.facts x ≡ ok []) same facts,
          subst (λ x. unused_decisions p.actions x ≡ ok []) same decisions,
          subst (λ x. undriven x ≡ []) one driven,
        )
