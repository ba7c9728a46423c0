-- ===== src/Series/Requests/Loaded.antt =====
-- What a request by parts tells of a plan that load_plan accepts with its tree.
use htn_llm_rtl_gen.Series.{
  Node, action, task, Nodes, no_nodes, more_nodes, step_numbers, numbers_in,
}
use htn_llm_rtl_gen.Series.Kept.{concat}
use htn_llm_rtl_gen.Series.Arms.{parse_arm}
use htn_llm_rtl_gen.Series.Planned.{
  Domain, leaves, leaves_in, leaf_lt, numbered_steps, planned_steps, only_child, load_plan,
  step_line, render_steps,
}
use htn_llm_rtl_gen.Series.Requests.{BenchmarkProblem, in_turns, children_of, build_request}
use htn_llm_rtl_gen.Series.Requests.Told.{ShownIn, Tells, build_request-Tells}
use htn_llm_rtl_gen.Plan.Reading.{Step}
use mathlib.Core.Path.{subst}
use mathlib.Core.List.{Perm, Permᴰ}
use mathlib.Core.List.Permᴰ
use htn_llm_rtl_gen.Series.Outline.Rows.{map_append}
use htn_llm_rtl_gen.Shared.{
  range_of, ℕ, suc, ◌≡◌, refl, sym, ap, ◌∙◌, inl, inr, Bool, true, false, List, [], ◌∷◌, ◌++◌, map,
  Dict, get, length, sorted, place_in, >>=-eq-ok, ok_injective, ◌==◌, eq_of_beq, nat_eq,
  if◌then◌else◌, list_eq, pair_eq, Bool-cases, Str, Error, codes, split_on, ok, err,
}

module _ {A : Type 0} (lt : A → A → Bool) where
  place_in-Perm : (x : A) (xs : List A) → Permᴰ (place_in lt x xs) (x ∷ xs)
  unfolding place_in
  place_in-Perm x [] = Permᴰ.refl (x ∷ [])
  place_in-Perm x (y ∷ ys) = elim (Bool-cases (lt y x)) [
    | inl e ↦
        rw (place_in, e) (Permᴰ.trans (Permᴰ.cons refl (place_in-Perm x ys)) (Permᴰ.swap refl refl))
    | inr e ↦ rw (place_in, e) (Permᴰ.refl (x ∷ y ∷ ys))
  ]

  sorted-Perm : (xs : List A) → Permᴰ (sorted lt xs) xs
  unfolding sorted
  sorted-Perm [] = Permᴰ.nil
  sorted-Perm (x ∷ xs) =
      Permᴰ.trans (place_in-Perm x (sorted lt xs)) (Permᴰ.cons refl (sorted-Perm xs))

leaves_in-numbers_in : (ns : Nodes) → map (λ l. l.0) (leaves_in ns) ≡ numbers_in ns
unfolding leaves step_numbers
leaves_in-numbers_in no_nodes = refl
leaves_in-numbers_in (more_nodes (action token n) ns) = ap (λ t. n ∷ t) (leaves_in-numbers_in ns)
leaves_in-numbers_in (more_nodes (task token method children) ns) =
    sym (map_append (λ l. l.0) (leaves_in children) (leaves_in ns))
    ∙ rw (leaves_in-numbers_in children, leaves_in-numbers_in ns) refl

numbered_steps-range_of :
    (n : ℕ) (steps : List Step)
    → map (λ l. l.0) (numbered_steps n steps) ≡ range_of n (length steps)
unfolding numbered_steps range_of
numbered_steps-range_of n [] = refl
numbered_steps-range_of n (s ∷ steps) = ap (λ t. n ∷ t) (numbered_steps-range_of (suc n) steps)

accepted :
    {A : Type 0} (b : Bool) (x : A) (e : Error) {y : A}
    → (if b then ok x else err e) ≡ ok y
    → (b ≡ true) × (x ≡ y)
accepted true x e h = (refl, ok_injective h)
accepted false x e h = cc

-- The actions of the tree are, in some order, the numbered steps of the plan.
load_plan-Permᴰ :
    (plan : Str) (root top : Node) (steps : List Step)
    → load_plan plan root ≡ ok (steps, top)
    → Permᴰ (leaves top) (numbered_steps 1 steps)
unfolding load_plan
load_plan-Permᴰ plan root top steps h =
    let (read, parsed, h1) = >>=-eq-ok (planned_steps (split_on b'\n' plan)) _ h in
    let (child, found, h2) = >>=-eq-ok (only_child root) _ h1 in
    let (same, is) =
      accepted (sorted leaf_lt (leaves child) == numbered_steps 1 read) (read, child) _ h2 in
    subst (λ p. Permᴰ (leaves p.1) (numbered_steps 1 p.0)) is
      (subst (λ l. Permᴰ (leaves child) l) (eq_of_beq same)
        (Permᴰ.symm (sorted-Perm leaf_lt (leaves child))))

render_steps-cons :
    (domain : Domain) (steps : List Step) (fmt : Str) (n : ℕ) (ns : List ℕ) {line : Str}
    {rest : List Str}
    → step_line domain steps fmt n ≡ ok line
    → render_steps domain steps ns fmt ≡ ok rest
    → render_steps domain steps (n ∷ ns) fmt ≡ ok (line ∷ rest)
unfolding render_steps
render_steps-cons domain steps fmt n ns h k = rw (h, k) refl

render_steps-Perm :
    (domain : Domain) (steps : List Step) (fmt : Str) {ms ns : List ℕ} {a : List Str}
    → Permᴰ ms ns
    → render_steps domain steps ms fmt ≡ ok a
    → (b : List Str) × (render_steps domain steps ns fmt ≡ ok b) × Permᴰ a b
unfolding render_steps
render_steps-Perm domain steps fmt {a = a} Permᴰ.nil h = (a, h, Permᴰ.refl a)
render_steps-Perm domain steps fmt (Permᴰ.cons {a = m} {b = n} {l₁ = ms} {l₂ = ns} e p) h =
    let (line, said, h1) = >>=-eq-ok (step_line domain steps fmt m) _ h in
    let (rest, later, h2) = >>=-eq-ok (render_steps domain steps ms fmt) _ h1 in
    let (other, rendered, q) = render_steps-Perm domain steps fmt p later in
    (
      line ∷ other,
      render_steps-cons domain steps fmt n ns (ap (step_line domain steps fmt) (sym e) ∙ said)
          rendered,
      subst (λ t. Permᴰ t (line ∷ other)) (ok_injective h2) (Permᴰ.cons refl q),
    )
render_steps-Perm domain steps fmt (Permᴰ.swap {a = m} {b = n} {a' = n'} {b' = m'} {l = ms} e d) h =
    let (line, said, h1) = >>=-eq-ok (step_line domain steps fmt m) _ h in
    let (rest, later, h2) = >>=-eq-ok (render_steps domain steps (n ∷ ms) fmt) _ h1 in
    let (line2, said2, h3) = >>=-eq-ok (step_line domain steps fmt n) _ later in
    let (rest2, later2, h4) = >>=-eq-ok (render_steps domain steps ms fmt) _ h3 in
    (
      line2 ∷ line ∷ rest2,
      render_steps-cons domain steps fmt n' (m' ∷ ms)
          (ap (step_line domain steps fmt) (sym d) ∙ said2)
          (render_steps-cons domain steps fmt m' ms (ap (step_line domain steps fmt) (sym e) ∙ said)
            later2),
      subst (λ t. Permᴰ t (line2 ∷ line ∷ rest2))
          (ap (λ t. line ∷ t) (ok_injective h4) ∙ ok_injective h2) (Permᴰ.swap refl refl),
    )
render_steps-Perm domain steps fmt (Permᴰ.trans p q) h =
    let (b, rendered, r) = render_steps-Perm domain steps fmt p h in
    let (c, again, s) = render_steps-Perm domain steps fmt q rendered in (c, again, Permᴰ.trans r s)

numbers-Permᴰ :
    (plan : Str) (root : Node) (token method : Str) (children : Nodes) (steps : List Step)
    → load_plan plan root ≡ ok (steps, task token method children)
    → Permᴰ (numbers_in children) (range_of 1 (length steps))
unfolding leaves
numbers-Permᴰ plan root token method children steps h =
    subst (λ ns. Permᴰ (numbers_in children) ns) (numbered_steps-range_of 1 steps)
      (subst (λ ns. Permᴰ ns (map (λ l. l.0) (numbered_steps 1 steps)))
        (leaves_in-numbers_in children)
        (Permᴰ.map (λ l. l.0) (load_plan-Permᴰ plan root (task token method children) steps h)))

-- Where load_plan accepts a plan and a tree whose top is a task, and a request by parts is built
-- for them, the turns before the last hold the lines of the steps of the parts, in the format of
-- the arm; these lines are those of all the steps of the plan, each once, in some order.
pub build_request-load_plan :
    (arm bench plan : Str) (problem : BenchmarkProblem) (domain : Domain) (root : Node)
    (token method : Str) (children : Nodes) (steps : List Step) {system : Str} {turns : List Str}
    {limit : ℕ}
    → load_plan plan root ≡ ok (steps, task token method children)
    → build_request arm bench problem domain steps (task token method children)
      ≡ ok (in_turns system turns limit)
    → (levels : Dict Str Str) × (fmt final : Str) × (chunks : List (List Str)) × (texts lines : List
        Str)
      × (parse_arm arm ≡ ok levels)
      × (get (codes "format") levels ≡ ok fmt)
      × (turns ≡ texts ++ final ∷ [])
      × ShownIn chunks texts
      × (render_steps domain steps (range_of 1 (length steps)) fmt ≡ ok lines)
      × Perm (concat chunks) lines
unfolding Tells children_of
build_request-load_plan arm bench plan problem domain root token method children steps h k =
    let top = task token method children in
    let (levels, fmt, parsed, read, tells) =
      build_request-Tells arm bench problem domain steps top k in
    let (chunks, texts, final, said, shown, rendered) = tells in
    let (lines, all, p) =
      render_steps-Perm domain steps fmt (numbers-Permᴰ plan root token method children steps h)
        rendered in
    (levels, fmt, final, chunks, texts, lines, parsed, read, said, shown, all, ∣ p ∣₁)
