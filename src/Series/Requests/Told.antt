-- ===== src/Series/Requests/Told.antt =====
-- What a request tells of its plan.
use htn_llm_rtl_gen.Series.{Node, numbers_in, PlanPart, parts_of}
use htn_llm_rtl_gen.Series.Kept.{concat, parts_of_kept}
use htn_llm_rtl_gen.Series.Arms.{parse_arm}
use htn_llm_rtl_gen.Series.Planned.{Domain, step_line, render_steps}
use htn_llm_rtl_gen.Series.Requests.{
  plan_preamble, BenchmarkProblem, lead_of, Request, in_one, in_turns, Framing, user_of, tree_lines,
  before_steps, after_steps, single_user, opening, turn_text, turns_from, final_turn, children_of,
  single_request, micro_request, request_of, build_request,
}
use htn_llm_rtl_gen.Series.Wording.{new_line, plan_head, follow_line, part_tree_head, part_head}
use htn_llm_rtl_gen.Series.Requests.Lines.{
  Stands, Stands-before, Stands-after, join-Stands, join-append_left, strip-join,
}
use htn_llm_rtl_gen.Plan.Reading.{Step}
use mathlib.Core.Path.{subst}
use htn_llm_rtl_gen.Shared.{
  range_of, ℕ, suc, ◌≡◌, refl, sym, ap, ◌∙◌, ◌⊎◌, inl, inr, Bool, true, false, ◌&&◌, List, [], ◌∷◌,
  ◌++◌, map, append_assoc, Dict, get, length, Result, >>=-eq-ok, ok_injective, lstrip, rstrip, ◌==◌,
  nat_eq, if◌then◌else◌, list_eq, Bool-cases, Str, codes, is_space, join, ok,
}

-- Each list of lines stands in the turn of its place.
pub data ShownIn : List (List Str) → List Str → Type 0 where
  no_turns : ShownIn [] []
  turn :
      {chunk : List Str} {text : Str} {chunks : List (List Str)} {texts : List Str}
      → Stands (join new_line chunk) text
      → ShownIn chunks texts
      → ShownIn (chunk ∷ chunks) (text ∷ texts)

-- A request in one prompt has the lines of all the steps. In one by parts, the turns before the last
-- have the lines of the steps of the tree below its top, in its order.
unfoldable pub Tells : Domain → List Step → Node → Str → Request → Type 0
Tells domain steps top fmt (in_one system user) =
    (shown : List Str) × (render_steps domain steps (range_of 1 (length steps)) fmt ≡ ok shown)
    × Stands (join new_line shown) user
Tells domain steps top fmt (in_turns system turns limit) =
    (chunks : List (List Str)) × (texts : List Str) × (final : Str) × (turns ≡ texts ++ final ∷ [])
    × ShownIn chunks texts
    × (render_steps domain steps (numbers_in (children_of top)) fmt ≡ ok (concat chunks))

-- the lines of a request in one prompt, from the head of the plan on
from_head : Framing → List Str → Node → Str
unfolding join
from_head f shown top =
    join new_line (plan_head ∷ ((shown ++ after_steps f top) ++ follow_line ∷ []))

from_head-Stands :
    (f : Framing) (shown : List Str) (top : Node)
    → Stands (join new_line shown) (from_head f shown top)
unfolding from_head
from_head-Stands f shown top =
    subst (λ ws. Stands (join new_line shown) (join new_line (plan_head ∷ ws)))
      (sym (append_assoc shown (after_steps f top) (follow_line ∷ [])))
      (join-Stands new_line (plan_head ∷ []) shown (after_steps f top ++ follow_line ∷ []))

user_of-Stands :
    (ve : Bool) (part text : Str)
    → Stands part text
    → Stands part (lstrip (rstrip text))
    → Stands part (user_of ve text)
unfolding user_of
user_of-Stands true part text whole stripped = Stands-before _ _ new_line (
    Stands-before _ _ (codes "Question:")
      (Stands-before _ _ new_line (Stands-after _ _ _ stripped)))
user_of-Stands false part text whole stripped = Stands-after _ _ _ whole

single_user-Stands :
    (f : Framing) (shown : List Str) (top : Node)
    → Stands (join new_line shown) (single_user f shown top)
unfolding single_user from_head plan_head follow_line codes is_space
single_user-Stands f shown top =
    let part = join new_line shown in
    let rest = (shown ++ after_steps f top) ++ follow_line ∷ [] in
    let text = join new_line (before_steps f ++ plan_head ∷ rest) in
    let (a, joined) = join-append_left new_line (before_steps f) plan_head rest in
    let (b, stripped) =
      strip-join new_line plan_head follow_line (before_steps f) (shown ++ after_steps f top) b'P'
        b'.' (codes "lan:") (codes "Write the module by following the plan step by step") refl refl
        refl refl in
    let shows = from_head-Stands f shown top in
    user_of-Stands f.ve part text
      (subst (λ t. Stands part t) (sym joined) (Stands-before part _ a shows))
      (subst (λ t. Stands part t) (sym stripped) (Stands-before part _ b shows))

turn_text-Stands :
    (f : Framing) (i k : ℕ) (part : PlanPart) (shown : List Str)
    → Stands (join new_line shown) (turn_text f i k part shown)
unfolding turn_text
turn_text-Stands f i k part shown =
    let stands =
      join-Stands new_line (opening f i k ++ part_head i k part.title ∷ []) shown
        (tree_lines f.with_tree part_tree_head part.nodes) in
    elim (Bool-cases (f.ve && i == 1)) [
      | inl e ↦
          rw (turn_text, e)
            (Stands-before _ _ new_line
              (Stands-before _ _ (codes "Question:") (Stands-before _ _ new_line stands)))
      | inr e ↦ rw (turn_text, e) stands
    ]

render_steps-append :
    (domain : Domain) (steps : List Step) (ms ns : List ℕ) (fmt : Str) {a b : List Str}
    → render_steps domain steps ms fmt ≡ ok a
    → render_steps domain steps ns fmt ≡ ok b
    → render_steps domain steps (ms ++ ns) fmt ≡ ok (a ++ b)
unfolding render_steps
render_steps-append domain steps [] ns fmt {a} {b} h k = k ∙ ap (λ t. ok (t ++ b)) (ok_injective h)
render_steps-append domain steps (m ∷ ms) ns fmt {a} {b} h k =
    let (line, said, h1) = >>=-eq-ok (step_line domain steps fmt m) _ h in
    let (rest, later, h2) = >>=-eq-ok (render_steps domain steps ms fmt) _ h1 in
    rw (said, render_steps-append domain steps ms ns fmt later k)
      (ap (λ t. ok (t ++ b)) (ok_injective h2))

turns_from-ShownIn :
    (domain : Domain) (steps : List Step) (f : Framing) (k i : ℕ) (parts : List PlanPart)
    {turns : List Str}
    → turns_from domain steps f k i parts ≡ ok turns
    → (chunks : List (List Str)) × ShownIn chunks turns
      × (render_steps domain steps (concat (map (λ p. p.steps) parts)) f.fmt ≡ ok (concat chunks))
unfolding turns_from render_steps
turns_from-ShownIn domain steps f k i [] h =
    ([], subst (λ t. ShownIn [] t) (ok_injective h) no_turns, refl)
turns_from-ShownIn domain steps f k i (part ∷ parts) h =
    let (shown, rendered, h1) = >>=-eq-ok (render_steps domain steps part.steps f.fmt) _ h in
    let (turns, told, h2) = >>=-eq-ok (turns_from domain steps f k (suc i) parts) _ h1 in
    let (chunks, stand, all_rendered) = turns_from-ShownIn domain steps f k (suc i) parts told in
    (
      shown ∷ chunks,
      subst (λ t. ShownIn (shown ∷ chunks) t) (ok_injective h2)
          (turn (turn_text-Stands f i k part shown) stand),
      render_steps-append domain steps part.steps (concat (map (λ p. p.steps) parts)) f.fmt rendered
          all_rendered,
    )

single-Tells :
    (problem : BenchmarkProblem) (domain : Domain) (steps : List Step) (top : Node) (f : Framing)
    {r : Request}
    → single_request problem domain steps top f ≡ ok r
    → Tells domain steps top f.fmt r
unfolding single_request Tells
single-Tells problem domain steps top f h =
    let (shown, rendered, h1) =
      >>=-eq-ok (render_steps domain steps (range_of 1 (length steps)) f.fmt) _ h in
    subst (Tells domain steps top f.fmt) (ok_injective h1)
      (shown, rendered, single_user-Stands f shown top)

micro-Tells :
    (problem : BenchmarkProblem) (domain : Domain) (steps : List Step) (top : Node) (f : Framing)
    {r : Request}
    → micro_request problem domain steps top f ≡ ok r
    → Tells domain steps top f.fmt r
unfolding micro_request Tells
micro-Tells problem domain steps top f h =
    let (parts, cut, h1) = >>=-eq-ok (parts_of (children_of top)) _ h in
    let (texts, told, h2) = >>=-eq-ok (turns_from domain steps f (length parts) 1 parts) _ h1 in
    let (chunks, stand, rendered) = turns_from-ShownIn domain steps f (length parts) 1 parts told in
    subst (Tells domain steps top f.fmt) (ok_injective h2) (
      chunks,
      texts,
      final_turn f.ve,
      refl,
      stand,
      subst (λ ns. render_steps domain steps ns f.fmt ≡ ok (concat chunks))
          (parts_of_kept (children_of top) cut) rendered,
    )

either_branch :
    {A : Type 0} (b : Bool) (x y : Result A) {r : A}
    → (if b then x else y) ≡ ok r
    → (x ≡ ok r) ⊎ (y ≡ ok r)
either_branch true x y h = inl h
either_branch false x y h = inr h

request-Tells :
    (problem : BenchmarkProblem) (domain : Domain) (steps : List Step) (top : Node) (delivery : Str)
    (f : Framing) {r : Request}
    → request_of problem domain steps top delivery f ≡ ok r
    → Tells domain steps top f.fmt r
unfolding request_of
request-Tells problem domain steps top delivery f h =
    elim (either_branch (delivery == codes "single") (single_request problem domain steps top f)
      (micro_request problem domain steps top f) h) [
        | inl single ↦ single-Tells problem domain steps top f single
        | inr micro ↦ micro-Tells problem domain steps top f micro
      ]

pub build_request-Tells :
    (arm bench : Str) (problem : BenchmarkProblem) (domain : Domain) (steps : List Step)
    (top : Node) {r : Request}
    → build_request arm bench problem domain steps top ≡ ok r
    → (levels : Dict Str Str) × (fmt : Str) × (parse_arm arm ≡ ok levels)
      × (get (codes "format") levels ≡ ok fmt)
      × Tells domain steps top fmt r
unfolding build_request
build_request-Tells arm bench problem domain steps top h =
    let (f, parsed, h1) = >>=-eq-ok (parse_arm arm) _ h in
    let (fmt, format, h2) = >>=-eq-ok (get (codes "format") f) _ h1 in
    let (tree, with_tree, h3) = >>=-eq-ok (get (codes "tree") f) _ h2 in
    let (description, described, h4) = >>=-eq-ok (get (codes "description") f) _ h3 in
    let (lead, leads, h5) = >>=-eq-ok (lead_of problem bench (description == codes "desc")) _ h4 in
    let (preamble, precedes, h6) = >>=-eq-ok (plan_preamble domain steps fmt) _ h5 in
    let (delivery, delivered, h7) = >>=-eq-ok (get (codes "delivery") f) _ h6 in
    (f, fmt, parsed, format, request-Tells problem domain steps top delivery _ h7)
