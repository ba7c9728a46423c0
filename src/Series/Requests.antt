-- ===== src/Series/Requests.antt =====
-- eval/pseries.py: the requests of an arm.
pub mod Loaded
pub mod Lines
pub mod Told
use htn_llm_rtl_gen.Series.{Node, action, task, Nodes, no_nodes, PlanPart, parts_of}
use htn_llm_rtl_gen.Series.Arms.{parse_arm}
use htn_llm_rtl_gen.Series.Wording.{
  new_line, intro_symbolic, intro_nl, named_arguments_note, schema_head, plan_head, tree_head,
  follow_line, no_description, micro_intro, part_head, part_tree_head, micro_final, ve_micro_plain,
  rtllm_close, no_explain,
}
use htn_llm_rtl_gen.Series.Planned.{Domain, render_steps, render_schema}
use htn_llm_rtl_gen.Series.Outline.{render_tree}
use htn_llm_rtl_gen.Plan.Reading.{Step}
use htn_llm_rtl_gen.Shared.{
  range_of, ℕ, zero, suc, Bool, ◌&&◌, List, [], ◌∷◌, ◌++◌, Dict, get, length, ◌>>=◌, Result, lstrip,
  rstrip, ◌==◌, nat_eq, if◌then◌else◌, list_eq, Str, codes, join, ok,
}

unfoldable pub plan_preamble : Domain → List Step → Str → Result (List Str)
plan_preamble domain steps fmt =
    let with_note = intro_symbolic ++ (codes " " ++ named_arguments_note) in
    if fmt == codes "nl"
    then ok (intro_nl ∷ [])
    else (if fmt == codes "s1"
        then ok (with_note ∷ [])
        else (if fmt == codes "s2"
            then (render_schema domain steps >>= λ lines. ok (with_note ∷ [] ∷ schema_head ∷ lines))
            else ok (intro_symbolic ∷ [])))

-- What build_request uses of a problem of a benchmark.
pub record BenchmarkProblem : Type 0 where
  pub system : Str
  pub extra : Dict Str Str

unfoldable pub lead_of : BenchmarkProblem → Str → Bool → Result Str
lead_of problem bench with_description =
    if with_description
    then (get (codes "spec") problem.extra >>= λ spec. ok (lstrip (rstrip spec)))
    else get bench no_description

pub data Request : Type 0 where
  in_one : Str → Str → Request
  in_turns : Str → List Str → ℕ → Request

unfoldable pub intermediate_max_new_tokens : ℕ
intermediate_max_new_tokens = 512

-- What the parts of a request are made of, once the arm is read.
pub record Framing : Type 0 where
  pub fmt : Str
  pub with_tree : Bool
  pub lead : Str
  pub preamble : List Str
  pub ve : Bool

unfoldable pub tree_lines : Bool → Str → List Node → List Str
tree_lines with_tree head nodes = if with_tree then [] ∷ head ∷ render_tree nodes else []

-- what stands before the steps of the plan, and after them
unfoldable pub before_steps : Framing → List Str
before_steps f = f.lead ∷ [] ∷ (f.preamble ++ ([] ∷ []))

unfoldable pub after_steps : Framing → Node → List Str
after_steps f top = tree_lines f.with_tree tree_head (top ∷ []) ++ ([] ∷ [])

-- the frame of the benchmark around the text
unfoldable pub user_of : Bool → Str → Str
user_of ve text =
    if ve
    then new_line
      ++ (codes "Question:"
          ++ (new_line
              ++ (lstrip (rstrip text)
                  ++ (new_line ++ (no_explain ++ (new_line ++ (codes "Answer:" ++ new_line)))))))
    else text ++ (new_line ++ (new_line ++ rtllm_close))

unfoldable pub single_user : Framing → List Str → Node → Str
single_user f shown top = user_of f.ve (
    join new_line
      (before_steps f ++ plan_head ∷ ((shown ++ after_steps f top) ++ follow_line ∷ [])))

-- what the first turn has before its part
unfoldable pub opening : Framing → ℕ → ℕ → List Str
opening f i k = if i == 1 then f.lead ∷ [] ∷ (f.preamble ++ ([] ∷ micro_intro k ∷ [] ∷ [])) else []

unfoldable pub turn_text : Framing → ℕ → ℕ → PlanPart → List Str → Str
turn_text f i k part shown =
    let text = join new_line (
      (opening f i k ++ part_head i k part.title ∷ [])
      ++ (shown ++ tree_lines f.with_tree part_tree_head part.nodes)) in
    if f.ve && i == 1 then new_line ++ (codes "Question:" ++ (new_line ++ text)) else text

unfoldable pub turns_from : Domain → List Step → Framing → ℕ → ℕ → List PlanPart → Result (List Str)
turns_from domain steps f k i [] = ok []
turns_from domain steps f k i (part ∷ parts) = do
  shown ← render_steps domain steps part.steps f.fmt
  turns ← turns_from domain steps f k (suc i) parts
  ok (turn_text f i k part shown ∷ turns)

unfoldable pub final_turn : Bool → Str
final_turn ve =
    if ve
    then micro_final
      ++ (new_line
          ++ (no_explain
              ++ (ve_micro_plain ++ (new_line ++ (new_line ++ (codes "Answer:" ++ new_line))))))
    else micro_final ++ (codes " " ++ rtllm_close)

-- `top["children"]`
unfoldable pub children_of : Node → Nodes
children_of (action token n) = no_nodes
children_of (task token method children) = children

unfoldable pub single_request :
    BenchmarkProblem → Domain → List Step → Node → Framing → Result Request
single_request problem domain steps top f = do
  shown ← render_steps domain steps (range_of 1 (length steps)) f.fmt
  ok (in_one problem.system (single_user f shown top))

unfoldable pub micro_request :
    BenchmarkProblem → Domain → List Step → Node → Framing → Result Request
micro_request problem domain steps top f = do
  parts ← parts_of (children_of top)
  turns ← turns_from domain steps f (length parts) 1 parts
  ok (in_turns problem.system (turns ++ final_turn f.ve ∷ []) intermediate_max_new_tokens)

unfoldable pub request_of :
    BenchmarkProblem → Domain → List Step → Node → Str → Framing → Result Request
request_of problem domain steps top delivery f =
    if delivery == codes "single"
    then single_request problem domain steps top f
    else micro_request problem domain steps top f

unfoldable pub build_request :
    Str → Str → BenchmarkProblem → Domain → List Step → Node → Result Request
build_request arm bench problem domain steps top = do
  f ← parse_arm arm
  fmt ← get (codes "format") f
  tree ← get (codes "tree") f
  description ← get (codes "description") f
  lead ← lead_of problem bench (description == codes "desc")
  preamble ← plan_preamble domain steps fmt
  delivery ← get (codes "delivery") f
  request_of problem domain steps top delivery record {
    fmt = fmt;
    with_tree = tree == codes "tree";
    lead = lead;
    preamble = preamble;
    ve = bench == codes "verilog-eval-v2";
  }
