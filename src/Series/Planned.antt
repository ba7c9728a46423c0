-- ===== src/Series/Planned.antt =====
-- eval/pseries.py: load_plan, and the steps of a plan as a request writes them. What the constructor of
-- Domain reads from files is a record. The fields of a sentence are names, with no format of their
-- own; a digit is an ASCII one.
use htn_llm_rtl_gen.Series.{Node, action, task, Nodes, no_nodes, more_nodes}
use htn_llm_rtl_gen.Plan.Reading.{Step}
use htn_llm_rtl_gen.Learning.Answers.{show_step}
use htn_llm_rtl_gen.Shared.{
  ℕ, zero, suc, Bool, not, ◌&&◌, ◌||◌, none, some, List, [], ◌∷◌, ◌++◌, map, Dict, insert_all, get,
  get_elem?, drop, all, is_empty, sorted, text_lt, ◌>>=◌, Result, lstrip, rstrip, ltb, ◌==◌, nat_eq,
  if◌then◌else◌, list_eq, pair_eq, contains, Str, codes, is_digit, words, show_nat, split_on,
  strip_prefix, but_last, not_one_task, plan_and_tree_disagree, crash, ok, err,
}

-- The fields of Domain: each action's parameters with their types, the legend, and the sentences.
pub record Domain : Type 0 where
  pub params : Dict Str (List (Str × Str))
  pub legend : Str
  pub sentence : Dict Str Str

-- `line.strip()[1:-1].split()`, and the name before its arguments
unfoldable pub planned_step : Str → Result Step
planned_step line = elim (words (but_last (drop 1 (lstrip (rstrip line))))) [
  | [] ↦ err crash
  | name ∷ args ↦ ok (name, args)
]

unfoldable pub planned_steps : List Str → Result (List Step)
planned_steps [] = ok []
planned_steps (line ∷ lines) =
    if is_empty (lstrip line)
    then planned_steps lines
    else (planned_step line >>= λ s. planned_steps lines >>= λ rest. ok (s ∷ rest))

-- the numbers and tokens of the actions of a tree, in its order
unfoldable mutual
  pub leaves : Node → List (ℕ × Str)
  leaves (action token n) = (n, token) ∷ []
  leaves (task token method children) = leaves_in children

  pub leaves_in : Nodes → List (ℕ × Str)
  leaves_in no_nodes = []
  leaves_in (more_nodes n ns) = leaves n ++ leaves_in ns

unfoldable pub leaf_lt : ℕ × Str → ℕ × Str → Bool
leaf_lt (m, s) (n, t) = ltb m n || (m == n) && text_lt s t

-- `want`, from the step of number `n` on
unfoldable pub numbered_steps : ℕ → List Step → List (ℕ × Str)
numbered_steps n [] = []
numbered_steps n (s ∷ steps) = (n, show_step s) ∷ numbered_steps (suc n) steps

unfoldable pub only_child : Node → Result Node
only_child (action token n) = err not_one_task
only_child (task token method no_nodes) = err not_one_task
only_child (task token method (more_nodes top no_nodes)) = ok top
only_child (task token method (more_nodes n (more_nodes m ns))) = err not_one_task

-- The texts of the two files are `plan` and the tree whose root is `root`.
unfoldable pub load_plan : Str → Node → Result (List Step × Node)
load_plan plan root = do
  steps ← planned_steps (split_on b'\n' plan)
  top ← only_child root
  if sorted leaf_lt (leaves top) == numbered_steps 1 steps
      then ok (steps, top)
      else err plan_and_tree_disagree

-- An object as a sentence says it.
unfoldable pub dashes : Str → Str
dashes [] = []
dashes (c ∷ cs) = (if c == b'_' then b'-' else c) ∷ dashes cs

unfoldable pub digits_alone : Str → Result Str
digits_alone w = if not (is_empty w) && all is_digit w then ok w else err crash

-- `re.fullmatch(r"(?:bits|n)(\d+)", value).group(1)`
unfoldable pub number_said : Str → Result Str
number_said value = elim (strip_prefix (codes "bits") value) [
  | some w ↦ digits_alone w
  | none ↦ elim (strip_prefix (codes "n") value) [ none ↦ err crash | some w ↦ digits_alone w ]
]

unfoldable pub spoken : Str → Str → Result Str
spoken value kind =
    if kind == codes "bitval"
    then get value ((codes "zero", codes "0") ∷ (codes "one", codes "1") ∷ [])
    else (if kind == codes "polarity"
        then ok (dashes value)
        else (if kind == codes "width" || kind == codes "value"
            then number_said value
            else ok value))

-- What `str.format` has read: text, one brace, or a brace and the name after it.
pub data FormatState : Type 0 where
  in_text after_open after_close : FormatState
  in_field : Str → FormatState

-- a character of the sentence: what it adds to the text, and what has been read then
unfoldable pub format_char : Dict Str Str → FormatState → ℕ → Result (Str × FormatState)
format_char d in_text c =
    if c == b'{'
    then ok ([], after_open)
    else (if c == b'}' then ok ([], after_close) else ok (c ∷ [], in_text))
format_char d after_open c =
    if c == b'{'
    then ok (c ∷ [], in_text)
    else (if c == b'}' then err crash else ok ([], in_field (c ∷ [])))
format_char d after_close c = if c == b'}' then ok (c ∷ [], in_text) else err crash
format_char d (in_field w) c =
    if c == b'}'
    then (get w d >>= λ v. ok (v, in_text))
    else (if c == b'{' then err crash else ok ([], in_field (w ++ c ∷ [])))

unfoldable pub format_from : Dict Str Str → FormatState → Str → Result Str
format_from d in_text [] = ok []
format_from d after_open [] = err crash
format_from d after_close [] = err crash
format_from d (in_field w) [] = err crash
format_from d s (c ∷ cs) = do
  read ← format_char d s c
  rest ← format_from d read.1 cs
  ok (read.0 ++ rest)

-- `sentence.format(**d)`
unfoldable pub format : Dict Str Str → Str → Result Str
format d sentence = format_from d in_text sentence

unfoldable pub named_arguments : List (Str × Str) → List Str → List Str
named_arguments [] args = []
named_arguments (p ∷ params) [] = []
named_arguments (p ∷ params) (a ∷ args) =
    (codes ":" ++ (p.0 ++ (codes " " ++ a))) ∷ named_arguments params args

unfoldable pub spoken_arguments : List (Str × Str) → List Str → Result (List (Str × Str))
spoken_arguments [] args = ok []
spoken_arguments (p ∷ params) [] = ok []
spoken_arguments (p ∷ params) (a ∷ args) = do
  said ← spoken a p.1
  rest ← spoken_arguments params args
  ok ((p.0, said) ∷ rest)

unfoldable pub say : Domain → List (Str × Str) → Step → Result Str
say domain params (name, args) = do
  sentence ← get name domain.sentence
  said ← spoken_arguments params args
  format (insert_all said []) sentence

unfoldable pub render_step : Domain → Step → Str → Result Str
render_step domain (name, args) fmt = do
  params ← get name domain.params
  if fmt == codes "s0"
      then ok (show_step (name, args))
      else (if fmt == codes "s1" || fmt == codes "s2"
          then ok (show_step (name, named_arguments params args))
          else say domain params (name, args))

-- `steps[n - 1]`
unfoldable pub last_step : List Step → Result Step
last_step [] = err crash
last_step (s ∷ []) = ok s
last_step (s ∷ t ∷ steps) = last_step (t ∷ steps)

unfoldable pub step_numbered : List Step → ℕ → Result Step
step_numbered steps zero = last_step steps
step_numbered steps (suc n) = elim (get_elem? steps n) [ none ↦ err crash | some s ↦ ok s ]

-- f"{n}. {render_step(domain, steps[n - 1], fmt)}"
unfoldable pub step_line : Domain → List Step → Str → ℕ → Result Str
step_line domain steps fmt n = do
  s ← step_numbered steps n
  text ← render_step domain s fmt
  ok (show_nat n ++ (codes ". " ++ text))

unfoldable pub render_steps : Domain → List Step → List ℕ → Str → Result (List Str)
render_steps domain steps [] fmt = ok []
render_steps domain steps (n ∷ numbers) fmt = do
  line ← step_line domain steps fmt n
  rest ← render_steps domain steps numbers fmt
  ok (line ∷ rest)

-- the line of an action of the schema: its signature, and its sentence with the names of the parameters
unfoldable pub schema_line : Domain → Str → Result Str
schema_line domain name = do
  params ← get name domain.params
  sentence ← get name domain.sentence
  text ← format (insert_all (map (λ p. (p.0, codes ":" ++ p.0)) params) []) sentence
  ok (show_step (name, map (λ p. codes ":" ++ p.0) params) ++ (codes ": " ++ text))

unfoldable pub schema_from : Domain → List Str → List Step → Result (List Str)
schema_from domain seen [] = ok []
schema_from domain seen (s ∷ steps) = do
  own ← if contains seen s.0 then ok [] else (schema_line domain s.0 >>= λ line. ok (line ∷ []))
  rest ← schema_from domain (s.0 ∷ seen) steps
  ok (own ++ rest)

unfoldable pub render_schema : Domain → List Step → Result (List Str)
render_schema domain steps = schema_from domain [] steps >>= λ lines. ok (domain.legend ∷ lines)
