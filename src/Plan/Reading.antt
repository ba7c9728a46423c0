-- ===== src/Plan/Reading.antt =====
-- read_plan and number of rtl_designs/plan_to_verilog.py.
pub mod Numbers
pub mod Printed
use htn_llm_rtl_gen.Shared.{
  digits_of, ℕ, ◌+◌, String, Bool, false, not, ◌&&◌, ◌||◌, Option, none, some, List, [], ◌∷◌, ◌++◌,
  arith, all, is_empty, Result, run_of, lstrip, leb, ◌==◌, nat_eq, if◌then◌else◌, list_eq, pair_eq,
  Str, codes, is_digit, words, read_nat, strip_prefix, no_plan, planner_failed, not_a_number, ok,
  err,
}

-- (name, [args])
abbrev pub Step : Type 0
Step = Str × List Str

-- what follows the first place where `key` stands
unfoldable pub after_first : Str → Str → Option Str
after_first key [] = strip_prefix key []
after_first key (c ∷ cs) =
    let later = after_first key cs in
    elim (strip_prefix key (c ∷ cs)) [ none ↦ later | some rest ↦ some rest ]

-- the group of the first match of `Plan found at depth (\d+)`; a place without a digit is no match
unfoldable pub depth_found : Str → Option Str
depth_found [] = none
depth_found (c ∷ cs) =
    let later = depth_found cs in
    elim (strip_prefix (codes "Plan found at depth ") (c ∷ cs)) [
      | none ↦ later
      | some rest ↦ if is_empty (digits_of rest) then later else some (digits_of rest)
    ]

-- the characters that end a line for `str.splitlines`
unfoldable pub ends_line : ℕ → Bool
ends_line c =
    (leb 10 c && leb c 13)
    || (leb 28 c && leb c 30)
    || (c == 0x85)
    || (c == 0x2028)
    || (c == 0x2029)

-- `text.splitlines()`, `line` being the line that is open; a line feed after a carriage return
-- ends no line of its own
unfoldable pub lines_from : Str → Bool → Str → List Str
lines_from line returned [] = if is_empty line then [] else line ∷ []
lines_from line returned (c ∷ cs) =
    let longer = lines_from (line ++ c ∷ []) false cs in
    let closed = lines_from [] (c == 13) cs in
    let skipped = lines_from [] false cs in
    if ends_line c then (if returned && (c == 10) then skipped else line ∷ closed) else longer

unfoldable pub splitlines : Str → List Str
unfolding lines_from ends_line
splitlines = lines_from [] false

-- `(...)\)_\d+` over the whole text: what stands before the mark
unfoldable pub before_mark : Str → Option Str
before_mark [] = none
before_mark (c ∷ cs) =
    let longer = elim (before_mark cs) as (λ _. Option Str) [
      | none ↦ none
      | some w ↦ some (c ∷ w)
    ] in
    elim (strip_prefix (codes ")_") (c ∷ cs)) [
      | none ↦ longer
      | some rest ↦ if not (is_empty rest) && all is_digit rest then some [] else longer
    ]

-- `[^\s)]+`, of a text without a space
unfoldable pub is_argument : Str → Bool
is_argument w = not (is_empty w) && all (λ c. not (c == b')')) w

-- the arguments, of which the last carries the mark
unfoldable pub arguments_of : List Str → Option (List Str)
arguments_of [] = none
arguments_of (w ∷ []) = elim (before_mark w) [
  | none ↦ none
  | some a ↦ if is_argument a then some (a ∷ []) else none
]
arguments_of (w ∷ v ∷ ws) = elim (arguments_of (v ∷ ws)) [
  | none ↦ none
  | some args ↦ if is_argument w then some (w ∷ args) else none
]

-- the name is the whole run where arguments follow, and what stands before the mark where none do
unfoldable pub step_of : Str → List Str → Option Step
step_of [] ws = none
step_of (c ∷ cs) [] = elim (before_mark (c ∷ cs)) [
  | none ↦ none
  | some [] ↦ none
  | some (n ∷ ns) ↦ some (n ∷ ns, [])
]
step_of (c ∷ cs) (w ∷ ws) = elim (arguments_of (w ∷ ws)) [
  | none ↦ none
  | some args ↦ some (c ∷ cs, args)
]

-- `re.match` of a line of the plan, and its groups
unfoldable pub plan_step : Str → Option Step
plan_step line = elim (strip_prefix (codes "(") (lstrip line)) [
  | none ↦ none
  | some t ↦ step_of (run_of t).0 (words (run_of t).1)
]

unfoldable pub steps_of : List Str → List Step
steps_of [] = []
steps_of (line ∷ lines) = elim (plan_step line) [
  | none ↦ steps_of lines
  | some step ↦ step ∷ steps_of lines
]

-- `found and found.group(1) == "0"`
unfoldable pub is_zero : Option Str → Bool
is_zero none = false
is_zero (some digits) = digits == codes "0"

-- the actions listed after "Plan:", in plan order
unfoldable pub read_plan : Str → Result (List Step)
read_plan text = elim (after_first (codes "Plan:") text) [
  | none ↦ err no_plan
  | some rest ↦
      if is_zero (depth_found text) then err planner_failed else ok (steps_of (splitlines rest))
]

-- the digits that fullmatch takes after the start of the name of an object
unfoldable pub number_after : String → Str → Option ℕ
number_after start obj = elim (strip_prefix (codes start) obj) [
  | none ↦ none
  | some digits ↦
      if not (is_empty digits) && all is_digit digits then some (read_nat digits) else none
]

-- the number a width or value object stands for
unfoldable pub number : Str → Result ℕ
number obj = elim (number_after "bits" obj) [
  | some n ↦ ok n
  | none ↦ elim (number_after "n" obj) [ some n ↦ ok n | none ↦ err (not_a_number obj) ]
]
