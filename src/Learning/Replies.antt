-- ===== src/Learning/Replies.antt =====
-- answer_steps of eval/learn_ground.py: the steps that a reply lists.
use htn_llm_rtl_gen.Shared.{
  ℕ, zero, suc, ◌-◌, Bool, not, ◌&&◌, ◌||◌, Option, none, some, List, [], ◌∷◌, ◌++◌, length, take,
  any, is_empty, lstrip, rstrip, some_digits, leb, ◌==◌, nat_eq, if◌then◌else◌, list_eq, pair_eq,
  Str, is_space, words, strip_prefix,
}
use htn_llm_rtl_gen.Plan.Reading.{Step, splitlines, after_first}
use htn_llm_rtl_gen.Learning.Answers.{before_first}

-- What answer_steps returns: the steps, or why there are none.
pub data Answer : Type 0 where
  listed_steps : List Step → Answer
  no_block no_step : Answer
  unreadable : Str → Answer

-- `\s*\n` as far as it goes: what follows the last line feed of the spaces that a text starts with
unfoldable pub after_line_feed : Str → Option Str
after_line_feed [] = none
after_line_feed (c ∷ cs) =
    let later = after_line_feed cs in
    let here = if c == 10 then some cs else none in
    if is_space c then (elim later [ some rest ↦ some rest | none ↦ here ]) else none

-- `[a-z]*` as far as it goes
unfoldable pub after_letters : Str → Str
after_letters [] = []
after_letters (c ∷ cs) = if leb b'a' c && leb c b'z' then after_letters cs else c ∷ cs

abbrev fence : Str
fence = b'`' ∷ b'`' ∷ b'`' ∷ []

-- a block that a text starts with, and what follows it
unfoldable pub block_first : Str → Option (Str × Str)
unfolding strip_prefix after_letters after_line_feed before_first after_first
block_first text = elim (strip_prefix fence text) [
  | none ↦ none
  | some t ↦ elim (after_line_feed (after_letters t)) [
    | none ↦ none
    | some body ↦ elim (before_first fence body) [
      | none ↦ none
      | some block ↦ elim (after_first fence body) [ none ↦ none | some rest ↦ some (block, rest) ]
    ]
  ]
]

-- `re.findall`: the last block, which `found` is where there is no later one. After a block, the
-- characters that it took are passed by.
unfoldable pub last_block : ℕ → Str → Option Str → Option Str
unfolding block_first
last_block passed [] found = found
last_block (suc passed) (c ∷ cs) found = last_block passed cs found
last_block zero (c ∷ cs) found = elim (block_first (c ∷ cs)) [
  | some (block, rest) ↦ last_block (length cs - length rest) cs (some block)
  | none ↦ last_block zero cs found
]

abbrev is_paren : ℕ → Bool
is_paren c = (c == b'(') || (c == b')')

abbrev named_step : List Str → Option Step
named_step [] = none
named_step (name ∷ args) = some (name, args)

-- the group and the closing brackets of a step in brackets, after its first one
unfoldable pub closes_step : Str → Bool
unfolding lstrip
closes_step text = let rest = lstrip text in is_empty rest || (rest == b')' ∷ [])

unfoldable pub bracketed : Str → Option Step
unfolding strip_prefix before_first after_first words closes_step
bracketed text = elim (strip_prefix (b'(' ∷ []) text) [
  | none ↦ none
  | some inner ↦ elim (before_first (b')' ∷ []) inner) [
    | none ↦ none
    | some content ↦ elim (after_first (b')' ∷ []) inner) [
      | none ↦ none
      | some rest ↦
          if closes_step rest && not (any is_paren content)
          then named_step (words content)
          else none
    ]
  ]
]

-- `\(\s*t\d+\s*`
unfoldable pub after_task_label : Str → Option Str
unfolding strip_prefix lstrip some_digits
after_task_label text = elim (strip_prefix (b'(' ∷ []) text) [
  | none ↦ none
  | some t ↦ elim (strip_prefix (b't' ∷ []) (lstrip t)) [
    | none ↦ none
    | some u ↦ elim (some_digits u) [ none ↦ none | some rest ↦ some (lstrip rest) ]
  ]
]

-- `\d+[.):]\s*`
unfoldable pub after_number : Str → Option Str
unfolding some_digits lstrip
after_number text = elim (some_digits text) [
  | none ↦ none
  | some [] ↦ none
  | some (c ∷ cs) ↦ if (c == b'.') || (c == b')') || (c == b':') then some (lstrip cs) else none
]

-- the first that is a step
abbrev or_else : Option Step → Option Step → Option Step
or_else none later = later
or_else (some s) later = some s

abbrev after_label_read : (Str → Option Step) → Option Str → Option Step
after_label_read reads none = none
after_label_read reads (some rest) = reads rest

-- names alone, from the first character of the text to its last
unfoldable pub bare : Str → Option Step
unfolding words lstrip rstrip
bare text =
    if (lstrip (rstrip text) == text) && not (any is_paren text)
    then named_step (words text)
    else none

-- the two patterns of a step
unfoldable pub step_on : Str → Option Step
unfolding bracketed bare after_task_label after_number
step_on line = or_else (after_label_read bracketed (after_task_label line)) (
    or_else (after_label_read bracketed (after_number line))
      (or_else (bracketed line) (or_else (after_label_read bare (after_number line)) (bare line))))

-- `line.split(";")[0].strip()`
unfoldable pub before_semicolon : Str → Str
before_semicolon [] = []
before_semicolon (c ∷ cs) = let rest = before_semicolon cs in if c == b';' then [] else c ∷ rest

-- the loop over the lines, after the steps read
unfoldable pub steps_on : List Step → List Str → Answer
unfolding step_on before_semicolon lstrip rstrip
steps_on [] [] = no_step
steps_on (s ∷ steps) [] = listed_steps (s ∷ steps)
steps_on steps (line ∷ lines) =
    let text = lstrip (rstrip (before_semicolon line)) in
    if is_empty text then steps_on steps lines else elim (step_on text) [
      | none ↦ unreadable (take 120 text)
      | some s ↦ steps_on (steps ++ s ∷ []) lines
    ]

unfoldable pub answer_steps : Str → Answer
unfolding last_block steps_on splitlines
answer_steps reply = elim (last_block 0 reply none) [
  | none ↦ no_block
  | some block ↦ steps_on [] (splitlines block)
]
