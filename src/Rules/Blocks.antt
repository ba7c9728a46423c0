-- ===== src/Rules/Blocks.antt =====
-- well_formed of eval/learn_steps.py.
pub mod Nested
use htn_llm_rtl_gen.Shared.{
  ℕ, zero, suc, Bool, true, false, not, ◌&&◌, ◌||◌, Option, none, some, List, [], ◌∷◌, arith,
  length, drop, any, is_empty, ◌>>=◌, Result, lstrip, rstrip, starts_with, ◌==◌, nat_eq,
  if◌then◌else◌, list_eq, pair_eq, Str, codes, crash, out_of_fuel, ok, err,
}
use htn_llm_rtl_gen.Rules.{
  leading_word, word_runs, is_module_item, is_closer, case_label, starts_with_two,
}

-- what opens a block
pub data Opener : Type 0 where
  begin_block case_block : Opener

abbrev pub is_case : Opener → Bool
is_case begin_block = false
is_case case_block = true

abbrev pub same_opener : Opener → Opener → Bool
same_opener begin_block k = not (is_case k)
same_opener case_block k = is_case k

-- The three variables of the loop, the top of each stack first. A block is kept with whether an
-- `else` may follow it once it is closed.
pub record Checker : Type 0 where
  pub stack : List (Opener × Bool)
  pub may_else : List Bool
  pub seen_module : Bool

abbrev pub fresh : Checker
fresh = record { stack = []; may_else = false ∷ []; seen_module = false }

-- `may_else.pop()` and `may_else[-1] = e`
unfoldable pub pop_and_set : Bool → List Bool → Result (List Bool)
pop_and_set e [] = err crash
pop_and_set e (m ∷ []) = err crash
pop_and_set e (m ∷ n ∷ ms) = ok (e ∷ ms)

-- what a closer does to the two stacks; `none` stands for `return False`
unfoldable pub close_block : Opener → Checker → Result (Option Checker)
unfolding pop_and_set
close_block kind b = elim b.stack [
  | [] ↦ ok none
  | (k, e) ∷ ks ↦
      if same_opener k kind
      then (pop_and_set e b.may_else >>= λ ms. ok (some (record b { stack = ks; may_else = ms })))
      else ok none
]

abbrev pub end_word : Str
end_word = codes "end"

abbrev pub endcase_word : Str
endcase_word = codes "endcase"

abbrev pub endmodule_word : Str
endmodule_word = codes "endmodule"

-- what follows a closer that a text starts with
unfoldable pub after_closer : Opener → Str → Str
unfolding lstrip
after_closer begin_block text = lstrip (drop 3 text)
after_closer case_block text = lstrip (drop 7 text)

-- The `while` over the closers at the start of a line: the text left and the state. Each closer
-- takes three characters at least, so the length of the line and one is enough fuel.
unfoldable pub take_closers : ℕ → Str → Checker → Result (Option (Str × Checker))
take_closers zero text b = err out_of_fuel
take_closers (suc fuel) text b =
    let after_case = take_closers fuel (after_closer case_block text) in
    let after_end = take_closers fuel (after_closer begin_block text) in
    if starts_with endmodule_word text
    then ok (if is_empty b.stack then some ([], b) else none)
    else if leading_word text == endcase_word
    then (close_block case_block b >>= λ r. elim r [ none ↦ ok none | some b' ↦ after_case b' ])
    else if leading_word text == end_word
    then (close_block begin_block b >>= λ r. elim r [ none ↦ ok none | some b' ↦ after_end b' ])
    else ok (some (text, b))

-- `may_else[-1]`
abbrev pub top_of : List Bool → Result Bool
top_of [] = err crash
top_of (e ∷ es) = ok e

-- `re.findall(r"\b(begin|case)\b", rest)`
unfoldable pub openers_from : List Str → List Opener
openers_from [] = []
openers_from (w ∷ ws) =
    let rest = openers_from ws in
    if w == codes "begin"
    then begin_block ∷ rest
    else if w == codes "case"
    then case_block ∷ rest
    else rest

unfoldable pub openers : Str → List Opener
unfolding word_runs openers_from
openers text = openers_from (word_runs text)

-- the loop over the openers of a line; the first of them goes with the `if` of the line
unfoldable pub push_blocks : Bool → List Opener → Checker → Checker
push_blocks is_if [] b = b
push_blocks is_if (k ∷ ks) b =
    push_blocks false ks (record b { stack = (k, is_if) ∷ b.stack; may_else = false ∷ b.may_else })

-- `may_else[-1] = e`
abbrev pub set_last : Bool → List Bool → Result (List Bool)
set_last e [] = err crash
set_last e (_ ∷ es) = ok (e ∷ es)

abbrev pub set_may_else : Bool → Checker → Result Checker
set_may_else e b = do ms ← set_last e b.may_else; ok (record b { may_else = ms })

unfoldable pub open_blocks : Bool → List Opener → Checker → Result Checker
unfolding push_blocks
open_blocks is_if [] b = set_may_else is_if b
open_blocks is_if (k ∷ ks) b = do c ← set_may_else false b; ok (push_blocks is_if (k ∷ ks) c)

-- `stack[-1][0] == "case"`
abbrev top_is_case : List (Opener × Bool) → Bool
top_is_case [] = false
top_is_case ((k, e) ∷ ks) = is_case k

abbrev pub inside_case : Checker → Bool
inside_case b = top_is_case b.stack

-- `label`, and `rest` after it
unfoldable pub label_of : Bool → Str → Option Str
label_of is_item text = if is_item then none else case_label text

abbrev pub after_label : Option Str → Str → Str
after_label none text = text
after_label (some rest) text = rest

abbrev is_some : Option Str → Bool
is_some none = false
is_some (some t) = true

unfoldable pub else_first : Str → Bool
unfolding leading_word
else_first rest = leading_word rest == codes "else"

unfoldable pub if_first : Str → Bool
unfolding leading_word
if_first rest =
    (leading_word rest == codes "if") || starts_with_two (codes "else") (codes "if") rest

-- what a statement may not do, given whether it has a label and an `else` and whether one may come
unfoldable pub misplaced : Bool → Bool → Bool → Bool → Bool
misplaced in_case has_label is_else follows =
    (in_case && not has_label && not (is_else && follows))
    || (is_else && not has_label && not follows)

-- `return False`, or what comes next
abbrev pub refuse_or : Bool → Result Checker → Result (Option Checker)
refuse_or true next = ok none
refuse_or false (err e) = err e
refuse_or false (ok c) = ok (some c)

-- the lines of the loop after the label is found
unfoldable pub check_statement : Option Str → Str → Checker → Result (Option Checker)
unfolding misplaced open_blocks else_first if_first openers is_closer word_runs
check_statement label text b =
    let rest = after_label label text in
    let is_else = else_first rest in
    if is_some label && not (inside_case b) then ok none else do
      follows ← (if is_else && not (is_some label) then top_of b.may_else else ok false)
      let refused = misplaced (inside_case b) (is_some label) is_else follows
      refuse_or (refused || any is_closer (word_runs rest))
          (open_blocks (if_first rest) (openers rest) b)

-- the loop's body after the closers
unfoldable pub check_text : Str → Checker → Result (Option Checker)
unfolding check_statement label_of
check_text text b =
    let is_item = is_module_item text in
    let is_module = starts_with (codes "module") text in
    if is_item && (not (is_empty b.stack) || (is_module && b.seen_module))
    then ok none
    else if not is_item && is_empty b.stack
    then ok none
    else check_statement (label_of is_item text) text
        (record b { seen_module = b.seen_module || (is_item && is_module) })

unfoldable pub check_line : Str → Checker → Result (Option Checker)
unfolding take_closers check_text lstrip rstrip
check_line line b = do
  let text = lstrip (rstrip line)
  r ← take_closers (suc (length text)) text b
  elim r [
    | none ↦ ok none
    | some (rest, c) ↦ if is_empty rest then ok (some c) else check_text rest c
  ]

unfoldable pub check_lines : List Str → Checker → Result (Option Checker)
unfolding check_line
check_lines [] b = ok (some b)
check_lines (line ∷ lines) b = do
  r ← check_line line b
  elim r [ none ↦ ok none | some c ↦ check_lines lines c ]

unfoldable pub well_formed : List Str → Result Bool
unfolding check_lines
well_formed lines = do r ← check_lines lines fresh; ok (elim r [ none ↦ false | some c ↦ true ])
