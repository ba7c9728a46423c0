-- ===== src/Rules/Repeats.antt =====
-- no_repeat and empty_blocks of eval/learn_steps.py.
pub mod Fresh
use htn_llm_rtl_gen.Shared.{
  ℕ, zero, suc, Bool, true, false, not, ◌&&◌, ◌||◌, Option, none, some, List, [], ◌∷◌, arith,
  length, filter, any, is_empty, lstrip, rstrip, leb, ◌==◌, nat_eq, if◌then◌else◌, list_eq, pair_eq,
  contains, Str, codes,
}
use htn_llm_rtl_gen.Rules.{
  leading_word, word_runs, words_with_tails, is_module_item, is_closer, cut_comment, after_char,
  is_word_char,
}
use htn_llm_rtl_gen.Rules.Scanning.{after_word}

unfoldable pub count_if : (Str → Bool) → List Str → ℕ
count_if p ws = length (filter p ws)

-- `len(re.findall(r"\b(end|endcase)\b", text))`, and of `begin` and `case`
unfoldable pub closers_in : Str → ℕ
unfolding count_if word_runs is_closer
closers_in text = count_if is_closer (word_runs text)

unfoldable pub openers_in : Str → ℕ
unfolding count_if word_runs
openers_in text = count_if (λ w. (w == codes "begin") || (w == codes "case")) (word_runs text)

-- `statement is not None`
unfoldable pub is_statement : Str → Bool
unfolding is_closer openers_in is_module_item
is_statement text = not (is_closer text || leb 1 (openers_in text)) && not (is_module_item text)

-- `blocks.pop()` for each closer, while another block is left
unfoldable pub pop_blocks : ℕ → List (List Str) → List (List Str)
pop_blocks zero blocks = blocks
pop_blocks (suc n) [] = []
pop_blocks (suc n) (b ∷ []) = b ∷ []
pop_blocks (suc n) (b ∷ c ∷ blocks) = pop_blocks n (c ∷ blocks)

unfoldable pub push_sets : ℕ → List (List Str) → List (List Str)
push_sets zero blocks = blocks
push_sets (suc n) blocks = push_sets n ([] ∷ blocks)

-- the statement is added to the block that is open, where there is one beside the module; `none`
-- stands for `return False`
unfoldable pub add_statement : Str → List (List Str) → Option (List (List Str))
add_statement text [] = some []
add_statement text (b ∷ []) = some (b ∷ [])
add_statement text (b ∷ c ∷ blocks) =
    if contains b text then none else some ((text ∷ b) ∷ c ∷ blocks)

unfoldable pub repeat_line : Str → List (List Str) → Option (List (List Str))
unfolding lstrip rstrip cut_comment is_statement add_statement pop_blocks push_sets closers_in
    openers_in
repeat_line line blocks =
    let text = lstrip (rstrip (cut_comment line)) in
    if is_empty text
    then some blocks
    else elim (if is_statement text then add_statement text blocks else some blocks) [
      | none ↦ none
      | some added ↦ some (push_sets (openers_in text) (pop_blocks (closers_in text) added))
    ]

unfoldable pub repeat_lines : List Str → List (List Str) → Option (List (List Str))
unfolding repeat_line
repeat_lines [] blocks = some blocks
repeat_lines (line ∷ lines) blocks = elim (repeat_line line blocks) [
  | none ↦ none
  | some next ↦ repeat_lines lines next
]

unfoldable pub no_repeat : List Str → Bool
unfolding repeat_lines
no_repeat lines = elim (repeat_lines lines ([] ∷ [])) [ none ↦ false | some blocks ↦ true ]

-- `\s*(:\s*\w+)?$` after a `begin`
abbrev all_word : Str → Bool
all_word [] = false
all_word (c ∷ cs) = is_word_char c && is_empty (after_word cs)

unfoldable pub ends_opener : Str → Bool
unfolding lstrip after_word
ends_opener tail =
    let rest = lstrip tail in
    is_empty rest
    || (elim (after_char b':' rest) [ none ↦ false | some name ↦ all_word (lstrip name) ])

-- `re.search(r"\bbegin\s*(:\s*\w+)?$", text)`
unfoldable pub ends_with_begin : Str → Bool
unfolding words_with_tails ends_opener
ends_with_begin text =
    any (λ p. (p.0 == codes "begin") && ends_opener p.1) (words_with_tails [] text)

abbrev pair_from : Option ℕ → ℕ → Bool → List (ℕ × ℕ) → List (ℕ × ℕ)
pair_from none k closes found = found
pair_from (some b) k closes found = if closes then (b, k) ∷ found else found

-- empty_blocks, from the line of the number given; `pending` is the line of a `begin` that nothing follows yet
unfoldable pub empty_from : ℕ → Option ℕ → List Str → List (ℕ × ℕ)
unfolding lstrip rstrip cut_comment leading_word ends_with_begin
empty_from k pending [] = []
empty_from k pending (line ∷ lines) =
    let text = lstrip (rstrip (cut_comment line)) in
    let passed = empty_from (suc k) pending lines in
    let opened = empty_from (suc k) (some k) lines in
    let other = empty_from (suc k) none lines in
    if is_empty text
    then passed
    else pair_from pending k (leading_word text == codes "end")
        (if ends_with_begin text then opened else other)

unfoldable pub empty_blocks : List Str → List (ℕ × ℕ)
unfolding empty_from
empty_blocks = empty_from 0 none
