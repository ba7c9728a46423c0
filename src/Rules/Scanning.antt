-- ===== src/Rules/Scanning.antt =====
-- The substitutions that the rules of eval/learn_steps.py make in a line before they read it.
use htn_llm_rtl_gen.Shared.{
  ℕ, Bool, false, not, ◌&&◌, ◌||◌, Option, none, some, List, [], ◌∷◌, ◌++◌, is_empty, lstrip, leb,
  ◌==◌, nat_eq, if◌then◌else◌, list_eq, pair_eq, Str, codes, is_space, is_digit,
}
use htn_llm_rtl_gen.Rules.{
  is_word_char, leading_word, words_with_tails, after_char, after_spaces, is_assignment,
  after_colon, not_equals, then_match,
}

-- `re.sub(r"\[[^\]]*\]", " ", text)`. `none` is outside brackets; inside them the text read since
-- the bracket is kept, for it stands where no bracket closes it.
unfoldable pub drop_widths : Option Str → Str → Str
drop_widths none [] = []
drop_widths none (c ∷ cs) =
    let inside = drop_widths (some (b'[' ∷ [])) cs in
    let outside = drop_widths none cs in if c == b'[' then inside else c ∷ outside
drop_widths (some read) [] = read
drop_widths (some read) (c ∷ cs) =
    let outside = drop_widths none cs in
    let inside = drop_widths (some (read ++ c ∷ [])) cs in
    if c == b']' then b' ' ∷ outside else inside

-- where `re.sub` of a sized literal stands: after digits, after a literal's quote, in its digits
pub data Literal : Type 0 where
  digits : Str → Literal
  base value : Literal

-- `[bdho]` and `[0-9a-fA-FxXzZ_]`
abbrev is_base : ℕ → Bool
is_base c = (c == b'b') || (c == b'd') || (c == b'h') || (c == b'o')

abbrev is_value : ℕ → Bool
is_value c =
    is_digit c
    || (leb b'a' c && leb c b'f')
    || (leb b'A' c && leb c b'F')
    || (c == b'x')
    || (c == b'X')
    || (c == b'z')
    || (c == b'Z')
    || (c == b'_')

abbrev starts_literal : Str → Bool
starts_literal [] = false
starts_literal (b ∷ []) = false
starts_literal (b ∷ v ∷ cs) = is_base b && is_value v

-- `re.sub(r"\d*'[bdho][0-9a-fA-FxXzZ_]+", " ", text)`, and with `\d+` where `need_width`
unfoldable pub drop_literals : Bool → Literal → Str → Str
drop_literals need_width (digits read) [] = read
drop_literals need_width base [] = []
drop_literals need_width value [] = []
drop_literals need_width (digits read) (c ∷ cs) =
    let longer = drop_literals need_width (digits (read ++ c ∷ [])) cs in
    let literal = drop_literals need_width base cs in
    let outside = drop_literals need_width (digits []) cs in
    if is_digit c
    then longer
    else if (c == b'\'') && starts_literal cs && not (need_width && is_empty read)
    then b' ' ∷ literal
    else read ++ c ∷ outside
drop_literals need_width base (c ∷ cs) = drop_literals need_width value cs
drop_literals need_width value (c ∷ cs) =
    let inside = drop_literals need_width value cs in
    let next = drop_literals need_width base cs in
    let outside = drop_literals need_width (digits []) cs in
    if is_value c
    then inside
    else if (c == b'\'') && starts_literal cs && not need_width
    then b' ' ∷ next
    else c ∷ outside

-- where `re.sub` of a sensitivity list stands
pub data Sensitivity : Type 0 where
  outside : Sensitivity
  after_at inside : Str → Sensitivity

-- `re.sub(r"@\s*\([^)]*\)", " ", text)`
unfoldable pub drop_sensitivity : Sensitivity → Str → Str
drop_sensitivity outside [] = []
drop_sensitivity (after_at read) [] = read
drop_sensitivity (inside read) [] = read
drop_sensitivity outside (c ∷ cs) =
    let at = drop_sensitivity (after_at (b'@' ∷ [])) cs in
    let other = drop_sensitivity outside cs in if c == b'@' then at else c ∷ other
drop_sensitivity (after_at read) (c ∷ cs) =
    let longer = drop_sensitivity (after_at (read ++ c ∷ [])) cs in
    let opened = drop_sensitivity (inside (read ++ c ∷ [])) cs in
    let at = drop_sensitivity (after_at (b'@' ∷ [])) cs in
    let other = drop_sensitivity outside cs in
    if is_space c
    then longer
    else if c == b'('
    then opened
    else if c == b'@'
    then read ++ at
    else read ++ c ∷ other
drop_sensitivity (inside read) (c ∷ cs) =
    let longer = drop_sensitivity (inside (read ++ c ∷ [])) cs in
    let other = drop_sensitivity outside cs in if c == b')' then b' ' ∷ other else longer

-- `re.sub(r"^\s*([\w']+|default)\s*:", "", text)`
unfoldable pub drop_label : Str → Str
unfolding after_colon lstrip
drop_label text = elim (after_colon (lstrip text)) [ none ↦ text | some rest ↦ rest ]

-- `re.sub(r"^\s*([\w']+|default)\s*:(?!=)", " ", text)`
unfoldable pub blank_label : Str → Str
unfolding after_colon lstrip
blank_label text = elim (after_colon (lstrip text)) [
  | none ↦ text
  | some rest ↦ if not_equals rest then b' ' ∷ rest else text
]

-- the text before a suffix that it ends with
unfoldable pub before_suffix : Str → Str → Option Str
before_suffix suffix [] = if is_empty suffix then some [] else none
before_suffix suffix (c ∷ cs) =
    let later = before_suffix suffix cs in
    if (c ∷ cs) == suffix then some [] else elim later [ none ↦ none | some t ↦ some (c ∷ t) ]

abbrev pub is_target : Str → Bool
is_target [] = false
is_target (c ∷ cs) = is_word_char c

-- `re.findall(r"assign\s+(\w+)", text)`, from the runs of `\w`
unfoldable pub assigned_from : List (Str × Str) → List Str
unfolding before_suffix lstrip
assigned_from [] = []
assigned_from (p ∷ []) = []
assigned_from ((w, tail) ∷ (x, after) ∷ ps) =
    let taken = assigned_from ps in
    let passed = assigned_from ((x, after) ∷ ps) in
    elim (before_suffix (codes "assign") w) [
      | none ↦ passed
      | some _ ↦ elim (after_spaces tail) [
        | none ↦ passed
        | some t ↦ if is_target t then x ∷ taken else passed
      ]
    ]

unfoldable pub assigned_in : Str → List Str
unfolding words_with_tails assigned_from
assigned_in text = assigned_from (words_with_tails [] text)

-- Where a substitution of a run of `\w` with what follows it up to a `=` stands: in a run, or
-- before the `=`.
pub data Target : Type 0 where
  run : Str → Target
  equals : Target

-- `re.sub` of the runs that a test chooses by the run and its tail; it gives what is left of the run
unfoldable pub drop_targets : (Str → Str → Option Str) → Target → Str → Str
drop_targets chosen (run w) [] = w
drop_targets chosen equals [] = []
drop_targets chosen (run w) (c ∷ cs) =
    let longer = drop_targets chosen (run (w ++ c ∷ [])) cs in
    let fresh = drop_targets chosen (run []) cs in
    let tail = drop_targets chosen equals cs in
    if is_word_char c then longer else elim (chosen w (c ∷ cs)) [
      | none ↦ w ++ c ∷ fresh
      | some left ↦ left ++ (b' ' ∷ (if c == b'=' then fresh else tail))
    ]
drop_targets chosen equals (c ∷ cs) =
    let fresh = drop_targets chosen (run []) cs in
    let tail = drop_targets chosen equals cs in if c == b'=' then fresh else tail

-- `(\w+)\s*<?=(?!=)`
unfoldable pub any_target : Str → Str → Option Str
unfolding is_assignment
any_target [] tail = none
any_target (c ∷ w) tail = if is_assignment tail then some [] else none

-- `assign\s+\w+\s*=`
unfoldable pub after_word : Str → Str
after_word [] = []
after_word (c ∷ cs) = if is_word_char c then after_word cs else c ∷ cs

unfoldable pub assign_target : Str → Str → Option Str
unfolding before_suffix lstrip after_word
assign_target w tail = then_match (before_suffix (codes "assign") w) (λ left.
    then_match (after_spaces tail) (λ t.
      if is_target t
      then then_match (after_char b'=' (lstrip (after_word t))) (λ _. some left)
      else none))

-- `re.findall(r"=\s*([A-Za-z_]\w*)", text)`
abbrev name_first : Str → List Str → List Str
name_first [] found = found
name_first (c ∷ cs) found =
    if is_word_char c && not (is_digit c) then (c ∷ leading_word cs) ∷ found else found

unfoldable pub values_in : Str → List Str
unfolding lstrip leading_word
values_in [] = []
values_in (c ∷ cs) =
    let later = values_in cs in if c == b'=' then name_first (lstrip cs) later else later
