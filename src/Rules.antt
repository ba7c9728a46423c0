-- ===== src/Rules.antt =====
-- The rules of eval/learn_steps.py that the lines of a module are held to: what its regular
-- expressions match.
pub mod Scanning
pub mod Blocks
pub mod Declared
pub mod Drivers
pub mod Repeats
use htn_llm_rtl_gen.Shared.{
  ℕ, ◌+◌, ◌/◌, ◌<◌, Bool, true, false, not, ◌&&◌, ◌||◌, Option, none, some, List, [], ◌∷◌, ◌++◌,
  map, arith, filter, lstrip, after_digits, leb, ◌==◌, nat_eq, if◌then◌else◌, list_eq, pair_eq,
  contains, Str, codes, is_space, is_digit, strip_prefix,
}

-- `\w`, of the ASCII texts that the templates write
unfoldable pub is_word_char : ℕ → Bool
unfolding is_digit
is_word_char c =
    is_digit c || (leb b'a' c && leb c b'z') || (leb b'A' c && leb c b'Z') || (c == b'_')

-- the longest run of `\w` that stands first, which `word\b` at the start of a text is compared with
unfoldable pub leading_word : Str → Str
leading_word [] = []
leading_word (c ∷ cs) = let rest = leading_word cs in if is_word_char c then c ∷ rest else []

abbrev keep_word : Str → Str → List (Str × Str) → List (Str × Str)
keep_word [] tail found = found
keep_word (c ∷ w) tail found = (c ∷ w, tail) ∷ found

-- the longest runs of `\w`, each with the text after it; `open_word` is the run that is open
unfoldable pub words_with_tails : Str → Str → List (Str × Str)
words_with_tails open_word [] = keep_word open_word [] []
words_with_tails open_word (c ∷ cs) =
    let longer = words_with_tails (open_word ++ c ∷ []) cs in
    let fresh = words_with_tails [] cs in
    if is_word_char c then longer else keep_word open_word (c ∷ cs) fresh

-- the runs of `\w` of a text, which `\b(a|b)\b` is compared with
unfoldable pub word_runs : Str → List Str
unfolding words_with_tails
word_runs text = map (λ p. p.0) (words_with_tails [] text)

abbrev keep_name : Str → List Str → List Str
keep_name [] found = found
keep_name (c ∷ w) found = (c ∷ w) ∷ found

-- `re.findall(r"[A-Za-z_]\w*", text)`: the runs, less the digits that they begin with
unfoldable pub names_from : List Str → List Str
unfolding after_digits
names_from [] = []
names_from (w ∷ ws) = keep_name (after_digits w) (names_from ws)

abbrev pub keywords : List Str
keywords =
    codes "module"
    ∷ codes "endmodule"
    ∷ codes "input"
    ∷ codes "output"
    ∷ codes "inout"
    ∷ codes "reg"
    ∷ codes "wire"
    ∷ codes "parameter"
    ∷ codes "localparam"
    ∷ codes "assign"
    ∷ codes "always"
    ∷ codes "initial"
    ∷ codes "begin"
    ∷ codes "end"
    ∷ codes "if"
    ∷ codes "else"
    ∷ codes "case"
    ∷ codes "endcase"
    ∷ codes "default"
    ∷ codes "posedge"
    ∷ codes "negedge"
    ∷ codes "or"
    ∷ codes "and"
    ∷ codes "not"
    ∷ codes "integer"
    ∷ codes "signed"
    ∷ []

-- the names that `re.findall(r"[A-Za-z_]\w*", text)` finds and that are no keyword
unfoldable pub names_in : Str → List Str
unfolding word_runs names_from
names_in text = filter (λ n. not (contains keywords n)) (names_from (word_runs text))

-- MODULE_ITEM
abbrev pub item_words : List Str
item_words =
    codes "module"
    ∷ codes "input"
    ∷ codes "output"
    ∷ codes "inout"
    ∷ codes "reg"
    ∷ codes "wire"
    ∷ codes "parameter"
    ∷ codes "localparam"
    ∷ codes "assign"
    ∷ codes "always"
    ∷ codes "initial"
    ∷ []

unfoldable pub is_module_item : Str → Bool
unfolding leading_word
is_module_item text = contains item_words (leading_word text)

-- `[\w']+` as far as it goes: whether it matched, and what follows it
unfoldable pub after_label_word : Bool → Str → Option Str
after_label_word matched [] = if matched then some [] else none
after_label_word matched (c ∷ cs) =
    let later = after_label_word true cs in
    if is_word_char c || (c == b'\'') then later else if matched then some (c ∷ cs) else none

-- what stands after a character that a text starts with
abbrev pub after_char : ℕ → Str → Option Str
after_char k [] = none
after_char k (c ∷ cs) = if c == k then some cs else none

-- `(?!=)`
abbrev pub not_equals : Str → Bool
not_equals [] = true
not_equals (c ∷ cs) = not (c == b'=')

-- one part of an expression after another
abbrev pub then_match {ℓ κ} : {A : Type ℓ} {B : Type κ} → Option A → (A → Option B) → Option B
then_match none next = none
then_match (some a) next = next a

-- `([\w']+|default)\s*:`: what follows it
unfoldable pub after_colon : Str → Option Str
unfolding after_label_word lstrip
after_colon text = then_match (after_label_word false text) (λ rest. after_char b':' (lstrip rest))

-- CASE_LABEL: what follows it
unfoldable pub case_label : Str → Option Str
unfolding after_colon lstrip
case_label text =
    then_match (after_colon text) (λ rest. if not_equals rest then some (lstrip rest) else none)

-- CLOSER
unfoldable pub is_closer : Str → Bool
unfolding leading_word
is_closer text = (leading_word text == codes "end") || (leading_word text == codes "endcase")

-- `\s+`: what follows it
abbrev pub after_spaces : Str → Option Str
after_spaces [] = none
after_spaces (c ∷ cs) = if is_space c then some (lstrip cs) else none

-- `re.match(first + r"\s+" + second + r"\b", text)`
unfoldable pub starts_with_two : Str → Str → Str → Bool
unfolding strip_prefix lstrip leading_word
starts_with_two first second text = elim (strip_prefix first text) [
  | none ↦ false
  | some rest ↦ elim (after_spaces rest) [ none ↦ false | some t ↦ leading_word t == second ]
]

-- `\s*<?=(?!=)` at the start of a text
abbrev pub skip_less : Str → Str
skip_less [] = []
skip_less (c ∷ cs) = if c == b'<' then cs else c ∷ cs

unfoldable pub is_assignment : Str → Bool
unfolding lstrip
is_assignment tail = elim (after_char b'=' (skip_less (lstrip tail))) [
  | none ↦ false
  | some t ↦ not_equals t
]

-- `re.findall(r"(\w+)\s*<?=(?!=)", text)`
unfoldable pub targets_in : Str → List Str
unfolding words_with_tails is_assignment
targets_in text = map (λ p. p.0) (filter (λ p. is_assignment p.1) (words_with_tails [] text))

-- `re.findall(r"(\w+)\s*=", text)`
unfoldable pub equated_in : Str → List Str
unfolding words_with_tails lstrip
equated_in text =
    map (λ p. p.0)
      (filter (λ p. elim (after_char b'=' (lstrip p.1)) [ none ↦ false | some t ↦ true ])
        (words_with_tails [] text))

-- `re.sub(r"//.*", "", text)` of a text of one line
unfoldable pub cut_comment : Str → Str
cut_comment [] = []
cut_comment (c ∷ []) = c ∷ []
cut_comment (c ∷ d ∷ cs) =
    let rest = cut_comment (d ∷ cs) in if (c == b'/') && (d == b'/') then [] else c ∷ rest
