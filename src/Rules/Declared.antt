-- ===== src/Rules/Declared.antt =====
-- declared_names and declared_before_use of eval/learn_steps.py.
pub mod Ordered
use htn_llm_rtl_gen.Shared.{
  ◌+◌, Bool, true, false, not, ◌&&◌, ◌||◌, Option, none, some, List, [], ◌∷◌, ◌++◌, arith, Dict,
  lookup, insert, length, drop, all, is_empty, lstrip, rstrip, ◌==◌, nat_eq, if◌then◌else◌, list_eq,
  pair_eq, contains, Str, codes, strip_prefix,
}
use htn_llm_rtl_gen.Rules.{
  leading_word, keywords, names_in, equated_in, cut_comment, after_char, after_spaces, then_match,
}
use htn_llm_rtl_gen.Rules.Scanning.{
  drop_widths, digits, drop_literals, after_word, is_target, values_in,
}

abbrev decl_words : List Str
decl_words =
    codes "input"
    ∷ codes "output"
    ∷ codes "inout"
    ∷ codes "reg"
    ∷ codes "wire"
    ∷ codes "parameter"
    ∷ codes "localparam"
    ∷ []

-- `re.match(r"(...)\b(.*)", text)`: the word, and the rest of the line
unfoldable pub declaration : List Str → Str → Option (Str × Str)
unfolding leading_word
declaration ws text =
    let w = leading_word text in if contains ws w then some (w, drop (length w) text) else none

unfoldable pub is_parameter : Str → Bool
is_parameter w = contains (codes "parameter" ∷ codes "localparam" ∷ []) w

-- the names that a declaration gives, `body` being its line without the widths
unfoldable pub names_given : Str → Str → List Str
unfolding is_parameter equated_in names_in
names_given w body = if is_parameter w then equated_in body else names_in body

-- declared_names, a line of it and the whole
unfoldable pub names_declared : Str → List Str
unfolding lstrip rstrip cut_comment declaration drop_widths names_given
names_declared line = elim (declaration decl_words (lstrip (rstrip (cut_comment line)))) [
  | none ↦ []
  | some (w, rest) ↦ names_given w (drop_widths none rest)
]

unfoldable pub declared_names : List Str → List Str
unfolding names_declared
declared_names [] = []
declared_names (line ∷ lines) = names_declared line ++ declared_names lines

-- `\)\s*;` somewhere in a text
unfoldable pub closes_ports : Str → Bool
unfolding lstrip
closes_ports [] = false
closes_ports (c ∷ cs) =
    let later = closes_ports cs in
    if c == b')'
    then (elim (after_char b';' (lstrip cs)) [ none ↦ later | some _ ↦ true ])
    else later

-- `re.match(r"module\s+\w+\s*\(.*\)\s*;", text)`
unfoldable pub is_header : Str → Bool
unfolding strip_prefix lstrip after_word closes_ports
is_header text = elim (then_match (strip_prefix (codes "module") text) after_spaces) [
  | none ↦ false
  | some t ↦ is_target t && (elim (after_char b'(' (lstrip (after_word t))) [
    | none ↦ false
    | some ports ↦ closes_ports ports
  ])
]

-- what declared_before_use reads in a line
pub data Reading : Type 0 where
  silent : Reading
  declaring : Str → List Str → List Str → Reading
  using : List Str → Reading

unfoldable pub read_text : Str → Reading
unfolding is_header declaration drop_widths names_given is_parameter values_in names_in
read_text text = if is_header text then silent else elim (declaration decl_words text) [
  | none ↦ using (names_in text)
  | some (w, rest) ↦
      let body = drop_widths none rest in
      declaring w (names_given w body) (if is_parameter w then values_in body else [])
]

unfoldable pub read_line : Str → Reading
unfolding lstrip rstrip cut_comment drop_literals read_text
read_line line =
    let text = lstrip (rstrip (cut_comment line)) in
    if is_empty text then silent else read_text (drop_literals true (digits []) text)

-- `declared`, and `kinds`: the keyword that declared each name
pub record Scope : Type 0 where
  pub declared : List Str
  pub kinds : Dict Str Str

abbrev pub empty_scope : Scope
empty_scope = record { declared = []; kinds = [] }

-- `n in kinds and not (decl.group(1) == "reg" and kinds[n] == "output")`
unfoldable pub clashes : Str → Option Str → Bool
clashes w none = false
clashes w (some k) = not ((w == codes "reg") && (k == codes "output"))

-- the loop over the names of a declaration; `none` stands for `return False`
unfoldable pub add_kinds : Str → List Str → Dict Str Str → Option (Dict Str Str)
unfolding clashes
add_kinds w [] d = some d
add_kinds w (n ∷ ns) d =
    let added = add_kinds w ns (insert n w d) in if clashes w (lookup n d) then none else added

-- `not (used - declared - KEYWORDS)`
unfoldable pub known : List Str → List Str → Bool
known declared used = all (λ n. contains declared n || contains keywords n) used

unfoldable pub scope_line : Reading → Scope → Option Scope
unfolding add_kinds known
scope_line silent s = some s
scope_line (using ns) s = if all (contains s.declared) ns then some s else none
scope_line (declaring w ns used) s =
    if known s.declared used
    then then_match (add_kinds w ns s.kinds)
        (λ ks. some (record { declared = s.declared ++ ns; kinds = ks }))
    else none

unfoldable pub scope_lines : List Str → Scope → Option Scope
unfolding read_line scope_line
scope_lines [] s = some s
scope_lines (line ∷ lines) s = then_match (scope_line (read_line line) s) (scope_lines lines)

unfoldable pub declared_before_use : List Str → Bool
unfolding scope_lines
declared_before_use lines = elim (scope_lines lines empty_scope) [ none ↦ false | some s ↦ true ]
