-- ===== src/Rules/Drivers.antt =====
-- one_driver and undriven of eval/learn_steps.py.
pub mod Owned
use htn_llm_rtl_gen.Shared.{
  ℕ, ◌+◌, Bool, true, false, not, ◌&&◌, ◌||◌, Option, none, some, List, [], ◌∷◌, ◌++◌, map, arith,
  Dict, lookup, insert, filter, text_lt, sorted, distinct, minus, lstrip, rstrip, starts_with, leb,
  ◌==◌, nat_eq, if◌then◌else◌, list_eq, pair_eq, contains, Str, codes, strip_prefix,
}
use htn_llm_rtl_gen.Rules.{
  names_in, cut_comment, after_char, starts_with_two, case_label, targets_in,
}
use htn_llm_rtl_gen.Rules.Scanning.{
  drop_widths, digits, drop_literals, outside, drop_sensitivity, drop_label, blank_label,
  assigned_in, run, drop_targets, any_target, assign_target,
}
use htn_llm_rtl_gen.Rules.Declared.{declaration}

abbrev pub signal_words : List Str
signal_words = codes "input" ∷ codes "output" ∷ codes "inout" ∷ codes "reg" ∷ codes "wire" ∷ []

-- the variables of one_driver; `items` and `defaults` are those of the case that is open
pub record Drivers : Type 0 where
  pub owner : Dict Str ℕ
  pub block : ℕ
  pub items : Option ℕ
  pub defaults : ℕ
  pub regs : List Str
  pub nets : List Str

abbrev pub no_drivers : Drivers
no_drivers = record { owner = []; block = 0; items = none; defaults = 0; regs = []; nets = [] }

unfoldable pub declares_reg : Str → Str → Bool
unfolding starts_with_two
declares_reg w text = (w == codes "reg") || starts_with_two (codes "output") (codes "reg") text

-- what a declaration does to the two sets of names
unfoldable pub add_signals : Bool → List Str → Drivers → Drivers
add_signals is_reg names d =
    if is_reg
    then record d { regs = d.regs ++ names; nets = filter (λ n. not (contains names n)) d.nets }
    else record d { nets = d.nets ++ filter (λ n. not (contains d.regs n)) names }

-- `re.match(word + r"\s*" + c, text)` for a character `c`
unfoldable pub word_then : Str → ℕ → Str → Bool
unfolding strip_prefix lstrip
word_then word c text = elim (strip_prefix word text) [
  | none ↦ false
  | some rest ↦ elim (after_char c (lstrip rest)) [ none ↦ false | some t ↦ true ]
]

-- the items of a case statement; `none` stands for `return False`
unfoldable pub count_item : Str → Drivers → Option Drivers
unfolding word_then case_label starts_with
count_item text d =
    if word_then (codes "case") b'(' text
    then some (record d { items = some 0; defaults = 0 })
    else if starts_with (codes "endcase") text
    then elim d.items [
      | none ↦ some (record d { items = none })
      | some n ↦ if n == 0 then none else some (record d { items = none })
    ]
    else elim d.items [
      | none ↦ some d
      | some n ↦ elim (case_label text) [
        | none ↦ some d
        | some rest ↦
            if word_then (codes "default") b':' text
            then (if leb 1 d.defaults
                then none
                else some (record d { items = some (n + 1); defaults = d.defaults + 1 }))
            else some (record d { items = some (n + 1) })
      ]
    ]

-- `targets`
unfoldable pub targets_of : Str → List Str
unfolding targets_in drop_label assigned_in starts_with
targets_of text =
    if starts_with (codes "assign") text then assigned_in text else targets_in (drop_label text)

abbrev pub is_parameter_word : Str → Bool
is_parameter_word t = (t == codes "parameter") || (t == codes "localparam")

-- a target that the loop passes by
unfoldable pub skips : Str → Str → Bool
unfolding starts_with
skips text t =
    is_parameter_word t
    || starts_with (codes "parameter") text
    || starts_with (codes "localparam") text

-- `owner.setdefault(t, block)`: the block that drives `t`, and the owners after
abbrev pub owned : Option ℕ → Str → ℕ → Dict Str ℕ → ℕ × Dict Str ℕ
owned none t b owners = (b, insert t b owners)
owned (some a) t b owners = (a, owners)

-- the loop over the targets
unfoldable pub drive : Str → List Str → Drivers → Option Drivers
unfolding skips starts_with
drive text [] d = some d
drive text (t ∷ ts) d =
    let (by, owners) = owned (lookup t d.owner) t d.block d.owner in
    let passed = drive text ts d in
    let driven = drive text ts (record d { owner = owners }) in
    if skips text t
    then passed
    else if not (starts_with (codes "assign") text) && contains d.nets t
    then none
    else if by == d.block
    then driven
    else none

unfoldable pub begins_block : Str → Bool
unfolding starts_with
begins_block text = starts_with (codes "always") text || starts_with (codes "assign") text

unfoldable pub drive_statement : Str → Drivers → Option Drivers
unfolding begins_block count_item targets_of drive
drive_statement text d =
    elim (count_item text
      (record d { block = if begins_block text then d.block + 1 else d.block })) [
        | none ↦ none
        | some e ↦ drive text (targets_of text) e
      ]

unfoldable pub drive_text : Str → Drivers → Option Drivers
unfolding declaration add_signals declares_reg names_in drop_widths drive_statement
drive_text text d = elim (declaration signal_words text) [
  | none ↦ drive_statement text d
  | some (w, rest) ↦ some (add_signals (declares_reg w text) (names_in (drop_widths none rest)) d)
]

unfoldable pub drive_lines : List Str → Drivers → Option Drivers
unfolding drive_text lstrip rstrip
drive_lines [] d = some d
drive_lines (line ∷ lines) d = elim (drive_text (lstrip (rstrip line)) d) [
  | none ↦ none
  | some e ↦ drive_lines lines e
]

unfoldable pub one_driver : List Str → Bool
unfolding drive_lines
one_driver lines = elim (drive_lines lines no_drivers) [ none ↦ false | some d ↦ true ]

abbrev item_keywords : List Str
item_keywords = codes "parameter" ∷ codes "localparam" ∷ signal_words

-- what a line of undriven adds to `regs`, `read` and `assigned`
pub record Uses : Type 0 where
  pub regs : List Str
  pub read : List Str
  pub assigned : List Str

abbrev no_uses : Uses
no_uses = record { regs = []; read = []; assigned = [] }

unfoldable pub uses_of_statement : Str → Uses
unfolding drop_sensitivity blank_label assigned_in targets_in names_in drop_targets any_target
    assign_target starts_with
uses_of_statement text =
    let plain = blank_label (drop_sensitivity outside text) in
    record {
      regs = [];
      read =
          names_in (drop_targets any_target (run []) (drop_targets assign_target (run []) plain));
      assigned = if starts_with (codes "assign") plain then assigned_in plain else targets_in plain;
    }

unfoldable pub uses_of : Str → Uses
unfolding lstrip rstrip cut_comment drop_literals declaration declares_reg names_in drop_widths
    starts_with uses_of_statement
uses_of line =
    let text = drop_literals false (digits []) (lstrip (rstrip (cut_comment line))) in
    elim (declaration item_keywords text) [
      | some (w, rest) ↦
          if declares_reg w text
          then record { regs = names_in (drop_widths none rest); read = []; assigned = [] }
          else no_uses
      | none ↦ if starts_with (codes "module") text then no_uses else uses_of_statement text
    ]

unfoldable pub join_uses : List Uses → Uses
join_uses [] = no_uses
join_uses (u ∷ us) =
    let later = join_uses us in
    record {
      regs = u.regs ++ later.regs;
      read = u.read ++ later.read;
      assigned = u.assigned ++ later.assigned;
    }

-- `sorted((read & regs) - assigned)`
unfoldable pub undriven : List Str → List Str
unfolding uses_of join_uses
undriven lines =
    let u = join_uses (map uses_of lines) in
    sorted text_lt (distinct (minus (filter (contains u.regs) u.read) u.assigned))
