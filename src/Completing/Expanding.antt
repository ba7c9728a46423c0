-- ===== src/Completing/Expanding.antt =====
-- expand_sequences of rtl_designs/problem_compiler.py: the states of a recogniser of sequences.
pub mod Listed
pub mod ReadBack
pub mod Outcomes
pub mod Correct
pub mod Whole
use htn_llm_rtl_gen.Completing.{Draft, with_facts, with_note, declare, kind_of, is_fact}
use htn_llm_rtl_gen.Problem.Sexpr.{Sexpr, atom, list}
use htn_llm_rtl_gen.Recogniser.Machine.{Bit, b0, b1, bit_eq, Bits, reachable_prefixes}
use htn_llm_rtl_gen.Recogniser.Sequence.{sequence_bits}
use htn_llm_rtl_gen.Recogniser.Names.{state_names}
use htn_llm_rtl_gen.Recogniser.Prefixes.{prefixes_of, ends_of}
use htn_llm_rtl_gen.Shared.{
  ℕ, zero, ◌+◌, ◌-◌, String, Bool, true, false, not, ◌&&◌, ◌||◌, Option, none, some, List, [], ◌∷◌,
  ◌++◌, map, arith, Dict, length, filter, is_empty, ◌>>=◌, get, Result, ltb, ◌==◌, nat_eq,
  if◌then◌else◌, list_eq, pair_eq, contains, Str, codes, join, show_nat, not_a_sequence,
  asserted_in_several, names_no_output, no_sequence_begins, never_completes, ok, err,
}

-- `BIT[b]`
abbrev pub bit_word : Bit → Str
bit_word b0 = codes "zero"
bit_word b1 = codes "one"

-- the bit that a word of `BIT.values()` stands for
unfoldable pub word_bit : Str → Option Bit
word_bit w = if w == bit_word b0 then some b0 else if w == bit_word b1 then some b1 else none

abbrev pub expanded_kinds : List Str
expanded_kinds =
    codes "sequence_start"
    ∷ codes "child"
    ∷ codes "no_child"
    ∷ codes "holds_on"
    ∷ codes "first_listed"
    ∷ codes "listed_after"
    ∷ codes "last_listed"
    ∷ codes "initial_state"
    ∷ codes "asserted_in"
    ∷ []

-- the output and the bits of each stated fact; the first that names no bits is refused
unfoldable pub recognised_of : List (List Str) → Result (List (Str × Bits))
recognised_of [] = ok []
recognised_of ((k ∷ m ∷ out ∷ seq ∷ _) ∷ fs) = elim (sequence_bits seq) [
  | none ↦ err (not_a_sequence seq)
  | some bits ↦ do rest ← recognised_of fs; ok ((out, bits) ∷ rest)
]
recognised_of (_ ∷ fs) = recognised_of fs

-- `if [kind, module] not in facts`
unfoldable pub add_kind : String → Draft → Draft
add_kind kind d =
    let f = codes kind ∷ d.module_name ∷ [] in
    if contains d.facts f
    then d
    else with_note (codes "added (" ++ (join (codes " ") f ++ codes "): it recognises sequences"))
        (with_facts (d.facts ++ f ∷ []) d)

unfoldable pub drop_expanded : Draft → Draft
drop_expanded d =
    let dropped = filter (λ f. contains expanded_kinds (kind_of f)) d.facts in
    if is_empty dropped
    then d
    else with_note
        (codes "dropped "
          ++ (show_nat (length dropped)
              ++ codes " state facts the file wrote: the states are derived from the sequences"))
        (with_facts (filter (λ f. not (contains expanded_kinds (kind_of f))) d.facts) d)

-- `t == "fsm_state"`
unfoldable pub is_state_type : List Str × Sexpr → Bool
is_state_type (names, atom t) = t == codes "fsm_state"
is_state_type (names, list xs) = false

-- the names of the objects that are states
unfoldable pub state_objects : List (List Str × Sexpr) → List Str
state_objects [] = []
state_objects (o ∷ os) =
    let rest = state_objects os in if is_state_type o then o.0 ++ rest else rest

unfoldable pub drop_states : Draft → Draft
drop_states d =
    let written = state_objects d.objects in
    if is_empty written then d else record {
      name = d.name;
      module_name = d.module_name;
      objects = filter (λ o. not (is_state_type o)) d.objects;
      facts = d.facts;
      declared = filter (λ n. not (contains written n)) d.declared;
      notes = d.notes;
    }

-- `[state_name(x) for x in xs]`
unfoldable pub names_of : Dict Bits Str → List Bits → Result (List Str)
names_of names [] = ok []
names_of names (x ∷ xs) = do n ← get x names; rest ← names_of names xs; ok (n ∷ rest)

unfoldable pub child_fact : List Bits → Dict Bits Str → Bits → Bit → Result (List Str)
child_fact prefixes names x b = do
  n ← get x names
  elim (contains prefixes (x ++ b ∷ [])) [
    | true ↦ do m ← get (x ++ b ∷ []) names; ok (codes "child" ∷ n ∷ bit_word b ∷ m ∷ [])
    | false ↦ ok (codes "no_child" ∷ n ∷ bit_word b ∷ [])
  ]

-- `for x in prefixes: for b in "01"`
unfoldable pub child_facts : List Bits → Dict Bits Str → List Bits → Result (List (List Str))
child_facts prefixes names [] = ok []
child_facts prefixes names (x ∷ xs) = do
  on_zero ← child_fact prefixes names x b0
  on_one ← child_fact prefixes names x b1
  rest ← child_facts prefixes names xs
  ok (on_zero ∷ on_one ∷ rest)

-- `for out, bits in recognised`: the state in which each output is 1
unfoldable pub output_facts :
    List Bits → Dict Bits Str → List (Str × Bits) → Result (List (List Str))
output_facts prefixes names [] = ok []
output_facts prefixes names ((out, bits) ∷ rs) = elim (length (ends_of prefixes bits) == 1) [
  | true ↦ do
    n ← get bits names
    rest ← output_facts prefixes names rs
    ok ((codes "asserted_in" ∷ out ∷ n ∷ []) ∷ rest)
  | false ↦ err (asserted_in_several out (length (ends_of prefixes bits)))
]

-- `[bits for out, bits in recognised if out == f[1]]`
unfoldable pub bits_of : Str → List (Str × Bits) → List Bits
bits_of o [] = []
bits_of o ((out, bits) ∷ rs) = let rest = bits_of o rs in if out == o then bits ∷ rest else rest

unfoldable pub hold_facts : Dict Bits Str → Str → List Bits → Result (List (List Str))
hold_facts names word [] = ok []
hold_facts names word (bits ∷ more) = do
  n ← get bits names
  rest ← hold_facts names word more
  ok ((codes "holds_on" ∷ n ∷ word ∷ []) ∷ rest)

-- the loop over the keeps_while facts of three parts
unfoldable pub keep_facts :
    Dict Bits Str → List (Str × Bits) → List (List Str) → Result (List (List Str))
keep_facts names recognised [] = ok []
keep_facts names recognised ((k ∷ o ∷ w ∷ args) ∷ fs) =
    elim (is_empty (bits_of o recognised) || elim (word_bit w) [ none ↦ true | some b ↦ false ]) [
      | true ↦ err (names_no_output (k ∷ o ∷ w ∷ args))
      | false ↦ do
        holds ← hold_facts names w (bits_of o recognised)
        rest ← keep_facts names recognised fs
        ok (holds ++ rest)
    ]
keep_facts names recognised (_ ∷ fs) = keep_facts names recognised fs

-- after reset: nothing matched, or what the first reset_as_previous fact says
unfoldable pub start_of : List Bits → List (List Str) → Result Bits
start_of prefixes [] = ok []
start_of prefixes ((k ∷ m ∷ w ∷ args) ∷ fs) = elim (word_bit w) [
  | none ↦ err (no_sequence_begins (k ∷ m ∷ w ∷ args))
  | some b ↦
      if contains prefixes (b ∷ [])
      then ok (b ∷ [])
      else err (no_sequence_begins (k ∷ m ∷ w ∷ args))
]
start_of prefixes (_ ∷ fs) = start_of prefixes fs

-- (bits, b) for each output that is kept while the input is b
unfoldable pub holding_of : List (Str × Bits) → List (List Str) → List (Bits × Bit)
holding_of recognised [] = []
holding_of recognised ((k ∷ o ∷ w ∷ args) ∷ fs) =
    let rest = holding_of recognised fs in
    elim (word_bit w) [
      | none ↦ rest
      | some b ↦ map (λ bits. (bits, b)) (bits_of o recognised) ++ rest
    ]
holding_of recognised (_ ∷ fs) = holding_of recognised fs

-- the reset state first, then the other prefixes that the machine can be in
unfoldable pub listed_states : List Bits → List Bits → Bits → List Bits
listed_states prefixes reachable start =
    start ∷ filter (λ x. contains reachable x && not (x == start)) prefixes

-- `zip(names_listed, names_listed[1:])`, from a name on
unfoldable pub listed_after : Str → List Str → List (Str × Str)
listed_after a [] = []
listed_after a (b ∷ ns) = (a, b) ∷ listed_after b ns

unfoldable pub last_of : Str → List Str → Str
last_of a [] = a
last_of a (b ∷ ns) = last_of b ns

unfoldable pub chain_facts : Str → List Str → List (List Str)
chain_facts m [] = []
chain_facts m (a ∷ ns) =
    (codes "first_listed" ∷ m ∷ a ∷ [])
    ∷ (map (λ p. codes "listed_after" ∷ p.0 ∷ p.1 ∷ []) (listed_after a ns)
        ++ (codes "last_listed" ∷ m ∷ last_of a ns ∷ []) ∷ [])

-- each sequence can complete
unfoldable pub all_complete : List Bits → List (Str × Bits) → Result (Unit {0})
all_complete reachable [] = ok tt
all_complete reachable ((out, bits) ∷ rs) =
    if contains reachable bits then all_complete reachable rs else err (never_completes out)

-- the note on what was expanded
unfoldable pub expansion_note : ℕ → ℕ → ℕ → Str
expansion_note sequences listed prefixes =
    codes "expanded "
    ++ (show_nat sequences
        ++ (codes " sequences into "
            ++ (show_nat listed
                ++ (codes " states"
                    ++ (if ltb listed prefixes
                        then codes ", and "
                          ++ (show_nat (prefixes - listed)
                              ++ codes " more that the machine is never in")
                        else [])))))

-- from `start = ""` on: the reset state, and the states that are listed
unfoldable pub list_states : List (Str × Bits) → Dict Bits Str → Draft → Result Draft
list_states recognised names d = do
  let prefixes = prefixes_of recognised
  start ← start_of prefixes (filter (is_fact "reset_as_previous" 3) d.facts)
  initial ← get start names
  let facts = d.facts ++ (codes "initial_state" ∷ d.module_name ∷ initial ∷ []) ∷ []
  let holding = holding_of recognised (filter (is_fact "keeps_while" 3) facts)
  reachable ← reachable_prefixes prefixes holding start
  let listed = listed_states prefixes reachable start
  listed_names ← names_of names listed
  done ← all_complete reachable recognised
  ok (
      with_note (expansion_note (length recognised) (length listed) (length prefixes))
        (with_facts (facts ++ chain_facts d.module_name listed_names) d))

-- from `prefixes = sorted(...)` on
unfoldable pub expand : List (Str × Bits) → Draft → Result Draft
expand recognised d = do
  let prefixes = prefixes_of recognised
  names ← state_names prefixes recognised
  states ← names_of names prefixes
  nothing ← get [] names
  children ← child_facts prefixes names prefixes
  outputs ← output_facts prefixes names recognised
  let stated =
      d.facts ++ ((codes "sequence_start" ∷ d.module_name ∷ nothing ∷ []) ∷ children ++ outputs)
  keeps ← keep_facts names recognised (filter (is_fact "keeps_while" 3) stated)
  list_states recognised names
      (with_facts (stated ++ keeps) (declare states (atom (codes "fsm_state")) d))

-- expand_sequences
unfoldable pub expand_sequences : Draft → Result Draft
expand_sequences d = elim (filter (is_fact "recognises" 4) d.facts) [
  | [] ↦ ok d
  | f ∷ fs ↦ do
    recognised ← recognised_of (f ∷ fs)
    expand recognised
        (drop_states (drop_expanded (add_kind "moore" (add_kind "sequence_recogniser" d))))
]
