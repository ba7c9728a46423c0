-- ===== src/Completing/Declaring.antt =====
-- The steps of complete of rtl_designs/problem_compiler.py before the states: what the file says of
-- codes is dropped, numbers and widths are declared, the data input is found.
pub mod Declared
use htn_llm_rtl_gen.Shared.{digits_of, crash}
use htn_llm_rtl_gen.Completing.{Draft, with_facts, with_note, declare, kind_of, is_fact}
use htn_llm_rtl_gen.Problem.Sexpr.{atom}
use htn_llm_rtl_gen.Shared.{
  ℕ, ◌+◌, ◌-◌, String, Bool, true, false, not, ◌&&◌, ◌||◌, Option, none, some, List, [], ◌∷◌, ◌++◌,
  map, arith, length, drop, filter, any, all, is_empty, ◌>>=◌, Result, ltb, ◌==◌, nat_eq,
  if◌then◌else◌, list_eq, pair_eq, contains, Str, codes, is_digit, join, show_nat, read_nat,
  strip_prefix, accepting_expects, ok, err,
}

abbrev code_kinds : List Str
code_kinds = codes "state_code" ∷ codes "state_width" ∷ []

unfoldable pub drop_written : Draft → Draft
drop_written d =
    let written = filter (λ f. contains code_kinds (kind_of f)) d.facts in
    if is_empty written
    then d
    else with_note
        (codes "dropped "
          ++ (show_nat (length written) ++ codes " state-encoding facts the file wrote"))
        (with_facts (filter (λ f. not (contains code_kinds (kind_of f))) d.facts) d)

-- NAMED_TYPES: `n\d+$`, `bits\d+$` and `seq[01x_\d]+$`
unfoldable pub is_named : String → (ℕ → Bool) → Str → Bool
is_named start char a = elim (strip_prefix (codes start) a) [
  | none ↦ false
  | some t ↦ not (is_empty t) && all char t
]

abbrev pub is_value_name : Str → Bool
is_value_name = is_named "n" is_digit

abbrev pub is_width_name : Str → Bool
is_width_name = is_named "bits" is_digit

abbrev pub is_bitseq_name : Str → Bool
is_bitseq_name = is_named "seq" (λ c. is_digit c || ((c == b'x') || (c == b'_')))

-- `{a for f in facts for a in f[1:]}`, each as often as it stands
unfoldable pub arguments : List (List Str) → List Str
arguments [] = []
arguments (f ∷ fs) = drop 1 f ++ arguments fs

-- `int(re.search(r"\d+", x).group())`, which is no number where `search` gives None
unfoldable pub first_number : Str → Option ℕ
first_number [] = none
first_number (c ∷ cs) = if is_digit c then some (read_nat (digits_of (c ∷ cs))) else first_number cs

-- `x < y` of two texts
unfoldable pub text_before : Str → Str → Bool
text_before [] [] = false
text_before [] (d ∷ y) = true
text_before (c ∷ x) [] = false
text_before (c ∷ x) (d ∷ y) = ltb c d || ((c == d) && text_before x y)

unfoldable pub key_before : ℕ × Str → ℕ × Str → Bool
key_before (n, x) (m, y) = ltb n m || ((n == m) && text_before x y)

-- one more element of a sorted set
unfoldable pub insert_key : ℕ × Str → List (ℕ × Str) → List (ℕ × Str)
insert_key k [] = k ∷ []
insert_key k (j ∷ ks) =
    if k == j then j ∷ ks else if key_before k j then k ∷ j ∷ ks else j ∷ insert_key k ks

-- `sorted(..., key=...)`
unfoldable pub keyed : List Str → Result (List (ℕ × Str))
keyed [] = ok []
keyed (a ∷ more) = elim (first_number a) [
  | none ↦ err crash
  | some n ↦ do ks ← keyed more; ok (insert_key (n, a) ks)
]

-- one round of the loop over NAMED_TYPES
unfoldable pub declare_missing : (Str → Bool) → String → Draft → Result Draft
declare_missing matching type d = do
  ks ← keyed (filter (λ a. matching a && not (contains d.declared a)) (arguments d.facts))
  let missing = map (λ k. k.1) ks
  ok (
      if is_empty missing
      then d
      else with_note
          (codes "declared " ++ (join (codes " ") missing ++ (codes " as " ++ codes type)))
          (declare missing (atom (codes type)) d))

-- `{f[2] for f in facts if f[0] == "accept_state" and len(f) == 3}`
unfoldable pub third_args : List (List Str) → List Str
third_args [] = []
third_args ((k ∷ a ∷ b ∷ args) ∷ fs) = b ∷ third_args fs
third_args (_ ∷ fs) = third_args fs

unfoldable pub second_args : List (List Str) → List Str
second_args [] = []
second_args ((k ∷ a ∷ args) ∷ fs) = a ∷ second_args fs
second_args (_ ∷ fs) = second_args fs

-- an accepting state expects no further bit; the facts are the expects facts of three parts
unfoldable pub check_expects : List Str → List (List Str) → Result (Unit {0})
check_expects accepting [] = ok tt
check_expects accepting ((k ∷ a ∷ args) ∷ fs) =
    if contains accepting a
    then err (accepting_expects (k ∷ a ∷ args))
    else check_expects accepting fs
check_expects accepting (_ ∷ fs) = check_expects accepting fs

abbrev fsm_kinds : List Str
fsm_kinds = codes "sequence_detector" ∷ codes "table_fsm" ∷ codes "sequence_recogniser" ∷ []

unfoldable pub name_input : Draft → Draft
name_input d =
    let kinds = map kind_of d.facts in
    let taken =
      third_args (filter (λ f. is_fact "clock_of" 3 f || is_fact "reset_of" 3 f) d.facts) in
    let free =
      filter (λ p. not (contains taken p))
        (second_args (filter (is_fact "input_port" 2) d.facts)) in
    if any (contains fsm_kinds) kinds && not (contains kinds (codes "data_input_of"))
    then name_free free d
    else d
  where
    name_free : List Str → Draft → Draft
    name_free (p ∷ []) d =
        with_note
          (codes "named "
            ++ (p ++ codes " the data input: the only input that is not the clock or the reset"))
          (with_facts (d.facts ++ (codes "data_input_of" ∷ d.module_name ∷ p ∷ []) ∷ []) d)
    name_free _ d = d
