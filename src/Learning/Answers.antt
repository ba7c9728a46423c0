-- ===== src/Learning/Answers.antt =====
-- What eval/learn_ground.py and eval/learn_steps.py read of a domain, a problem and a reply, and how a
-- list of steps is written.
use htn_llm_rtl_gen.Shared.{
  ℕ, suc, ◌-◌, ◌&&◌, Option, none, some, List, [], ◌∷◌, ◌++◌, map, Dict, insert_all, is_empty,
  ◌>>=◌, Result, lstrip, rstrip, digits_of, leb, ◌==◌, nat_eq, if◌then◌else◌, list_eq, pair_eq, Str,
  codes, is_digit, join, words, show_nat, read_nat, strip_prefix, crash, ok, err,
}
use htn_llm_rtl_gen.Plan.Reading.{Step, splitlines, after_first}

-- `[(x, tokens[i + 1]) for x in pending]`
abbrev typed_all : List Str → Str → List (Str × Str)
typed_all pending t = map (λ x. (x, t)) pending

-- typed. A type that is missing after a dash raises where a name is to have it.
unfoldable pub typed_from : List Str → List Str → Result (List (Str × Str))
typed_from pending [] = ok (typed_all pending (codes "object"))
typed_from pending (w ∷ []) =
    if w == codes "-"
    then (if is_empty pending then ok [] else err crash)
    else ok (typed_all (pending ++ w ∷ []) (codes "object"))
typed_from pending (w ∷ t ∷ tokens) =
    let closed = typed_from [] tokens in
    let longer = typed_from (pending ++ w ∷ []) (t ∷ tokens) in
    if w == codes "-" then (closed >>= λ rest. ok (typed_all pending t ++ rest)) else longer

unfoldable pub typed : List Str → Result (List (Str × Str))
unfolding typed_from
typed tokens = typed_from [] tokens

-- `"(" + " ".join([name] + list(args)) + ")"`
unfoldable pub show_step : Step → Str
show_step (name, args) = codes "(" ++ (join (codes " ") (name ∷ args) ++ codes ")")

-- show
unfoldable pub show : List Step → Str
unfolding show_step
show steps = join (codes "\n") (map show_step steps)

-- `re.search(r"\d+", reply)`
unfoldable pub first_digits : Str → Str
unfolding digits_of
first_digits [] = []
first_digits (c ∷ cs) =
    let later = first_digits cs in if is_digit c then digits_of (c ∷ cs) else later

-- choice: an index into a menu of `n` entries
unfoldable pub choice : Str → ℕ → Option ℕ
unfolding first_digits read_nat
choice reply n =
    let found = first_digits reply in
    let k = read_nat found in
    if is_empty found then none else if leb 1 k && leb k n then some (k - 1) else none

-- the steps of the task network, numbered from `i`
unfoldable pub network_from : ℕ → List Step → List Str
unfolding show_step show_nat
network_from i [] = []
network_from i (s ∷ steps) =
    (codes "      (t" ++ (show_nat i ++ (codes " " ++ (show_step s ++ codes ")"))))
    ∷ network_from (suc i) steps

-- the block that with_steps writes
unfoldable pub network : List Step → Str
unfolding network_from
network steps =
    codes "(:htn\n    :parameters ()\n    :ordered-subtasks (and\n"
    ++ (join (codes "\n") (network_from 1 steps) ++ codes "\n    )\n  )")

-- `(:htn.*?\n  \)`: the text before it and the text after it
unfoldable pub around_network : Str → Option (Str × Str)
unfolding strip_prefix after_first
around_network [] = none
around_network (c ∷ cs) =
    let later = around_network cs in
    elim (strip_prefix (codes "(:htn") (c ∷ cs)) [
      | some rest ↦ elim (after_first (codes "\n  )") rest) [
        | none ↦ none
        | some after ↦ some ([], after)
      ]
      | none ↦ elim later [ none ↦ none | some (before, after) ↦ some (c ∷ before, after) ]
    ]

-- with_steps, which ends the program where there is no task network
unfoldable pub with_steps : Str → List Step → Result Str
unfolding around_network network
with_steps compiled steps = elim (around_network compiled) [
  | none ↦ err crash
  | some (before, after) ↦ ok (before ++ (network steps ++ after))
]

-- the text before the first place where `key` stands
unfoldable pub before_first : Str → Str → Option Str
before_first key [] = none
before_first key (c ∷ cs) =
    let later = before_first key cs in
    elim (strip_prefix key (c ∷ cs)) [
      | some rest ↦ some []
      | none ↦ elim later [ none ↦ none | some before ↦ some (c ∷ before) ]
    ]

-- `line.rsplit(" - ", 1)` where the dash is in the line
unfoldable pub last_dash : Str → Option (Str × Str)
last_dash [] = none
last_dash (c ∷ cs) = elim (last_dash cs) [
  | some (before, after) ↦ some (c ∷ before, after)
  | none ↦ elim (strip_prefix (codes " - ") (c ∷ cs)) [
    | none ↦ none
    | some after ↦ some ([], after)
  ]
]

unfoldable pub names_on : List Str → Dict Str Str → Dict Str Str
unfolding last_dash words lstrip rstrip
names_on [] names = names
names_on (line ∷ lines) names =
    let passed = names_on lines names in
    elim (last_dash line) [
      | none ↦ passed
      | some (listed, type_) ↦
          names_on lines (insert_all (map (λ n. (n, lstrip (rstrip type_))) (words listed)) names)
    ]

-- the domain's constants
abbrev pub constants_known : Dict Str Str
constants_known =
    (codes "zero", codes "bitval")
    ∷ (codes "one", codes "bitval")
    ∷ (codes "active_high", codes "polarity")
    ∷ (codes "active_low", codes "polarity")
    ∷ []

-- objects_of
unfoldable pub objects_of : Str → Result (Dict Str Str)
unfolding after_first before_first names_on splitlines
objects_of compiled = elim (after_first (codes "(:objects") compiled) [
  | none ↦ err crash
  | some rest ↦ elim (before_first (codes "\n  )") rest) [
    | none ↦ err crash
    | some block ↦ ok (names_on (splitlines block) constants_known)
  ]
]
