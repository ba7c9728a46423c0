-- ===== src/Lift/Tying.antt =====
-- The loop that ties variables in lift_case of eval/lift.py and in Lifter.tie of eval/lift_loops.py,
-- which differ in how they weigh a reading.
pub mod Choices
pub mod Tied
use htn_llm_rtl_gen.Loops.{Fact}
use htn_llm_rtl_gen.Lift.{Columns, is_variable, picks_out}
use htn_llm_rtl_gen.Shared.{
  ℕ, zero, suc, ◌+◌, Bool, true, false, not, ◌&&◌, ◌||◌, none, some, List, [], ◌∷◌, ◌++◌, map,
  arith, length, filter, all, is_empty, precedes, text_lt, tuple_lt, least, minus, same_set, ◌>>=◌,
  Result, ltb, ◌==◌, nat_eq, if◌then◌else◌, list_eq, pair_eq, contains, Str, codes, join,
  cannot_lift, out_of_fuel, ok, err,
}

abbrev pub constants : List Str
constants = codes "zero" ∷ codes "one" ∷ codes "active_high" ∷ codes "active_low" ∷ []

-- `[v for v, col in variables.items() if col[0] == a]`
unfoldable pub named_first : Str → Columns → List Str
named_first a [] = []
named_first a ((v, []) ∷ variables) = named_first a variables
named_first a ((v, x ∷ col) ∷ variables) =
    let rest = named_first a variables in if x == a then v ∷ rest else rest

-- the ways of reading an argument
unfoldable pub choices : Columns → Str → List Str
choices variables a = named_first a variables ++ (if contains constants a then a ∷ [] else [])

-- `itertools.product(*choices)`
unfoldable pub each_with : List Str → List (List Str) → List (List Str)
each_with [] rests = []
each_with (x ∷ xs) rests = map (λ r. x ∷ r) rests ++ each_with xs rests

unfoldable pub product : List (List Str) → List (List Str)
unfolding each_with
product [] = [] ∷ []
product (xs ∷ xss) = each_with xs (product xss)

-- the variables of a reading that are not bound, each once
unfoldable pub unbound_in : List Str → List Str → List Str
unbound_in bound [] = []
unbound_in bound (x ∷ reading) =
    let rest = unbound_in bound reading in
    if is_variable x && not (contains bound x) && not (contains rest x) then x ∷ rest else rest

-- a condition: a predicate and the reading of its arguments
abbrev pub Condition : Type 0
Condition = Str × List Str

-- The tuple that is compared: numbers, then the predicate and the reading.
abbrev pub Candidate : Type 0
Candidate = List ℕ × Condition

unfoldable pub candidate_lt : Candidate → Candidate → Bool
candidate_lt (w, (p, r)) (w', (p', r')) =
    let by_pred = (if p == p' then tuple_lt r r' else text_lt p p') in
    if w == w' then by_pred else precedes ltb w w'

-- 1 where the name is not in the reading
unfoldable pub apart : Str → List Str → ℕ
apart x reading = if contains reading x then 0 else 1

-- the weight of lift_case: "?m" not in it, and its variables
unfoldable pub case_weight : List Str → List ℕ
case_weight reading = apart (codes "?m") reading ∷ length (filter is_variable reading) ∷ []

-- the weight of tie
unfoldable pub loop_weight : List Str → List ℕ
loop_weight reading =
    apart (codes "?e") reading
    ∷ apart (codes "?m") reading
    ∷ length (filter (λ x. is_variable x && not (x == codes "?e") && not (x == codes "?m")) reading)
    ∷ []

-- `all(picks_out(e, k, ...) for k, e in enumerate(examples))`, from `k` on
unfoldable pub all_pick : Columns → List Str → Condition → ℕ → List (List Fact) → Bool
all_pick variables bound c k [] = true
all_pick variables bound c k (facts ∷ examples) =
    if picks_out variables k bound c.0 c.1 facts
    then all_pick variables bound c (suc k) examples
    else false

abbrev pub names : Columns → List Str
names variables = map (λ v. v.0) variables

module _ (weigh : List Str → List ℕ) (examples : List (List Fact)) (variables : Columns) where
  -- the candidates that a fact's readings give
  unfoldable pub candidates_from : List Str → Str → List (List Str) → List Candidate
  candidates_from bound pred [] = []
  candidates_from bound pred (reading ∷ readings) =
      let rest = candidates_from bound pred readings in
      let new = unbound_in bound reading in
      if not (is_empty new) && all_pick variables bound (pred, reading) 0 examples
      then (length new ∷ weigh reading, (pred, reading)) ∷ rest
      else rest

  unfoldable pub candidates : List Str → List Fact → List Candidate
  candidates bound [] = []
  candidates bound ([] ∷ facts) = candidates bound facts
  candidates bound ((pred ∷ args) ∷ facts) =
      candidates_from bound pred (product (map (choices variables) args)) ++ candidates bound facts

  -- the variables that are not bound are all tentative
  unfoldable pub only_tentative : List Str → List Str → Bool
  only_tentative tentative bound =
      all (λ v. contains bound v || contains tentative v) (names variables)

  -- The loop: what `variables` is at its end, and the conditions that it adds. A round binds a variable,
  -- so that there is a round for each at most, and the test after them.
  unfoldable pub tie : ℕ → List Str → List Str → List Fact → Result (Columns × List Condition)
  tie zero tentative bound facts = err out_of_fuel
  tie (suc fuel) tentative bound facts =
      if same_set bound (names variables)
      then ok (variables, [])
      else elim (least candidate_lt (candidates bound facts)) [
        | none ↦
            if only_tentative tentative bound
            then ok (filter (λ v. contains bound v.0) variables, [])
            else err (cannot_lift (join (codes ", ") (minus (names variables) bound)))
        | some c ↦ do
          rest ← tie fuel tentative (bound ++ unbound_in bound c.1.1) facts
          ok (rest.0, c.1 ∷ rest.1)
      ]
