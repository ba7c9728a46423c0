-- ===== src/Loops/Telling.antt =====
-- Lifter.tell of eval/lift_loops.py: the literals that tell a variant of a loop's
-- groups from the others.
pub mod Told
use htn_llm_rtl_gen.Loops.{Fact, Items, no_items}
use htn_llm_rtl_gen.Lift.{is_variable}
use htn_llm_rtl_gen.Lift.Tying.{constants, product}
use htn_llm_rtl_gen.Shared.{
  ℕ, ◌+◌, Bool, true, false, not, ◌&&◌, ◌||◌, none, some, List, [], ◌∷◌, ◌++◌, map, arith, Dict,
  lookup, length, filter, any, all, is_empty, precedes, tuple_lt, sorted, distinct, ◌>>=◌, Result,
  ltb, ◌==◌, nat_eq, if◌then◌else◌, list_eq, pair_eq, contains, Str, codes, cannot_lift, ok, err,
}

-- An element of a chain: its group, the facts before it, the names of the variables, and what its
-- actions need present and absent.
pub record Row : Type 0 where
  pub items : Items
  pub state : List Fact
  pub values : Dict Str Str
  pub present : List Fact
  pub absent : List Fact

-- `values.get(x, x)`; a variable that tell knows has a value in each row
unfoldable pub value_of : Row → Str → Str
value_of row x = elim (lookup x row.values) [ none ↦ x | some y ↦ y ]

-- `back.get(a, [])`
unfoldable pub known_as : Row → List Str → Str → List Str
known_as row known a = filter (λ v. value_of row v == a) known

-- the readings of an argument: a known variable, a constant, or "_", some object
unfoldable pub readings : Row → List Str → Str → List Str
readings row known a =
    known_as row known a ++ ((if contains constants a then a ∷ [] else []) ++ codes "_" ∷ [])

abbrev speaks : List Str → Bool
speaks reading = any (λ x. is_variable x && not (x == codes "?m")) reading

-- the fact is about the element or about the context
unfoldable pub concerns : Row → List Str → List Str → Bool
concerns row params args =
    contains args (value_of row (codes "?e")) || any (λ v. contains args (value_of row v)) params

-- `?m`, the parameters and `?e`
unfoldable pub known_with : List Str → List Str
known_with params = codes "?m" ∷ (params ++ codes "?e" ∷ [])

module _ (params : List Str) (row : Row) where
  unfoldable pub literals_from : List Fact → List Fact
  literals_from [] = []
  literals_from ([] ∷ facts) = literals_from facts
  literals_from ((pred ∷ args) ∷ facts) =
      let rest = literals_from facts in
      if concerns row params args
      then map (λ r. pred ∷ r)
          (filter speaks (product (map (readings row (known_with params)) args)))
        ++ rest
      else rest

  unfoldable pub literals : List Fact
  unfolding literals_from
  literals = literals_from row.state

-- `tuple(row["values"].get(x, x) for x in lit)`
unfoldable pub grounded : Fact → Row → Fact
grounded lit row = map (value_of row) lit

-- a fact is read by a pattern, in which "_" is any object
unfoldable pub match_any : Fact → Fact → Bool
match_any [] [] = true
match_any (a ∷ fact) (b ∷ g) = if b == codes "_" || a == b then match_any fact g else false
match_any _ _ = false

-- Do all the rows need the fact (of `need`), or its absence?
unfoldable pub wanted : (Row → List Fact) → Fact → List Row → Bool
wanted need lit rows = all (λ r. any (λ f. match_any f (grounded lit r)) (need r)) rows

-- a literal, and whether it is there
abbrev pub Sign : Type 0
Sign = Fact × Bool

abbrev flag : Bool → ℕ
flag b = if b then 1 else 0

-- where the element stands in a chain comes last, then the context, "_" and the length
unfoldable pub plainness : List Str → Fact → List ℕ
plainness chain_preds [] = []
plainness chain_preds (pred ∷ args) =
    flag (contains chain_preds pred)
    ∷ flag (not (contains args (codes "?e")))
    ∷ length (filter (λ x. is_variable x && not (x == codes "?e") && not (x == codes "?m")) args)
    ∷ length (filter (λ x. x == codes "_") (pred ∷ args))
    ∷ length (pred ∷ args)
    ∷ []

abbrev is_none : Items → Bool
is_none no_items = true
is_none _ = false

-- what tells an empty group is the element's kind: `len(lit) == 2 and lit[1] == "?e"`
unfoldable pub is_kind : Fact → Bool
is_kind (pred ∷ x ∷ []) = x == codes "?e"
is_kind _ = false

module _ (chain_preds params : List Str) (mine others : List Row) where
  -- `not mine[0]["items"]`
  unfoldable pub does_nothing : Bool
  does_nothing = elim mine [ [] ↦ false | r ∷ rs ↦ is_none r.items ]

  -- The rank, with a unit more than the source's, which begins at -1.
  unfoldable pub rank : Sign → ℕ
  rank (lit, true) =
      if does_nothing && is_kind lit then 0 else if wanted (λ r. r.present) lit mine then 1 else 3
  rank (lit, false) =
      let ruled = filter (λ r. contains (literals params r) lit) others in
      if wanted (λ r. r.absent) lit mine
      then 1
      else if wanted (λ r. r.present) lit ruled
      then 2
      else 3

  unfoldable pub sign_key : Sign → List ℕ
  sign_key s = rank s ∷ flag (not s.1) ∷ plainness chain_preds s.0

  unfoldable pub sign_lt : Sign → Sign → Bool
  sign_lt s t =
      if sign_key s == sign_key t then tuple_lt s.0 t.0 else precedes ltb (sign_key s) (sign_key t)

  -- the literals that are in all the rows of `mine`
  unfoldable pub common : List Fact
  common = elim mine [
    | [] ↦ []
    | r ∷ rs ↦
        filter (λ l. all (λ s. contains (literals params s) l) rs) (distinct (literals params r))
  ]

  -- those that are in one of the others, and in none of `mine`
  unfoldable pub foreign_in : List Row → List Fact
  foreign_in [] = []
  foreign_in (r ∷ rs) =
      filter (λ l. all (λ s. not (contains (literals params s) l)) mine) (literals params r)
      ++ foreign_in rs

  unfoldable pub signs : List Sign
  unfolding common foreign_in
  signs = map (λ l. (l, true)) common ++ map (λ l. (l, false)) (distinct (foreign_in others))

  -- the row is none of the variant's, by the sign
  unfoldable pub rules_out : Sign → Row → Bool
  rules_out (lit, true) r = not (contains (literals params r) lit)
  rules_out (lit, false) r = contains (literals params r) lit

  -- the loop: `left` is the rows that are not ruled out
  unfoldable pub choose : List Row → List Sign → Result (List Sign)
  choose left [] = err (cannot_lift [])
  choose left (s ∷ ss) = elim (any (rules_out s) left) [
    | false ↦ choose left ss
    | true ↦ do
      rest ← elim (is_empty (filter (λ r. not (rules_out s r)) left)) [
        | true ↦ ok []
        | false ↦ choose (filter (λ r. not (rules_out s r)) left) ss
      ]
      ok (s ∷ rest)
  ]

  -- the signs that are chosen
  unfoldable pub tell : Result (List Sign)
  tell = if is_empty others then ok [] else choose others (sorted sign_lt signs)
