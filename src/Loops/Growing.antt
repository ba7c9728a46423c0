-- ===== src/Loops/Growing.antt =====
-- chain_position and grow of eval/lift_loops.py.
pub mod Kept
use htn_llm_rtl_gen.Loops.{Chain, Placed}
use htn_llm_rtl_gen.Shared.{
  ℕ, suc, ◌+◌, Bool, false, Option, none, some, List, [], ◌∷◌, ◌++◌, arith, Dict, lookup, insert,
  get_elem?, ◌==◌, nat_eq, if◌then◌else◌, list_eq, pair_eq, contains, Str,
}

-- the first argument that is an element of the chain, counted from `p`
unfoldable pub first_place : ℕ → List Str → List Str → Option ℕ
first_place p order [] = none
first_place p order (a ∷ args) =
    let later = first_place (suc p) order args in if contains order a then some p else later

-- `p if p < len(args) and args[p] in chain.order else None`
unfoldable pub fixed_place : List Str → List Str → ℕ → Option ℕ
fixed_place order args p = elim (get_elem? args p) [
  | none ↦ none
  | some a ↦ if contains order a then some p else none
]

unfoldable pub chain_position : Placed → Chain → Dict Str ℕ → Option ℕ
chain_position s chain position = elim (lookup s.name position) [
  | some p ↦ fixed_place chain.order s.args p
  | none ↦ first_place 0 chain.order s.args
]

-- `step[1][p]`, where there is a position `p`
unfoldable pub element : Placed → Chain → Dict Str ℕ → Option (ℕ × Str)
element s chain position = elim (chain_position s chain position) [
  | none ↦ none
  | some p ↦ elim (get_elem? s.args p) [ none ↦ none | some e ↦ some (p, e) ]
]

-- An element and the steps that name it.
abbrev pub Group : Type 0
Group = Str × List Placed

-- `groups[-1][0] == elem`, where there is a group
unfoldable pub is_last : List Group → Str → Bool
is_last [] e = false
is_last (g ∷ []) e = g.0 == e
is_last (g ∷ h ∷ gs) e = is_last (h ∷ gs) e

-- `groups[-1][1].append(step)`
unfoldable pub append_last : List Group → Placed → List Group
append_last [] s = []
append_last ((e, ss) ∷ []) s = (e, ss ++ s ∷ []) ∷ []
append_last (g ∷ h ∷ gs) s = g ∷ append_last (h ∷ gs) s

-- `position.setdefault(name, p)`
unfoldable pub set_default : Str → ℕ → Dict Str ℕ → Dict Str ℕ
set_default k v d = elim (lookup k d) [ none ↦ insert k v d | some u ↦ d ]

-- the number of steps taken, the positions and the groups
pub record Run : Type 0 where
  pub taken : ℕ
  pub position : Dict Str ℕ
  pub groups : List Group

module _ (chain : Chain) where
  -- the loop: `seen` is the elements of the groups, `k` the number of steps taken
  unfoldable pub grow_from : Dict Str ℕ → List Group → List Str → ℕ → List Placed → Run
  grow_from position groups seen k [] = record { taken = k; position = position; groups = groups }
  grow_from position groups seen k (s ∷ steps) = elim (element s chain position) [
    | none ↦ record { taken = k; position = position; groups = groups }
    | some (p, e) ↦
        let position' = set_default s.name p position in
        let longer = grow_from position' (append_last groups s) seen (suc k) steps in
        let another = grow_from position' (groups ++ (e, s ∷ []) ∷ []) (e ∷ seen) (suc k) steps in
        if is_last groups e
        then longer
        else if contains seen e
        then record { taken = k; position = position; groups = groups }
        else another
  ]

-- the longest run from the first of the steps that groups by elements of `chain`
unfoldable pub grow : List Placed → Chain → Run
unfolding grow_from
grow steps chain = grow_from chain [] [] [] 0 steps
