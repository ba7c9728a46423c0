-- ===== src/Recogniser/Names/Placed.antt =====
-- Every prefix is placed by the first loop of state_names, and named by the second.
use htn_llm_rtl_gen.Recogniser.Machine.{bit_eq, Bits}
use mathlib.Core.Path.{subst}
use htn_llm_rtl_gen.Recogniser.Names.{
  place, outputs_at, append_at, name_outputs, match_name, name_group, name_groups,
}
use htn_llm_rtl_gen.Shared.{
  ℕ, suc, ◌≡◌, ◌⊎◌, inl, inr, Bool, true, false, ◌||◌, none, some, List, [], ◌∷◌, ◌++◌, arith, Dict,
  lookup, insert, lookup-insert, length, ◌==◌, eq_iff, nat_eq, list_eq, pair_eq, ne_of_beq,
  contains, contains-nil, contains_cases, Bool-cases, Str,
}

-- A prefix is in one of the groups.
abbrev pub grouped : Dict ℕ (List Bits) → Bits → Bool
grouped [] x = false
grouped ((len, group) ∷ groups) x = contains group x || grouped groups x

contains-append :
    (xs : List Bits) (x y : Bits) → contains (xs ++ x ∷ []) y ≡ (contains xs y || (x == y))
unfolding contains
contains-append [] x y = ground arith
contains-append (z ∷ xs) x y = ground (arith, contains-append xs x y)

abbrev group_at : ℕ → Dict ℕ (List Bits) → List Bits
group_at n groups = elim (lookup n groups) [ none ↦ [] | some group ↦ group ]

grouped-insert_new :
    (n : ℕ) (new : List Bits) (groups : Dict ℕ (List Bits)) (y : Bits)
    → contains new y ≡ true
    → grouped (insert n new groups) y ≡ true
unfolding insert
grouped-insert_new n new [] y h = ground arith
grouped-insert_new n new ((m, g) ∷ groups) y h = ground (arith, grouped-insert_new n new groups y h)

grouped-insert_old :
    (n : ℕ) (new : List Bits) (groups : Dict ℕ (List Bits)) (y : Bits)
    → (contains (group_at n groups) y ≡ true → contains new y ≡ true)
    → grouped groups y ≡ true
    → grouped (insert n new groups) y ≡ true
unfolding insert lookup
grouped-insert_old n new [] y keep h = cc
grouped-insert_old n new ((m, g) ∷ groups) y keep h = elim (Bool-cases (m == n)) [
  | inl same ↦ let keep' = rw (same, group_at) at keep in rw same (ground arith)
  | inr other ↦
      let keep' = rw (other, group_at) at keep in
      rw other (ground (arith, grouped-insert_old n new groups y keep'))
]

grouped-append_at_new :
    (n : ℕ) (x : Bits) (groups : Dict ℕ (List Bits)) → grouped (append_at n x groups) x ≡ true
unfolding append_at
grouped-append_at_new n x groups =
    grouped-insert_new n (group_at n groups ++ x ∷ []) groups x
      (ground (arith, contains-append (group_at n groups) x x, eq_iff x x))

grouped-append_at_old :
    (n : ℕ) (x : Bits) (groups : Dict ℕ (List Bits)) (y : Bits)
    → grouped groups y ≡ true
    → grouped (append_at n x groups) y ≡ true
unfolding append_at
grouped-append_at_old n x groups y =
    grouped-insert_old n (group_at n groups ++ x ∷ []) groups y
      λ h. ground (arith, contains-append (group_at n groups) x y)

-- A prefix has its name, or is in a group and will get one.
abbrev pub IsPlaced : Dict Bits Str × Dict ℕ (List Bits) → Bits → Type 0
IsPlaced s y = ((name : Str) × (lookup y s.0 ≡ some name)) ⊎ (grouped s.1 y ≡ true)

lookup-insert-some :
    (x : Bits) (v : Str) (names : Dict Bits Str) (y : Bits)
    → (x ≡ y) ⊎ ((name : Str) × (lookup y names ≡ some name))
    → (name : Str) × (lookup y (insert x v names) ≡ some name)
lookup-insert-some x v names y h = elim (Bool-cases (x == y)) [
  | inl same ↦ (v, rw (lookup-insert, same))
  | inr other ↦ elim h [
    | inl e ↦ absurd (ne_of_beq other e)
    | inr (name, p) ↦ (name, rw (lookup-insert, other) p)
  ]
]

place-IsPlaced :
    (outs : List Str) (x : Bits) (s : Dict Bits Str × Dict ℕ (List Bits)) (y : Bits)
    → (x ≡ y) ⊎ IsPlaced s y
    → IsPlaced (place outs x s) y
unfolding place
place-IsPlaced [] x (names, groups) y (inl e) = inr (
    subst (λ t. grouped (append_at (length x) x groups) t ≡ true) e
      (grouped-append_at_new (length x) x groups))
place-IsPlaced [] x (names, groups) y (inr (inl named)) = inl named
place-IsPlaced [] x (names, groups) y (inr (inr there)) =
    inr (grouped-append_at_old (length x) x groups y there)
place-IsPlaced (out ∷ outs) x (names, groups) y (inl e) =
    inl (lookup-insert-some x _ names y (inl e))
place-IsPlaced (out ∷ outs) x (names, groups) y (inr (inl named)) =
    inl (lookup-insert-some x _ names y (inr named))
place-IsPlaced (out ∷ outs) x (names, groups) y (inr (inr there)) = inr there

-- The first loop places every prefix that it passes, and loses none.
pub name_outputs-IsPlaced :
    (recognised : List (Str × Bits)) (xs : List Bits) (s : Dict Bits Str × Dict ℕ (List Bits))
    (y : Bits)
    → (contains xs y ≡ true) ⊎ IsPlaced s y
    → IsPlaced (name_outputs recognised xs s) y
unfolding name_outputs
name_outputs-IsPlaced recognised [] s y (inl h) = cc (h, contains-nil y)
name_outputs-IsPlaced recognised [] s y (inr h) = h
name_outputs-IsPlaced recognised (x ∷ xs) s y (inl h) = elim (contains_cases x y xs h) [
  | inl e ↦
      name_outputs-IsPlaced recognised xs _ y
        (inr (place-IsPlaced (outputs_at recognised x) x s y (inl e)))
  | inr later ↦ name_outputs-IsPlaced recognised xs _ y (inl later)
]
name_outputs-IsPlaced recognised (x ∷ xs) s y (inr h) =
    name_outputs-IsPlaced recognised xs _ y
      (inr (place-IsPlaced (outputs_at recognised x) x s y (inr h)))

abbrev pub IsNamed : Dict Bits Str → Bits → Type 0
IsNamed names y = (name : Str) × (lookup y names ≡ some name)

name_group-IsNamed :
    (len size i : ℕ) (xs : List Bits) (names : Dict Bits Str) (y : Bits)
    → (contains xs y ≡ true) ⊎ IsNamed names y
    → IsNamed (name_group len size i xs names) y
unfolding name_group
name_group-IsNamed len size i [] names y (inl h) = cc (h, contains-nil y)
name_group-IsNamed len size i [] names y (inr h) = h
name_group-IsNamed len size i (x ∷ xs) names y (inl h) = elim (contains_cases x y xs h) [
  | inl e ↦
      name_group-IsNamed len size (suc i) xs _ y
        (inr (lookup-insert-some x (match_name len i size) names y (inl e)))
  | inr later ↦ name_group-IsNamed len size (suc i) xs _ y (inl later)
]
name_group-IsNamed len size i (x ∷ xs) names y (inr h) =
    name_group-IsNamed len size (suc i) xs _ y
      (inr (lookup-insert-some x (match_name len i size) names y (inr h)))

pub name_groups-IsNamed :
    (groups : Dict ℕ (List Bits)) (names : Dict Bits Str) (y : Bits)
    → (grouped groups y ≡ true) ⊎ IsNamed names y
    → IsNamed (name_groups groups names) y
unfolding name_groups
name_groups-IsNamed [] names y (inl h) = cc
name_groups-IsNamed [] names y (inr h) = h
name_groups-IsNamed ((len, group) ∷ groups) names y (inr h) =
    name_groups-IsNamed groups _ y
      (inr (name_group-IsNamed len (length group) 0 group names y (inr h)))
name_groups-IsNamed ((len, group) ∷ groups) names y (inl h) = elim (Bool-cases (contains group y)) [
  | inl here ↦
      name_groups-IsNamed groups _ y
        (inr (name_group-IsNamed len (length group) 0 group names y (inl here)))
  | inr below ↦ name_groups-IsNamed groups _ y (inl (ground arith))
]
