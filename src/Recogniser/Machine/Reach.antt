-- ===== src/Recogniser/Machine/Reach.antt =====
-- The search of reachable_prefixes: what `mark` does to the two sets, and how much is left to find.
pub mod Search
pub mod Exact
use htn_llm_rtl_gen.Recogniser.Machine.{bit_eq, Bits, mark}
use htn_llm_rtl_gen.Shared.{
  ℕ, suc, ◌+◌, ◌-◌, ◌≤◌, ◌<◌, ◌≡◌, ◌⊎◌, true, false, List, [], ◌∷◌, arith, length, if◌then◌else◌,
  eq_iff, nat_eq, list_eq, pair_eq, contains, contains-cons,
}

module _ (y : Bits) (s : List Bits × List Bits) where
  pub mark_self : contains (mark y s).0 y ≡ true
  unfolding mark contains
  mark_self = ground (arith, eq_iff y y)

  pub mark-seen : (v : Bits) → contains s.0 v ≡ true → contains (mark y s).0 v ≡ true
  unfolding mark contains
  mark-seen v h = ground arith

  pub mark-todo : (v : Bits) → contains s.1 v ≡ true → contains (mark y s).1 v ≡ true
  unfolding mark contains
  mark-todo v h = ground arith

  pub seen_cases : (v : Bits) → contains (mark y s).0 v ≡ true → (contains s.0 v ≡ true) ⊎ (y ≡ v)
  unfolding mark contains
  seen_cases v h = ground (arith, eq_iff y v)

  pub todo_cases : (v : Bits) → contains (mark y s).1 v ≡ true → (contains s.1 v ≡ true) ⊎ (y ≡ v)
  unfolding mark contains
  todo_cases v h = ground (arith, eq_iff y v)

  -- What is new has still to be looked at.
  pub new_cases :
      (v : Bits)
      → contains (mark y s).0 v ≡ true
      → (contains s.0 v ≡ true) ⊎ (contains (mark y s).1 v ≡ true)
  unfolding mark contains
  new_cases v h = ground arith

-- How many of the prefixes have not been seen.
pub unseen : List Bits → List Bits → ℕ
unseen seen [] = 0
unseen seen (p ∷ ps) = if contains seen p then unseen seen ps else suc (unseen seen ps)

unseen-cons : (y : Bits) (seen ps : List Bits) → unseen (y ∷ seen) ps ≤ unseen seen ps
unfolding unseen
unseen-cons y seen [] = omega arith
unseen-cons y seen (p ∷ ps) = ground (arith, contains-cons y p seen, unseen-cons y seen ps)

unseen-cons_lt :
    (y : Bits) (seen ps : List Bits)
    → contains seen y ≡ false
    → contains ps y ≡ true
    → unseen (y ∷ seen) ps < unseen seen ps
unfolding unseen contains
unseen-cons_lt y seen [] h m = cc
unseen-cons_lt y seen (p ∷ ps) h m =
    ground (arith, eq_iff p y, eq_iff y p, unseen-cons y seen ps, unseen-cons_lt y seen ps)

-- To mark a prefix does not put off the end.
pub unseen-mark :
    (y : Bits) (s : List Bits × List Bits) (ps : List Bits)
    → contains ps y ≡ true
    → unseen (mark y s).0 ps + length (mark y s).1 ≤ unseen s.0 ps + length s.1
unfolding mark
unseen-mark y s ps h = ground (arith, unseen-cons_lt y s.0 ps)

pub unseen_bound : (seen ps : List Bits) → unseen seen ps ≤ length ps
unfolding unseen
unseen_bound seen [] = omega arith
unseen_bound seen (p ∷ ps) = ground (arith, unseen_bound seen ps)

pub unseen_seen :
    (y : Bits) (ps : List Bits) → contains ps y ≡ true → unseen (y ∷ []) ps < length ps
unfolding unseen contains
unseen_seen y [] h = cc
unseen_seen y (p ∷ ps) h =
    ground (arith, eq_iff p y, eq_iff y p, unseen_bound (y ∷ []) ps, unseen_seen y ps)
