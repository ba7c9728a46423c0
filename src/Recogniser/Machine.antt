-- ===== src/Recogniser/Machine.antt =====
-- reachable_prefixes of rtl_designs/problem_compiler.py. A state of the recogniser is a prefix of a
-- recognised sequence; `fail` leads to the state where the machine goes on when a sequence breaks off.
pub mod Links
pub mod Total
pub mod Run
pub mod Longest
pub mod Reach
use htn_llm_rtl_gen.Shared.{
  ℕ, zero, suc, ◌+◌, ◌-◌, ◌≤◌, ◌≡◌, refl, ap, ◌↔◌, Bool, true, false, List, [], ◌∷◌, ◌++◌, arith,
  Dict, insert, length, is_empty, ◌>>=◌, get, Result, if◌then◌else◌, nat_eq, list_eq, pair_eq,
  contains, Eq, out_of_fuel, ok, err,
}

-- The characters "0" and "1" of a sequence.
pub data Bit : Type 0 where
  b0 b1 : Bit

abbrev pub bit_beq : Bit → Bit → Bool
bit_beq b0 b0 = true
bit_beq b1 b1 = true
bit_beq _ _ = false

pub bit_beq_iff : (a b : Bit) → (bit_beq a b ≡ true) ↔ (a ≡ b)
bit_beq_iff b0 b0 = ground arith
bit_beq_iff b0 b1 = ground arith
bit_beq_iff b1 b0 = ground arith
bit_beq_iff b1 b1 = ground arith

instance abbrev pub bit_eq : Eq Bit
bit_eq = record { beq = bit_beq; beq_iff = bit_beq_iff }

abbrev pub Bits : Type 0
Bits = List Bit

-- x[:-1] and x[-1] of `c ∷ x`
unfoldable pub unsnoc : Bit → Bits → Bits × Bit
unsnoc c [] = ([], c)
unsnoc c (d ∷ x) = let (front, last) = unsnoc d x in (c ∷ front, last)

-- x[:-1] and x[-1] make up x.
pub unsnoc-append : (c : Bit) (x : Bits) → (unsnoc c x).0 ++ (unsnoc c x).1 ∷ [] ≡ c ∷ x
unfolding unsnoc
unsnoc-append c [] = refl
unsnoc-append c (d ∷ x) = ap (λ t. c ∷ t) (unsnoc-append d x)

-- Every prefix of a prefix is one, as in the set that expand_sequences builds.
abbrev pub IsClosed : List Bits → Type 0
IsClosed prefixes =
    (x : Bits) (b : Bit) → contains prefixes (x ++ b ∷ []) ≡ true → contains prefixes x ≡ true

-- `sorted(..., key=lambda x: (len(x), x))`: no prefix stands before a shorter one.
abbrev pub ShortestFirst : List Bits → Type 0
ShortestFirst [] = Unit
ShortestFirst (x ∷ xs) =
    ((y : Bits) → contains xs y ≡ true → length x ≤ length y) × ShortestFirst xs

-- `if y not in seen: seen.add(y); todo.append(y)`; the last of `todo` is the head here.
unfoldable pub mark : Bits → List Bits × List Bits → List Bits × List Bits
mark y (seen, todo) = if contains seen y then (seen, todo) else (y ∷ seen, y ∷ todo)

module _ (prefixes : List Bits) (holding : List (Bits × Bit)) where
  -- `fail[x]` is shorter than `x`, so a call goes no deeper than the length of `x`.
  unfoldable pub step : ℕ → Dict Bits Bits → Bits → Bit → Result Bits
  step zero fail x b = err out_of_fuel
  step (suc f) fail x b =
      let onward = (do y ← get x fail; step f fail y b) in
      if contains holding (x, b)
      then ok x
      else if contains prefixes (x ++ b ∷ [])
      then ok (x ++ b ∷ [])
      else if is_empty x
      then ok []
      else onward

  -- step(x, b) with the rounds it needs
  unfoldable pub step_from : Dict Bits Bits → Bits → Bit → Result Bits
  unfolding step
  step_from fail x b = step (length x + 1) fail x b

  -- `for x in prefixes: if x: fail[x] = ...`
  unfoldable pub fail_links : List Bits → Dict Bits Bits → Result (Dict Bits Bits)
  unfolding step_from unsnoc
  fail_links [] fail = ok fail
  fail_links ([] ∷ xs) fail = fail_links xs fail
  fail_links ((c ∷ []) ∷ xs) fail = fail_links xs (insert (c ∷ []) [] fail)
  fail_links ((c ∷ d ∷ x) ∷ xs) fail = do
    let (front, last) = unsnoc c (d ∷ x)
    y ← get front fail
    z ← step_from fail y last
    fail_links xs (insert (c ∷ d ∷ x) z fail)

  -- `while todo:`, a round for each state that is popped
  unfoldable pub explore : ℕ → Dict Bits Bits → List Bits → List Bits → Result (List Bits)
  unfolding step_from mark
  explore zero fail seen todo = err out_of_fuel
  explore (suc f) fail seen [] = ok seen
  explore (suc f) fail seen (x ∷ todo) = do
    y ← step_from fail x b0
    z ← step_from fail x b1
    let marked = mark z (mark y (seen, todo))
    explore f fail marked.0 marked.1

  -- Each prefix is popped once at most, so a round more than there are prefixes is enough.
  unfoldable pub reachable_prefixes : Bits → Result (List Bits)
  unfolding fail_links explore
  reachable_prefixes start = do
    fail ← fail_links prefixes []
    explore (length prefixes + 1) fail (start ∷ []) (start ∷ [])
