-- ===== src/StateEncoding.antt =====
-- rtl_designs/state_encoding.py: the codes of a machine's states, the chain of states that a problem
-- names, and the lines that an earlier run wrote.
pub mod Width
pub mod Chain
pub mod Search
pub mod Stripping
pub mod Rewriting
use htn_llm_rtl_gen.Shared.{
  ℕ, zero, suc, ◌+◌, ◌-◌, ◌/◌, max, none, some, List, [], ◌∷◌, ◌++◌, arith, Dict, lookup, length,
  Result, ltb, if◌then◌else◌, ◌==◌, nat_eq, list_eq, pair_eq, Str, codes, join, show_nat, cycle,
  out_of_fuel, ok, err,
}

-- `int.bit_length`: halvings until nothing is left. A number has at most as many bits as its value.
unfoldable pub bits_within : ℕ → ℕ → ℕ
bits_within zero n = 0
bits_within (suc f) n = let rest = bits_within f (n / 2) in if n == 0 then 0 else suc rest

unfoldable pub bit_length : ℕ → ℕ
unfolding bits_within
bit_length n = bits_within n n

-- max(1, (len(states) - 1).bit_length()); the list of states is never empty where this is called
unfoldable pub code_width : ℕ → ℕ
unfolding bit_length
code_width n = max 1 (bit_length (n - 1))

-- "nK" and "bitsW"
unfoldable pub value_name : ℕ → Str
unfolding show_nat codes
value_name k = codes "n" ++ show_nat k

unfoldable pub width_name : ℕ → Str
unfolding show_nat codes
width_name w = codes "bits" ++ show_nat w

-- `f"n{k}" for k in range(len(states))`, from `k` on
unfoldable pub value_names : ℕ → List Str → List Str
unfolding value_name
value_names k [] = []
value_names k (s ∷ states) = value_name k ∷ value_names (suc k) states

-- `f"(state_code {s} n{k})" for k, s in enumerate(states)`, from `k` on
unfoldable pub code_facts : ℕ → List Str → List Str
unfolding value_name codes
code_facts k [] = []
code_facts k (s ∷ states) =
    (codes "(state_code " ++ (s ++ (codes " " ++ (value_name k ++ codes ")"))))
    ∷ code_facts (suc k) states

-- (object lines, fact lines)
unfoldable pub encoding : Str → List Str → List Str × List Str
unfolding value_names code_facts code_width width_name join codes
encoding machine states =
    let width = width_name (code_width (length states)) in
    (
      (join (codes " ") (value_names 0 states) ++ codes " - value")
          ∷ (width ++ codes " - width")
          ∷ [],
      (codes "(state_width " ++ (machine ++ (codes " " ++ (width ++ codes ")"))))
          ∷ code_facts 0 states,
    )

-- The `while` of states_of: `last` is states[-1]. A round adds a state, so the raise comes before
-- `length after + 2` rounds are over.
unfoldable pub follow : ℕ → Dict Str Str → List Str → Str → Result (List Str)
follow zero after states last = err out_of_fuel
follow (suc f) after states last = elim (lookup last after) [
  | none ↦ ok states
  | some t ↦
      let rest = follow f after (states ++ t ∷ []) t in
      if ltb (length after + 1) (length states + 1) then err cycle else rest
]

unfoldable pub states_from : Dict Str Str → Str → Result (List Str)
unfolding follow
states_from after s = follow (length after + 2) after (s ∷ []) s
