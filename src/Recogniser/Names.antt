-- ===== src/Recogniser/Names.antt =====
-- state_names of rtl_designs/problem_compiler.py: a name for the state of each prefix.
pub mod Placed
pub mod Unique
use htn_llm_rtl_gen.Recogniser.Machine.{bit_eq, Bits}
use htn_llm_rtl_gen.Shared.{
  ℕ, suc, ◌+◌, none, some, List, [], ◌∷◌, ◌++◌, map, arith, Dict, lookup, insert, length, Result,
  ltb, if◌then◌else◌, ◌==◌, nat_eq, list_eq, pair_eq, contains, Str, codes, join, show_nat, upper,
  shared_name, ok, err,
}

-- `[out for out, bits in recognised if bits == x]`
unfoldable pub outputs_at : List (Str × Bits) → Bits → List Str
outputs_at [] x = []
outputs_at ((out, bits) ∷ rs) x =
    let rest = outputs_at rs x in if bits == x then out ∷ rest else rest

-- `by_length.setdefault(len(x), []).append(x)`
unfoldable pub append_at : ℕ → Bits → Dict ℕ (List Bits) → Dict ℕ (List Bits)
append_at n x groups =
    insert n ((elim (lookup n groups) [ none ↦ [] | some group ↦ group ]) ++ x ∷ []) groups

-- the body of the first loop: the name of a state in which an output is 1, or its place by length
unfoldable pub place :
    List Str → Bits → Dict Bits Str × Dict ℕ (List Bits) → Dict Bits Str × Dict ℕ (List Bits)
place [] x (names, by_length) = (names, append_at (length x) x by_length)
place (out ∷ outs) x (names, by_length) =
    (insert x (codes "S_" ++ join (codes "_") (map upper (out ∷ outs))) names, by_length)

unfoldable pub name_outputs :
    List (Str × Bits)
    → List Bits
    → Dict Bits Str × Dict ℕ (List Bits)
    → Dict Bits Str × Dict ℕ (List Bits)
name_outputs recognised [] s = s
name_outputs recognised (x ∷ xs) s =
    name_outputs recognised xs (place (outputs_at recognised x) x s)

-- M3, or M3a and on where several prefixes have one length
unfoldable pub match_name : ℕ → ℕ → ℕ → Str
match_name len i group_size =
    codes "M" ++ (show_nat len ++ (if ltb 1 group_size then (b'a' + i) ∷ [] else []))

-- `for i, x in enumerate(group)`, from `i` on
unfoldable pub name_group : ℕ → ℕ → ℕ → List Bits → Dict Bits Str → Dict Bits Str
name_group len size i [] names = names
name_group len size i (x ∷ xs) names =
    name_group len size (suc i) xs (insert x (match_name len i size) names)

unfoldable pub name_groups : Dict ℕ (List Bits) → Dict Bits Str → Dict Bits Str
name_groups [] names = names
name_groups ((len, group) ∷ groups) names =
    name_groups groups (name_group len (length group) 0 group names)

-- `set(xs)`: one of each
unfoldable pub distinct : List Str → List Str
distinct [] = []
distinct (x ∷ xs) = if contains xs x then distinct xs else x ∷ distinct xs

abbrev pub values : Dict Bits Str → List Str
values [] = []
values ((x, name) ∷ names) = name ∷ values names

unfoldable pub state_names : List Bits → List (Str × Bits) → Result (Dict Bits Str)
state_names prefixes recognised =
    let (outputs, by_length) = name_outputs recognised prefixes ([], []) in
    let names = name_groups by_length outputs in
    if length (distinct (values names)) == length names then ok names else err shared_name
