-- ===== src/Examples/Encoding.antt =====
-- rtl_designs/state_encoding.py at concrete inputs.
use htn_llm_rtl_gen.StateEncoding.{bit_length, code_width, encoding, follow, states_from}
use htn_llm_rtl_gen.StateEncoding.Width.{code_width_least}
use htn_llm_rtl_gen.StateEncoding.Chain.{Chain, states_from-eq-ok_iff, states_from-eq-cycle_iff}
use htn_llm_rtl_gen.Shared.{
  ℕ, ◌^◌, ◌≤◌, ◌≡◌, refl, ◌↔◌, List, [], ◌∷◌, arith, Dict, lookup, nat_eq, list_beq, list_eq,
  pair_eq, Str, codes, cycle, ok, err,
}

code_width_least_example :
    (1 ≤ code_width 10)
    × (10 ≤ 2 ^ code_width 10)
    × ((w : ℕ) → 1 ≤ w → 10 ≤ 2 ^ w → code_width 10 ≤ w)
code_width_least_example = code_width_least 10 (omega arith)

ten_states : code_width 10 ≡ 4
unfolding code_width bit_length
ten_states = refl

-- A, B, C
abbrev after_a : Dict Str Str
after_a = (codes "A", codes "B") ∷ (codes "B", codes "C") ∷ []

abbrev abc : List Str
abc = codes "A" ∷ codes "B" ∷ codes "C" ∷ []

walk_abc : states_from after_a (codes "A") ≡ ok abc
unfolding states_from follow lookup list_beq codes
walk_abc = refl

states_from-eq-ok_iff_example :
    (states_from after_a (codes "A") ≡ ok abc)
    ↔ ((rest : List Str) × Chain after_a (codes "A") rest × (abc ≡ codes "A" ∷ rest))
states_from-eq-ok_iff_example = states_from-eq-ok_iff after_a (codes "A") abc

-- A, B, A, ...
abbrev looping : Dict Str Str
looping = (codes "A", codes "B") ∷ (codes "B", codes "A") ∷ []

states_from-eq-cycle_iff_example :
    (states_from looping (codes "A") ≡ err cycle)
    ↔ (¬ ((rest : List Str) × Chain looping (codes "A") rest))
states_from-eq-cycle_iff_example = states_from-eq-cycle_iff looping (codes "A")

loop_raises : states_from looping (codes "A") ≡ err cycle
unfolding states_from follow lookup list_beq codes
loop_raises = refl

encode_abc : encoding (codes "m") abc ≡ (
  codes "n0 n1 n2 - value" ∷ codes "bits2 - width" ∷ [],
  codes "(state_width m bits2)"
      ∷ codes "(state_code A n0)"
      ∷ codes "(state_code B n1)"
      ∷ codes "(state_code C n2)"
      ∷ [],
)
unfolding encoding codes
encode_abc = refl
