-- ===== src/Plan/Templates/Coding.antt =====
-- The parameters of render for the codes that state_encoding.py gives to a machine's states.
use htn_llm_rtl_gen.StateEncoding.{code_width, value_name, value_names, width_name}
use htn_llm_rtl_gen.Plan.Reading.Numbers.{number-value_name, number-width_name}
use htn_llm_rtl_gen.Plan.Actions.{state_param, f_string, arg}
use htn_llm_rtl_gen.Plan.Templates.{lines_of}
use htn_llm_rtl_gen.StateEncoding.Width.{code_width_least}
use htn_llm_rtl_gen.Shared.{
  ℕ, zero, suc, ◌+◌, ◌^◌, ◌<◌, ◌≡◌, refl, ap, ◌∙◌, Bool, some, List, [], ◌∷◌, arith, Dict, length,
  get_elem?, nat_eq, list_eq, pair_eq, Str, codes, show_nat, ok,
}

place_zero : (j : ℕ) → j ≡ j + 0
place_zero j = omega arith

from_zero : (k : ℕ) → 0 + k ≡ k
from_zero k = omega arith

place_suc : (j k : ℕ) → suc j + k ≡ j + suc k
place_suc j k = omega arith

-- The value object of a state is numbered by the state's place.
value_names-get :
    (j k : ℕ) (states : List Str) (s : Str)
    → get_elem? states k ≡ some s
    → get_elem? (value_names j states) k ≡ some (value_name (j + k))
unfolding value_names
value_names-get j k [] s h = absurd cc
value_names-get j zero (t ∷ states) s h = ap (λ n. some (value_name n)) (place_zero j)
value_names-get j (suc k) (t ∷ states) s h =
    value_names-get (suc j) k states s h ∙ ap (λ n. some (value_name n)) (place_suc j k)

lines_of-param :
    (widths : Dict Str ℕ) (ports : List Str) (branch : Bool) (m s : Str) (k w : ℕ)
    → lines_of widths ports branch state_param (m ∷ s ∷ value_name k ∷ width_name w ∷ [])
      ≡ ok (
          f_string (
            codes "parameter "
            ∷ s
            ∷ codes " = "
            ∷ show_nat w
            ∷ codes "'d"
            ∷ show_nat k
            ∷ codes ";"
            ∷ [])
          ∷ [])
unfolding lines_of arg
lines_of-param widths ports branch m s k w = rw (number-width_name w, number-value_name k) refl

place_lt {ℓ} : {A : Type ℓ} (xs : List A) (k : ℕ) {x : A} → get_elem? xs k ≡ some x → k < length xs
place_lt [] k h = cc
place_lt (x ∷ xs) zero h = omega arith
place_lt (x ∷ xs) (suc k) h = omega (arith, place_lt xs k h)

-- `parameter s = w'dk;`
abbrev pub parameter_line : Str → ℕ → ℕ → Str
parameter_line s w k =
    f_string
      (codes "parameter " ∷ s ∷ codes " = " ∷ show_nat w ∷ codes "'d" ∷ show_nat k ∷ codes ";" ∷ [])

code_fits : (states : List Str) (k : ℕ) → k < length states → k < 2 ^ code_width (length states)
code_fits states k h = omega (arith, (code_width_least (length states) (omega arith)).1)

-- The state in the k-th place of a machine has a value object for its code. Written with that object
-- and the width object of the machine, its parameter is k, and k fits in the width written.
pub state_param-code :
    (widths : Dict Str ℕ) (ports : List Str) (branch : Bool) (m : Str) (states : List Str) (k : ℕ)
    {s : Str}
    → get_elem? states k ≡ some s
    → (v : Str) × (get_elem? (value_names 0 states) k ≡ some v)
      × (lines_of widths ports branch state_param
            (m ∷ s ∷ v ∷ width_name (code_width (length states)) ∷ [])
          ≡ ok (parameter_line s (code_width (length states)) k ∷ []))
      × (k < 2 ^ code_width (length states))
state_param-code widths ports branch m states k {s} h = (
  value_name k,
  value_names-get 0 k states s h ∙ ap (λ n. some (value_name n)) (from_zero k),
  lines_of-param widths ports branch m s k (code_width (length states)),
  code_fits states k (place_lt states k h),
)
