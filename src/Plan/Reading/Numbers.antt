-- ===== src/Plan/Reading/Numbers.antt =====
-- number of rtl_designs/plan_to_verilog.py reads the objects that state_encoding.py writes.
use htn_llm_rtl_gen.StateEncoding.{value_name, width_name}
use htn_llm_rtl_gen.Plan.Reading.{number_after, number}
use htn_llm_rtl_gen.Shared.{
  ℕ, String, ◌≡◌, refl, not, ◌&&◌, none, some, ◌++◌, read_nat-show_nat, is_empty-show_nat,
  all-show_nat, all, is_empty, strip_prefix-append, nat_eq, if◌then◌else◌, list_eq, pair_eq, Str,
  codes, is_digit, show_nat, read_nat, strip_prefix, ok,
}

read_digits_back :
    (n : ℕ)
    → (if not (is_empty (show_nat n)) && all is_digit (show_nat n)
        then some (read_nat (show_nat n))
        else none)
      ≡ some n
read_digits_back n = rw (is_empty-show_nat n, all-show_nat n) (rw (read_nat-show_nat n) refl)

number_after-key : (key : String) (n : ℕ) → number_after key (codes key ++ show_nat n) ≡ some n
unfolding number_after
number_after-key key n =
    rw (number_after, strip_prefix-append (codes key) (show_nat n), read_digits_back n) refl

no_width : (ds : Str) → number_after "bits" (codes "n" ++ ds) ≡ none
unfolding number_after strip_prefix codes
no_width ds = refl

-- A value object reads back as the number it was made from.
pub number-value_name : (n : ℕ) → number (value_name n) ≡ ok n
unfolding number value_name
number-value_name n = rw (number, no_width (show_nat n), number_after-key "n" n) refl

-- A width object reads back as the width it was made from.
pub number-width_name : (w : ℕ) → number (width_name w) ≡ ok w
unfolding number width_name
number-width_name w = rw (number, number_after-key "bits" w) refl
