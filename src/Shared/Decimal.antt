-- ===== src/Shared/Decimal.antt =====
-- A number printed in decimal reads back.
use Prim.Native.Nat.{ℕ, zero, suc, ◌+◌, ◌/◌, ◌%◌, ◌≤◌, ◌<◌}
use mathlib.Core.Path.{◌≡◌, refl, ap, ◌∙◌}
use mathlib.Core.Logic.{inl, inr}
use mathlib.Core.Bool.{true, false}
use mathlib.Core.List.{[], ◌∷◌}
use native.Mathlib.Omega.{arith}
use htn_llm_rtl_gen.Shared.Tests.{◌==◌, nat_eq, list_eq, Bool-cases}
use htn_llm_rtl_gen.Shared.Lists.{length, All, all, is_empty}
use htn_llm_rtl_gen.Shared.Text.{Str, is_digit, show_digits, show_nat, read_digits, read_nat}

read_digits-show_digits :
    (f n : ℕ) (acc : Str) → n < f → read_digits 0 (show_digits f n acc) ≡ read_digits n acc
unfolding show_digits read_digits
read_digits-show_digits zero n acc h = absurd (omega arith)
read_digits-show_digits (suc f) n acc h = elim (Bool-cases (n / 10 == 0)) [
  | inl e ↦ rw e (ap (λ k. read_digits k acc) (ground arith))
  | inr e ↦ rw e (
      read_digits-show_digits f (n / 10) ((48 + n % 10) ∷ acc) (ground arith)
      ∙ ap (λ k. read_digits k acc) (omega arith))
]

-- int(str(n)) is n.
pub read_nat-show_nat : (n : ℕ) → read_nat (show_nat n) ≡ n
unfolding read_nat show_nat
read_nat-show_nat n = read_digits-show_digits (suc n) n [] (omega arith)

-- A decimal digit.
abbrev pub IsDigit : ℕ → Type 0
IsDigit c = (48 ≤ c) × (c ≤ 57)

show_digits-IsDigit : (f n : ℕ) (acc : Str) → All IsDigit acc → All IsDigit (show_digits f n acc)
unfolding show_digits
show_digits-IsDigit zero n acc h = h
show_digits-IsDigit (suc f) n acc h = elim (Bool-cases (n / 10 == 0)) [
  | inl e ↦ rw e ((omega arith, omega arith), h)
  | inr e ↦
      rw e (show_digits-IsDigit f (n / 10) ((48 + n % 10) ∷ acc) ((omega arith, omega arith), h))
]

pub show_nat-IsDigit : (n : ℕ) → All IsDigit (show_nat n)
unfolding show_nat
show_nat-IsDigit n = show_digits-IsDigit (suc n) n [] tt

show_digits_pos : (f n : ℕ) (acc : Str) → n < f → 0 < length (show_digits f n acc)
unfolding show_digits
show_digits_pos zero n acc h = absurd (omega arith)
show_digits_pos (suc f) n acc h = elim (Bool-cases (n / 10 == 0)) [
  | inl e ↦ rw e (omega arith)
  | inr e ↦ rw e (show_digits_pos f (n / 10) ((48 + n % 10) ∷ acc) (ground arith))
]

pub length-show_nat_pos : (n : ℕ) → 0 < length (show_nat n)
unfolding show_nat
length-show_nat_pos n = show_digits_pos (suc n) n [] (omega arith)

pub all-IsDigit : (ds : Str) → All IsDigit ds → all is_digit ds ≡ true
unfolding all is_digit
all-IsDigit [] h = refl
all-IsDigit (d ∷ ds) h = ground (arith, all-IsDigit ds h.1)

is_empty-length_pos : (s : Str) → 0 < length s → is_empty s ≡ false
is_empty-length_pos [] h = absurd (omega arith)
is_empty-length_pos (c ∷ s) h = refl

pub is_empty-show_nat : (n : ℕ) → is_empty (show_nat n) ≡ false
is_empty-show_nat n = is_empty-length_pos (show_nat n) (length-show_nat_pos n)

pub all-show_nat : (n : ℕ) → all is_digit (show_nat n) ≡ true
all-show_nat n = all-IsDigit (show_nat n) (show_nat-IsDigit n)
