-- ===== src/StateEncoding/Width.antt =====
-- The width of the state register.
use native.Mathlib.Nat.{two-pow-succ}
use htn_llm_rtl_gen.StateEncoding.{bits_within, bit_length, code_width}
use htn_llm_rtl_gen.Shared.{
  max, ℕ, zero, suc, ◌-◌, ◌/◌, ◌^◌, ◌≤◌, ◌<◌, ◌≡◌, inl, inr, arith, ◌==◌, Bool-cases, nat_eq,
}

-- Every number is below two to its bit length.
bits_within-upper : (f n : ℕ) → n ≤ f → n < 2 ^ bits_within f n
unfolding bits_within
bits_within-upper zero n h = omega arith
bits_within-upper (suc f) n h = elim (Bool-cases (n == 0)) [
  | inl e ↦ rw e (ground arith)
  | inr e ↦ rw (e, two-pow-succ) (ground (arith, bits_within-upper f (n / 2)))
]

-- No smaller power of two exceeds it.
bits_within-least : (f n v : ℕ) → n < 2 ^ v → bits_within f n ≤ v
unfolding bits_within
bits_within-least zero n v h = omega arith
bits_within-least (suc f) n zero h = ground arith
bits_within-least (suc f) n (suc v) h = elim (Bool-cases (n == 0)) [
  | inl e ↦ rw e (omega arith)
  | inr e ↦ rw e (omega (arith, bits_within-least f (n / 2) v (omega (arith, two-pow-succ v))))
]

max_one : (b : ℕ) → max 1 (suc b) ≡ suc b
max_one b = omega arith

one_bit : (b n : ℕ) → n - 1 < 2 ^ b → n ≤ 2 ^ max 1 b
one_bit zero n h = omega arith
one_bit (suc b) n h = rw (max_one b) (omega arith)

-- All the codes of `n` states, at least one, fit in the width computed, and the width is the least
-- of at least one bit in which they do.
pub code_width_least :
    (n : ℕ)
    → 0 < n
    → (1 ≤ code_width n) × (n ≤ 2 ^ code_width n) × ((w : ℕ) → 1 ≤ w → n ≤ 2 ^ w → code_width n ≤ w)
unfolding code_width bit_length
code_width_least n h =
    let fits = bits_within-upper (n - 1) (n - 1) (omega arith) in
    (
      omega arith,
      ground (arith, one_bit (bits_within (n - 1) (n - 1)) n),
      λ w p q. omega (arith, bits_within-least (n - 1) (n - 1) w (omega arith)),
    )
