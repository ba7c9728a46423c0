-- ===== src/Rules/Repeats/Fresh/Repeated.antt =====
-- The repetitions that no_repeat of eval/learn_steps.py refuses, wherever they stand in a module.
use htn_llm_rtl_gen.Shared.{
  ℕ, zero, suc, ◌+◌, ◌-◌, ◌≤◌, ◌≡◌, refl, ap, inl, inr, true, false, none, some, List, [], ◌∷◌,
  ◌++◌, arith, length, is_empty, nat_eq, list_eq, pair_eq, contains, contains_head, Bool-cases,
  Option-cases, some_injective, Str,
}
use mathlib.Core.Path.{subst}
use htn_llm_rtl_gen.Rules.Repeats.{
  is_statement, pop_blocks, push_sets, add_statement, repeat_line, repeat_lines, no_repeat,
}
use htn_llm_rtl_gen.Rules.Repeats.Fresh.{
  text_of, level_after, levels, Holds, line_inv, moved-holds, lines-holds, Lasting, holding-Lasting,
}

abbrev Deep : ℕ → List (List Str) → Type 0
Deep n blocks = length blocks ≡ suc n

pop-Deep :
    (k n : ℕ) (blocks : List (List Str))
    → k ≤ n
    → Deep n blocks
    → Deep (n - k) (pop_blocks k blocks)
unfolding pop_blocks
pop-Deep zero n blocks l h = omega (arith, h)
pop-Deep (suc k) n [] l h = absurd (omega (arith, h))
pop-Deep (suc k) n (b ∷ []) l h = absurd (omega (arith, h, l))
pop-Deep (suc k) zero (b ∷ c ∷ blocks) l h = absurd (omega (arith, l))
pop-Deep (suc k) (suc n) (b ∷ c ∷ blocks) l h =
    omega (arith, pop-Deep k n (c ∷ blocks) (omega (arith, l)) (omega (arith, h)))

push-Deep : (k n : ℕ) (blocks : List (List Str)) → Deep n blocks → Deep (n + k) (push_sets k blocks)
unfolding push_sets
push-Deep zero n blocks h = omega (arith, h)
push-Deep (suc k) n blocks h = omega (arith, push-Deep k (suc n) ([] ∷ blocks) (omega (arith, h)))

add-Deep :
    (n : ℕ) (other : Str) (blocks : List (List Str)) {next : List (List Str)}
    → Deep n blocks
    → add_statement other blocks ≡ some next
    → Deep n next
unfolding add_statement
add-Deep n other [] h k = absurd (omega (arith, h))
add-Deep n other (b ∷ []) h k = omega (arith, ap length (some_injective k), h)
add-Deep n other (b ∷ c ∷ blocks) h k = elim (Bool-cases (contains b other)) [
  | inl bad ↦ cc (rw (add_statement, bad) at k)
  | inr good ↦ omega (arith, ap length (some_injective (rw (add_statement, good) at k)), h)
]

Deep-Lasting : Lasting Deep
Deep-Lasting = record {
  pop = pop-Deep;
  push = push-Deep;
  add = λ n other blocks next. add-Deep n other blocks {next = next};
}

-- a statement is held by the block that it is added to
add-own :
    (n : ℕ) (text : Str) (blocks : List (List Str)) {next : List (List Str)}
    → Deep (suc n) blocks
    → add_statement text blocks ≡ some next
    → Holds 0 text next
unfolding add_statement
add-own n text [] h k = absurd (omega (arith, h))
add-own n text (b ∷ []) h k = absurd (omega (arith, h))
add-own n text (b ∷ c ∷ blocks) h k = elim (Bool-cases (contains b text)) [
  | inl bad ↦ cc (rw (add_statement, bad) at k)
  | inr good ↦
      subst (Holds 0 text) (some_injective (rw (add_statement, good) at k)) (contains_head text b)
]

-- and not added to it again
refused_again :
    (text : Str) (blocks : List (List Str)) → Holds 0 text blocks → add_statement text blocks ≡ none
unfolding add_statement
refused_again text [] h = absurd h
refused_again text (b ∷ []) h = absurd h
refused_again text (b ∷ c ∷ blocks) h = rw (add_statement, h) refl

repeat_lines-append :
    (xs ys : List Str) (blocks : List (List Str)) {next : List (List Str)}
    → repeat_lines (xs ++ ys) blocks ≡ some next
    → (mid : List (List Str)) × (repeat_lines xs blocks ≡ some mid)
      × (repeat_lines ys mid ≡ some next)
unfolding repeat_lines
repeat_lines-append [] ys blocks k = (blocks, refl, k)
repeat_lines-append (x ∷ xs) ys blocks k = elim (Option-cases (repeat_line x blocks)) [
  | inl bad ↦ cc (rw (repeat_lines, bad) at k)
  | inr (mid, good) ↦
      let (m, a, b) = repeat_lines-append xs ys mid (rw (repeat_lines, good) at k) in
      (m, rw (repeat_lines, good) a, b)
]

-- the first of the two statements, and the lines up to the second
first-Holds :
    (n : ℕ) (a : Str) (ys : List Str) (blocks : List (List Str)) {next : List (List Str)}
    → is_empty (text_of a) ≡ false
    → is_statement (text_of a) ≡ true
    → levels 0 (a ∷ ys) ≡ some 0
    → Deep (suc n) blocks
    → repeat_lines (a ∷ ys) blocks ≡ some next
    → Holds 0 (text_of a) next
unfolding levels repeat_lines
first-Holds n a ys blocks e s l d k = elim (Option-cases (level_after 0 (text_of a))) [
  | inl bad ↦ cc (rw (levels, e, bad) at l)
  | inr (i, le) ↦ elim (Option-cases (repeat_line a blocks)) [
    | inl bad ↦ cc (rw (repeat_lines, bad) at k)
    | inr (mid, good) ↦
        let (added, plus, same) = line_inv a blocks e good in
        lines-holds (λ m b. Holds m (text_of a) b) (holding-Lasting (text_of a)) i ys mid
          (rw (levels, e, le) at l) (rw (repeat_lines, good) at k)
          (subst (Holds i (text_of a)) same (
            moved-holds (λ m b. Holds m (text_of a) b) (holding-Lasting (text_of a)) 0 (text_of a)
              added le (add-own n (text_of a) blocks d (rw s at plus))))
  ]
]

second_refused :
    (a b : Str) (zs : List Str) (blocks : List (List Str))
    → is_empty (text_of a) ≡ false
    → is_statement (text_of a) ≡ true
    → text_of b ≡ text_of a
    → Holds 0 (text_of a) blocks
    → repeat_lines (b ∷ zs) blocks ≡ none
unfolding repeat_lines repeat_line
second_refused a b zs blocks e s same h =
    rw (repeat_lines, repeat_line, same, e, s, refused_again (text_of a) blocks h) refl

-- A statement is refused where an earlier one of the same block has its text: `xs` leaves a block
-- open, the first of the two lines and those between them come back to that block and never leave it.
pub no_repeat-refused :
    (xs ys zs : List Str) (a b : Str) (n : ℕ)
    → levels 0 xs ≡ some (suc n)
    → levels 0 (a ∷ ys) ≡ some 0
    → is_empty (text_of a) ≡ false
    → is_statement (text_of a) ≡ true
    → text_of b ≡ text_of a
    → no_repeat (xs ++ ((a ∷ ys) ++ b ∷ zs)) ≡ false
unfolding no_repeat
no_repeat-refused xs ys zs a b n l m e s same =
    elim (Option-cases (repeat_lines (xs ++ ((a ∷ ys) ++ b ∷ zs)) ([] ∷ []))) [
      | inl bad ↦ rw (no_repeat, bad) refl
      | inr (out, good) ↦
          let (mid, k1, k2) = repeat_lines-append xs ((a ∷ ys) ++ b ∷ zs) ([] ∷ []) good in
          let (late, k3, k4) = repeat_lines-append (a ∷ ys) (b ∷ zs) mid k2 in
          let deep = lines-holds Deep Deep-Lasting 0 xs ([] ∷ []) l k1 refl in
          cc (k4, second_refused a b zs late e s same (first-Holds n a ys mid e s m deep k3))
    ]
