-- ===== src/Rules/Repeats/Fresh.antt =====
-- What no_repeat of eval/learn_steps.py refuses.
pub mod Repeated
use htn_llm_rtl_gen.Shared.{
  ℕ, zero, suc, ◌+◌, ◌-◌, ◌≤◌, ◌≡◌, inl, inr, Bool, true, false, Option, none, some, List, [], ◌∷◌,
  arith, is_empty, lstrip, rstrip, ltb, nat_eq, if◌then◌else◌, list_eq, pair_eq, contains,
  contains_tail, Bool-cases, Option-cases, ltb_false→le, some_injective, Str,
}
use mathlib.Core.Path.{subst}
use htn_llm_rtl_gen.Rules.{cut_comment}
use htn_llm_rtl_gen.Rules.Repeats.{
  closers_in, openers_in, is_statement, pop_blocks, push_sets, add_statement, repeat_line,
  repeat_lines,
}

abbrev pub text_of : Str → Str
text_of line = lstrip (rstrip (cut_comment line))

-- How many blocks are open above the level that the lines start at, after each of them; `none`
-- where they go below it.
unfoldable pub level_after : ℕ → Str → Option ℕ
level_after n text =
    if ltb n (closers_in text) then none else some (n - closers_in text + openers_in text)

unfoldable pub levels : ℕ → List Str → Option ℕ
unfolding level_after
levels n [] = some n
levels n (line ∷ lines) =
    elim (if is_empty (text_of line) then some n else level_after n (text_of line)) [
      | none ↦ none
      | some m ↦ levels m lines
    ]

-- A statement of the block that is `n` blocks out, with a block beside the module around it.
abbrev pub Holds : ℕ → Str → List (List Str) → Type 0
Holds n text [] = ⊥
Holds n text (b ∷ []) = ⊥
Holds zero text (b ∷ c ∷ blocks) = contains b text ≡ true
Holds (suc n) text (b ∷ c ∷ blocks) = Holds n text (c ∷ blocks)

pop-Holds :
    (k n : ℕ) (text : Str) (blocks : List (List Str))
    → k ≤ n
    → Holds n text blocks
    → Holds (n - k) text (pop_blocks k blocks)
unfolding pop_blocks
pop-Holds k n text [] l h = absurd h
pop-Holds k n text (b ∷ []) l h = absurd h
pop-Holds zero n text (b ∷ c ∷ blocks) l h =
    subst (λ m. Holds m text (b ∷ c ∷ blocks)) (omega arith) h
pop-Holds (suc k) zero text (b ∷ c ∷ blocks) l h = absurd (omega (arith, l))
pop-Holds (suc k) (suc n) text (b ∷ c ∷ blocks) l h =
    subst (λ m. Holds m text (pop_blocks k (c ∷ blocks))) (omega arith)
      (pop-Holds k n text (c ∷ blocks) (omega (arith, l)) h)

push-Holds :
    (k n : ℕ) (text : Str) (blocks : List (List Str))
    → Holds n text blocks
    → Holds (n + k) text (push_sets k blocks)
unfolding push_sets
push-Holds zero n text blocks h = subst (λ m. Holds m text blocks) (omega arith) h
push-Holds (suc k) n text [] h = absurd h
push-Holds (suc k) n text (b ∷ blocks) h =
    subst (λ m. Holds m text (push_sets k ([] ∷ b ∷ blocks))) (omega arith)
      (push-Holds k (suc n) text ([] ∷ b ∷ blocks) h)

added-Holds :
    (n : ℕ) (text other : Str) (b c : List Str) (blocks : List (List Str))
    → Holds n text (b ∷ c ∷ blocks)
    → Holds n text ((other ∷ b) ∷ c ∷ blocks)
added-Holds zero text other b c blocks h = contains_tail other text b h
added-Holds (suc n) text other b c blocks h = h

add-Holds :
    (n : ℕ) (text other : Str) (blocks : List (List Str)) {next : List (List Str)}
    → Holds n text blocks
    → add_statement other blocks ≡ some next
    → Holds n text next
unfolding add_statement
add-Holds n text other [] h k = absurd h
add-Holds n text other (b ∷ []) h k = absurd h
add-Holds n text other (b ∷ c ∷ blocks) h k = elim (Bool-cases (contains b other)) [
  | inl bad ↦ cc (rw (add_statement, bad) at k)
  | inr good ↦
      subst (Holds n text) (some_injective (rw (add_statement, good) at k))
        (added-Holds n text other b c blocks h)
]

-- the blocks after the closers and the openers of a line
abbrev pub moved : Str → List (List Str) → List (List Str)
moved text blocks = push_sets (openers_in text) (pop_blocks (closers_in text) blocks)

-- a line that is not empty: the statement, then the blocks
pub line_inv :
    (line : Str) (blocks : List (List Str)) {next : List (List Str)}
    → is_empty (text_of line) ≡ false
    → repeat_line line blocks ≡ some next
    → (added : List (List Str)) × ((if is_statement (text_of line)
          then add_statement (text_of line) blocks
          else some blocks)
        ≡ some added)
      × (moved (text_of line) added ≡ next)
unfolding repeat_line
line_inv line blocks e k =
    elim (Option-cases
      (if is_statement (text_of line) then add_statement (text_of line) blocks else some blocks)) [
        | inl bad ↦ cc (rw (repeat_line, e, bad) at k)
        | inr (added, good) ↦ (added, good, some_injective (rw (repeat_line, e, good) at k))
      ]

-- What is told of the blocks at a level, and stays true of them whatever a line does.
pub record Lasting (P : ℕ → List (List Str) → Type 0) : Type 0 where
  pub pop :
      (k n : ℕ) (blocks : List (List Str)) → k ≤ n → P n blocks → P (n - k) (pop_blocks k blocks)
  pub push : (k n : ℕ) (blocks : List (List Str)) → P n blocks → P (n + k) (push_sets k blocks)
  pub add :
      (n : ℕ) (other : Str) (blocks next : List (List Str))
      → P n blocks
      → add_statement other blocks ≡ some next
      → P n next

pub holding-Lasting : (text : Str) → Lasting (λ n blocks. Holds n text blocks)
holding-Lasting text = record {
  pop = λ k n. pop-Holds k n text;
  push = λ k n. push-Holds k n text;
  add = λ n other blocks next. add-Holds n text other blocks {next = next};
}

module _ (P : ℕ → List (List Str) → Type 0) (p : Lasting P) where
  pub moved-holds :
      (n : ℕ) (other : Str) (blocks : List (List Str)) {m : ℕ}
      → level_after n other ≡ some m
      → P n blocks
      → P m (moved other blocks)
  unfolding level_after
  moved-holds n other blocks l h = elim (Bool-cases (ltb n (closers_in other))) [
    | inl bad ↦ cc (rw (level_after, bad) at l)
    | inr fine ↦
        subst (λ m. P m (moved other blocks)) (some_injective (rw (level_after, fine) at l))
          (p.push (openers_in other) (n - closers_in other) (pop_blocks (closers_in other) blocks)
            (p.pop (closers_in other) n blocks (ltb_false→le n (closers_in other) fine) h))
  ]

  added-holds :
      (n : ℕ) (c : Bool) (other : Str) (blocks : List (List Str)) {added : List (List Str)}
      → (if c then add_statement other blocks else some blocks) ≡ some added
      → P n blocks
      → P n added
  added-holds n true other blocks k h = p.add n other blocks _ h k
  added-holds n false other blocks k h = subst (P n) (some_injective k) h

  line-holds :
      (n : ℕ) (line : Str) (blocks : List (List Str)) {next : List (List Str)} {m : ℕ}
      → (if is_empty (text_of line) then some n else level_after n (text_of line)) ≡ some m
      → repeat_line line blocks ≡ some next
      → P n blocks
      → P m next
  unfolding repeat_line
  line-holds n line blocks {next} {m} l k h = elim (Bool-cases (is_empty (text_of line))) [
    | inl e ↦
        subst (P m) (some_injective (rw (repeat_line, e) at k))
          (subst (λ i. P i blocks) (some_injective (rw e at l)) h)
    | inr e ↦
        let (added, good, same) = line_inv line blocks e k in
        subst (P m) same (
          moved-holds n (text_of line) added (rw e at l)
            (added-holds n (is_statement (text_of line)) (text_of line) blocks good h))
  ]

  pub lines-holds :
      (n : ℕ) (lines : List Str) (blocks : List (List Str)) {next : List (List Str)} {m : ℕ}
      → levels n lines ≡ some m
      → repeat_lines lines blocks ≡ some next
      → P n blocks
      → P m next
  unfolding levels repeat_lines
  lines-holds n [] blocks {next} l k h =
      subst (λ i. P i next) (some_injective l) (subst (P n) (some_injective k) h)
  lines-holds n (line ∷ lines) blocks {next} l k h =
      elim (Option-cases
        (if is_empty (text_of line) then some n else level_after n (text_of line))) [
          | inl bad ↦ cc (rw (levels, bad) at l)
          | inr (i, le) ↦ elim (Option-cases (repeat_line line blocks)) [
            | inl bad ↦ cc (rw (repeat_lines, bad) at k)
            | inr (mid, good) ↦
                lines-holds i lines mid (rw (levels, le) at l) (rw (repeat_lines, good) at k)
                  (line-holds n line blocks le good h)
          ]
        ]
