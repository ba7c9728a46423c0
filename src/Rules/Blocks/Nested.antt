-- ===== src/Rules/Blocks/Nested.antt =====
-- The blocks that well_formed of eval/learn_steps.py follows, against the matching of brackets.
pub mod Closing
pub mod Begun
use htn_llm_rtl_gen.Shared.{
  ℕ, zero, suc, ◌+◌, ◌-◌, ◌≡◌, refl, inl, inr, Bool, true, false, Option, none, some, List, [], ◌∷◌,
  ◌++◌, map, arith, length, is_empty, ◌>>=◌, Result, lstrip, rstrip, starts_with, ◌==◌, nat_eq,
  if◌then◌else◌, list_eq, pair_eq, Bool-cases, Str, ok, err,
}
use htn_llm_rtl_gen.Rules.{leading_word, is_module_item}
use htn_llm_rtl_gen.Rules.Blocks.{
  Opener, begin_block, case_block, same_opener, Checker, pop_and_set, close_block, end_word,
  endcase_word, endmodule_word, after_closer, top_of, openers, push_blocks, open_blocks, label_of,
  after_label,
}

-- what a line does to the blocks
pub data Mark : Type 0 where
  opened closed : Opener → Mark
  ended : Mark

-- the matching of brackets: the blocks open after the marks, the innermost first
unfoldable pub nest : List Opener → List Mark → Option (List Opener)
nest open_now [] = some open_now
nest open_now (opened k ∷ ms) = nest (k ∷ open_now) ms
nest [] (closed k ∷ ms) = none
nest (j ∷ open_now) (closed k ∷ ms) = if same_opener j k then nest open_now ms else none
nest open_now (ended ∷ ms) = if is_empty open_now then nest open_now ms else none

-- what a line opens after the closers that it starts with
unfoldable pub opened_by : Str → List Mark
opened_by text = map opened (openers (after_label (label_of (is_module_item text) text) text))

unfoldable pub marks_from : ℕ → Str → List Mark
unfolding opened_by
marks_from zero text = []
marks_from (suc fuel) text =
    let after_case = marks_from fuel (after_closer case_block text) in
    let after_end = marks_from fuel (after_closer begin_block text) in
    if starts_with endmodule_word text
    then ended ∷ []
    else if leading_word text == endcase_word
    then closed case_block ∷ after_case
    else if leading_word text == end_word
    then closed begin_block ∷ after_end
    else if is_empty text
    then []
    else opened_by text

unfoldable pub marks_of : Str → List Mark
unfolding marks_from
marks_of line = let text = lstrip (rstrip line) in marks_from (suc (length text)) text

unfoldable pub marks_of_lines : List Str → List Mark
marks_of_lines [] = []
marks_of_lines (line ∷ lines) = marks_of line ++ marks_of_lines lines

abbrev pub kinds : Checker → List Opener
kinds b = map (λ p. p.0) b.stack

-- one entry of `may_else` for each block, and one for the module
abbrev pub IsEven : Checker → Type 0
IsEven b = length b.may_else ≡ suc (length b.stack)

-- A step that raises nothing and that keeps the checker even where it goes on.
abbrev pub Safe : {A : Type 0} → (A → Type 0) → Result (Option A) → Type 0
Safe P (err e) = ⊥
Safe P (ok none) = Unit
Safe P (ok (some c)) = P c

pub Safe-bind :
    {A B : Type 0} (P : A → Type 0) (Q : B → Type 0) (m : Result (Option A))
    (f : A → Result (Option B))
    → Safe P m
    → ((a : A) → P a → Safe Q (f a))
    → Safe Q (m >>= λ r. elim r [ none ↦ ok none | some a ↦ f a ])
Safe-bind P Q (err e) f h k = h
Safe-bind P Q (ok none) f h k = tt
Safe-bind P Q (ok (some a)) f h k = k a h

-- the marks of a line that are still to come lead the checker from one state to another
abbrev pub Follows : Checker → List Mark → Checker → List Mark → Type 0
Follows b ms c ns = IsEven c × (nest (kinds b) ms ≡ nest (kinds c) ns)

abbrev pub checker : List (Opener × Bool) → List Bool → Bool → Checker
checker s m seen = record { stack = s; may_else = m; seen_module = seen }

close_parts :
    (k : Opener) (s : List (Opener × Bool)) (m : List Bool) (seen : Bool) (ms : List Mark)
    → length m ≡ suc (length s)
    → Safe (λ c. Follows (checker s m seen) (closed k ∷ ms) c ms) (close_block k (checker s m seen))
unfolding close_block pop_and_set nest
close_parts k [] m seen ms e = tt
close_parts k ((j, x) ∷ s) [] seen ms e = absurd (omega (arith, e))
close_parts k ((j, x) ∷ s) (p ∷ []) seen ms e = absurd (omega (arith, e))
close_parts k ((j, x) ∷ s) (p ∷ q ∷ m) seen ms e = elim (Bool-cases (same_opener j k)) [
  | inl same ↦ rw (close_block, nest, same) (omega (arith, e), refl)
  | inr other ↦ rw (close_block, other) tt
]

pub close-Safe :
    (k : Opener) (b : Checker) (ms : List Mark)
    → IsEven b
    → Safe (λ c. Follows b (closed k ∷ ms) c ms) (close_block k b)
close-Safe k b ms e = close_parts k b.stack b.may_else b.seen_module ms e

push-Even : (i : Bool) (ks : List Opener) (b : Checker) → IsEven b → IsEven (push_blocks i ks b)
unfolding push_blocks
push-Even i [] b e = e
push-Even i (k ∷ ks) b e =
    push-Even false ks (record b { stack = (k, i) ∷ b.stack; may_else = false ∷ b.may_else })
      (omega (arith, e))

nest-push :
    (i : Bool) (ks : List Opener) (b : Checker)
    → nest (kinds b) (map opened ks) ≡ some (kinds (push_blocks i ks b))
unfolding push_blocks nest
nest-push i [] b = refl
nest-push i (k ∷ ks) b =
    nest-push false ks (record b { stack = (k, i) ∷ b.stack; may_else = false ∷ b.may_else })

-- a step that raises nothing
abbrev pub Fine : (Checker → Type 0) → Result Checker → Type 0
Fine P (err e) = ⊥
Fine P (ok c) = P c

pub open_parts :
    (i : Bool) (ks : List Opener) (s : List (Opener × Bool)) (m : List Bool) (seen : Bool)
    → length m ≡ suc (length s)
    → Fine
        (λ c. Follows (checker s m seen) (map opened ks) c [])
        (open_blocks i ks (checker s m seen))
unfolding open_blocks nest
open_parts i ks s [] seen e = absurd (omega (arith, e))
open_parts i [] s (x ∷ m) seen e = (e, refl)
open_parts i (k ∷ ks) s (x ∷ m) seen e = (
  push-Even i (k ∷ ks) (checker s (false ∷ m) seen) e,
  nest-push i (k ∷ ks) (checker s (false ∷ m) seen),
)

pub last_parts :
    (asked : Bool) (m : List Bool) (n : ℕ)
    → length m ≡ suc n
    → (x : Bool) × ((if asked then top_of m else ok false) ≡ ok x)
last_parts true [] n e = absurd (omega (arith, e))
last_parts true (x ∷ m) n e = (x, refl)
last_parts false m n e = (false, refl)
