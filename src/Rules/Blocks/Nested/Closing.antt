-- ===== src/Rules/Blocks/Nested/Closing.antt =====
-- The lines that well_formed of eval/learn_steps.py accepts: closers first, then a statement.
use htn_llm_rtl_gen.Shared.{
  ℕ, zero, suc, ◌≤◌, ◌<◌, ◌≡◌, refl, ap, ◌∙◌, inl, inr, Bool, true, false, ◌&&◌, ◌||◌, Option, none,
  some, List, [], ◌∷◌, ◌++◌, map, arith, length, drop, is_empty, ◌>>=◌, Result, lstrip, rstrip,
  starts_with, ◌==◌, nat_eq, if◌then◌else◌, list_beq, list_eq, pair_eq, Bool-cases, some_injective,
  Str, codes, strip_prefix, ok, err,
}
use htn_llm_rtl_gen.Rules.{leading_word, is_module_item}
use htn_llm_rtl_gen.Rules.Blocks.{
  Opener, begin_block, case_block, same_opener, Checker, fresh, close_block, end_word, endcase_word,
  endmodule_word, after_closer, take_closers, openers, refuse_or, label_of, after_label,
  check_statement, check_text, check_line, check_lines, well_formed,
}
use htn_llm_rtl_gen.Rules.Blocks.Nested.{
  Mark, opened, closed, ended, nest, opened_by, marks_from, marks_of, marks_of_lines, kinds, IsEven,
  Safe, Safe-bind, Follows, checker, close-Safe, Fine, open_parts, last_parts,
}

Safe-if :
    (P : Checker → Type 0) (a : Bool) (m : Result (Option Checker))
    → Safe P m
    → Safe P (if a then ok none else m)
Safe-if P true m h = tt
Safe-if P false m h = h

Safe-value :
    (P : Checker → Type 0) (m : Result Bool) (f : Bool → Result (Option Checker))
    → (x : Bool) × (m ≡ ok x)
    → ((x : Bool) → Safe P (f x))
    → Safe P (m >>= f)
Safe-value P (err e) f (x, h) k = cc h
Safe-value P (ok a) f h k = k a

Safe-refuse_or :
    (P : Checker → Type 0) (a : Bool) (m : Result Checker) → Fine P m → Safe P (refuse_or a m)
Safe-refuse_or P true m h = tt
Safe-refuse_or P false (err e) h = h
Safe-refuse_or P false (ok c) h = h

check_statement-Safe :
    (label : Option Str) (text : Str) (b : Checker)
    → IsEven b
    → Safe
        (λ c. Follows b (map opened (openers (after_label label text))) c [])
        (check_statement label text b)
unfolding check_statement
check_statement-Safe label text b e = search (
  Safe-if,
  Safe-value,
  Safe-refuse_or,
  last_parts _ b.may_else (length b.stack) e,
  open_parts _ _ b.stack b.may_else b.seen_module e,
)

check_text-Safe :
    (text : Str) (b : Checker)
    → IsEven b
    → Safe (λ c. Follows b (opened_by text) c []) (check_text text b)
unfolding check_text opened_by
check_text-Safe text b e = search (
  Safe-if,
  check_statement-Safe (label_of (is_module_item text) text) text
      (record b {
        seen_module = b.seen_module || (is_module_item text && starts_with (codes "module") text);
      })
      e,
)

length-lstrip : (t : Str) → length (lstrip t) ≤ length t
unfolding lstrip
length-lstrip [] = omega arith
length-lstrip (c ∷ cs) = ground (arith, length-lstrip cs)

length-drop : (n : ℕ) (t : Str) → length (drop n t) ≤ length t
length-drop zero t = omega arith
length-drop (suc n) [] = omega arith
length-drop (suc n) (c ∷ t) = omega (arith, length-drop n t)

after_closer_lt : (k : Opener) (c : ℕ) (t : Str) → length (after_closer k (c ∷ t)) < length (c ∷ t)
unfolding after_closer
after_closer_lt begin_block c t = omega (arith, length-lstrip (drop 2 t), length-drop 2 t)
after_closer_lt case_block c t = omega (arith, length-lstrip (drop 6 t), length-drop 6 t)

-- what the closers of a line leave of it
abbrev pub Left : Checker → List Mark → Str × Checker → Type 0
Left b ms p = Follows b ms p.1 (if is_empty p.0 then [] else opened_by p.0)

ended-Safe :
    (s : List (Opener × Bool)) (m : List Bool) (seen : Bool)
    → IsEven (checker s m seen)
    → Safe
        (Left (checker s m seen) (ended ∷ []))
        (ok (if is_empty s then some ([], checker s m seen) else none))
unfolding nest
ended-Safe [] m seen e = (e, refl)
ended-Safe (p ∷ s) m seen e = tt

Safe-map :
    {A : Type 0} (P Q : A → Type 0) (m : Result (Option A))
    → ((a : A) → P a → Q a)
    → Safe P m
    → Safe Q m
Safe-map P Q (err e) f h = h
Safe-map P Q (ok none) f h = tt
Safe-map P Q (ok (some a)) f h = f a h

closer-Safe :
    (k : Opener) (b : Checker) (ms : List Mark) (f : Checker → Result (Option (Str × Checker)))
    → IsEven b
    → ((c : Checker) → IsEven c → Safe (Left c ms) (f c))
    → Safe
        (Left b (closed k ∷ ms))
        (close_block k b >>= λ r. elim r [ none ↦ ok none | some c ↦ f c ])
closer-Safe k b ms f e h =
    Safe-bind (λ c. Follows b (closed k ∷ ms) c ms) (Left b (closed k ∷ ms)) (close_block k b) f
      (close-Safe k b ms e)
      (λ c (ec, n).
        Safe-map (Left c ms) (Left b (closed k ∷ ms)) (f c) (λ p l. (l.0, n ∙ l.1)) (h c ec))

empty_text :
    (fuel : ℕ) (b : Checker)
    → IsEven b
    → Safe (Left b (marks_from (suc fuel) [])) (take_closers (suc fuel) [] b)
unfolding take_closers marks_from starts_with strip_prefix leading_word list_beq codes
empty_text fuel b e = (e, refl)

take_closers-Safe :
    (fuel : ℕ) (text : Str) (b : Checker)
    → length text < fuel
    → IsEven b
    → Safe (Left b (marks_from fuel text)) (take_closers fuel text b)
unfolding take_closers marks_from
take_closers-Safe zero text b l e = absurd (omega (arith, l))
take_closers-Safe (suc fuel) [] b l e = empty_text fuel b e
take_closers-Safe (suc fuel) (c ∷ cs) b l e =
    let later = λ (k : Opener) (b' : Checker) (e' : IsEven b').
      take_closers-Safe fuel (after_closer k (c ∷ cs)) b' (omega (arith, after_closer_lt k c cs, l))
        e' in
    elim (Bool-cases (starts_with endmodule_word (c ∷ cs))) [
      | inl y ↦ rw (take_closers, marks_from, y) (ended-Safe b.stack b.may_else b.seen_module e)
      | inr n ↦ elim (Bool-cases (leading_word (c ∷ cs) == endcase_word)) [
        | inl y ↦
            rw (take_closers, marks_from, n, y) (closer-Safe case_block b _ _ e (later case_block))
        | inr n' ↦ elim (Bool-cases (leading_word (c ∷ cs) == end_word)) [
          | inl y ↦
              rw (take_closers, marks_from, n, n', y)
                (closer-Safe begin_block b _ _ e (later begin_block))
          | inr n'' ↦ rw (take_closers, marks_from, n, n', n'') (e, refl)
        ]
      ]
    ]

nest-append :
    (s : List Opener) (ms ns : List Mark) {t : List Opener}
    → nest s ms ≡ some t
    → nest s (ms ++ ns) ≡ nest t ns
unfolding nest
nest-append s [] ns h = ap (λ x. nest x ns) (some_injective h)
nest-append s (opened k ∷ ms) ns h = nest-append (k ∷ s) ms ns h
nest-append [] (closed k ∷ ms) ns h = cc h
nest-append (j ∷ s) (closed k ∷ ms) ns h = elim (Bool-cases (same_opener j k)) [
  | inl e ↦ rw (nest, e) (nest-append s ms ns (rw (nest, e) at h))
  | inr e ↦ cc (rw (nest, e) at h)
]
nest-append [] (ended ∷ ms) ns h = nest-append [] ms ns h
nest-append (j ∷ s) (ended ∷ ms) ns h = cc h

after_closers-Safe :
    (b : Checker) (ms : List Mark) (rest : Str) (c : Checker)
    → Left b ms (rest, c)
    → Safe (λ d. Follows b ms d []) (if is_empty rest then ok (some c) else check_text rest c)
after_closers-Safe b ms [] c l = l
after_closers-Safe b ms (x ∷ xs) c l =
    Safe-map (λ d. Follows c (opened_by (x ∷ xs)) d []) (λ d. Follows b ms d [])
      (check_text (x ∷ xs) c) (λ d (e, n). (e, l.1 ∙ n)) (check_text-Safe (x ∷ xs) c l.0)

pub check_line-Safe :
    (line : Str) (b : Checker)
    → IsEven b
    → Safe (λ c. Follows b (marks_of line) c []) (check_line line b)
unfolding check_line marks_of
check_line-Safe line b e =
    let text = lstrip (rstrip line) in
    Safe-bind (Left b (marks_of line)) (λ c. Follows b (marks_of line) c [])
      (take_closers (suc (length text)) text b)
      (λ p. if is_empty p.0 then ok (some p.1) else check_text p.0 p.1)
      (take_closers-Safe (suc (length text)) text b (omega arith) e)
      (λ p l. after_closers-Safe b (marks_of line) p.0 p.1 l)

pub check_lines-Safe :
    (lines : List Str) (b : Checker)
    → IsEven b
    → Safe (λ c. Follows b (marks_of_lines lines) c []) (check_lines lines b)
unfolding check_lines marks_of_lines nest
check_lines-Safe [] b e = (e, refl)
check_lines-Safe (line ∷ lines) b e =
    Safe-bind (λ c. Follows b (marks_of line) c [])
      (λ c. Follows b (marks_of_lines (line ∷ lines)) c []) (check_line line b) (check_lines lines)
      (check_line-Safe line b e)
      (λ c (ec, n).
        Safe-map (λ d. Follows c (marks_of_lines lines) d [])
          (λ d. Follows b (marks_of_lines (line ∷ lines)) d []) (check_lines lines c)
          (λ d (ed, m). (ed, nest-append (kinds b) (marks_of line) (marks_of_lines lines) n ∙ m))
          (check_lines-Safe lines c ec))

-- a run of `check_lines` that raises nothing, as a Boolean
accepts-cases :
    (P : Checker → Type 0) (r : Result (Option Checker))
    → Safe P r
    → (b : Bool) × ((r >>= λ o. ok (elim o as (λ _. Bool) [ none ↦ false | some c ↦ true ])) ≡ ok b)
      × (b ≡ true → (c : Checker) × P c × (r ≡ ok (some c)))
accepts-cases P (err e) h = absurd h
accepts-cases P (ok none) h = (false, refl, λ k. cc k)
accepts-cases P (ok (some c)) h = (true, refl, λ k. (c, h, refl))

-- Checking the lines of a module raises no exception. Where the lines are accepted, their openers and
-- closers match as brackets do, and each `endmodule` stands where every block is closed.
pub well_formed-Nested :
    (lines : List Str)
    → (b : Bool) × (well_formed lines ≡ ok b)
      × (b ≡ true → (open_now : List Opener) × (nest [] (marks_of_lines lines) ≡ some open_now))
unfolding well_formed nest
well_formed-Nested lines =
    let (b, e, h) = accepts-cases _ (check_lines lines fresh) (check_lines-Safe lines fresh refl) in
    (b, e, λ k. let (c, (_, n), _) = h k in (kinds c, n))
