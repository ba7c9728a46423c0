-- ===== src/Rules/Blocks/Nested/Begun.antt =====
-- Lines that well_formed of eval/learn_steps.py accepts, as the start of a module.
use htn_llm_rtl_gen.Shared.{
  ◌≡◌, refl, Bool, true, false, Option, none, some, List, [], ◌∷◌, ◌++◌, ◌>>=◌, Result, nat_eq,
  list_eq, pair_eq, Str, ok, err,
}
use htn_llm_rtl_gen.Rules.Blocks.{Checker, fresh, check_line, check_lines, well_formed}

-- `return False`, or the rest of the lines
abbrev go_on :
    (Checker → Result (Option Checker)) → Result (Option Checker) → Result (Option Checker)
go_on f r = r >>= λ o. elim o [ none ↦ ok none | some c ↦ f c ]

go_on-again :
    (f g h : Checker → Result (Option Checker)) (m : Result (Option Checker))
    → ((c : Checker) → h c ≡ go_on g (f c))
    → go_on h m ≡ go_on g (go_on f m)
go_on-again f g h (err e) k = refl
go_on-again f g h (ok none) k = refl
go_on-again f g h (ok (some c)) k = k c

check_lines-append :
    (xs ys : List Str) (b : Checker)
    → check_lines (xs ++ ys) b ≡ go_on (check_lines ys) (check_lines xs b)
unfolding check_lines
check_lines-append [] ys b = refl
check_lines-append (x ∷ xs) ys b =
    go_on-again (check_lines xs) (check_lines ys) (check_lines (xs ++ ys)) (check_line x b)
      (check_lines-append xs ys)

accepts_first :
    (f : Checker → Result (Option Checker)) (m : Result (Option Checker))
    → (go_on f m >>= λ o. ok (elim o as (λ _. Bool) [ none ↦ false | some c ↦ true ])) ≡ ok true
    → (m >>= λ o. ok (elim o as (λ _. Bool) [ none ↦ false | some c ↦ true ])) ≡ ok true
accepts_first f (err e) h = h
accepts_first f (ok none) h = h
accepts_first f (ok (some c)) h = refl

-- Lines that are accepted are accepted as far as they go: what a module may start with is told of a
-- part of it already.
pub well_formed-append :
    (xs ys : List Str) → well_formed (xs ++ ys) ≡ ok true → well_formed xs ≡ ok true
unfolding well_formed
well_formed-append xs ys h =
    accepts_first (check_lines ys) (check_lines xs fresh)
      (rw (well_formed, check_lines-append xs ys fresh) at h)
