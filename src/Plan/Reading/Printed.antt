-- ===== src/Plan/Reading/Printed.antt =====
-- read_plan of rtl_designs/plan_to_verilog.py reads back the steps of a printed plan.
use htn_llm_rtl_gen.Plan.Reading.{
  Step, after_first, depth_found, ends_line, lines_from, splitlines, before_mark, is_argument,
  arguments_of, step_of, plan_step, steps_of, is_zero, read_plan,
}
use htn_llm_rtl_gen.Shared.{
  ℕ, suc, ◌≡◌, refl, sym, ap, ◌≢◌, true, false, not, none, some, List, [], ◌∷◌, ◌++◌, append_assoc,
  append-nil, arith, IsDigit, show_nat-IsDigit, is_empty-show_nat, all-show_nat, all, All, All-map,
  All-append, run_of, lstrip, ◌==◌, eq_iff, nat_eq, list_eq, pair_eq, beq_of_ne, Str, codes,
  is_space, join, words_from, words, show_nat, strip_prefix, IsWord, words-join, IsFree, ok,
}

-- A name of a plan: a word without a closing bracket.
abbrev pub IsName : Str → Type 0
IsName w = IsWord w × IsFree b')' w

abbrev pub IsStep : Step → Type 0
IsStep (n, args) = IsName n × All IsName args

abbrev step_mark : ℕ → Str
step_mark i = b')' ∷ b'_' ∷ show_nat i

abbrev printed_step : ℕ → Step → Str
printed_step i (n, args) = b'(' ∷ (join (codes " ") (n ∷ args) ++ step_mark i)

-- `(name arguments)_i`, one line for each step
abbrev pub printed : ℕ → List Step → Str
printed i [] = []
printed i (step ∷ steps) = printed_step i step ++ b'\n' ∷ printed (suc i) steps

strip_mark : (c : ℕ) (t : Str) → c ≢ b')' → strip_prefix (codes ")_") (c ∷ t) ≡ none
unfolding strip_prefix codes
strip_mark c t h = rw (strip_prefix, beq_of_ne (λ e. h (sym e))) refl

before_mark-cons :
    (c : ℕ) (t : Str) {w : Str}
    → c ≢ b')'
    → before_mark t ≡ some w
    → before_mark (c ∷ t) ≡ some (c ∷ w)
unfolding before_mark
before_mark-cons c t h k = rw (before_mark, strip_mark c t h, k) refl

before_mark-here : (i : ℕ) → before_mark (step_mark i) ≡ some []
unfolding before_mark strip_prefix codes
before_mark-here i = rw (is_empty-show_nat i, all-show_nat i) refl

before_mark-free : (w : Str) (i : ℕ) → IsFree b')' w → before_mark (w ++ step_mark i) ≡ some w
before_mark-free [] i h = before_mark-here i
before_mark-free (c ∷ w) i h = before_mark-cons c (w ++ step_mark i) h.0 (before_mark-free w i h.1)

free_brackets : (w : Str) → IsFree b')' w → all (λ c. not (c == b')')) w ≡ true
unfolding all
free_brackets [] h = refl
free_brackets (c ∷ w) h = ground (arith, eq_iff c b')', free_brackets w h.1)

IsName-is_argument : (w : Str) → IsName w → is_argument w ≡ true
unfolding is_argument
IsName-is_argument [] h = absurd (h.0.0 refl)
IsName-is_argument (c ∷ w) h = free_brackets (c ∷ w) h.1

abbrev marked : Str → List Str → ℕ → List Str
marked w [] i = (w ++ step_mark i) ∷ []
marked w (v ∷ ws) i = w ∷ marked v ws i

join-cons :
    (w v : Str) (ws : List Str) (i : ℕ)
    → join (codes " ") (w ∷ marked v ws i) ≡ w ++ (codes " " ++ join (codes " ") (marked v ws i))
unfolding join
join-cons w v [] i = refl
join-cons w v (u ∷ ws) i = refl

join-marked :
    (w : Str) (ws : List Str) (i : ℕ)
    → join (codes " ") (marked w ws i) ≡ join (codes " ") (w ∷ ws) ++ step_mark i
unfolding join
join-marked w [] i = refl
join-marked w (v ∷ ws) i = rw (join-cons w v ws i, join-marked v ws i) (simp append_assoc)

arguments_of-cons :
    (w v : Str) (ws : List Str) (i : ℕ) {args : List Str}
    → is_argument w ≡ true
    → arguments_of (marked v ws i) ≡ some args
    → arguments_of (w ∷ marked v ws i) ≡ some (w ∷ args)
unfolding arguments_of
arguments_of-cons w v [] i h k = rw (arguments_of, k, h) refl
arguments_of-cons w v (u ∷ ws) i h k = rw (arguments_of, k, h) refl

arguments_of-marked :
    (w : Str) (ws : List Str) (i : ℕ)
    → All IsName (w ∷ ws)
    → arguments_of (marked w ws i) ≡ some (w ∷ ws)
unfolding arguments_of
arguments_of-marked w [] i h =
    rw (arguments_of, before_mark-free w i h.0.1, IsName-is_argument w h.0) refl
arguments_of-marked w (v ∷ ws) i h =
    arguments_of-cons w v ws i (IsName-is_argument w h.0) (arguments_of-marked v ws i h.1)

append_nil_left : (w t : Str) → w ++ t ≡ [] → w ≡ []
append_nil_left [] t e = refl
append_nil_left (c ∷ w) t e = absurd cc

abbrev IsUnspaced : Str → Type 0
IsUnspaced = All (λ c. is_space c ≡ false)

IsDigit-unspaced : (c : ℕ) → IsDigit c → is_space c ≡ false
unfolding is_space
IsDigit-unspaced c h = ground arith

step_mark-IsUnspaced : (i : ℕ) → IsUnspaced (step_mark i)
unfolding is_space
step_mark-IsUnspaced i = (refl, (refl, All-map IsDigit-unspaced (show_nat i) (show_nat-IsDigit i)))

marked-IsWord : (w : Str) (ws : List Str) (i : ℕ) → All IsName (w ∷ ws) → All IsWord (marked w ws i)
marked-IsWord w [] i h = (
  (
    λ e. h.0.0.0 (append_nil_left w (step_mark i) e),
    All-append (λ c. is_space c ≡ false) w (step_mark i) h.0.0.1 (step_mark-IsUnspaced i),
  ),
  tt,
)
marked-IsWord w (v ∷ ws) i h = (h.0.0, marked-IsWord v ws i h.1)

run_of-unspaced : (w : Str) → IsUnspaced w → run_of w ≡ (w, [])
unfolding run_of
run_of-unspaced [] h = refl
run_of-unspaced (c ∷ w) h = rw (h.0, run_of-unspaced w h.1) refl

run_of-space : (w rest : Str) → IsUnspaced w → run_of (w ++ b' ' ∷ rest) ≡ (w, b' ' ∷ rest)
unfolding run_of is_space
run_of-space [] rest h = refl
run_of-space (c ∷ w) rest h = rw (h.0, run_of-space w rest h.1) refl

-- A space before the text changes none of its words.
words-space : (t : Str) → words (b' ' ∷ t) ≡ words t
unfolding words words_from is_space
words-space t = refl

plan_step-open : (t : Str) → plan_step (b'(' ∷ t) ≡ step_of (run_of t).0 (words (run_of t).1)
unfolding plan_step strip_prefix lstrip codes is_space
plan_step-open t = refl

join-open :
    (n a : Str) (args : List Str) (i : ℕ)
    → join (codes " ") (n ∷ a ∷ args) ++ step_mark i
      ≡ n ++ b' ' ∷ join (codes " ") (marked a args i)
unfolding join codes
join-open n a args i = rw (join-marked a args i) (simp append_assoc)

plan_step-alone :
    (i c : ℕ) (n : Str) → IsName (c ∷ n) → plan_step (printed_step i (c ∷ n, [])) ≡ some (c ∷ n, [])
unfolding step_of join words words_from
plan_step-alone i c n h =
    rw
      (
        plan_step-open ((c ∷ n) ++ step_mark i),
        run_of-unspaced ((c ∷ n) ++ step_mark i) (
            All-append (λ d. is_space d ≡ false) (c ∷ n) (step_mark i) h.0.1
              (step_mark-IsUnspaced i)),
        step_of,
        before_mark-free (c ∷ n) i h.1,
      )
      refl

step_of-marked :
    (c : ℕ) (n a : Str) (ws : List Str) (i : ℕ) {args : List Str}
    → arguments_of (marked a ws i) ≡ some args
    → step_of (c ∷ n) (marked a ws i) ≡ some (c ∷ n, args)
unfolding step_of
step_of-marked c n a [] i h = rw (step_of, h) refl
step_of-marked c n a (u ∷ ws) i h = rw (step_of, h) refl

plan_step-printed :
    (i : ℕ) (step : Step) → IsStep step → plan_step (printed_step i step) ≡ some step
unfolding step_of
plan_step-printed i ([], args) h = absurd (h.0.0.0 refl)
plan_step-printed i (c ∷ n, []) h = plan_step-alone i c n h.0
plan_step-printed i (c ∷ n, a ∷ args) h =
    rw
      (
        plan_step-open (join (codes " ") ((c ∷ n) ∷ a ∷ args) ++ step_mark i),
        join-open (c ∷ n) a args i,
        run_of-space (c ∷ n) (join (codes " ") (marked a args i)) h.0.0.1,
        words-space (join (codes " ") (marked a args i)),
      )
      (rw (words-join (marked a args i) (marked-IsWord a args i h.1))
        (step_of-marked c n a args i (arguments_of-marked a args i h.1)))

abbrev IsOpen : Str → Type 0
IsOpen = All (λ c. ends_line c ≡ false)

unspaced_open : (c : ℕ) → is_space c ≡ false → ends_line c ≡ false
unfolding is_space ends_line
unspaced_open c h = ground arith

feed_ends : ends_line b'\n' ≡ true
unfolding ends_line
feed_ends = refl

lines_from-open :
    (line w rest : Str)
    → IsOpen w
    → lines_from line false (w ++ b'\n' ∷ rest) ≡ (line ++ w) ∷ lines_from [] false rest
unfolding lines_from
lines_from-open line [] rest h = rw (append-nil, feed_ends) refl
lines_from-open line (c ∷ w) rest h =
    rw (lines_from, h.0, lines_from-open (line ++ c ∷ []) w rest h.1)
      (ap (λ l. l ∷ lines_from [] false rest) (append_assoc line (c ∷ []) w))

words-IsOpen : (w : Str) → IsUnspaced w → IsOpen w
words-IsOpen w h = All-map unspaced_open w h

space_open : ends_line b' ' ≡ false
unfolding ends_line
space_open = refl

join-IsOpen : (ws : List Str) → All IsName ws → IsOpen (join (codes " ") ws)
unfolding join codes
join-IsOpen [] h = tt
join-IsOpen (w ∷ []) h = words-IsOpen w h.0.0.1
join-IsOpen (w ∷ v ∷ ws) h =
    All-append (λ c. ends_line c ≡ false) w (b' ' ∷ join (codes " ") (v ∷ ws))
      (words-IsOpen w h.0.0.1) (space_open, join-IsOpen (v ∷ ws) h.1)

bracket_open : ends_line b'(' ≡ false
unfolding ends_line
bracket_open = refl

printed_step-IsOpen : (i : ℕ) (step : Step) → IsStep step → IsOpen (printed_step i step)
printed_step-IsOpen i (n, args) h = (
  bracket_open,
  All-append (λ c. ends_line c ≡ false) (join (codes " ") (n ∷ args)) (step_mark i)
      (join-IsOpen (n ∷ args) h) (words-IsOpen (step_mark i) (step_mark-IsUnspaced i)),
)

steps_of-printed :
    (i : ℕ) (steps : List Step)
    → All IsStep steps
    → steps_of (lines_from [] false (printed i steps)) ≡ steps
unfolding steps_of lines_from
steps_of-printed i [] h = refl
steps_of-printed i (step ∷ steps) h =
    rw
      (
        lines_from-open [] (printed_step i step) (printed (suc i) steps)
            (printed_step-IsOpen i step h.0),
        steps_of,
        plan_step-printed i step h.0,
      )
      (ap (λ t. step ∷ t) (steps_of-printed (suc i) steps h.1))

after_feed : (t : Str) → steps_of (splitlines (b'\n' ∷ t)) ≡ steps_of (lines_from [] false t)
unfolding steps_of splitlines lines_from ends_line plan_step lstrip strip_prefix codes
after_feed t = refl

-- The steps of a printed plan are read back, in their order, from a report whose depth is not 0 and in
-- which nothing but their lines follows the first "Plan:"; their names and arguments are words without
-- a closing bracket.
pub read_plan-printed :
    (text : Str) (i : ℕ) (steps : List Step)
    → All IsStep steps
    → after_first (codes "Plan:") text ≡ some (b'\n' ∷ printed i steps)
    → is_zero (depth_found text) ≡ false
    → read_plan text ≡ ok steps
unfolding read_plan
read_plan-printed text i steps h found deep =
    rw (read_plan, found, deep, after_feed (printed i steps), steps_of-printed i steps h) refl
