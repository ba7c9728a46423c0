-- ===== src/StateEncoding/Search.antt =====
-- states_of of rtl_designs/state_encoding.py: the chain of states that the text of a problem names.
pub mod Found
pub mod Facts
pub mod Fixed
pub mod Emitted
use htn_llm_rtl_gen.StateEncoding.{states_from}
use htn_llm_rtl_gen.Shared.{
  ℕ, zero, suc, ◌≤◌, ◌<◌, ◌≡◌, refl, sym, ap, inl, inr, Option, none, some, List, [], ◌∷◌, ◌++◌,
  arith, insert_all, length, length-append, ◌>>=◌, Result, ◌==◌, nat_eq, if◌then◌else◌, list_eq,
  pair_eq, Bool-cases, Option-cases, Str, codes, is_space, strip_prefix, ok, run_of,
}

-- what stands before the last closing parenthesis, and what follows it
unfoldable pub up_to_close : Str → Option (Str × Str)
up_to_close [] = none
up_to_close (c ∷ cs) = elim (up_to_close cs) [
  | some (w, rest) ↦ some (c ∷ w, rest)
  | none ↦ if c == b')' then some ([], cs) else none
]

-- `(\S+)\)` at the start: the greedy run gives back as little as it can
unfoldable pub second_group : Str → Option (Str × Str)
second_group text =
    let (w, after) = run_of text in
    elim (up_to_close w) [
      | none ↦ none
      | some ([], rest) ↦ none
      | some (s ∷ ss, rest) ↦ some (s ∷ ss, rest ++ after)
    ]

-- `(\S+) (\S+)\)` at the start: a run is followed by no other character than a space
unfoldable pub two_groups : Str → Str → Option ((Str × Str) × Str)
two_groups [] after = none
two_groups (m ∷ ms) [] = none
two_groups (m ∷ ms) (c ∷ text) =
    if c == b' '
    then elim (second_group text) as (λ _. Option ((Str × Str) × Str)) [
      | none ↦ none
      | some (s, rest) ↦ some ((m ∷ ms, s), rest)
    ]
    else none

-- `\(key (\S+) (\S+)\)` at the start: the two groups and what follows the match
unfoldable pub match_pair : Str → Str → Option ((Str × Str) × Str)
match_pair key text = elim (strip_prefix (b'(' ∷ (key ++ b' ' ∷ [])) text) [
  | none ↦ none
  | some t ↦ let (m, after) = run_of t in two_groups m after
]

-- `re.search`
unfoldable pub search : Str → Str → Option (Str × Str)
search key [] = none
search key (c ∷ cs) = elim (match_pair key (c ∷ cs)) [
  | none ↦ search key cs
  | some (p, rest) ↦ some p
]

-- `re.findall`, which goes on after a match; each round takes a character at least
unfoldable pub matches : ℕ → Str → Str → List (Str × Str)
matches zero key text = []
matches (suc f) key [] = []
matches (suc f) key (c ∷ cs) = elim (match_pair key (c ∷ cs)) [
  | none ↦ matches f key cs
  | some (p, rest) ↦ p ∷ matches f key rest
]

unfoldable pub find_all : Str → Str → List (Str × Str)
find_all key text = matches (length text) key text

-- from `after = dict(...)` on
unfoldable pub states_after : Str → Str → Str → Str → Result (Option (Str × List Str))
states_after link text machine s = do
  states ← states_from (insert_all (find_all (link) text) []) s
  ok (some (machine, states))

unfoldable pub states_of : Str → Result (Option (Str × List Str))
states_of text = elim (search (codes "first_listed") text) [
  | some (machine, s) ↦ states_after (codes "listed_after") text machine s
  | none ↦ elim (search (codes "initial_state") text) [
    | some (machine, s) ↦ states_after (codes "next_prefix") text machine s
    | none ↦ ok none
  ]
]

length-run_of : (text : Str) → length (run_of text).1 ≤ length text
unfolding run_of
length-run_of [] = omega arith
length-run_of (c ∷ cs) = ground (arith, length-run_of cs)

-- The run and what follows it make up the text.
run_of-append : (text : Str) → (run_of text).0 ++ (run_of text).1 ≡ text
unfolding run_of
run_of-append [] = refl
run_of-append (c ∷ cs) = elim (Bool-cases (is_space c)) [
  | inl e ↦ rw e refl
  | inr e ↦ rw e (ap (λ t. c ∷ t) (run_of-append cs))
]

length-up_to_close : (w s rest : Str) → up_to_close w ≡ some (s, rest) → length rest < length w
unfolding up_to_close
length-up_to_close [] s rest h = cc
length-up_to_close (c ∷ cs) s rest h = elim (Option-cases (up_to_close cs)) [
  | inl e ↦ ground (arith, e)
  | inr ((w, r), e) ↦ ground (arith, e, length-up_to_close cs w r e)
]

length-second_group :
    (text s rest : Str) → second_group text ≡ some (s, rest) → length rest < length text
unfolding second_group
length-second_group text s rest h = elim (Option-cases (up_to_close (run_of text).0)) [
  | inl e ↦ cc (rw (second_group, e) at h)
  | inr (([], r), e) ↦ cc (rw (second_group, e) at h)
  | inr ((t ∷ ts, r), e) ↦
      let q : ◌≡◌ {A = Option (Str × Str)} (some (t ∷ ts, r ++ (run_of text).1)) (some (s, rest)) =
        rw (second_group, e) at h in
      let same : r ++ (run_of text).1 ≡ rest = cc in
      omega (
        arith,
        ap length same,
        length-append r (run_of text).1,
        length-up_to_close (run_of text).0 (t ∷ ts) r e,
        ap length (run_of-append text),
        length-append (run_of text).0 (run_of text).1,
      )
]

length-two_groups :
    (m text : Str) (p : Str × Str) (rest : Str)
    → two_groups m text ≡ some (p, rest)
    → length rest < length text
unfolding two_groups
length-two_groups [] text p rest h = cc
length-two_groups (m ∷ ms) [] p rest h = cc
length-two_groups (m ∷ ms) (c ∷ text) p rest h = elim (Bool-cases (c == 32)) [
  | inl e ↦ elim (Option-cases (second_group text)) [
    | inl k ↦ cc (rw (e, k) at h)
    | inr ((s, r), k) ↦
        let q : ◌≡◌ {A = Option ((Str × Str) × Str)} (some ((m ∷ ms, s), r)) (some (p, rest)) =
          rw (e, k) at h in
        let same : r ≡ rest = cc in omega (arith, ap length same, length-second_group text s r k)
  ]
  | inr e ↦ cc (rw e at h)
]

length-strip_prefix :
    (key text rest : Str) → strip_prefix key text ≡ some rest → length rest ≤ length text
unfolding strip_prefix
length-strip_prefix [] text rest h = ground (arith, h)
length-strip_prefix (k ∷ key) [] rest h = cc
length-strip_prefix (k ∷ key) (c ∷ text) rest h = ground (arith, length-strip_prefix key text rest)

-- A match is not empty.
length-match_pair :
    (key text : Str) (p : Str × Str) (rest : Str)
    → match_pair key text ≡ some (p, rest)
    → length rest < length text
unfolding match_pair
length-match_pair key text p rest h =
    elim (Option-cases (strip_prefix (40 ∷ (key ++ 32 ∷ [])) text)) [
      | inl e ↦ cc (rw (match_pair, e) at h)
      | inr (t, e) ↦
          let q : two_groups (run_of t).0 (run_of t).1 ≡ some (p, rest) = rw (match_pair, e) at h in
          omega (
            arith,
            length-strip_prefix (40 ∷ (key ++ 32 ∷ [])) text t e,
            length-two_groups (run_of t).0 (run_of t).1 p rest q,
            length-run_of t,
          )
    ]

matches_enough :
    (f g : ℕ) (key text : Str)
    → length text ≤ f
    → length text ≤ g
    → matches f key text ≡ matches g key text
unfolding matches
matches_enough zero zero key text h k = refl
matches_enough zero (suc g) key [] h k = refl
matches_enough zero (suc g) key (c ∷ cs) h k = absurd (omega arith)
matches_enough (suc f) zero key [] h k = refl
matches_enough (suc f) zero key (c ∷ cs) h k = absurd (omega arith)
matches_enough (suc f) (suc g) key [] h k = refl
matches_enough (suc f) (suc g) key (c ∷ cs) h k = elim (Option-cases (match_pair key (c ∷ cs))) [
  | inl e ↦ rw (matches, e) (matches_enough f g key cs (omega arith) (omega arith))
  | inr ((p, rest), e) ↦
      let shorter = length-match_pair key (c ∷ cs) p rest e in
      rw (matches, e) (ap (λ ps. p ∷ ps) (matches_enough f g key rest (omega arith) (omega arith)))
]

abbrev pub first_of {ℓ} : {A : Type ℓ} → List A → Option A
first_of [] = none
first_of (x ∷ xs) = some x

matches-search :
    (f : ℕ) (key text : Str) → length text ≤ f → first_of (matches f key text) ≡ search key text
unfolding matches search
matches-search zero key [] h = refl
matches-search zero key (c ∷ cs) h = absurd (omega arith)
matches-search (suc f) key [] h = refl
matches-search (suc f) key (c ∷ cs) h = elim (Option-cases (match_pair key (c ∷ cs))) [
  | inl e ↦ rw (matches, search, e) (matches-search f key cs (omega arith))
  | inr ((p, rest), e) ↦ rw (matches, search, e) refl
]

-- More rounds than the text has characters find no more matches, and what `search` finds is the first
-- of all the matches, if there is one.
pub find_all_lem :
    (key text : Str)
    → ((f : ℕ) → length text ≤ f → matches f key text ≡ find_all key text)
      × (search key text ≡ first_of (find_all key text))
unfolding find_all
find_all_lem key text = (
  λ f h. matches_enough f (length text) key text h (omega arith),
  sym (matches-search (length text) key text (omega arith)),
)
