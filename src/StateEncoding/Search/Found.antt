-- ===== src/StateEncoding/Search/Found.antt =====
-- The regular expression of states_of of rtl_designs/state_encoding.py at a line of a fact.
use htn_llm_rtl_gen.StateEncoding.Search.{
  up_to_close, second_group, two_groups, match_pair, matches, find_all, length-match_pair,
  matches_enough,
}
use htn_llm_rtl_gen.Problem.Emitting.Lines.{IsPlain, IsAtom}
use htn_llm_rtl_gen.Shared.{
  ℕ, ◌≡◌, ◌≢◌, refl, sym, ap, ◌∙◌, inl, inr, ◌⊎◌, true, false, Option, none, some, List, [], ◌∷◌,
  ◌++◌, append_assoc, arith, length, ◌==◌, nat_eq, list_eq, pair_eq, eq_self, eq_of_beq, Bool-cases,
  Str, codes, join, is_space, strip_prefix, run_of, All, append-nil,
}
use mathlib.Core.Path.{subst}

pub find_all-miss :
    (key : Str) (c : ℕ) (cs : Str)
    → match_pair key (c ∷ cs) ≡ none
    → find_all key (c ∷ cs) ≡ find_all key cs
unfolding find_all matches
find_all-miss key c cs h = rw (matches, h) refl

pub find_all-hit :
    (key : Str) (c : ℕ) (cs rest : Str) (p : Str × Str)
    → match_pair key (c ∷ cs) ≡ some (p, rest)
    → find_all key (c ∷ cs) ≡ p ∷ find_all key rest
unfolding find_all matches
find_all-hit key c cs rest p h =
    let shorter = length-match_pair key (c ∷ cs) p rest h in
    rw (matches, h)
      (ap (λ ps. p ∷ ps)
        (matches_enough (length cs) (length rest) key rest (omega arith) (omega arith)))

-- a match starts with a parenthesis
match_pair-other :
    (key : Str) (c : ℕ) (cs : Str) → (c == 40) ≡ false → match_pair key (c ∷ cs) ≡ none
unfolding match_pair strip_prefix
match_pair-other key c cs h = rw (match_pair, strip_prefix, other c h) refl
  where
    other : (c : ℕ) → (c == 40) ≡ false → (40 == c) ≡ false
    other c h = ground arith

abbrev pub NoOpen : Str → Type 0
NoOpen w = All (λ c. (c == 40) ≡ false) w

pub find_all-skip : (key w t : Str) → NoOpen w → find_all key (w ++ t) ≡ find_all key t
find_all-skip key [] t h = refl
find_all-skip key (c ∷ w) t h =
    find_all-miss key c (w ++ t) (match_pair-other key c (w ++ t) h.0) ∙ find_all-skip key w t h.1

not_space : (c : ℕ) → IsPlain c → (32 == c) ≡ false
not_space c h = elim (Bool-cases (32 == c)) [
  | inr e ↦ e
  | inl e ↦
      let space : is_space c ≡ true =
        subst (λ x. is_space x ≡ true) (eq_of_beq e) (unfold is_space in refl) in
      cc (space, h.no_space)
]

-- the space or the parenthesis after a word
abbrev After : ℕ → Type 0
After d = (d ≡ 32) ⊎ (d ≡ 41)

beq-After : (c d : ℕ) → IsPlain c → After d → (c == d) ≡ false
beq-After c d h (inl e) = subst (λ x. (c == x) ≡ false) (sym e) (turned c (not_space c h))
  where
    turned : (c : ℕ) → (32 == c) ≡ false → (c == 32) ≡ false
    turned c h = ground arith
beq-After c d h (inr e) = subst (λ x. (c == x) ≡ false) (sym e) h.no_close

-- a key that is not the word
pub strip_prefix-other :
    (key w : Str) (d : ℕ) (t : Str)
    → All IsPlain key
    → All IsPlain w
    → After d
    → key ≢ w
    → strip_prefix (key ++ 32 ∷ []) (w ++ d ∷ t) ≡ none
unfolding strip_prefix
strip_prefix-other [] [] d t hk hw hd n = absurd (n refl)
strip_prefix-other [] (c ∷ w) d t hk hw hd n = rw (not_space c hw.0) refl
strip_prefix-other (k ∷ key) [] d t hk hw hd n = rw (beq-After k d hk.0 hd) refl
strip_prefix-other (k ∷ key) (c ∷ w) d t hk hw hd n = elim (Bool-cases (k == c)) [
  | inr e ↦ rw (strip_prefix, e) refl
  | inl e ↦
      rw (strip_prefix, e)
        (strip_prefix-other key w d t hk.1 hw.1 hd
          (λ same. n (ap (λ x. k ∷ x) same ∙ ap (λ x. x ∷ w) (eq_of_beq e))))
]

-- a key with nothing after it
pub strip_prefix-closed : (key t : Str) → strip_prefix (key ++ 32 ∷ []) (key ++ 41 ∷ t) ≡ none
unfolding strip_prefix
strip_prefix-closed [] t = refl
strip_prefix-closed (k ∷ key) t = rw (strip_prefix, eq_self k) (strip_prefix-closed key t)

run_of-plain :
    (w : Str) (t : Str) → All IsPlain w → run_of (w ++ t) ≡ (w ++ (run_of t).0, (run_of t).1)
unfolding run_of
run_of-plain [] t h = refl
run_of-plain (c ∷ w) t h =
    rw (run_of, h.0.no_space) (ap (λ r. (c ∷ r.0, r.1)) (run_of-plain w t h.1))

up_to_close-plain : (w : Str) → All IsPlain w → up_to_close w ≡ none
unfolding up_to_close
up_to_close-plain [] h = refl
up_to_close-plain (c ∷ w) h = rw (up_to_close-plain w h.1, h.0.no_close) refl

up_to_close-closed : (w : Str) → up_to_close (w ++ 41 ∷ []) ≡ some (w, [])
unfolding up_to_close
up_to_close-closed [] = refl
up_to_close-closed (c ∷ w) = rw (up_to_close-closed w) refl

second_group-found :
    (text w after : Str) (c : ℕ) (b rest : Str)
    → run_of text ≡ (w, after)
    → up_to_close w ≡ some (c ∷ b, rest)
    → second_group text ≡ some (c ∷ b, rest ++ after)
unfolding second_group
second_group-found text w after c b rest h k =
    rw (second_group, h, k) (ap (λ r. some (c ∷ b, rest ++ r.1)) h)

second_group-closed : (b t : Str) → IsAtom b → second_group (b ++ 41 ∷ 10 ∷ t) ≡ some (b, 10 ∷ t)
unfolding run_of is_space
second_group-closed [] t h = absurd (h.0 refl)
second_group-closed (c ∷ b) t h =
    second_group-found ((c ∷ b) ++ 41 ∷ 10 ∷ t) ((c ∷ b) ++ 41 ∷ []) (10 ∷ t) c b []
      (run_of-plain (c ∷ b) (41 ∷ 10 ∷ t) h.1) (up_to_close-closed (c ∷ b))

second_group-none :
    (text w after : Str)
    → run_of text ≡ (w, after)
    → up_to_close w ≡ none
    → second_group text ≡ none
unfolding second_group
second_group-none text w after h k = rw (second_group, h, k) refl

second_group-spaced : (b t : Str) → IsAtom b → second_group (b ++ 32 ∷ t) ≡ none
unfolding run_of is_space
second_group-spaced b t h =
    second_group-none (b ++ 32 ∷ t) b (32 ∷ t)
      (run_of-plain b (32 ∷ t) h.1 ∙ ap (λ w. (w, 32 ∷ t)) (append-nil b)) (up_to_close-plain b h.1)

-- the words of a fact after the first, up to the end of its line
abbrev pub closed : List Str → Str → Str
closed ws t = join (codes " ") ws ++ 41 ∷ 10 ∷ t

-- the two words, where there are two
abbrev pub two_words : List Str → Option (Str × Str)
two_words (a ∷ b ∷ []) = some (a, b)
two_words ws = none

abbrev pub with_rest : Str → Option (Str × Str) → Option ((Str × Str) × Str)
with_rest t none = none
with_rest t (some p) = some (p, t)

-- the groups of `(\S+) (\S+)\)` at the words of a fact
abbrev pub groups_at : Str → Option ((Str × Str) × Str)
groups_at text = two_groups (run_of text).0 (run_of text).1

groups_at-found :
    (text : Str) (c : ℕ) (a after : Str)
    → run_of text ≡ (c ∷ a, 32 ∷ after)
    → groups_at text ≡ (elim (second_group after) as (λ _. Option ((Str × Str) × Str)) [
      | none ↦ none
      | some (s, rest) ↦ some ((c ∷ a, s), rest)
    ])
unfolding two_groups
groups_at-found text c a after h = rw h refl

groups_at-none : (text w t : Str) → run_of text ≡ (w, 10 ∷ t) → groups_at text ≡ none
unfolding two_groups
groups_at-none text [] t h = rw h refl
groups_at-none text (c ∷ w) t h = rw h refl

pub groups_at-closed :
    (a : Str) (ws : List Str) (t : Str)
    → All IsAtom (a ∷ ws)
    → groups_at (closed (a ∷ ws) t) ≡ with_rest (10 ∷ t) (two_words (a ∷ ws))
unfolding join codes run_of is_space
groups_at-closed [] ws t h = absurd (h.0.0 refl)
groups_at-closed (c ∷ a) [] t h =
    groups_at-none ((c ∷ a) ++ 41 ∷ 10 ∷ t) ((c ∷ a) ++ 41 ∷ []) t
      (run_of-plain (c ∷ a) (41 ∷ 10 ∷ t) h.0.1)
groups_at-closed (c ∷ a) (b ∷ []) t h =
    ap groups_at (append_assoc (c ∷ a) (32 ∷ b) (41 ∷ 10 ∷ t))
    ∙ groups_at-found ((c ∷ a) ++ 32 ∷ (b ++ 41 ∷ 10 ∷ t)) c a (b ++ 41 ∷ 10 ∷ t) (
        run_of-plain (c ∷ a) (32 ∷ (b ++ 41 ∷ 10 ∷ t)) h.0.1
        ∙ ap (λ w. (w, 32 ∷ (b ++ 41 ∷ 10 ∷ t))) (append-nil (c ∷ a)))
    ∙ rw (second_group-closed b t h.1.0) refl
groups_at-closed (c ∷ a) (b ∷ d ∷ ws) t h =
    let more = join (codes " ") (d ∷ ws) in
    ap groups_at (
      append_assoc (c ∷ a) (32 ∷ (b ++ 32 ∷ more)) (41 ∷ 10 ∷ t)
      ∙ ap (λ x. (c ∷ a) ++ 32 ∷ x) (append_assoc b (32 ∷ more) (41 ∷ 10 ∷ t)))
    ∙ groups_at-found ((c ∷ a) ++ 32 ∷ (b ++ 32 ∷ (more ++ 41 ∷ 10 ∷ t))) c a
        (b ++ 32 ∷ (more ++ 41 ∷ 10 ∷ t))
        (run_of-plain (c ∷ a) (32 ∷ (b ++ 32 ∷ (more ++ 41 ∷ 10 ∷ t))) h.0.1
          ∙ ap (λ w. (w, 32 ∷ (b ++ 32 ∷ (more ++ 41 ∷ 10 ∷ t)))) (append-nil (c ∷ a)))
    ∙ rw (second_group-spaced b (more ++ 41 ∷ 10 ∷ t) h.1.0) refl
