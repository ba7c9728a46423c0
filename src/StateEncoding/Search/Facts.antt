-- ===== src/StateEncoding/Search/Facts.antt =====
-- The regular expression of states_of of rtl_designs/state_encoding.py at the facts that `emit` of
-- rtl_designs/problem_compiler.py writes.
use htn_llm_rtl_gen.StateEncoding.Search.{match_pair, find_all}
use htn_llm_rtl_gen.StateEncoding.Search.Found.{
  NoOpen, find_all-skip, find_all-miss, find_all-hit, strip_prefix-other, strip_prefix-closed,
  closed, two_words, with_rest, groups_at, groups_at-closed,
}
use htn_llm_rtl_gen.Problem.Emitting.{fact_lines}
use htn_llm_rtl_gen.Problem.Emitting.Lines.{IsPlain, IsAtom, unlines}
use htn_llm_rtl_gen.Problem.Emitting.Tree.{IsFact}
use htn_llm_rtl_gen.Problem.Sexpr.{Sexprs}
use htn_llm_rtl_gen.Shared.{
  ◌≡◌, refl, sym, ap, ◌∙◌, inl, inr, Option, none, some, List, [], ◌∷◌, ◌++◌, append_assoc, All,
  All-map, ◌==◌, nat_eq, if◌then◌else◌, list_eq, pair_eq, eq_of_beq, ne_of_beq, Bool-cases,
  Option-cases, Str, codes, join, strip_prefix, strip_prefix-append,
}

-- The two arguments of a fact of a name, where it has two.
unfoldable pub named_pair : Str → List Str → Option (Str × Str)
named_pair key [] = none
named_pair key (w ∷ ws) = if key == w then two_words ws else none

-- The arguments of the facts of a name that have two, in their order.
unfoldable pub pairs_of : Str → List (List Str) → List (Str × Str)
unfolding named_pair
pairs_of key [] = []
pairs_of key (f ∷ facts) =
    let rest = pairs_of key facts in elim (named_pair key f) [ none ↦ rest | some p ↦ p ∷ rest ]

pub match_pair-none :
    (key t : Str) → strip_prefix (key ++ 32 ∷ []) t ≡ none → match_pair key (40 ∷ t) ≡ none
unfolding match_pair strip_prefix
match_pair-none key t h = rw (match_pair, strip_prefix, h) refl

match_pair-groups_at : (key t : Str) → match_pair key (40 ∷ (key ++ 32 ∷ t)) ≡ groups_at t
unfolding match_pair strip_prefix
match_pair-groups_at key t =
    let found : strip_prefix (key ++ 32 ∷ []) (key ++ 32 ∷ t) ≡ some t =
      ap (strip_prefix (key ++ 32 ∷ [])) (sym (append_assoc key (32 ∷ []) t))
      ∙ strip_prefix-append (key ++ 32 ∷ []) t in
    rw (match_pair, strip_prefix, found) refl

-- the expression at a fact
match_pair-named_pair :
    (key : Str) (f : List Str) (t : Str)
    → All IsPlain key
    → IsFact f
    → match_pair key (40 ∷ closed f t) ≡ with_rest (10 ∷ t) (named_pair key f)
unfolding named_pair join codes
match_pair-named_pair key [] t hk hf = absurd (hf.0 refl)
match_pair-named_pair key (w ∷ []) t hk hf = elim (Bool-cases (key == w)) [
  | inl e ↦
      rw (named_pair, e)
        (match_pair-none key (w ++ 41 ∷ 10 ∷ t) (
          ap (λ x. strip_prefix (key ++ 32 ∷ []) (x ++ 41 ∷ 10 ∷ t)) (sym (eq_of_beq e))
          ∙ strip_prefix-closed key (10 ∷ t)))
  | inr e ↦
      rw (named_pair, e)
        (match_pair-none key (w ++ 41 ∷ 10 ∷ t)
          (strip_prefix-other key w 41 (10 ∷ t) hk hf.1.0.1 (inr refl) (ne_of_beq e)))
]
match_pair-named_pair key (w ∷ a ∷ ws) t hk hf =
    ap (λ x. match_pair key (40 ∷ x))
      (append_assoc w (32 ∷ join (codes " ") (a ∷ ws)) (41 ∷ 10 ∷ t))
    ∙ elim (Bool-cases (key == w)) [
      | inl e ↦
          rw (named_pair, e)
            (ap (λ x. match_pair key (40 ∷ (x ++ 32 ∷ closed (a ∷ ws) t))) (sym (eq_of_beq e))
              ∙ match_pair-groups_at key (closed (a ∷ ws) t)
              ∙ groups_at-closed a ws t hf.1.1)
      | inr e ↦
          rw (named_pair, e)
            (match_pair-none key (w ++ 32 ∷ closed (a ∷ ws) t) (
              strip_prefix-other key w 32 (closed (a ∷ ws) t) hk hf.1.0.1 (inl refl) (ne_of_beq e)))
    ]

pub word-NoOpen : (w : Str) → All IsPlain w → NoOpen w
word-NoOpen w h = All-map (λ c k. k.no_open) w h

pub append-NoOpen : (v w : Str) → NoOpen v → NoOpen w → NoOpen (v ++ w)
append-NoOpen [] w h k = k
append-NoOpen (c ∷ v) w h k = (h.0, append-NoOpen v w h.1 k)

pub join-NoOpen : (ws : List Str) → All IsAtom ws → NoOpen (join (codes " ") ws)
unfolding join codes
join-NoOpen [] h = tt
join-NoOpen (w ∷ []) h = word-NoOpen w h.0.1
join-NoOpen (w ∷ v ∷ ws) h =
    append-NoOpen w (32 ∷ join (codes " ") (v ∷ ws)) (word-NoOpen w h.0.1)
      (refl, join-NoOpen (v ∷ ws) h.1)

abbrev added : Option (Str × Str) → List (Str × Str) → List (Str × Str)
added none ps = ps
added (some p) ps = p ∷ ps

find_all-fact :
    (key : Str) (f : List Str) (t : Str)
    → All IsPlain key
    → IsFact f
    → find_all key (40 ∷ closed f t) ≡ added (named_pair key f) (find_all key t)
find_all-fact key f t hk hf = elim (Option-cases (named_pair key f)) [
  | inl e ↦ rw e (
      find_all-miss key 40 (closed f t)
        (match_pair-named_pair key f t hk hf ∙ ap (with_rest (10 ∷ t)) e)
      ∙ ap (find_all key) (sym (append_assoc (join (codes " ") f) (41 ∷ 10 ∷ []) t))
      ∙ find_all-skip key (join (codes " ") f ++ 41 ∷ 10 ∷ []) t (
          append-NoOpen (join (codes " ") f) (41 ∷ 10 ∷ []) (join-NoOpen f hf.1)
            (refl, (refl, tt))))
  | inr (p, e) ↦ rw e (
      find_all-hit key 40 (closed f t) (10 ∷ t) p
        (match_pair-named_pair key f t hk hf ∙ ap (with_rest (10 ∷ t)) e)
      ∙ ap (λ ps. p ∷ ps) (find_all-skip key (10 ∷ []) t (refl, tt)))
]

-- the lines of the facts, before other text
pub find_all-pairs_of :
    (show_list : Sexprs → Str) (key : Str) (facts : List (List Str)) (t : Str)
    → All IsPlain key
    → All IsFact facts
    → find_all key (unlines (fact_lines show_list facts) ++ t)
      ≡ pairs_of key facts ++ find_all key t
unfolding fact_lines pairs_of codes
find_all-pairs_of show_list key [] t hk hf = refl
find_all-pairs_of show_list key (f ∷ facts) t hk hf =
    let rest = unlines (fact_lines show_list facts) in
    let words = join (codes " ") f in
    ap (find_all key) (
      ap (λ x. 32 ∷ 32 ∷ 32 ∷ 32 ∷ 40 ∷ x)
        (ap (λ x. x ++ t) (append_assoc words (41 ∷ []) (10 ∷ rest))
          ∙ append_assoc words (41 ∷ 10 ∷ rest) t))
    ∙ find_all-skip key (codes "    ") (40 ∷ closed f (rest ++ t))
        (refl, (refl, (refl, (refl, tt))))
    ∙ find_all-fact key f (rest ++ t) hk hf.0
    ∙ ap (added (named_pair key f)) (find_all-pairs_of show_list key facts t hk hf.1)
    ∙ put (named_pair key f)
  where
    put :
        (o : Option (Str × Str))
        → added o (pairs_of key facts ++ find_all key t)
          ≡ (elim o as (λ _. List (Str × Str)) [
            | none ↦ pairs_of key facts
            | some p ↦ p ∷ pairs_of key facts
          ])
            ++ find_all key t
    put none = refl
    put (some p) = refl
