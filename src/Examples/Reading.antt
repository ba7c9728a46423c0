-- ===== src/Examples/Reading.antt =====
-- Reading and writing a problem of rtl_designs/problem_compiler.py, at concrete inputs.
use htn_llm_rtl_gen.Problem.Sexpr.{
  Token, lpar, rpar, Sexpr, atom, list, nil, cons, strip_comments, tokens_from, tokens, read_one,
  parse_tokens, parse_sexpr,
}
use htn_llm_rtl_gen.Problem.Sexpr.Printed.{print, parse_tokens_lem}
use htn_llm_rtl_gen.Problem.Reading.{Problem, read}
use htn_llm_rtl_gen.Problem.Emitting.{emit}
use htn_llm_rtl_gen.Problem.Emitting.Lines.{IsPlain, IsAtom}
use htn_llm_rtl_gen.Problem.Emitting.Tree.{IsWritable}
use htn_llm_rtl_gen.Problem.Emitting.RoundTrip.{read-emit}
use htn_llm_rtl_gen.Shared.{
  ℕ, ◌≡◌, refl, ◌≢◌, ◌⊎◌, false, List, [], ◌∷◌, ◌++◌, ◌==◌, nat_eq, list_beq, list_eq, pair_eq,
  codes, is_space, unbalanced, ok, err,
}

abbrev small : Problem
small = record {
  name = atom (codes "p");
  module_name = codes "m";
  objects = ((codes "a" ∷ codes "b" ∷ []), atom (codes "port")) ∷ [];
  facts = (codes "port" ∷ codes "m" ∷ codes "a" ∷ []) ∷ [];
}

IsPlain-of :
    (c : ℕ)
    → is_space c ≡ false
    → (c == 40) ≡ false
    → (c == 41) ≡ false
    → (c == 59) ≡ false
    → IsPlain c
IsPlain-of c s o e m = record { no_space = s; no_open = o; no_close = e; no_comment = m }

one_letter : (c : ℕ) → IsPlain c → IsAtom (c ∷ [])
one_letter c h = (cc, (h, tt))

letter_a : IsPlain 97
unfolding is_space
letter_a = IsPlain-of 97 refl refl refl refl

letter_b : IsPlain 98
unfolding is_space
letter_b = IsPlain-of 98 refl refl refl refl

letter_m : IsPlain 109
unfolding is_space
letter_m = IsPlain-of 109 refl refl refl refl

letter_p : IsPlain 112
unfolding is_space
letter_p = IsPlain-of 112 refl refl refl refl

port-IsAtom : IsAtom (codes "port")
unfolding codes is_space
port-IsAtom = (
  cc,
  (
    letter_p,
    (
      IsPlain-of 111 refl refl refl refl,
      (IsPlain-of 114 refl refl refl refl, (IsPlain-of 116 refl refl refl refl, tt)),
    ),
  ),
)

small-IsWritable : IsWritable small
unfolding codes is_space list_beq
small-IsWritable = record {
  name = one_letter 112 letter_p;
  module_name = one_letter 109 letter_m;
  objects = (
    (cc, (one_letter 97 letter_a, (one_letter 98 letter_b, tt)), (refl, (refl, tt)), port-IsAtom),
    tt,
  );
  facts = ((cc, (port-IsAtom, (one_letter 109 letter_m, (one_letter 97 letter_a, tt)))), tt);
}

-- Python would write a list in brackets; no list occurs here.
read-emit_example : read (emit (λ items. []) small) ≡ ok small
read-emit_example = read-emit (λ items. []) small small-IsWritable

parse_tokens_lem_example :
    ((x : Sexpr) × (rest : List Token) × (parse_tokens (lpar ∷ rpar ∷ []) ≡ ok x)
      × (lpar ∷ rpar ∷ [] ≡ print x ++ rest))
    ⊎ ((parse_tokens (lpar ∷ rpar ∷ []) ≡ err unbalanced)
        × ((x : Sexpr) (rest : List Token) → lpar ∷ rpar ∷ [] ≢ print x ++ rest))
parse_tokens_lem_example = parse_tokens_lem (lpar ∷ rpar ∷ [])

test_parse :
    parse_sexpr (codes "(a ; no\n (bc))")
    ≡ ok (list (cons (atom (codes "a")) (cons (list (cons (atom (codes "bc")) nil)) nil)))
unfolding parse_sexpr parse_tokens read_one tokens tokens_from strip_comments is_space codes
test_parse = refl
