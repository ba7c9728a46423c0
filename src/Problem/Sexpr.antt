-- ===== src/Problem/Sexpr.antt =====
-- parse_sexpr of rtl_designs/problem_compiler.py: tokens, and the first s-expression among them.
pub mod Printed
use htn_llm_rtl_gen.Shared.{
  ℕ, zero, suc, ◌+◌, ◌*◌, Bool, false, not, List, [], ◌∷◌, ◌++◌, arith, length, ◌>>=◌, Result,
  if◌then◌else◌, ◌==◌, nat_eq, list_eq, pair_eq, Str, is_space, unbalanced, out_of_fuel, ok, err,
}

pub data Token : Type 0 where
  lpar rpar : Token
  word : Str → Token

-- What `read` returns: a token, or a list of what it read.
mutual
  pub data Sexpr : Type 0 where
    atom : Str → Sexpr
    list : Sexprs → Sexpr

  pub data Sexprs : Type 0 where
    nil : Sexprs
    cons : Sexpr → Sexprs → Sexprs

-- `re.sub(r";[^\n]*", "", text)`, from inside a comment or from outside
unfoldable pub strip_comments : Bool → Str → Str
strip_comments inside [] = []
strip_comments inside (c ∷ cs) =
    let inside' = (if inside then not (c == 10) else c == b';') in
    let rest = strip_comments inside' cs in if inside' then rest else c ∷ rest

abbrev close_word : Str → List Token → List Token
close_word [] ts = ts
close_word (c ∷ cs) ts = word (c ∷ cs) ∷ ts

-- `re.findall(r"\(|\)|[^\s()]+", ...)`; `open_word` is the run of other characters that is open.
unfoldable pub tokens_from : Str → Str → List Token
tokens_from open_word [] = close_word open_word []
tokens_from open_word (c ∷ cs) =
    let fresh = tokens_from [] cs in
    let longer = tokens_from (open_word ++ c ∷ []) cs in
    if c == b'('
    then close_word open_word (lpar ∷ fresh)
    else if c == b')'
    then close_word open_word (rpar ∷ fresh)
    else if is_space c
    then close_word open_word fresh
    else longer

unfoldable pub tokens : Str → List Token
tokens text = tokens_from [] (strip_comments false text)

-- `read`, and its loop over the items of a list. What a call leaves of the tokens is not a part of
-- them by its form, so each call costs a unit of fuel.
unfoldable mutual
  pub read_one : ℕ → List Token → Result (Sexpr × List Token)
  read_one zero ts = err out_of_fuel
  read_one (suc f) [] = err unbalanced
  read_one (suc f) (lpar ∷ ts) = do (items, rest) ← read_items f ts; ok (list items, rest)
  read_one (suc f) (rpar ∷ ts) = err unbalanced
  read_one (suc f) (word w ∷ ts) = ok (atom w, ts)

  pub read_items : ℕ → List Token → Result (Sexprs × List Token)
  read_items zero ts = err out_of_fuel
  read_items (suc f) [] = err unbalanced
  read_items (suc f) (rpar ∷ ts) = ok (nil, ts)
  read_items (suc f) (lpar ∷ ts) = do
    (item, rest) ← read_one f (lpar ∷ ts)
    (items, rest') ← read_items f rest
    ok (cons item items, rest')
  read_items (suc f) (word w ∷ ts) = do
    (item, rest) ← read_one f (word w ∷ ts)
    (items, rest') ← read_items f rest
    ok (cons item items, rest')

unfoldable pub parse_tokens : List Token → Result Sexpr
parse_tokens ts = do (tree, rest) ← read_one (2 * length ts + 1) ts; ok tree

unfoldable pub parse_sexpr : Str → Result Sexpr
parse_sexpr text = parse_tokens (tokens text)
