-- ===== src/Problem/Emitting/Tree.antt =====
-- The s-expression of an emitted problem, and its tokens.
use htn_llm_rtl_gen.Problem.Sexpr.{
  Token, lpar, rpar, word, Sexpr, Sexprs, atom, list, nil, cons, tokens_from, tokens,
  strip_comments,
}
use htn_llm_rtl_gen.Problem.Sexpr.Printed.{print, print_items}
use htn_llm_rtl_gen.Problem.Reading.{Problem}
use htn_llm_rtl_gen.Problem.Emitting.{show_sexpr, object_lines, fact_lines}
use htn_llm_rtl_gen.Problem.Emitting.Lines.{
  IsAtom, at_space, at_newline, at_close, tokens-word, words_then, tokens-join, unlines,
  unlines-append,
}
use htn_llm_rtl_gen.Shared.{
  String, ◌≡◌, refl, sym, ap, ◌∙◌, ◌≢◌, false, List, [], ◌∷◌, ◌++◌, append_assoc, All, ◌==◌, nat_eq,
  list_eq, pair_eq, Str, codes, is_space, join,
}

abbrev pub IsToken : Sexpr → Type 0
IsToken (atom w) = IsAtom w
IsToken (list items) = ⊥

-- Names of objects with a type. A dash among the names would be read as the end of them.
abbrev pub IsObjects : List Str × Sexpr → Type 0
IsObjects (names, t) =
    (names ≢ []) × All IsAtom names × All (λ n. (n == codes "-") ≡ false) names × IsToken t

abbrev pub IsFact : List Str → Type 0
IsFact f = (f ≢ []) × All IsAtom f

-- A problem whose text reads back: the name, the module's name and every type, object and word of a
-- fact is a token, no object is named `-`, every group of objects has a name and no fact is empty.
pub record IsWritable (p : Problem) : Type 0 where
  pub name : IsToken p.name
  pub module_name : IsAtom p.module_name
  pub objects : All IsObjects p.objects
  pub facts : All IsFact p.facts

abbrev pub atoms_then : List Str → Sexprs → Sexprs
atoms_then [] xs = xs
atoms_then (w ∷ ws) xs = cons (atom w) (atoms_then ws xs)

unfoldable pub object_items : List (List Str × Sexpr) → Sexprs
object_items [] = nil
object_items ((names, t) ∷ objects) =
    atoms_then names (cons (atom (codes "-")) (cons t (object_items objects)))

unfoldable pub fact_items : List (List Str) → Sexprs
fact_items [] = nil
fact_items (f ∷ facts) = cons (list (atoms_then f nil)) (fact_items facts)

abbrev pub pair : String → Sexpr → Sexpr
pair key x = list (cons (atom (codes key)) (cons x nil))

unfoldable pub tree_of : Problem → Sexpr
tree_of p = list (
    cons (atom (codes "define")) (
      cons (pair "problem" p.name) (
        cons (pair ":domain" (atom (codes "rtl_fsm"))) (
          cons (list (cons (atom (codes ":objects")) (object_items p.objects))) (
            cons
              (list (
                cons (atom (codes ":htn")) (
                  cons (atom (codes ":parameters")) (
                    cons (list nil) (
                      cons (atom (codes ":subtasks"))
                        (cons (pair "and" (pair "implement_module" (atom p.module_name))) nil))))))
              (cons (list (cons (atom (codes ":init")) (fact_items p.facts))) nil))))))

print-atoms_then :
    (ws : List Str) (xs : Sexprs) → print_items (atoms_then ws xs) ≡ words_then ws (print_items xs)
unfolding print
print-atoms_then [] xs = refl
print-atoms_then (w ∷ ws) xs = ap (λ ts. word w ∷ ts) (print-atoms_then ws xs)

tokens-object_line :
    (w : Str) (ws : List Str) (type_ t : Str)
    → All IsAtom (w ∷ ws)
    → IsAtom type_
    → tokens ((codes "    " ++ (join (codes " ") (w ∷ ws) ++ (codes " - " ++ type_))) ++ 10 ∷ t)
      ≡ words_then (w ∷ ws) (word (codes "-") ∷ word type_ ∷ tokens t)
unfolding codes tokens tokens_from strip_comments is_space
tokens-object_line w ws type_ t h k =
    ap tokens (append_assoc (join (codes " ") (w ∷ ws)) (codes " - " ++ type_) (10 ∷ t))
    ∙ tokens-join w ws 32 (45 ∷ 32 ∷ (type_ ++ 10 ∷ t)) h (at_space refl)
    ∙ ap (λ ts. words_then (w ∷ ws) (word (codes "-") ∷ ts))
        (tokens-word type_ 10 t k (at_newline refl))

tokens-fact_line :
    (w : Str) (ws : List Str) (t : Str)
    → All IsAtom (w ∷ ws)
    → tokens ((codes "    (" ++ (join (codes " ") (w ∷ ws) ++ codes ")")) ++ 10 ∷ t)
      ≡ lpar ∷ words_then (w ∷ ws) (rpar ∷ tokens t)
unfolding codes tokens tokens_from strip_comments is_space
tokens-fact_line w ws t h =
    ap (λ s. lpar ∷ tokens s) (append_assoc (join (codes " ") (w ∷ ws)) (codes ")") (10 ∷ t))
    ∙ ap (λ ts. lpar ∷ ts) (tokens-join w ws 41 (10 ∷ t) h (at_close refl))

words_then-append :
    (ws : List Str) (ts us : List Token) → words_then ws ts ++ us ≡ words_then ws (ts ++ us)
words_then-append [] ts us = refl
words_then-append (w ∷ ws) ts us = ap (λ vs. word w ∷ vs) (words_then-append ws ts us)

module _ (show_list : Sexprs → Str) where
  -- The tokens of the object lines, up to the parenthesis after them.
  pub tokens-object_lines :
      (objects : List (List Str × Sexpr)) (t : Str)
      → All IsObjects objects
      → tokens (unlines (object_lines show_list objects) ++ (codes "  )\n" ++ t))
        ≡ print_items (object_items objects) ++ tokens t
  unfolding object_lines object_items print show_sexpr
  tokens-object_lines [] t h = unfold codes tokens tokens_from strip_comments is_space in refl
  tokens-object_lines (([], type_) ∷ objects) t h = absurd (h.0.0 refl)
  tokens-object_lines ((w ∷ ws, list items) ∷ objects) t h = absurd h.0.3
  tokens-object_lines ((w ∷ ws, atom type_) ∷ objects) t h =
      let rest = unlines (object_lines show_list objects) in
      let line = codes "    " ++ (join (codes " ") (w ∷ ws) ++ (codes " - " ++ type_)) in
      ap tokens (append_assoc line (10 ∷ rest) (codes "  )\n" ++ t))
      ∙ tokens-object_line w ws type_ (rest ++ (codes "  )\n" ++ t)) h.0.1 h.0.3
      ∙ ap (λ ts. words_then (w ∷ ws) (word (codes "-") ∷ word type_ ∷ ts))
          (tokens-object_lines objects t h.1)
      ∙ sym (
          ap (λ ts. ts ++ tokens t) (print-atoms_then (w ∷ ws) _)
          ∙ words_then-append (w ∷ ws)
              (word (codes "-") ∷ word type_ ∷ print_items (object_items objects)) (tokens t))

  tokens-fact_lines :
      (facts : List (List Str)) (t : Str)
      → All IsFact facts
      → tokens (unlines (fact_lines show_list facts) ++ (codes "  )\n" ++ t))
        ≡ print_items (fact_items facts) ++ tokens t
  unfolding fact_lines fact_items print
  tokens-fact_lines [] t h = unfold codes tokens tokens_from strip_comments is_space in refl
  tokens-fact_lines ([] ∷ facts) t h = absurd (h.0.0 refl)
  tokens-fact_lines ((w ∷ ws) ∷ facts) t h =
      let rest = unlines (fact_lines show_list facts) in
      let line = codes "    (" ++ (join (codes " ") (w ∷ ws) ++ codes ")") in
      ap tokens (append_assoc line (10 ∷ rest) (codes "  )\n" ++ t))
      ∙ tokens-fact_line w ws (rest ++ (codes "  )\n" ++ t)) h.0.1
      ∙ ap (λ ts. lpar ∷ words_then (w ∷ ws) (rpar ∷ ts)) (tokens-fact_lines facts t h.1)
      ∙ sym (
          ap (λ ts. lpar ∷ ((ts ++ print_items (fact_items facts)) ++ tokens t))
            (print-atoms_then (w ∷ ws) nil)
          ∙ ap (λ ts. lpar ∷ (ts ++ tokens t))
              (words_then-append (w ∷ ws) (rpar ∷ []) (print_items (fact_items facts)))
          ∙ ap (λ ts. lpar ∷ ts)
              (words_then-append (w ∷ ws) (rpar ∷ print_items (fact_items facts)) (tokens t)))

  pub tokens-init :
      (facts : List (List Str))
      → All IsFact facts
      → tokens (unlines (fact_lines show_list facts ++ codes "  )" ∷ codes ")" ∷ []))
        ≡ print_items (fact_items facts) ++ rpar ∷ []
  tokens-init facts h =
      ap tokens (unlines-append (fact_lines show_list facts) (codes "  )" ∷ codes ")" ∷ []))
      ∙ unfold codes in
        tokens-fact_lines facts (codes ")\n") h
        ∙ ap (λ ts. print_items (fact_items facts) ++ ts)
            (unfold codes tokens tokens_from strip_comments is_space in refl)
