-- ===== src/Problem/Emitting/Sections.antt =====
-- The tokens of the whole text of a problem are those of its tree.
use htn_llm_rtl_gen.Problem.Sexpr.{
  lpar, rpar, word, Sexpr, Sexprs, atom, list, tokens_from, tokens, strip_comments,
}
use htn_llm_rtl_gen.Problem.Sexpr.Printed.{print}
use htn_llm_rtl_gen.Problem.Reading.{Problem}
use htn_llm_rtl_gen.Problem.Emitting.{show_sexpr, object_lines, fact_lines, emit_lines, emit}
use htn_llm_rtl_gen.Problem.Emitting.Tree.{
  IsToken, IsObjects, IsFact, IsWritable, tree_of, tokens-object_lines, tokens-init,
}
use htn_llm_rtl_gen.Problem.Emitting.Lines.{
  IsAtom, at_close, tokens-word, unlines, join-unlines, unlines-append,
}
use htn_llm_rtl_gen.Shared.{
  ◌≡◌, refl, ap, ◌∙◌, List, [], ◌∷◌, ◌++◌, append_assoc, All, nat_eq, list_eq, pair_eq, Str, codes,
  is_space,
}

tokens-module :
    (m y t : Str)
    → IsAtom m
    → tokens (((m ++ codes "))") ++ y) ++ t) ≡ word m ∷ rpar ∷ rpar ∷ tokens (y ++ t)
unfolding codes tokens tokens_from strip_comments is_space
tokens-module m y t h =
    ap tokens
      (ap (λ s. s ++ t) (append_assoc m (codes "))") y) ∙ append_assoc m (codes "))" ++ y) t)
    ∙ tokens-word m 41 (41 ∷ (y ++ t)) h (at_close refl)

abbrev pub htn_lines : Str → List Str
htn_lines m =
    codes "  (:htn"
    ∷ codes "    :parameters ()"
    ∷ (codes "    :subtasks (and (implement_module " ++ (m ++ codes "))"))
    ∷ codes "  )"
    ∷ codes "  (:init"
    ∷ []

tokens-htn :
    (m : Str) (t : Str)
    → IsAtom m
    → tokens (unlines (htn_lines m) ++ t)
      ≡ lpar
        ∷ word (codes ":htn")
        ∷ word (codes ":parameters")
        ∷ lpar
        ∷ rpar
        ∷ word (codes ":subtasks")
        ∷ lpar
        ∷ word (codes "and")
        ∷ lpar
        ∷ word (codes "implement_module")
        ∷ word m
        ∷ rpar
        ∷ rpar
        ∷ rpar
        ∷ lpar
        ∷ word (codes ":init")
        ∷ tokens t
unfolding codes tokens tokens_from strip_comments is_space
tokens-htn m t h = rw (tokens-module m _ t h)

tokens-head :
    (name t : Str)
    → IsAtom name
    → tokens (
        ((codes "(define (problem " ++ (name ++ codes ")"))
          ++ 10 ∷ (codes "  (:domain rtl_fsm)\n  (:objects\n" ++ t)))
      ≡ lpar
        ∷ word (codes "define")
        ∷ lpar
        ∷ word (codes "problem")
        ∷ word name
        ∷ rpar
        ∷ lpar
        ∷ word (codes ":domain")
        ∷ word (codes "rtl_fsm")
        ∷ rpar
        ∷ lpar
        ∷ word (codes ":objects")
        ∷ tokens t
unfolding codes tokens tokens_from strip_comments is_space
tokens-head name t h = rw (append_assoc, tokens-word name 41 _ h (at_close refl))

module _ (show_list : Sexprs → Str) where
  tokens-sections :
      (n m : Str) (objects : List (List Str × Sexpr)) (facts : List (List Str))
      → IsAtom n
      → IsAtom m
      → All IsObjects objects
      → All IsFact facts
      → tokens (
          (codes "(define (problem " ++ (n ++ codes ")"))
          ++ 10
            ∷ (codes "  (:domain rtl_fsm)\n  (:objects\n"
                ++ (unlines (object_lines show_list objects)
                    ++ (codes "  )\n"
                        ++ (unlines (htn_lines m)
                            ++ unlines
                                (fact_lines show_list facts ++ codes "  )" ∷ codes ")" ∷ []))))))
        ≡ print
            (tree_of (record { name = atom n; module_name = m; objects = objects; facts = facts }))
  unfolding tree_of print
  tokens-sections n m objects facts hn hm ho hf =
      tokens-head n _ hn
      ∙ rw (
        tokens-object_lines show_list objects _ ho,
        tokens-htn m _ hm,
        tokens-init show_list facts hf,
      )

  pub emit-sections :
      (n m : Str) (objects : List (List Str × Sexpr)) (facts : List (List Str))
      → emit show_list (record { name = atom n; module_name = m; objects = objects; facts = facts })
        ≡ (codes "(define (problem " ++ (n ++ codes ")"))
          ++ 10
            ∷ (codes "  (:domain rtl_fsm)\n  (:objects\n"
                ++ (unlines (object_lines show_list objects)
                    ++ (codes "  )\n"
                        ++ (unlines (htn_lines m)
                            ++ unlines
                                (fact_lines show_list facts ++ codes "  )" ∷ codes ")" ∷ [])))))
  unfolding emit emit_lines show_sexpr codes
  emit-sections n m objects facts =
      let ending = fact_lines show_list facts ++ codes "  )" ∷ codes ")" ∷ [] in
      join-unlines _ _
      ∙ ap
          (λ s.
            (codes "(define (problem " ++ (n ++ codes ")"))
            ++ 10 ∷ (codes "  (:domain rtl_fsm)\n  (:objects\n" ++ s))
          (unlines-append (object_lines show_list objects) (codes "  )" ∷ (htn_lines m ++ ending))
            ∙ ap (λ s. unlines (object_lines show_list objects) ++ (codes "  )\n" ++ s))
                (unlines-append (htn_lines m) ending))

  named :
      (name : Sexpr) (m : Str) (objects : List (List Str × Sexpr)) (facts : List (List Str))
      → IsToken name
      → IsAtom m
      → All IsObjects objects
      → All IsFact facts
      → let p : Problem = record {
        name = name;
        module_name = m;
        objects = objects;
        facts = facts;
      } in
        tokens (emit show_list p) ≡ print (tree_of p)
  named (list items) m objects facts hn hm ho hf = absurd hn
  named (atom n) m objects facts hn hm ho hf =
      ap tokens (emit-sections n m objects facts) ∙ tokens-sections n m objects facts hn hm ho hf

  -- The text of a problem has the tokens of its tree.
  pub tokens-emit : (p : Problem) → IsWritable p → tokens (emit show_list p) ≡ print (tree_of p)
  tokens-emit p h =
      named p.name p.module_name p.objects p.facts h.name h.module_name h.objects h.facts
