-- ===== src/StateEncoding/Search/Emitted.antt =====
-- states_of of rtl_designs/state_encoding.py on the text that `emit` of
-- rtl_designs/problem_compiler.py writes.
use htn_llm_rtl_gen.StateEncoding.{states_from}
use htn_llm_rtl_gen.StateEncoding.Search.{
  matches, search, find_all, find_all_lem, first_of, states_after, states_of,
}
use htn_llm_rtl_gen.StateEncoding.Search.Found.{NoOpen, find_all-skip}
use htn_llm_rtl_gen.StateEncoding.Search.Fixed.{
  find_all-dead, before_name, before_objects, before_module, before_facts, plain_word-IsPlain,
  IsKey, first_listed-IsKey, listed_after-IsKey, initial_state-IsKey, next_prefix-IsKey,
}
use htn_llm_rtl_gen.StateEncoding.Search.Facts.{
  pairs_of, append-NoOpen, join-NoOpen, word-NoOpen, find_all-pairs_of,
}
use htn_llm_rtl_gen.Problem.Reading.{Problem}
use htn_llm_rtl_gen.Problem.Emitting.{show_sexpr, object_lines, fact_lines, emit}
use htn_llm_rtl_gen.Problem.Emitting.Lines.{IsAtom, unlines, unlines-append}
use htn_llm_rtl_gen.Problem.Emitting.Tree.{IsToken, IsObjects, IsFact, IsWritable}
use htn_llm_rtl_gen.Problem.Emitting.Sections.{htn_lines, emit-sections}
use htn_llm_rtl_gen.Problem.Sexpr.{Sexpr, Sexprs, atom, list}
use htn_llm_rtl_gen.Shared.{
  ◌≡◌, refl, ap, ◌∙◌, inl, inr, Option, none, some, List, [], ◌∷◌, ◌++◌, append_assoc, append-nil,
  All, ◌>>=◌, nat_eq, list_eq, pair_eq, Option-cases, insert_all, Result, ok, Str, codes, join,
}

object_lines-NoOpen :
    (show_list : Sexprs → Str) (objects : List (List Str × Sexpr))
    → All IsObjects objects
    → NoOpen (unlines (object_lines show_list objects))
unfolding object_lines show_sexpr codes
object_lines-NoOpen show_list [] h = tt
object_lines-NoOpen show_list ((names, list items) ∷ objects) h = absurd h.0.3
object_lines-NoOpen show_list ((names, atom t) ∷ objects) h =
    let rest = unlines (object_lines show_list objects) in
    let line = join (codes " ") names ++ (codes " - " ++ t) in
    let middle = append-NoOpen (codes " - ") t (refl, (refl, (refl, tt))) (word-NoOpen t h.0.3.1) in
    let written =
      append-NoOpen (join (codes " ") names) (codes " - " ++ t) (join-NoOpen names h.0.1) middle in
    append-NoOpen (codes "    " ++ line) (10 ∷ rest)
      (append-NoOpen (codes "    ") line (refl, (refl, (refl, (refl, tt)))) written)
      (refl, object_lines-NoOpen show_list objects h.1)

module _ (show_list : Sexprs → Str) (key : Str) (k : IsKey key) where
  find_all-init :
      (facts : List (List Str))
      → All IsFact facts
      → find_all key (unlines (fact_lines show_list facts ++ codes "  )" ∷ codes ")" ∷ []))
        ≡ pairs_of key facts
  unfolding codes find_all matches
  find_all-init facts h =
      ap (find_all key) (unlines-append (fact_lines show_list facts) (codes "  )" ∷ codes ")" ∷ []))
      ∙ find_all-pairs_of show_list key facts (codes "  )\n)\n") (plain_word-IsPlain key k.plain) h
      ∙ ap (λ ps. pairs_of key facts ++ ps)
          (find_all-skip key (codes "  )\n)\n") []
            (refl, (refl, (refl, (refl, (refl, (refl, tt)))))))
      ∙ append-nil (pairs_of key facts)

  find_all-htn :
      (m t : Str)
      → IsAtom m
      → find_all key (codes "  )\n" ++ (unlines (htn_lines m) ++ t)) ≡ find_all key t
  unfolding codes
  find_all-htn m t h =
      ap (λ x. find_all key (before_module ++ x))
        (ap (λ x. x ++ t) (append_assoc m (codes "))") (codes "\n  )\n  (:init\n"))
          ∙ append_assoc m before_facts t)
      ∙ find_all-dead key before_module (m ++ (before_facts ++ t)) k.module_name
      ∙ find_all-skip key m (before_facts ++ t) (word-NoOpen m h.1)
      ∙ find_all-dead key before_facts t k.facts

  find_all-head :
      (n t : Str)
      → IsAtom n
      → find_all key (
          (codes "(define (problem " ++ (n ++ codes ")"))
          ++ 10 ∷ (codes "  (:domain rtl_fsm)\n  (:objects\n" ++ t))
        ≡ find_all key t
  unfolding codes
  find_all-head n t h =
      ap (λ x. find_all key (before_name ++ x))
        (append_assoc n (codes ")") (10 ∷ (codes "  (:domain rtl_fsm)\n  (:objects\n" ++ t)))
      ∙ find_all-dead key before_name (n ++ (before_objects ++ t)) k.name
      ∙ find_all-skip key n (before_objects ++ t) (word-NoOpen n h.1)
      ∙ find_all-dead key before_objects t k.objects

  find_all-named :
      (name : Sexpr) (m : Str) (objects : List (List Str × Sexpr)) (facts : List (List Str))
      → IsToken name
      → IsAtom m
      → All IsObjects objects
      → All IsFact facts
      → let p : Problem = record {
        name = name;
        module_name = m;
        objects = objects;
        facts = facts;
      } in
        find_all key (emit show_list p) ≡ pairs_of key facts
  find_all-named (list items) m objects facts hn hm ho hf = absurd hn
  find_all-named (atom n) m objects facts hn hm ho hf =
      let init = unlines (fact_lines show_list facts ++ codes "  )" ∷ codes ")" ∷ []) in
      let htn = codes "  )\n" ++ (unlines (htn_lines m) ++ init) in
      let listed = unlines (object_lines show_list objects) in
      ap (find_all key) (emit-sections show_list n m objects facts)
      ∙ find_all-head n (listed ++ htn) hn
      ∙ find_all-skip key listed htn (object_lines-NoOpen show_list objects ho)
      ∙ find_all-htn m init hm
      ∙ find_all-init facts hf

  -- what the expression finds in the text of a problem
  find_all-emit :
      (p : Problem) → IsWritable p → find_all key (emit show_list p) ≡ pairs_of key p.facts
  find_all-emit p h =
      find_all-named p.name p.module_name p.objects p.facts h.name h.module_name h.objects h.facts

  search-emit :
      (p : Problem) → IsWritable p → search key (emit show_list p) ≡ first_of (pairs_of key p.facts)
  search-emit p h = (find_all_lem key (emit show_list p)).1 ∙ ap first_of (find_all-emit p h)

-- the machine and its states, from the facts: from a first state, along the links of a name
unfoldable pub states_linked : Str → List (List Str) → Str → Str → Result (Option (Str × List Str))
unfolding pairs_of states_from
states_linked link facts machine s = do
  states ← states_from (insert_all (pairs_of link facts) []) s
  ok (some (machine, states))

-- `first_listed` names the machine and its first state, or where no fact of that name does,
-- `initial_state` does; the links are `listed_after` or `next_prefix`.
unfoldable pub states_in : List (List Str) → Result (Option (Str × List Str))
unfolding pairs_of states_linked
states_in facts = elim (first_of (pairs_of (codes "first_listed") facts)) [
  | some (machine, s) ↦ states_linked (codes "listed_after") facts machine s
  | none ↦ elim (first_of (pairs_of (codes "initial_state") facts)) [
    | some (machine, s) ↦ states_linked (codes "next_prefix") facts machine s
    | none ↦ ok none
  ]
]

states_after-emit :
    (show_list : Sexprs → Str) (link : Str) (p : Problem) (machine s : Str)
    → IsKey link
    → IsWritable p
    → states_after link (emit show_list p) machine s ≡ states_linked link p.facts machine s
unfolding states_after states_linked
states_after-emit show_list link p machine s k h = rw (find_all-emit show_list link k p h) refl

-- For a problem whose text reads back, states_of finds in the text that is emitted for it what its facts
-- say: the machine and the first state are the arguments of the first fact named `first_listed` that
-- has two, and the states follow the facts named `listed_after` that have two; where there is no such
-- first fact, it is `initial_state` and `next_prefix`, and where that is missing too there are none.
-- It raises where the walk along those links does.
pub states_of-emit :
    (show_list : Sexprs → Str) (p : Problem)
    → IsWritable p
    → states_of (emit show_list p) ≡ states_in p.facts
unfolding states_of states_in
states_of-emit show_list p h =
    elim (Option-cases (first_of (pairs_of (codes "first_listed") p.facts))) [
      | inr ((machine, s), e) ↦
          rw
            (
              states_of,
              states_in,
              search-emit show_list (codes "first_listed") first_listed-IsKey p h,
              e,
            )
            (states_after-emit show_list (codes "listed_after") p machine s listed_after-IsKey h)
      | inl e ↦ elim (Option-cases (first_of (pairs_of (codes "initial_state") p.facts))) [
        | inr ((machine, s), i) ↦
            rw
              (
                states_of,
                states_in,
                search-emit show_list (codes "first_listed") first_listed-IsKey p h,
                e,
                search-emit show_list (codes "initial_state") initial_state-IsKey p h,
                i,
              )
              (states_after-emit show_list (codes "next_prefix") p machine s next_prefix-IsKey h)
        | inl i ↦
            rw
              (
                states_of,
                states_in,
                search-emit show_list (codes "first_listed") first_listed-IsKey p h,
                e,
                search-emit show_list (codes "initial_state") initial_state-IsKey p h,
                i,
              )
              refl
      ]
    ]
