-- ===== src/Problem/Emitting/RoundTrip.antt =====
-- What `emit` writes, `read` reads back.
use htn_llm_rtl_gen.Problem.Sexpr.{Sexpr, Sexprs, atom, nil, cons, parse_sexpr}
use htn_llm_rtl_gen.Problem.Sexpr.Printed.{print, parse_tokens-print}
use htn_llm_rtl_gen.Problem.Reading.{
  Problem, sections_of, read_objects, task_here, find_task, words_of, facts_of, name_of,
  named_objects, read_sections, read_tree, read,
}
use htn_llm_rtl_gen.Problem.Emitting.{emit}
use htn_llm_rtl_gen.Problem.Emitting.Tree.{
  IsObjects, IsFact, IsWritable, atoms_then, object_items, fact_items, tree_of,
}
use htn_llm_rtl_gen.Problem.Emitting.Sections.{tokens-emit}
use htn_llm_rtl_gen.Shared.{
  ◌≡◌, refl, ap, ◌∙◌, false, some, List, [], ◌∷◌, ◌++◌, append_assoc, append-nil, lookup, insert,
  All, ◌==◌, nat_eq, list_beq, list_eq, pair_eq, eq_self, Str, codes, ok,
}

-- The names before a dash are one group.
read_objects-names :
    (names : List Str) (t : Sexpr) (rest : Sexprs) (pending : List Str)
    (objects : List (List Str × Sexpr))
    → All (λ n. (n == codes "-") ≡ false) names
    → read_objects (atoms_then names (cons (atom (codes "-")) (cons t rest))) pending objects
      ≡ read_objects rest [] (objects ++ (pending ++ names, t) ∷ [])
unfolding read_objects
read_objects-names [] t rest pending objects h = rw (append-nil, eq_self (codes "-"))
read_objects-names (n ∷ []) t rest pending objects h = rw (h.0, eq_self (codes "-"))
read_objects-names (n ∷ m ∷ names) t rest pending objects h = rw h.0 (
    read_objects-names (m ∷ names) t rest (pending ++ n ∷ []) objects h.1
    ∙ ap (λ ns. read_objects rest [] (objects ++ (ns, t) ∷ []))
        (append_assoc pending (n ∷ []) (m ∷ names)))

read_objects-object_items :
    (objects done : List (List Str × Sexpr))
    → All IsObjects objects
    → read_objects (object_items objects) [] done ≡ ok (done ++ objects)
unfolding object_items
read_objects-object_items [] done h = unfold read_objects in rw append-nil
read_objects-object_items ((names, t) ∷ objects) done h =
    read_objects-names names t (object_items objects) [] done h.0.2
    ∙ read_objects-object_items objects (done ++ (names, t) ∷ []) h.1
    ∙ ap ok (append_assoc done ((names, t) ∷ []) objects)

named_objects_self :
    (objects : List (List Str × Sexpr)) → All IsObjects objects → named_objects objects ≡ objects
unfolding named_objects
named_objects_self [] h = refl
named_objects_self (([], t) ∷ objects) h = absurd (h.0.0 refl)
named_objects_self ((n ∷ ns, t) ∷ objects) h =
    ap (λ os. (n ∷ ns, t) ∷ os) (named_objects_self objects h.1)

words_of-atoms_then : (ws : List Str) → words_of (atoms_then ws nil) ≡ some ws
unfolding words_of
words_of-atoms_then [] = refl
words_of-atoms_then (w ∷ ws) = rw (words_of-atoms_then ws)

facts_of-fact_items :
    (facts : List (List Str)) → All IsFact facts → facts_of (fact_items facts) ≡ facts
unfolding facts_of fact_items
facts_of-fact_items [] h = refl
facts_of-fact_items ([] ∷ facts) h = absurd (h.0.0 refl)
facts_of-fact_items ((w ∷ ws) ∷ facts) h =
    rw (words_of-atoms_then (w ∷ ws), facts_of)
      (ap (λ fs. (w ∷ ws) ∷ fs) (facts_of-fact_items facts h.1))

read_tree-tree_of : (p : Problem) → IsWritable p → read_tree (tree_of p) ≡ ok p
unfolding read_tree tree_of sections_of insert lookup read_sections list_beq codes find_task
    task_here name_of
read_tree-tree_of p h =
    rw (read_objects-object_items p.objects [] h.objects)
      (rw (named_objects_self p.objects h.objects, facts_of-fact_items p.facts h.facts))

-- Where the name, the module's name and every type, object and word of a fact is a token, no object is
-- named `-`, every group of objects has a name and no fact is empty, a problem is read back from the
-- text that is emitted for it, whatever Python would write for a list: the same name, module, objects
-- and facts, in the same order.
pub read-emit :
    (show_list : Sexprs → Str) (p : Problem) → IsWritable p → read (emit show_list p) ≡ ok p
unfolding read parse_sexpr
read-emit show_list p h =
    rw
      (
        tokens-emit show_list p h,
        ← append-nil (print (tree_of p)),
        parse_tokens-print (tree_of p) [],
      )
      (read_tree-tree_of p h)
