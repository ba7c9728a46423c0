-- ===== src/Examples/Apart.antt =====
-- tell_apart and hddl of eval/lift.py at concrete cases.
use htn_llm_rtl_gen.Lift.Apart.{
  LearnedCase, tell_apart, absent_texts, hddl, literal_of, absent_arguments, other_arguments,
  subtask_lines, absent_literal, typed_names, tell_pairs, permutations, pairs_from, pairs_with,
  at_place, tell_pair, marks_between, held_by_every, tell_marks, kinds_of, kinds_from, places_of,
  held_by_some, kind_lt, noted, put_at, untold,
}
use htn_llm_rtl_gen.Lift.Apart.Marks.{Lacked, Tells}
use htn_llm_rtl_gen.Lift.Apart.Distinguished.{tell_apart-Tells}
use htn_llm_rtl_gen.Shared.{
  ℕ, ◌≡◌, refl, ◌≢◌, ◌⊎◌, [], ◌∷◌, arith, lookup, range_of, filter, any, all, All, precedes,
  text_lt, place_in, sorted, distinct, nat_eq, list_beq, list_eq, pair_eq, contains, codes, join,
  show_nat, cannot_lift, ok, err,
}
use htn_llm_rtl_gen.Learning.Answers.{show_step}

abbrev wraps : LearnedCase
wraps = record {
  name = codes "m_implement_counter_1";
  examples =
      record {
        facts =
            (codes "first_port" ∷ codes "c" ∷ codes "clk" ∷ [])
            ∷ (codes "wraps" ∷ codes "c" ∷ codes "n11" ∷ [])
            ∷ [];
        module_name = codes "c";
      }
      ∷ [];
}

abbrev plain : LearnedCase
plain = record {
  name = codes "m_implement_counter_2";
  examples =
      record {
        facts = (codes "first_port" ∷ codes "d" ∷ codes "clk" ∷ []) ∷ [];
        module_name = codes "d";
      }
      ∷ record {
        facts =
            (codes "first_port" ∷ codes "e" ∷ codes "clk" ∷ [])
            ∷ (codes "note" ∷ codes "e" ∷ [])
            ∷ [];
        module_name = codes "e";
      }
      ∷ [];
}

told_absences : tell_apart (wraps ∷ plain ∷ []) ≡ ok ([] ∷ ((codes "wraps", 0) ∷ []) ∷ [])
unfolding tell_apart tell_pairs permutations pairs_from pairs_with at_place tell_pair marks_between
    held_by_every tell_marks kinds_of kinds_from places_of held_by_some kind_lt noted put_at untold
    range_of sorted distinct filter all any place_in precedes text_lt contains list_beq codes
told_absences = refl

same_kinds :
    tell_apart (plain ∷ plain ∷ [])
    ≡ err (cannot_lift (codes "m_implement_counter_2 and m_implement_counter_2"))
unfolding tell_apart tell_pairs permutations pairs_from pairs_with at_place tell_pair marks_between
    held_by_every tell_marks kinds_of kinds_from places_of held_by_some kind_lt noted put_at untold
    range_of sorted distinct filter all any place_in precedes text_lt contains list_beq codes
same_kinds = refl

absence :
    absent_texts
      ((codes "wraps", codes "module" ∷ codes "value" ∷ []) ∷ [])
      ((codes "wraps", 0) ∷ [])
    ≡ ok (codes "(not (exists (?x1 - value) (wraps ?m ?x1)))" ∷ [])
unfolding absent_texts absent_literal lookup list_beq codes literal_of other_arguments
    absent_arguments join typed_names show_nat
absence = refl

method_text :
    hddl (record {
      name = codes "m";
      types = (codes "?m", codes "module") ∷ (codes "?v1", codes "value") ∷ [];
      conditions =
          (codes "counter", codes "?m" ∷ []) ∷ (codes "wraps", codes "?m" ∷ codes "?v1" ∷ []) ∷ [];
      absent_text = codes "(not (reset ?m))" ∷ [];
      subtasks =
          (codes "analyze_wrap", codes "?m" ∷ codes "?v1" ∷ [])
          ∷ (codes "write_end", codes "?m" ∷ [])
          ∷ [];
    })
    ≡ join (b'\n' ∷ []) (
        codes "(:method m"
        ∷ codes "    :parameters (?m - module ?v1 - value)"
        ∷ codes "    :task (implement_module ?m)"
        ∷ codes "    :precondition (and (counter ?m) (wraps ?m ?v1) (not (reset ?m)))"
        ∷ codes "    :ordered-subtasks (and"
        ∷ codes "      (t1 (analyze_wrap ?m ?v1))"
        ∷ codes "      (t2 (write_end ?m))"
        ∷ codes "    )"
        ∷ codes "  )"
        ∷ [])
unfolding join hddl codes subtask_lines typed_names show_step show_nat
method_text = refl

two_places : ◌≢◌ {A = ℕ} 0 1
two_places e = omega (arith, e)

tell_apart-Tells_example :
    (Tells wraps plain ((codes "wraps", 0) ∷ []) ⊎ Tells plain wraps [])
    × All (Lacked plain.examples) ((codes "wraps", 0) ∷ [])
tell_apart-Tells_example =
    tell_apart-Tells (wraps ∷ plain ∷ []) 0 1 wraps plain [] ((codes "wraps", 0) ∷ []) told_absences
      two_places refl refl refl refl
