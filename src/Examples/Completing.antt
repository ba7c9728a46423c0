-- ===== src/Examples/Completing.antt =====
-- The completion of a problem of rtl_designs/problem_compiler.py at concrete inputs.
use htn_llm_rtl_gen.Completing.{Draft}
use htn_llm_rtl_gen.Completing.Declaring.{
  is_named, arguments, first_number, text_before, key_before, insert_key, keyed, declare_missing,
  is_value_name,
}
use htn_llm_rtl_gen.Completing.Declaring.Declared.{Adds, declare_missing_lem}
use htn_llm_rtl_gen.Completing.Compiling.{split_last, fact_of_line, complete}
use htn_llm_rtl_gen.Completing.Compiling.Raises.{OnlyRaised, complete-OnlyRaised}
use htn_llm_rtl_gen.Problem.Reading.{Problem}
use htn_llm_rtl_gen.Problem.Sexpr.{Sexpr, atom}
use htn_llm_rtl_gen.Shared.{
  but_last, digits_of, ◌≡◌, ◌↔◌, ◌||◌, false, refl, true, some, List, [], ◌∷◌, filter, all, nat_eq,
  list_beq, list_eq, pair_eq, contains, Str, codes, is_space, is_digit, join, words_from, words,
  read_digits, read_nat, strip_prefix, ok,
}

abbrev counted : List Str → List (List Str × Sexpr) → List Str → Draft
counted declared objects notes = record {
  name = atom (codes "p");
  module_name = codes "m";
  objects = objects;
  facts =
      (codes "counts_to" ∷ codes "m" ∷ codes "n12" ∷ [])
      ∷ (codes "counts_from" ∷ codes "m" ∷ codes "n3" ∷ [])
      ∷ [];
  declared = declared;
  notes = notes;
}

abbrev before_declaring : Draft
before_declaring = counted [] [] []

abbrev after_declaring : Draft
after_declaring =
    counted (codes "n3" ∷ codes "n12" ∷ [])
      ((codes "n3" ∷ codes "n12" ∷ [], atom (codes "value")) ∷ [])
      (codes "declared n3 n12 as value" ∷ [])

declares : declare_missing is_value_name "value" before_declaring ≡ ok after_declaring
unfolding declare_missing is_named arguments digits_of first_number text_before key_before
    insert_key keyed filter contains list_beq codes strip_prefix is_digit all join read_nat
    read_digits
declares = refl

declare_missing_lem_example :
    (missing : List Str) × ((a : Str)
      → (contains missing a ≡ true) ↔ (
          (contains (arguments before_declaring.facts) a ≡ true)
          × (is_value_name a ≡ true)
          × (contains before_declaring.declared a ≡ false)))
    × Adds (atom (codes "value")) before_declaring.objects missing after_declaring.objects
    × (after_declaring.facts ≡ before_declaring.facts)
    × ((a : Str)
        → contains after_declaring.declared a
          ≡ (contains before_declaring.declared a || contains missing a))
declare_missing_lem_example =
    declare_missing_lem is_value_name "value" before_declaring after_declaring declares

test_line :
    fact_of_line (codes "(state_code A n0)") ≡ codes "state_code" ∷ codes "A" ∷ codes "n0" ∷ []
unfolding fact_of_line but_last words words_from is_space codes
test_line = refl

test_split : split_last (codes "n0 n1 - value") ≡ some (codes "n0 n1", codes "value")
unfolding split_last strip_prefix codes
test_split = refl

abbrev recogniser : Problem
recogniser = record {
  name = atom (codes "p");
  module_name = codes "m";
  objects = [];
  facts = (codes "recognises" ∷ codes "m" ∷ codes "flag" ∷ codes "seq011" ∷ []) ∷ [];
}

complete-OnlyRaised_example : OnlyRaised (complete (λ items. []) recogniser)
complete-OnlyRaised_example = complete-OnlyRaised (λ items. []) recogniser
