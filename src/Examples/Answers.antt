-- ===== src/Examples/Answers.antt =====
-- The parts of eval/learn_ground.py and eval/learn_steps.py that read and write texts.
use htn_llm_rtl_gen.Shared.{
  ◌≡◌, refl, false, none, some, List, [], ◌∷◌, ◌++◌, Dict, lookup, insert, insert_all, filter, any,
  after_digits, starts_with, nat_eq, list_beq, list_eq, pair_eq, Str, codes, is_digit, join,
  strip_prefix, crash, ok, err,
}
use htn_llm_rtl_gen.Learning.Replies.{listed_steps, no_block, unreadable, answer_steps}
use htn_llm_rtl_gen.Learning.Testing.{
  has_variable, method_name, takes, not_names, other_type, wrong_steps, first_wrong,
}
use htn_llm_rtl_gen.Learning.Menu.{Signature}
use htn_llm_rtl_gen.Plan.Reading.{Step}
use htn_llm_rtl_gen.Learning.Answers.{typed, show, choice, with_steps, objects_of}

two_types :
    typed (codes "?a" ∷ codes "?b" ∷ codes "-" ∷ codes "port" ∷ codes "?c" ∷ [])
    ≡ ok (
        (codes "?a", codes "port") ∷ (codes "?b", codes "port") ∷ (codes "?c", codes "object") ∷ [])
unfolding typed list_beq codes
two_types = refl

dash_last : typed (codes "?a" ∷ codes "-" ∷ []) ≡ err crash
unfolding typed list_beq codes
dash_last = refl

abbrev two_steps : List Step
two_steps = (codes "write_interface", codes "m" ∷ []) ∷ (codes "finish", []) ∷ []

shown_steps : show two_steps ≡ codes "(write_interface m)\n(finish)"
unfolding codes show join
shown_steps = refl

third : choice (codes "Entry 3.") 5 ≡ some 2
unfolding choice codes is_digit
third = refl

too_many : choice (codes "7") 5 ≡ none
unfolding choice codes is_digit
too_many = refl

no_number : choice (codes "none of them") 5 ≡ none
unfolding choice codes is_digit
no_number = refl

replaced :
    with_steps (codes "(define\n  (:htn\n  a\n  )\n)") two_steps
    ≡ ok (
        codes
          "(define\n  (:htn\n    :parameters ()\n    :ordered-subtasks (and\n      (t1 (write_interface m))\n      (t2 (finish))\n    )\n  )\n)")
unfolding with_steps codes join
replaced = refl

two_objects :
    objects_of (codes "(:objects\n    a b - port\n    m - module\n  )")
    ≡ ok (
        (codes "zero", codes "bitval")
        ∷ (codes "one", codes "bitval")
        ∷ (codes "active_high", codes "polarity")
        ∷ (codes "active_low", codes "polarity")
        ∷ (codes "a", codes "port")
        ∷ (codes "b", codes "port")
        ∷ (codes "m", codes "module")
        ∷ [])
unfolding objects_of codes strip_prefix insert_all insert list_beq
two_objects = refl

abbrev reply_text : Str
reply_text =
    codes
      "Here it is.\n```hddl\n; first\n(write_interface m) ; the ports\n1. (a b)\n(t2 (c))\n  finish m\n```\n"

abbrev four_steps : List Step
four_steps =
    (codes "write_interface", codes "m" ∷ [])
    ∷ (codes "a", codes "b" ∷ [])
    ∷ (codes "c", [])
    ∷ (codes "finish", codes "m" ∷ [])
    ∷ []

read_reply : answer_steps reply_text ≡ listed_steps four_steps
unfolding answer_steps codes is_digit any after_digits list_beq
read_reply = refl

read_shown :
    answer_steps (codes "```\n" ++ (show two_steps ++ codes "\n```")) ≡ listed_steps two_steps
unfolding answer_steps codes show join is_digit any
read_shown = refl

nested_step : answer_steps (codes "```\n(a (b))\n```") ≡ unreadable (codes "(a (b))")
unfolding answer_steps codes is_digit list_beq any
nested_step = refl

without_block : answer_steps (codes "(a b)") ≡ no_block
unfolding answer_steps codes
without_block = refl

abbrev port_only : Dict Str Signature
port_only = (codes "declare", record { is_task = false; types = codes "port" ∷ [] }) ∷ []

abbrev known_names : Dict Str Str
known_names = (codes "m", codes "module") ∷ (codes "x", codes "port") ∷ []

found_wrong :
    wrong_steps port_only known_names ((codes "m_go", codes "make") ∷ []) (
      (codes "declare", codes "x" ∷ [])
      ∷ (codes "declare", codes "m" ∷ [])
      ∷ (codes "go", [])
      ∷ (codes "declare", codes "y" ∷ [])
      ∷ (codes "declare", codes "?x" ∷ [])
      ∷ (codes "declare", [])
      ∷ [])
    ≡ ok (
        (2, other_type 1 (codes "module") (codes "port"))
        ∷ (3, method_name (codes "make"))
        ∷ (4, not_names (codes "y" ∷ []))
        ∷ (5, has_variable)
        ∷ (6, takes 1 0)
        ∷ [])
unfolding wrong_steps any starts_with strip_prefix codes lookup list_beq filter
found_wrong = refl

found_first : first_wrong ((2, has_variable) ∷ []) ≡ some 1
unfolding first_wrong
found_first = refl
