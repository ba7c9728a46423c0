-- ===== src/Series/Wording.antt =====
-- eval/pseries.py: the words around a plan, with the one that it takes from eval/benchmarks.py.
use htn_llm_rtl_gen.Shared.{ℕ, [], ◌∷◌, ◌++◌, Dict, Str, codes, show_nat}

abbrev pub new_line : Str
new_line = b'\n' ∷ []

-- The words around a plan.
unfoldable pub intro_symbolic : Str
intro_symbolic =
    codes "A plan for this module was worked out in advance. It is a list of steps, in order. "
    ++ (codes "A step named analyze_... records a design decision that has already been made; "
        ++ codes "a step named write_... is a piece of code to write.")

unfoldable pub intro_nl : Str
intro_nl =
    codes "A plan for this module was worked out in advance. It is a list of steps, in order: "
    ++ codes "the design decisions that have already been made, and the pieces of code to write."

unfoldable pub named_arguments_note : Str
named_arguments_note = codes "Arguments are written as :name value."

unfoldable pub schema_head : Str
schema_head = codes "What each kind of step means:"

unfoldable pub plan_head : Str
plan_head = codes "Plan:"

unfoldable pub tree_head : Str
tree_head =
    codes "Task tree behind the plan. Each line is a task and the method chosen to carry it out; "
    ++ codes "indented under it are its subtasks and the plan steps it led to:"

unfoldable pub follow_line : Str
follow_line = codes "Write the module by following the plan step by step."

unfoldable pub no_description : Dict Str Str
no_description =
    (
      codes "verilog-eval-v2",
      codes "I would like you to implement a Verilog module by following the plan below.",
    )
    ∷ (
      codes "rtllm-2",
      codes "Please act as a professional verilog designer."
          ++ (b'\n' ∷ b'\n' ∷ codes "Implement the Verilog module that the plan below describes."),
    )
    ∷ []

-- MICRO_INTRO.format(k=k)
unfoldable pub micro_intro : ℕ → Str
micro_intro k =
    codes "The plan has "
    ++ (show_nat k
        ++ (codes " parts, and I will give you one part at a time. For each part, reply with "
            ++ (codes
                  "what that part asks for and nothing more: the Verilog its steps describe, or a one-line "
                ++ (codes
                      "acknowledgement if it only records design decisions. After the last part I will ask for "
                    ++ codes "the complete module."))))

-- PART_HEAD.format(i=i, k=k, title=title)
unfoldable pub part_head : ℕ → ℕ → Str → Str
part_head i k title =
    codes "Part "
    ++ (show_nat i ++ (codes " of " ++ (show_nat k ++ (codes " (" ++ (title ++ codes "):")))))

unfoldable pub part_tree_head : Str
part_tree_head = codes "Task tree behind this part:"

unfoldable pub micro_final : Str
micro_final = codes "That was the whole plan. Now write the complete module, following the plan."

unfoldable pub ve_micro_plain : Str
ve_micro_plain =
    codes "Put the code between the markers as plain text: no Markdown code fences, "
    ++ codes "so no line of backticks."

unfoldable pub rtllm_close : Str
rtllm_close = codes "Give me the complete code."

-- VerilogEvalV2.NO_EXPLAIN
unfoldable pub no_explain : Str
no_explain =
    new_line
    ++ (codes "Enclose your code with [BEGIN] and [DONE]. Only output the code snippet"
        ++ (new_line ++ (codes "and do NOT output anything else." ++ new_line)))
