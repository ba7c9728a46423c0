-- ===== src/Lib.antt =====
-- Verification of the compiler of problem files and of the writer of designs in rtl_designs/,
-- and of the lifter of methods in eval/: what a language model writes about a design is read,
-- completed and written out for the planner, the plan is rendered as Verilog, and lists of steps
-- that passed are turned into methods.
--
-- The program. rtl_designs/problem_compiler.py reads a problem file (`read`, over
-- `parse_sexpr`), completes it and writes it out again (`emit`). Its hardest step expands the
-- sequences that a recogniser must detect into the states of a machine: the prefixes of the
-- sequences, each with a name (`sequence_bits`, `state_names`), and those of them that the
-- machine can be in (`reachable_prefixes`, an Aho-Corasick automaton whose outputs can be kept
-- while a bit lasts). rtl_designs/state_encoding.py gives the states of a machine their codes
-- (`encoding`), in the order of the chain that the problem states (the walk of `states_of`).
--
-- The planner answers with a plan. rtl_designs/plan_to_verilog.py reads its steps (`read_plan`)
-- and renders them (`render`). eval/lift.py and eval/lift_loops.py make a method from lists of
-- steps: the chains that the facts of a problem put its objects in (`chains`), the loops over
-- them that the steps are folded into (`fold`), the facts that tie the variables of a method to
-- its module (`picks_out`, the loop of `lift_case` and `tie`), and those that tell the variants
-- of a loop (`tell`) and the cases of a family apart (`tell_apart`). eval/pseries.py checks a
-- saved plan against its tree (`load_plan`) and writes it into the requests of an experiment, in
-- one prompt or part by part (`build_request`). eval/learn_steps.py has a list of steps made one
-- step at a time: a menu offers the steps that the planner can carry out next (`menu`), whose
-- code `render` writes and whose lines the rules of a module let stand (`code`).
--
-- The files. Shared is what the parts use: lists, texts, dictionaries, results. A text is a list
-- of code points, a dict is an association list in the order of its keys, and an exception is an
-- error of Shared/Outcome with a constructor for each `raise`.
--   StateEncoding: `encoding` and the walk of `states_of`, as `states_from`. Width is about the
--     number of bits, Chain about the walk. Search: the regular expressions of `states_of` over
--     a text, and `states_of`; Found, Facts, Fixed and Emitted read the text of `emit`. Stripping:
--     `strip_generated`. Rewriting: `rewrite`.
--   Recogniser/Sequence: `sequence_bits`. Printed has the names that one is asked to write.
--   Recogniser/Machine: `step`, the loop that makes `fail` (`fail_links`), the `while` of
--     `reachable_prefixes` (`explore`). Run runs the machine on an input; Links and Total are
--     about the links, Longest about the state after an input, Reach about the search.
--   Recogniser/Names: `state_names`. Recogniser/Prefixes: the sorted set of the prefixes and
--     those that end with a sequence. Recogniser/Detect puts machine and prefixes together.
--   Completing: the problem while it is completed. Completing/Expanding: `expand_sequences`.
--     Outcomes is about what it raises, Listed about the states that are listed, ReadBack about
--     the chain, Correct and Whole about all of it. Completing/Declaring: the steps of
--     `complete` before it. Completing/Compiling: `complete` and `compile_text`; Raises is about
--     its errors.
--   Problem/Sexpr: `parse_sexpr`. Problem/Reading: `read`. Problem/Emitting: `emit`.
--   Plan/Reading: `read_plan` and `number`. Printed is about a plan as the planner prints it,
--     Numbers about the objects that state_encoding.py writes. Plan/Actions and Plan/Templates:
--     the branches of `render`, by action; Coding is about the codes of states. Plan/Rendering:
--     `render`. Analysis is about the steps that write nothing, Moore about the outputs that
--     depend on the state alone.
--   Loops/Ordering: `chain_ranks`, `chains` and `marks`. Walks and Paths are about the order of
--     a chain, Named about its ends. Loops/Reordering: `in_order`, for any planner.
--     Loops/Growing: `grow`. Loops/Folding: `fold`, `flatten`, `shape`. Kept is about the steps
--     that the two keep. Loops/Telling: `tell`; Told is about what it chooses.
--   Lift: `picks_out`; Picking is about what a pattern determines. Lift/Tying: the loop that
--     ties variables, in `lift_case` and in `tie`, which weigh a reading in their own ways.
--     Choices is about its candidates, Tied about its rounds. Lift/Apart: `tell_apart` and `hddl`;
--     Marks, Pairs and Distinguished are about the first.
--   Series: the step numbers, ranges and parts of a plan tree of eval/pseries.py; Kept is about
--     them. Series/Arms: the names of its arms. Series/Planned: `load_plan`, and the lines of
--     steps and of the schema. Series/Outline: `render_tree`; Rows is about it. Series/Wording:
--     the words around a plan. Series/Requests: `build_request`; Told and Loaded are about what
--     a request holds, Lines about joined lines.
--   Rules: what the regular expressions of eval/learn_steps.py match, and in Rules/Scanning what
--     they substitute. Rules/Blocks: `well_formed`; Nested, Closing and Begun are about it.
--     Rules/Declared: `declared_names` and `declared_before_use`; Ordered is about the second.
--     Rules/Drivers: `one_driver` and `undriven`; Owned is about the first.
--     Rules/Repeats: `no_repeat` and `empty_blocks`; Fresh and Repeated are about the first.
--   Learning: the state after a plan, `holds`, `unused_facts` and `unused_decisions` of
--     eval/learn_steps.py, and `unmet` of eval/learn_ground.py; Unmet and Progress are about them.
--     Learning/Matching: `_extend`, `needed_for` and the loop of `declaration_pending`; Sound is
--     about the first. Learning/Menu: `code`, the candidates and the entries of a menu.
--     Learning/Menu/Offering: the tests of `menu`, up to where it looks ahead; Offered and
--     Changes are about its entries. Ahead: the rest of `menu`, `fills`, `opens`, `walk`. Walked:
--     what both come to.
--     Learning/Answers: `typed`, `show`, `with_steps` and `objects_of` of eval/learn_ground.py, and
--     `choice` of eval/learn_steps.py. Learning/Replies: `answer_steps`. Learning/Testing: what
--     `test_steps` finds wrong before it asks the planner.
--   Examples: the program at concrete inputs.
--
-- Rounds. `step` is given one round more than the length of its state, because a link is shorter
-- than its state; `explore` one more than there are prefixes, because a state is pushed once; the
-- parser two for each token and one; the walk two more than there are links; the matches one for
-- each character of the text; the closers of a line one more than its characters; `fold` one more
-- than there are chains, because a loop inside a loop is over another chain, and its `while` one
-- for each step; the tying loop one more than there are variables. That these are enough is part
-- of the results.
--
-- Not modelled. What Python writes for a list inside a text is a parameter (`show_list`), as
-- `emit` meets one only where a name or a type is not a token. Digits and `upper` are those of
-- ASCII. The limit of Python on recursion is left out. An error keeps what its message names, and
-- not the message; an exception that is not the compiler's own is `crash`. A set of facts is a
-- list of them, in the order in which Python goes through it. Of the lifter, the variables and
-- the bodies of methods (the rest of `lift_case`, `lift_block`, `lift_loop`) are left out, and so
-- is what it calls the planner for, but for `in_order`; of eval/pseries.py, the reading of files
-- and the commands. In the rules of a module, a word character is one of ASCII. Of
-- eval/learn_steps.py, the planner, the sentences of the gloss and difflib.ndiff are fields of a
-- training problem, its tables of plans and menus are left out, since they change no result, and
-- so are its prompts and the calls of a model. Of eval/learn_ground.py, `test_steps` is left out
-- from where it asks the planner, and so are the readers of a domain's text and the prompts. The
-- rest of the repository (the planner, the evaluation, which calls language models and
-- simulators) is not modelled.
pub mod Shared
pub mod StateEncoding
pub mod Recogniser
pub mod Problem
pub mod Completing
pub mod Plan
pub mod Lift
pub mod Rules
pub mod Learning
pub mod Series
pub mod Loops
pub mod Examples
