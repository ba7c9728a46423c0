-- ===== src/Series/Outline.antt =====
-- eval/pseries.py: render_tree.
pub mod Rows
use htn_llm_rtl_gen.Series.{Node, action, task, Nodes, no_nodes, more_nodes, step_ranges}
use htn_llm_rtl_gen.Shared.{
  ℕ, suc, ◌*◌, Bool, true, false, List, [], ◌∷◌, ◌++◌, is_empty, replicate, if◌then◌else◌, Str,
  codes,
}

unfoldable pub nodes_of : List Node → Nodes
nodes_of [] = no_nodes
nodes_of (n ∷ ns) = more_nodes n (nodes_of ns)

abbrev pub has_none : Nodes → Bool
has_none no_nodes = true
has_none (more_nodes n ns) = false

-- `pad`
unfoldable pub pad_of : ℕ → Str
pad_of depth = replicate (2 * depth) b' '

-- flush: the line of the steps of `run`, where there are any
unfoldable pub flush_run : ℕ → List ℕ → List Str
flush_run depth run = if is_empty run then [] else (pad_of depth ++ step_ranges run) ∷ []

-- the line of a task
unfoldable pub task_line : ℕ → Str → Str → Nodes → Str
task_line depth token method children =
    pad_of depth
    ++ (token
        ++ (codes " by "
            ++ (method ++ (if has_none children then codes ": nothing to do" else []))))

-- the loop over the nodes, `run` being the steps that no line has yet
unfoldable pub outline_from : ℕ → List ℕ → Nodes → List Str
outline_from depth run no_nodes = flush_run depth run
outline_from depth run (more_nodes (action token n) ns) = outline_from depth (run ++ n ∷ []) ns
outline_from depth run (more_nodes (task token method children) ns) =
    flush_run depth run
    ++ task_line depth token method children
      ∷ (outline_from (suc depth) [] children ++ outline_from depth [] ns)

unfoldable pub render_tree : List Node → List Str
unfolding outline_from
render_tree nodes = outline_from 0 [] (nodes_of nodes)
