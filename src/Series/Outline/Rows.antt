-- ===== src/Series/Outline/Rows.antt =====
-- What the lines of render_tree say of the tree.
use htn_llm_rtl_gen.Series.{Node, action, task, Nodes, no_nodes, more_nodes, step_ranges}
use htn_llm_rtl_gen.Series.Kept.{concat}
use htn_llm_rtl_gen.Series.Outline.{
  nodes_of, pad_of, flush_run, task_line, outline_from, render_tree,
}
use htn_llm_rtl_gen.Shared.{
  ℕ, suc, ◌≡◌, refl, sym, ap, ◌∙◌, ◌*◌, Bool, true, false, replicate, codes, List, [], ◌∷◌, ◌++◌,
  map, append_assoc, append-nil, Str,
}

-- A line of an outline: one step or more at a depth, or a task at a depth, with whether there is
-- nothing below it.
pub data OutlineRow : Type 0 where
  steps_row : ℕ → ℕ → List ℕ → OutlineRow
  task_row : ℕ → Str → Str → Bool → OutlineRow

-- two spaces for each level
abbrev pub indented : ℕ → Str → Str
indented depth text = replicate (2 * depth) b' ' ++ text

unfoldable pub row_line : OutlineRow → Str
row_line (steps_row depth n ns) = indented depth (step_ranges (n ∷ ns))
row_line (task_row depth token method true) =
    indented depth (token ++ (codes " by " ++ (method ++ codes ": nothing to do")))
row_line (task_row depth token method false) = indented depth (token ++ (codes " by " ++ method))

-- What stands in a tree: a step at a depth, or a task at a depth with its method and whether there
-- is nothing below it.
pub data TreeEntry : Type 0 where
  step_at : ℕ → ℕ → TreeEntry
  task_at : ℕ → Str → Str → Bool → TreeEntry

abbrev pub row_entries : OutlineRow → List TreeEntry
row_entries (steps_row depth n ns) = map (step_at depth) (n ∷ ns)
row_entries (task_row depth token method idle) = task_at depth token method idle ∷ []

-- what stands in a tree below a depth, each task before what is below it
unfoldable pub entries_in : ℕ → Nodes → List TreeEntry
entries_in depth no_nodes = []
entries_in depth (more_nodes (action token n) ns) = step_at depth n ∷ entries_in depth ns
entries_in depth (more_nodes (task token method no_nodes) ns) =
    task_at depth token method true ∷ entries_in depth ns
entries_in depth (more_nodes (task token method (more_nodes m ms)) ns) =
    task_at depth token method false
    ∷ (entries_in (suc depth) (more_nodes m ms) ++ entries_in depth ns)

-- The lines are those of rows in which `entries` stand, in their order.
abbrev Outlines : List Str → List TreeEntry → Type 0
Outlines lines standing =
    (rows : List OutlineRow) × (lines ≡ map row_line rows)
    × (concat (map row_entries rows) ≡ standing)

pub map_append :
    {A B : Type 0} (f : A → B) (xs ys : List A) → map f xs ++ map f ys ≡ map f (xs ++ ys)
map_append f [] ys = refl
map_append f (x ∷ xs) ys = ap (λ t. f x ∷ t) (map_append f xs ys)

concat_append :
    {A B : Type 0} (f : A → List B) (xs ys : List A)
    → concat (map f (xs ++ ys)) ≡ concat (map f xs) ++ concat (map f ys)
concat_append f [] ys = refl
concat_append f (x ∷ xs) ys =
    ap (λ t. f x ++ t) (concat_append f xs ys)
    ∙ sym (append_assoc (f x) (concat (map f xs)) (concat (map f ys)))

Outlines-append :
    (l m : List Str) (s t : List TreeEntry)
    → Outlines l s
    → Outlines m t
    → Outlines (l ++ m) (s ++ t)
Outlines-append l m s t (rows, h, j) (more, h2, j2) = (
  rows ++ more,
  rw (h, h2) (map_append row_line rows more),
  concat_append row_entries rows more ∙ rw (j, j2) refl,
)

flush_run-Outlines :
    (depth : ℕ) (run : List ℕ) → Outlines (flush_run depth run) (map (step_at depth) run)
unfolding flush_run pad_of row_line
flush_run-Outlines depth [] = ([], refl, refl)
flush_run-Outlines depth (n ∷ run) =
    (steps_row depth n run ∷ [], refl, append-nil (map (step_at depth) (n ∷ run)))

idle_line :
    (depth : ℕ) (token method : Str)
    → Outlines (task_line depth token method no_nodes ∷ []) (task_at depth token method true ∷ [])
unfolding task_line pad_of row_line
idle_line depth token method = (task_row depth token method true ∷ [], refl, refl)

busy_line :
    (depth : ℕ) (token method : Str) (m : Node) (ms : Nodes)
    → Outlines
        (task_line depth token method (more_nodes m ms) ∷ [])
        (task_at depth token method false ∷ [])
unfolding task_line pad_of row_line
busy_line depth token method m ms = (
  task_row depth token method false ∷ [],
  ap (λ t. indented depth (token ++ (codes " by " ++ t)) ∷ []) (append-nil method),
  refl,
)

outline_from-Outlines :
    (depth : ℕ) (run : List ℕ) (nodes : Nodes)
    → Outlines (outline_from depth run nodes) (map (step_at depth) run ++ entries_in depth nodes)
unfolding outline_from entries_in
outline_from-Outlines depth run no_nodes =
    let (rows, h, j) = flush_run-Outlines depth run in
    (rows, h, j ∙ sym (append-nil (map (step_at depth) run)))
outline_from-Outlines depth run (more_nodes (action token n) ns) =
    let (rows, h, j) = outline_from-Outlines depth (run ++ n ∷ []) ns in
    (
      rows,
      h,
      j
          ∙ ap (λ t. t ++ entries_in depth ns) (sym (map_append (step_at depth) run (n ∷ [])))
          ∙ append_assoc (map (step_at depth) run) (step_at depth n ∷ []) (entries_in depth ns),
    )
outline_from-Outlines depth run (more_nodes (task token method no_nodes) ns) =
    Outlines-append _ _ _ _ (flush_run-Outlines depth run) (
      Outlines-append _ _ _ _ (idle_line depth token method) (
        Outlines-append _ _ _ _ (outline_from-Outlines (suc depth) [] no_nodes)
          (outline_from-Outlines depth [] ns)))
outline_from-Outlines depth run (more_nodes (task token method (more_nodes m ms)) ns) =
    Outlines-append _ _ _ _ (flush_run-Outlines depth run) (
      Outlines-append _ _ _ _ (busy_line depth token method m ms) (
        Outlines-append _ _ _ _ (outline_from-Outlines (suc depth) [] (more_nodes m ms))
          (outline_from-Outlines depth [] ns)))

-- The lines that render_tree writes are those of runs of one step or more and of tasks, each
-- indented by two spaces for each level of its depth; what stands in the lines, one after the
-- other, is what stands in the tree, in its order: each step with its depth, and each task with its
-- depth, its method and whether there is nothing below it, before what is below it.
pub render_tree_lem :
    (nodes : List Node)
    → (rows : List OutlineRow) × (render_tree nodes ≡ map row_line rows)
      × (concat (map row_entries rows) ≡ entries_in 0 (nodes_of nodes))
unfolding render_tree
render_tree_lem nodes = outline_from-Outlines 0 [] (nodes_of nodes)
