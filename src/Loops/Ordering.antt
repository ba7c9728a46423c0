-- ===== src/Loops/Ordering.antt =====
-- chain_ranks, chains and marks of eval/lift_loops.py. A set of facts is a list of them, each once, in
-- the order in which the set is gone through.
pub mod Walks
pub mod Paths
pub mod Named
use htn_llm_rtl_gen.Loops.{Fact, Chain}
use htn_llm_rtl_gen.Plan.Actions.{arg}
use htn_llm_rtl_gen.Shared.{
  ℕ, zero, suc, ◌+◌, Bool, true, false, not, ◌&&◌, Option, none, some, List, [], ◌∷◌, ◌++◌, map,
  arith, Dict, lookup, insert, insert_all, length, get_elem?, filter, all, is_empty, text_lt,
  sorted, least, distinct, minus, same_set, ◌>>=◌, Result, ◌==◌, nat_eq, if◌then◌else◌, list_eq,
  pair_eq, Str, codes, crash, ok, err,
}

-- (f[1], f[2]) of the facts of a predicate that have three elements
unfoldable pub edges_of : Str → List Fact → List (Str × Str)
edges_of pred [] = []
edges_of pred ((p ∷ a ∷ b ∷ []) ∷ facts) =
    let rest = edges_of pred facts in if p == pred then (a, b) ∷ rest else rest
edges_of pred (f ∷ facts) = edges_of pred facts

abbrev sources : List (Str × Str) → List Str
sources edges = map (λ e. e.0) edges

abbrev pub targets : List (Str × Str) → List Str
targets edges = map (λ e. e.1) edges

-- The `while` that follows a chain: `room` is how many more elements there may be.
unfoldable pub walk : ℕ → Dict Str Str → Str → List Str
walk zero nxt last = []
walk (suc room) nxt last = elim (lookup last nxt) [ none ↦ [] | some t ↦ t ∷ walk room nxt t ]

-- the objects in order, where the edges have one head
unfoldable pub order_of : List (Str × Str) → List Str → List Str
order_of edges (head ∷ []) = head ∷ walk (length edges) (insert_all edges []) head
order_of edges _ = []

abbrev pub heads_of : List (Str × Str) → List Str
heads_of edges = minus (map (λ e. e.0) (insert_all edges [])) (targets edges)

-- `f[1]` of the first of the facts that `first_port` begins
unfoldable pub module_of : List Fact → Result Str
module_of [] = err crash
module_of (f ∷ facts) = elim (get_elem? f 0) [
  | none ↦ err crash
  | some p ↦ if p == codes "first_port" then arg 1 f else module_of facts
]

-- `rank.setdefault(x, k) for k, x in enumerate(order)`, from `k` on
unfoldable pub set_ranks : ℕ → List Str → Dict Str ℕ → Dict Str ℕ
set_ranks k [] rank = rank
set_ranks k (x ∷ order) rank =
    set_ranks (suc k) order (elim (lookup x rank) [ none ↦ insert x k rank | some j ↦ rank ])

-- the predicates of the facts with three elements
unfoldable pub predicates : List Fact → List Str
predicates [] = []
predicates ((p ∷ a ∷ b ∷ []) ∷ facts) = p ∷ predicates facts
predicates (f ∷ facts) = predicates facts

-- the edges that leave the module out
unfoldable pub free_of : Str → List (Str × Str) → List (Str × Str)
free_of m edges = filter (λ e. not (e.0 == m) && not (e.1 == m)) edges

-- the order that the edges put objects in: none where there is no edge, or two from one object, or not
-- one head
unfoldable pub ranked : List (Str × Str) → List Str
ranked edges =
    if length (insert_all edges []) == length edges then order_of edges (heads_of edges) else []

unfoldable pub rank_all : Str → List Fact → List Str → Dict Str ℕ → Dict Str ℕ
rank_all m facts [] rank = rank
rank_all m facts (pred ∷ preds) rank =
    rank_all m facts preds (set_ranks 0 (ranked (free_of m (edges_of pred facts))) rank)

-- each object's place in the chain that the facts put it in
unfoldable pub chain_ranks : List Fact → Result (Dict Str ℕ)
chain_ranks facts = do
  m ← module_of facts
  ok (rank_all m facts (sorted text_lt (distinct (predicates facts))) [])

-- `f[2]` of the facts of `mark`: names the end of the `pred` chain; `at_head` is `end == 0`
unfoldable pub marks : List Fact → Str → Str → Bool → Bool
marks facts pred mark at_head =
    let edges = edges_of pred facts in
    let named = targets (edges_of mark facts) in
    if is_empty edges
    then true
    else same_set named (
        if at_head
        then minus (sources edges) (targets edges)
        else minus (targets edges) (sources edges))

-- No object has two successors or two predecessors, and the order has them all.
unfoldable pub is_path : List (Str × Str) → List Str → Bool
is_path edges order =
    (length (insert_all edges []) == length edges)
    && (length (distinct (targets edges)) == length edges)
    && (length order == length edges + 1)

-- The facts of an example that chains reads: its types by object, and its module.
module _ (types : Dict Str Str) (m : Str) (facts : List Fact) where
  -- `ex.types.get(f[1]) == ex.types.get(f[2])`
  unfoldable pub same_type : Str → Str → Bool
  same_type a b = elim (lookup a types) [
    | none ↦ elim (lookup b types) [ none ↦ true | some t ↦ false ]
    | some s ↦ elim (lookup b types) [ none ↦ false | some t ↦ s == t ]
  ]

  -- the edges that chains are made of, by predicate
  unfoldable pub binary_from : List Fact → Dict Str (List (Str × Str)) → Dict Str (List (Str × Str))
  binary_from [] binary = binary
  binary_from ((p ∷ a ∷ b ∷ []) ∷ fs) binary = binary_from fs (
      if not (a == m) && same_type a b
      then insert p ((elim (lookup p binary) [ none ↦ [] | some es ↦ es ]) ++ (a, b) ∷ []) binary
      else binary)
  binary_from (f ∷ fs) binary = binary_from fs binary

  -- no fact of the predicate names another object than `x` last
  unfoldable pub names_only : Str → Str → Bool
  names_only p x = all (λ t. t == x) (targets (edges_of p facts))

  -- the predicates that tie `x`, and nothing else, to the module
  unfoldable pub ties : Str → List Fact → List Str
  ties x [] = []
  ties x ((p ∷ a ∷ b ∷ []) ∷ fs) =
      let rest = ties x fs in if (a == m) && (b == x) && names_only p x then p ∷ rest else rest
  ties x (f ∷ fs) = ties x fs

  -- the ties that mark the same end in the facts of the other problems
  unfoldable pub marked_by : List (List Fact) → Str → Bool → Str → List Str
  marked_by others pred at_head x =
      filter (λ p. all (λ fs. marks fs pred p at_head) others) (ties x facts)

  -- the chain, if facts name its ends
  unfoldable pub named_chain : List (List Fact) → Str → List Str → ℕ → Option Chain
  named_chain others pred order n = elim (get_elem? order 0) [
    | none ↦ none
    | some head ↦ elim (get_elem? order n) [
      | none ↦ none
      | some end ↦ elim (least text_lt (marked_by others pred true head)) [
        | none ↦ none
        | some first ↦ elim (least text_lt (marked_by others pred false end)) [
          | none ↦ none
          | some last ↦ some (record { first = first; next = pred; last = last; order = order })
        ]
      ]
    ]
  ]

  -- the chain of a predicate with these edges, if they are one path whose ends are named
  unfoldable pub chain_of : List (List Fact) → Str → List (Str × Str) → Option Chain
  chain_of others pred edges =
      let order = order_of edges (heads_of edges) in
      if is_path edges order then named_chain others pred order (length edges) else none

  unfoldable pub chains_from : List (List Fact) → Dict Str (List (Str × Str)) → List Chain
  chains_from others [] = []
  chains_from others ((pred, edges) ∷ binary) =
      let rest = chains_from others binary in
      elim (chain_of others pred edges) [ none ↦ rest | some c ↦ c ∷ rest ]

  -- every chain that the facts define
  unfoldable pub chains : List (List Fact) → List Chain
  chains others = chains_from others (binary_from facts [])
