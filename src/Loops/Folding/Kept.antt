-- ===== src/Loops/Folding/Kept.antt =====
-- fold ends, and the items that it makes hold the steps in their order.
use htn_llm_rtl_gen.Loops.{
  Chain, Placed, Items, no_items, step_item, loop_item, Groups, no_groups, group,
}
use htn_llm_rtl_gen.Loops.Growing.{Group, Run, grow}
use htn_llm_rtl_gen.Loops.Growing.Kept.{spread, grow_kept}
use htn_llm_rtl_gen.Loops.Folding.{
  groups_needed, is_better, best_of, other_chains, loops_inside, fold_groups, fold_run, fold_from,
  fold, flatten, flatten_groups,
}
use mathlib.Core.Path.{subst}
use htn_llm_rtl_gen.Shared.{
  ℕ, zero, suc, ◌≤◌, ◌<◌, ◌≡◌, refl, ap, inl, inr, true, false, Option, none, some, List, [], ◌∷◌,
  ◌++◌, map, arith, Dict, length, drop, filter, All, All-map, ◌>>=◌, Result, ◌==◌, nat_eq, list_eq,
  pair_eq, ne_of_beq, contains, contains-nil, contains_cases, contains_tail, contains_head,
  Bool-cases, Option-cases, Str, ok,
}

-- A property of the best run found.
abbrev Best : (Chain × Run → Type 0) → Option (Chain × Run) → Type 0
Best P none = Unit
Best P (some b) = P b

is_better_enough :
    (n : ℕ) (run : Run) (best : Option (Chain × Run))
    → is_better n run best ≡ true
    → n ≤ length run.groups
unfolding is_better
is_better_enough n run best h = ground arith

-- What holds of each chain with enough groups holds of the best.
pub best_of-Best :
    (forced : List Str) (steps : List Placed) (Q : Chain → Type 0) (P : Chain × Run → Type 0)
    → ((c : Chain)
        → Q c
        → groups_needed forced c ≤ length (grow steps c).groups
        → P (c, grow steps c))
    → (best : Option (Chain × Run)) (chains : List Chain) → All Q chains
    → Best P best
    → Best P (best_of forced steps best chains)
unfolding best_of
best_of-Best forced steps Q P make best [] q b = b
best_of-Best forced steps Q P make best (c ∷ chains) q b =
    elim (Bool-cases (is_better (groups_needed forced c) (grow steps c) best)) [
      | inr e ↦ rw (best_of, e) (best_of-Best forced steps Q P make best chains q.1 b)
      | inl e ↦
          rw (best_of, e)
            (best_of-Best forced steps Q P make (some (c, grow steps c)) chains q.1
              (make c q.0 (is_better_enough (groups_needed forced c) (grow steps c) best e)))
    ]

-- The relation of a chain is that of one of `chains`.
abbrev IsOneOf : List Chain → Chain → Type 0
IsOneOf chains c = contains (map (λ d. d.next) chains) c.next ≡ true

contains_later :
    (x a : Str) (xs : List Str)
    → (x == a) ≡ false
    → contains (x ∷ xs) a ≡ true
    → contains xs a ≡ true
contains_later x a xs e h = elim (contains_cases x a xs h) [
  | inl p ↦ absurd (ne_of_beq e p)
  | inr q ↦ q
]

other_chains-le : (c : Chain) (chains : List Chain) → length (other_chains c chains) ≤ length chains
unfolding other_chains filter
other_chains-le c [] = omega arith
other_chains-le c (d ∷ chains) = ground (arith, other_chains-le c chains)

-- A loop over one of the chains leaves fewer chains for the loops inside it.
other_chains-lt :
    (c : Chain) (chains : List Chain)
    → IsOneOf chains c
    → length (other_chains c chains) < length chains
unfolding other_chains filter
other_chains-lt c [] h = cc (h, contains-nil c.next)
other_chains-lt c (d ∷ chains) h = elim (Bool-cases (d.next == c.next)) [
  | inl e ↦ rw (other_chains, filter, e) (omega (arith, other_chains-le c chains))
  | inr e ↦
      rw (other_chains, filter, e)
        (omega (
          arith,
          other_chains-lt c chains (contains_later d.next c.next (map (λ x. x.next) chains) e h),
        ))
]

-- A fold that returns items which hold the steps.
abbrev Kept : Result Items → List Placed → Type 0
Kept r steps = (items : Items) × (r ≡ ok items) × (flatten items ≡ steps)

abbrev GroupsKept : Result Groups → List Group → Type 0
GroupsKept r gs = (folded : Groups) × (r ≡ ok folded) × (flatten_groups folded ≡ spread gs)

-- What the best loop is.
abbrev IsRun : List Chain → List Placed → Chain × Run → Type 0
IsRun chains steps (c, run) = IsOneOf chains c × (run ≡ grow steps c) × (1 ≤ length run.groups)

group-Kept :
    (e : Str) (g : List Placed) (gs : List Group) {first : Result Items} {later : Result Groups}
    → Kept first g
    → GroupsKept later gs
    → GroupsKept (do items ← first; folded ← later; ok (group e items folded)) ((e, g) ∷ gs)
unfolding flatten
group-Kept e g gs (items, ran, h) (folded, did, k) =
    (group e items folded, rw (ran, did) refl, rw (h, k) refl)

step-Kept :
    (s : Placed) (steps : List Placed) {r : Result Items}
    → Kept r steps
    → Kept (do items ← r; ok (step_item s items)) (s ∷ steps)
unfolding flatten
step-Kept s steps (items, ran, h) = (step_item s items, rw ran refl, ap (λ t. s ∷ t) h)

loop-Kept :
    (c : Chain) (position : Dict Str ℕ) (gs : List Group) (steps rest : List Placed)
    {gr : Result Groups} {r : Result Items}
    → GroupsKept gr gs
    → Kept r rest
    → spread gs ++ rest ≡ steps
    → Kept (do groups ← gr; items ← r; ok (loop_item c position groups items)) steps
unfolding flatten
loop-Kept c position gs steps rest (folded, did, k) (items, ran, h) e =
    (loop_item c position folded items, rw (did, ran) refl, rw (k, h) e)

length-drop : {A : Type 0} (n : ℕ) (xs : List A) → length (drop n xs) ≤ length xs
length-drop zero xs = omega arith
length-drop (suc n) [] = omega arith
length-drop (suc n) (x ∷ xs) = omega (arith, length-drop n xs)

length-drop_lt :
    {A : Type 0} (n : ℕ) (x : A) (xs : List A) → 1 ≤ n → length (drop n (x ∷ xs)) ≤ length xs
length-drop_lt zero x xs h = absurd (omega arith)
length-drop_lt (suc n) x xs h = length-drop n xs

grown_kept :
    (steps : List Placed) (c : Chain) (run : Run)
    → run ≡ grow steps c
    → (spread run.groups ++ drop run.taken steps ≡ steps) × (length run.groups ≤ run.taken)
grown_kept steps c run e = rw e (grow_kept steps c)

groups_needed_pos : (forced : List Str) (c : Chain) → 1 ≤ groups_needed forced c
unfolding groups_needed
groups_needed_pos forced c = ground arith

own_relations : (chains : List Chain) → All (IsOneOf chains) chains
own_relations [] = tt
own_relations (c ∷ chains) = (
  contains_head c.next (map (λ d. d.next) chains),
  All-map (λ d h. contains_tail c.next d.next (map (λ x. x.next) chains) h) chains
      (own_relations chains),
)

pub best_of-IsRun :
    (forced : List Str) (steps : List Placed) (chains : List Chain) {b : Chain × Run}
    → best_of forced steps none chains ≡ some b
    → IsRun chains steps b
best_of-IsRun forced steps chains e = subst (Best (IsRun chains steps)) e (
    best_of-Best forced steps (IsOneOf chains) (IsRun chains steps)
      (λ c q k. (q, refl, omega (arith, groups_needed_pos forced c))) none chains
      (own_relations chains) tt)

module _ (inner : List Chain → List Str → List Placed → Result Items) (n : ℕ)
    (kept : (chains : List Chain) (forced : List Str) (g : List Placed)
      → length chains < n
      → Kept (inner chains forced g) g) where
  fold_groups-Kept :
      (rest : List Chain) (forced : List Str) (gs : List Group)
      → length rest < n
      → GroupsKept (fold_groups inner rest forced gs) gs
  unfolding fold_groups flatten
  fold_groups-Kept rest forced [] h = (no_groups, refl, refl)
  fold_groups-Kept rest forced ((e, g) ∷ gs) h =
      group-Kept e g gs (kept rest forced g h) (fold_groups-Kept rest forced gs h)

  fold_run-Kept :
      (rest : List Chain) (gs : List Group)
      → length rest < n
      → GroupsKept (fold_run inner rest gs) gs
  unfolding fold_run
  fold_run-Kept rest gs h =
      let first = fold_groups-Kept rest [] gs h in
      rw first.1 (fold_groups-Kept rest (loops_inside first.0) gs h)

  run-Kept :
      (chains : List Chain) (forced : List Str) (fuel : ℕ) (s : Placed) (steps : List Placed)
      (c : Chain) (run : Run)
      → length chains ≤ n
      → IsRun chains (s ∷ steps) (c, run)
      → ((rest : List Placed)
          → length rest ≤ length steps
          → Kept (fold_from inner chains forced fuel rest) rest)
      → Kept
          (do
            groups ← fold_run inner (other_chains c chains) run.groups
            items ← fold_from inner chains forced fuel (drop run.taken (s ∷ steps))
            ok (loop_item c run.position groups items))
          (s ∷ steps)
  run-Kept chains forced fuel s steps c run h (member, grown, some_groups) later =
      let kept_steps = grown_kept (s ∷ steps) c run grown in
      loop-Kept c run.position run.groups (s ∷ steps) (drop run.taken (s ∷ steps))
        (fold_run-Kept (other_chains c chains) run.groups
          (omega (arith, other_chains-lt c chains member)))
        (later (drop run.taken (s ∷ steps))
          (length-drop_lt run.taken s steps (omega (arith, kept_steps.1))))
        kept_steps.0

  fold_from-Kept :
      (chains : List Chain) (forced : List Str) (fuel : ℕ) (steps : List Placed)
      → length chains ≤ n
      → length steps ≤ fuel
      → Kept (fold_from inner chains forced fuel steps) steps
  unfolding fold_from flatten
  fold_from-Kept chains forced fuel [] h k = (no_items, refl, refl)
  fold_from-Kept chains forced zero (s ∷ steps) h k = absurd (omega arith)
  fold_from-Kept chains forced (suc fuel) (s ∷ steps) h k =
      elim (Option-cases (best_of forced (s ∷ steps) none chains)) [
        | inl e ↦
            rw (fold_from, e)
              (step-Kept s steps (fold_from-Kept chains forced fuel steps h (omega arith)))
        | inr ((c, run), e) ↦
            rw (fold_from, e)
              (run-Kept chains forced fuel s steps c run h
                (best_of-IsRun forced (s ∷ steps) chains e)
                (λ rest l. fold_from-Kept chains forced fuel rest h (omega arith)))
      ]

-- With a unit of fuel more than there are chains, fold returns items, and these hold the steps of the
-- list, each once and in their order, however the loops are nested.
pub fold-Kept :
    (depth : ℕ) (chains : List Chain) (forced : List Str) (steps : List Placed)
    → length chains < depth
    → Kept (fold depth chains forced steps) steps
unfolding fold
fold-Kept zero chains forced steps h = absurd (omega arith)
fold-Kept (suc depth) chains forced steps h =
    fold_from-Kept (fold depth) depth (fold-Kept depth) chains forced (length steps) steps
      (omega arith) (omega arith)
