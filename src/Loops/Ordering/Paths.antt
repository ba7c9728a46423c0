-- ===== src/Loops/Ordering/Paths.antt =====
-- A chain of eval/lift_loops.py is one path through all the edges of its relation.
use htn_llm_rtl_gen.Loops.Ordering.{walk, is_path, heads_of, targets, order_of}
use htn_llm_rtl_gen.Loops.Ordering.Walks.{Injective-Distinct}
use htn_llm_rtl_gen.Shared.{
  not-true, ℕ, zero, suc, ◌+◌, ◌≤◌, ◌≡◌, refl, sym, ap, ◌∙◌, ◌≢◌, ◌⊎◌, inl, inr, Bool, true, false,
  not, none, some, List, [], ◌∷◌, map, arith, Dict, lookup, insert, insert_all, lookup-insert,
  length, filter, Distinct, least, distinct, minus, ◌==◌, nat_beq_iff, nat_eq, if◌then◌else◌,
  list_eq, pair_eq, eq_of_beq, contains, contains-nil, contains_cases, contains_tail, contains_head,
  Bool-cases, Option-cases, Str,
}

abbrev Edges : Type 0
Edges = List (Str × Str)

-- Each of the objects leads to the one after it.
abbrev pub Linked : Edges → List Str → Type 0
Linked edges [] = Unit
Linked edges (x ∷ []) = Unit
Linked edges (x ∷ y ∷ order) = (contains edges (x, y) ≡ true) × Linked edges (y ∷ order)

chosen : {A : Type 0} (c : Bool) (x y : A) → c ≡ true → x ≡ (if c then x else y)
chosen c x y e = rw e refl

other : {A : Type 0} (c : Bool) (x y : A) → c ≡ false → y ≡ (if c then x else y)
other c x y e = rw e refl

same_edge :
    (a t b u : Str) (edges : Edges)
    → b ≡ a
    → some u ≡ some t
    → contains ((b, u) ∷ edges) (a, t) ≡ true
same_edge a t b u edges p q = cc (p, q, contains_head (b, u) edges)

from_insert :
    (a t b u : Str) (edges : Edges) (d : Dict Str Str)
    → (if b == a then some u else lookup a d) ≡ some t
    → (contains ((b, u) ∷ edges) (a, t) ≡ true) ⊎ (lookup a d ≡ some t)
from_insert a t b u edges d k = elim (Bool-cases (b == a)) [
  | inl e ↦
      inl (same_edge a t b u edges (eq_of_beq e) (chosen (b == a) (some u) (lookup a d) e ∙ k))
  | inr e ↦ inr (other (b == a) (some u) (lookup a d) e ∙ k)
]

-- What a dictionary of pairs holds is one of the pairs.
lookup-insert_all :
    (a t : Str) (edges : Edges) (d : Dict Str Str)
    → lookup a (insert_all edges d) ≡ some t
    → (contains edges (a, t) ≡ true) ⊎ (lookup a d ≡ some t)
unfolding insert_all
lookup-insert_all a t [] d h = inr h
lookup-insert_all a t ((b, u) ∷ edges) d h = elim (lookup-insert_all a t edges (insert b u d) h) [
  | inl m ↦ inl (contains_tail (b, u) (a, t) edges m)
  | inr k ↦ from_insert a t b u edges d (sym (lookup-insert b a u d) ∙ k)
]

walk-Linked :
    (room : ℕ) (edges : Edges) (d : Dict Str Str) (s : Str)
    → ((a t : Str) → lookup a d ≡ some t → contains edges (a, t) ≡ true)
    → Linked edges (s ∷ walk room d s)
unfolding walk
walk-Linked zero edges d s h = tt
walk-Linked (suc room) edges d s h = elim (Option-cases (lookup s d)) [
  | inl e ↦ rw (walk, e) tt
  | inr (t, e) ↦ rw (walk, e) (h s t e, walk-Linked room edges d t h)
]

lookup_edges :
    (edges : Edges) (a t : Str)
    → lookup a (insert_all edges []) ≡ some t
    → contains edges (a, t) ≡ true
unfolding lookup
lookup_edges edges a t h = elim (lookup-insert_all a t edges [] h) [ inl m ↦ m | inr k ↦ cc k ]

-- No object stands in the list twice.
abbrev Single : List Str → Type 0
Single [] = Unit
Single (x ∷ xs) = (contains xs x ≡ false) × Single xs

length-distinct : (xs : List Str) → length (distinct xs) ≤ length xs
unfolding distinct
length-distinct [] = omega arith
length-distinct (x ∷ xs) = ground (arith, length-distinct xs)

distinct-Single : (xs : List Str) → length (distinct xs) ≡ length xs → Single xs
unfolding distinct
distinct-Single [] h = tt
distinct-Single (x ∷ xs) h =
    (ground (arith, length-distinct xs), distinct-Single xs (ground (arith, length-distinct xs)))

abbrev nothing : Edges
nothing = []

no_edge : (a t : Str) → contains nothing (a, t) ≢ true
unfolding contains
no_edge a t h = cc h

target_in :
    (edges : Edges) (a t : Str)
    → contains edges (a, t) ≡ true
    → contains (map (λ e. e.1) edges) t ≡ true
target_in [] a t h = absurd (no_edge a t h)
target_in ((b, u) ∷ edges) a t h = elim (contains_cases (b, u) (a, t) edges h) [
  | inl e ↦ cc (ap (λ p. p.1) e, contains_head u (map (λ x. x.1) edges))
  | inr m ↦ contains_tail u t (map (λ x. x.1) edges) (target_in edges a t m)
]

-- The sources of one target are one.
Single-source :
    (edges : Edges) (a b t : Str)
    → Single (map (λ e. e.1) edges)
    → contains edges (a, t) ≡ true
    → contains edges (b, t) ≡ true
    → a ≡ b
Single-source [] a b t h p q = absurd (no_edge a t p)
Single-source ((c, u) ∷ edges) a b t h p q = elim (contains_cases (c, u) (a, t) edges p) [
  | inl e ↦ elim (contains_cases (c, u) (b, t) edges q) [
    | inl f ↦ cc (ap (λ x. x.0) e, ap (λ x. x.0) f)
    | inr m ↦ cc (h.0, ap (λ x. x.1) e, target_in edges b t m)
  ]
  | inr n ↦ elim (contains_cases (c, u) (b, t) edges q) [
    | inl f ↦ cc (h.0, ap (λ x. x.1) f, target_in edges a t n)
    | inr m ↦ Single-source edges a b t h.1 n m
  ]
]

not_a_target :
    (edges : Edges) (s a : Str)
    → contains (map (λ e. e.1) edges) s ≡ false
    → lookup a (insert_all edges []) ≢ some s
not_a_target edges s a h k = cc (h, target_in edges a s (lookup_edges edges a s k))

length-map : {A B : Type 0} (f : A → B) (xs : List A) → length (map f xs) ≡ length xs
length-map f [] = refl
length-map f (x ∷ xs) = ap suc (length-map f xs)

-- The order that the edges give from a head that is no target.
order_of-Distinct :
    (edges : Edges) (head : Str)
    → length (distinct (map (λ e. e.1) edges)) ≡ length edges
    → contains (map (λ e. e.1) edges) head ≡ false
    → Distinct (head ∷ walk (length edges) (insert_all edges []) head)
order_of-Distinct edges head single h =
    let one = distinct-Single (map (λ e. e.1) edges) (single ∙ sym (length-map (λ e. e.1) edges)) in
    Injective-Distinct (length edges) (insert_all edges []) head
      (λ a b t p q.
        Single-source edges a b t one (lookup_edges edges a t p) (lookup_edges edges b t q))
      (λ a. not_a_target edges head a h)

filter_kept :
    (p : Str → Bool) (y : Str) (xs : List Str) → p y ≡ true → filter p (y ∷ xs) ≡ y ∷ filter p xs
unfolding filter
filter_kept p y xs e = rw (filter, e) refl

filter_left :
    (p : Str → Bool) (y : Str) (xs : List Str) → p y ≡ false → filter p (y ∷ xs) ≡ filter p xs
unfolding filter
filter_left p y xs e = rw (filter, e) refl

pub filter-contains :
    (p : Str → Bool) (xs : List Str) (x : Str)
    → contains (filter p xs) x ≡ true
    → (p x ≡ true) × (contains xs x ≡ true)
unfolding filter
filter-contains p [] x h = cc (h, contains-nil x)
filter-contains p (y ∷ xs) x h = elim (Bool-cases (p y)) [
  | inr e ↦
      let found = filter-contains p xs x (cc (h, filter_left p y xs e)) in
      (found.0, contains_tail y x xs found.1)
  | inl e ↦ elim (contains_cases y x (filter p xs) (cc (h, filter_kept p y xs e))) [
    | inl same ↦ (cc (same, e), cc (same, contains_head y xs))
    | inr later ↦
        let found = filter-contains p xs x later in (found.0, contains_tail y x xs found.1)
  ]
]

module _ (lt : Str → Str → Bool) (y : Str) where
  least_last : (xs : List Str) → least lt xs ≡ none → least lt (y ∷ xs) ≡ some y
  unfolding least
  least_last xs e = rw (least, e) refl

  least_later :
      (z : Str) (xs : List Str) → least lt xs ≡ some z → lt z y ≡ true → least lt (y ∷ xs) ≡ some z
  unfolding least
  least_later z xs e b = rw (least, e, b) refl

  least_first :
      (z : Str) (xs : List Str) → least lt xs ≡ some z → lt z y ≡ false → least lt (y ∷ xs) ≡ some y
  unfolding least
  least_first z xs e b = rw (least, e, b) refl

pub least-contains :
    (lt : Str → Str → Bool) (xs : List Str) {x : Str} → least lt xs ≡ some x → contains xs x ≡ true
unfolding least
least-contains lt [] h = cc
least-contains lt (y ∷ xs) {x} h = elim (Option-cases (least lt xs)) [
  | inl e ↦ cc (h, least_last lt y xs e, contains_head y xs)
  | inr (z, e) ↦ elim (Bool-cases (lt z y)) [
    | inl b ↦ contains_tail y x xs (least-contains lt xs (cc (e, h, least_later lt y z xs e b)))
    | inr b ↦ cc (h, least_first lt y z xs e b, contains_head y xs)
  ]
]

head_unreached :
    (edges : Edges) (head : Str)
    → heads_of edges ≡ head ∷ []
    → contains (targets edges) head ≡ false
unfolding minus
head_unreached edges head h = not-true (contains (targets edges) head) (
    (filter-contains (λ x. not (contains (targets edges) x)) (map (λ e. e.0) (insert_all edges []))
      head (cc (h, contains_head head []))).0)

is_path_parts :
    (edges : Edges) (order : List Str)
    → is_path edges order ≡ true
    → (length (distinct (targets edges)) ≡ length edges) × (length order ≡ length edges + 1)
unfolding is_path
is_path_parts edges order h = (
  ground (arith, nat_beq_iff (length (distinct (targets edges))) (length edges)),
  ground (arith, nat_beq_iff (length order) (length edges + 1)),
)

-- An order that passes the test is a path through all the edges.
pub order_of-path :
    (edges : Edges) (heads : List Str)
    → heads_of edges ≡ heads
    → is_path edges (order_of edges heads) ≡ true
    → Distinct (order_of edges heads)
      × Linked edges (order_of edges heads)
      × (length (order_of edges heads) ≡ length edges + 1)
unfolding order_of
order_of-path edges [] h k = absurd (omega (arith, (is_path_parts edges [] k).1))
order_of-path edges (head ∷ a ∷ heads) h k = absurd (omega (arith, (is_path_parts edges [] k).1))
order_of-path edges (head ∷ []) h k = (
  order_of-Distinct edges head (is_path_parts edges (order_of edges (head ∷ [])) k).0
      (head_unreached edges head h),
  walk-Linked (length edges) edges (insert_all edges []) head (lookup_edges edges),
  (is_path_parts edges (order_of edges (head ∷ [])) k).1,
)
