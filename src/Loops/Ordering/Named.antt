-- ===== src/Loops/Ordering/Named.antt =====
-- The ends of a chain of eval/lift_loops.py, which facts of the problem name.
use htn_llm_rtl_gen.Loops.{Fact, Chain}
use htn_llm_rtl_gen.Loops.Ordering.{
  order_of, heads_of, is_path, marks, names_only, ties, marked_by, named_chain, chain_of,
}
use htn_llm_rtl_gen.Loops.Ordering.Paths.{Linked, filter-contains, least-contains, order_of-path}
use mathlib.Core.Path.{subst}
use htn_llm_rtl_gen.Shared.{
  some_injective, ℕ, ◌+◌, ◌≡◌, refl, sym, inl, inr, Bool, true, false, ◌&&◌, Option, none, some,
  List, [], ◌∷◌, arith, Dict, length, get_elem?, all, Distinct, text_lt, least, ◌==◌, eq_iff,
  nat_eq, if◌then◌else◌, list_eq, pair_eq, contains, contains-nil, contains_cases, contains_tail,
  contains_head, Bool-cases, Str,
}

-- A chain of options that gives a value has a first part that does.
bind_some :
    {A B : Type 0} (o : Option A) (f : A → Option B) {b : B}
    → (elim o as (λ _. Option B) [ none ↦ none | some a ↦ f a ]) ≡ some b
    → (a : A) × (o ≡ some a) × (f a ≡ some b)
bind_some none f h = cc h
bind_some (some a) f h = (a, refl, h)

from_test :
    {A : Type 0} (c : Bool) (o : Option A) {a : A}
    → (if c then o else none) ≡ some a
    → (c ≡ true) × (o ≡ some a)
from_test true o h = (refl, h)
from_test false o h = cc h

both_equal : (a m b x : Str) (c : Bool) → ((a == m) && (b == x) && c) ≡ true → (a ≡ m) × (b ≡ x)
both_equal a m b x c h = (ground (arith, eq_iff a m), ground (arith, eq_iff b x))

module _ (types : Dict Str Str) (m : Str) (facts : List Fact) where
  ties_passed :
      (x q a b : Str) (fs : List Fact)
      → ((a == m) && (b == x) && names_only types m facts q x) ≡ false
      → ties types m facts x ((q ∷ a ∷ b ∷ []) ∷ fs) ≡ ties types m facts x fs
  unfolding ties
  ties_passed x q a b fs e = rw (ties, e) refl

  ties_taken :
      (x q a b : Str) (fs : List Fact)
      → ((a == m) && (b == x) && names_only types m facts q x) ≡ true
      → ties types m facts x ((q ∷ a ∷ b ∷ []) ∷ fs) ≡ q ∷ ties types m facts x fs
  unfolding ties
  ties_taken x q a b fs e = rw (ties, e) refl

  ties-fact :
      (x : Str) (fs : List Fact) (p : Str)
      → contains (ties types m facts x fs) p ≡ true
      → contains fs (p ∷ m ∷ x ∷ []) ≡ true
  unfolding ties
  ties-fact x [] p h = absurd (cc (h, contains-nil p))
  ties-fact x ([] ∷ fs) p h = contains_tail [] (p ∷ m ∷ x ∷ []) fs (ties-fact x fs p h)
  ties-fact x ((q ∷ []) ∷ fs) p h = contains_tail (q ∷ []) (p ∷ m ∷ x ∷ []) fs (ties-fact x fs p h)
  ties-fact x ((q ∷ a ∷ []) ∷ fs) p h =
      contains_tail (q ∷ a ∷ []) (p ∷ m ∷ x ∷ []) fs (ties-fact x fs p h)
  ties-fact x ((q ∷ a ∷ b ∷ c ∷ f) ∷ fs) p h =
      contains_tail (q ∷ a ∷ b ∷ c ∷ f) (p ∷ m ∷ x ∷ []) fs (ties-fact x fs p h)
  ties-fact x ((q ∷ a ∷ b ∷ []) ∷ fs) p h =
      elim (Bool-cases ((a == m) && (b == x) && names_only types m facts q x)) [
        | inr e ↦
            contains_tail (q ∷ a ∷ b ∷ []) (p ∷ m ∷ x ∷ []) fs
              (ties-fact x fs p (cc (h, ties_passed x q a b fs e)))
        | inl e ↦
            elim (contains_cases q p (ties types m facts x fs) (cc (h, ties_taken x q a b fs e))) [
              | inr later ↦
                  contains_tail (q ∷ a ∷ b ∷ []) (p ∷ m ∷ x ∷ []) fs (ties-fact x fs p later)
              | inl same ↦
                  let both = both_equal a m b x (names_only types m facts q x) e in
                  cc (same, both.0, both.1, contains_head (q ∷ a ∷ b ∷ []) fs)
            ]
      ]

  marked-fact :
      (others : List (List Fact)) (pred : Str) (at_head : Bool) (x : Str) {p : Str}
      → least text_lt (marked_by types m facts others pred at_head x) ≡ some p
      → contains facts (p ∷ m ∷ x ∷ []) ≡ true
  unfolding marked_by
  marked-fact others pred at_head x {p} h =
      ties-fact x facts p
        (filter-contains (λ q. all (λ fs. marks fs pred q at_head) others)
          (ties types m facts x facts) p
          (least-contains text_lt (marked_by types m facts others pred at_head x) h)).1

  -- The ends of a chain with `n` edges are named by facts.
  abbrev pub NamesEnds : Chain → ℕ → Type 0
  NamesEnds c n =
      (head : Str) × (end : Str) × (get_elem? c.order 0 ≡ some head)
      × (get_elem? c.order n ≡ some end)
      × (contains facts (c.first ∷ m ∷ head ∷ []) ≡ true)
      × (contains facts (c.last ∷ m ∷ end ∷ []) ≡ true)

  named_chain-NamesEnds :
      (others : List (List Fact)) (pred : Str) (order : List Str) (n : ℕ) {c : Chain}
      → named_chain types m facts others pred order n ≡ some c
      → (c.next ≡ pred) × (c.order ≡ order) × NamesEnds c n
  unfolding named_chain
  named_chain-NamesEnds others pred order n h =
      let (head, e0, h0) = bind_some (get_elem? order 0) _ h in
      let (end, e1, h1) = bind_some (get_elem? order n) _ h0 in
      let (first, e2, h2) =
        bind_some (least text_lt (marked_by types m facts others pred true head)) _ h1 in
      let (last, e3, h3) =
        bind_some (least text_lt (marked_by types m facts others pred false end)) _ h2 in
      subst (λ d. (d.next ≡ pred) × (d.order ≡ order) × NamesEnds d n) (some_injective h3)
        (
          refl,
          refl,
          (
            head,
            end,
            e0,
            e1,
            marked-fact others pred true head e2,
            marked-fact others pred false end e3,
          ),
        )

  -- A chain that is found is a path through all the edges of its relation, none of its elements twice,
  -- and facts about the module name its first element and its last.
  pub chain_of-path :
      (others : List (List Fact)) (pred : Str) (edges : List (Str × Str)) {c : Chain}
      → chain_of types m facts others pred edges ≡ some c
      → (c.next ≡ pred)
        × Distinct c.order
        × Linked edges c.order
        × (length c.order ≡ length edges + 1)
        × NamesEnds c (length edges)
  unfolding chain_of
  chain_of-path others pred edges {c} h =
      let (passed, found) = from_test (is_path edges (order_of edges (heads_of edges))) _ h in
      let (next, order, ends) =
        named_chain-NamesEnds others pred (order_of edges (heads_of edges)) (length edges) found in
      let (once, linked, len) = order_of-path edges (heads_of edges) refl passed in
      subst
        (λ o.
          (c.next ≡ pred)
          × Distinct o
          × Linked edges o
          × (length o ≡ length edges + 1)
          × NamesEnds c (length edges))
        (sym order) (next, once, linked, len, ends)
