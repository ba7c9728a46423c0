-- ===== src/Series/Kept.antt =====
-- The parts of a plan, and the ranges of its step numbers, leave no step out.
use htn_llm_rtl_gen.Series.{
  Node, Nodes, no_nodes, more_nodes, step_numbers, numbers_in, node_list, is_action, grouped,
  join_carry, groups_of, PlanPart, title_of, numbers_of, parts_from, parts_of, runs_from, runs,
}
use mathlib.Core.Path.{subst}
use htn_llm_rtl_gen.Shared.{
  ℕ, zero, suc, ◌+◌, ◌-◌, ◌≡◌, refl, sym, ap, ◌∙◌, inl, inr, true, List, [], ◌∷◌, ◌++◌, map,
  append_assoc, append-nil, arith, is_empty, >>=-eq-ok, ok_injective, ◌==◌, eq_iff, nat_eq, list_eq,
  pair_eq, Bool-cases, ok,
}

abbrev pub concat {ℓ} : {A : Type ℓ} → List (List A) → List A
concat [] = []
concat (x ∷ xs) = x ++ concat xs

grouped_kept :
    (carry ns : List Node) → concat (grouped carry ns).0 ++ (grouped carry ns).1 ≡ carry ++ ns
unfolding grouped
grouped_kept carry [] = sym (append-nil carry)
grouped_kept carry (n ∷ ns) = elim (Bool-cases (is_action n)) [
  | inl e ↦ rw (grouped, e) (grouped_kept (carry ++ n ∷ []) ns ∙ append_assoc carry (n ∷ []) ns)
  | inr e ↦
      rw (grouped, e)
        (append_assoc (carry ++ n ∷ []) (concat (grouped [] ns).0) (grouped [] ns).1
          ∙ ap (λ t. (carry ++ n ∷ []) ++ t) (grouped_kept [] ns)
          ∙ append_assoc carry (n ∷ []) ns)
]

join_carry_kept :
    (gs : List (List Node)) (carry : List Node) → concat (join_carry gs carry) ≡ concat gs ++ carry
unfolding join_carry
join_carry_kept [] carry = append-nil carry
join_carry_kept (g ∷ []) carry = simp append-nil
join_carry_kept (g ∷ h ∷ gs) carry =
    ap (λ t. g ++ t) (join_carry_kept (h ∷ gs) carry) ∙ sym (append_assoc g (concat (h ∷ gs)) carry)

numbers_of-append : (ms ns : List Node) → numbers_of (ms ++ ns) ≡ numbers_of ms ++ numbers_of ns
unfolding numbers_of
numbers_of-append [] ns = refl
numbers_of-append (m ∷ ms) ns =
    ap (λ t. step_numbers m ++ t) (numbers_of-append ms ns)
    ∙ sym (append_assoc (step_numbers m) (numbers_of ms) (numbers_of ns))

numbers_of-node_list : (ns : Nodes) → numbers_of (node_list ns) ≡ numbers_in ns
unfolding numbers_of node_list step_numbers
numbers_of-node_list no_nodes = refl
numbers_of-node_list (more_nodes n ns) = ap (λ t. step_numbers n ++ t) (numbers_of-node_list ns)

-- `a`, `a + 1` and so on, `b - a + 1` of them
abbrev counted : ℕ → ℕ → List ℕ
counted a zero = a ∷ []
counted a (suc k) = a ∷ counted (a + 1) k

abbrev pub run_numbers : ℕ × ℕ → List ℕ
run_numbers (a, b) = counted a (b - a)

without_carry :
    {A : Type 0} (gs : List (List A)) (carry : List A)
    → is_empty carry ≡ true
    → concat gs ≡ concat gs ++ carry
without_carry gs [] h = sym (append-nil (concat gs))
without_carry gs (c ∷ carry) h = absurd (cc h)

groups_kept : (children : Nodes) → concat (groups_of children) ≡ node_list children
unfolding groups_of
groups_kept children = elim (Bool-cases (is_empty (grouped [] (node_list children)).1)) [
  | inl e ↦
      rw (groups_of, e)
        (without_carry (grouped [] (node_list children)).0 (grouped [] (node_list children)).1 e
          ∙ grouped_kept [] (node_list children))
  | inr e ↦
      rw (groups_of, e)
        (join_carry_kept (grouped [] (node_list children)).0 (grouped [] (node_list children)).1
          ∙ grouped_kept [] (node_list children))
]

parts_from_kept :
    (gs : List (List Node)) {parts : List PlanPart}
    → parts_from gs ≡ ok parts
    → concat (map (λ p. p.steps) parts) ≡ numbers_of (concat gs)
unfolding parts_from numbers_of
parts_from_kept [] h = subst (λ ps. concat (map (λ p. p.steps) ps) ≡ []) (ok_injective h) refl
parts_from_kept (g ∷ gs) h =
    let (title, titled, h1) = >>=-eq-ok (title_of g) _ h in
    let (later, did, h2) = >>=-eq-ok (parts_from gs) _ h1 in
    subst (λ ps. concat (map (λ p. p.steps) ps) ≡ numbers_of (g ++ concat gs)) (ok_injective h2)
      (ap (λ t. numbers_of g ++ t) (parts_from_kept gs did) ∙ sym (numbers_of-append g (concat gs)))

-- Where the plan is cut into parts, the parts hold the numbers of its steps, each once and in the order
-- of the tree.
pub parts_of_kept :
    (children : Nodes) {parts : List PlanPart}
    → parts_of children ≡ ok parts
    → concat (map (λ p. p.steps) parts) ≡ numbers_in children
unfolding parts_of
parts_of_kept children h =
    parts_from_kept (groups_of children) h
    ∙ (ap numbers_of (groups_kept children) ∙ numbers_of-node_list children)

next_one : (a : ℕ) → a + 1 ≡ a + suc 0
next_one a = omega arith

shifted : (a k : ℕ) → a + 1 + suc k ≡ a + suc (suc k)
shifted a k = omega arith

counted-longer : (a k : ℕ) → counted a (suc k) ≡ counted a k ++ (a + suc k) ∷ []
counted-longer a zero = ap (λ n. a ∷ n ∷ []) (next_one a)
counted-longer a (suc k) =
    ap (λ t. a ∷ t) (counted-longer (a + 1) k ∙ ap (λ n. counted (a + 1) k ++ n ∷ []) (shifted a k))

gap : (a b k : ℕ) → b ≡ a + k → b - a ≡ k
gap a b k h = omega arith

place_zero : (n : ℕ) → n ≡ n + 0
place_zero n = omega arith

next_number : (a b k n : ℕ) → b ≡ a + k → (b + 1 == n) ≡ true → n ≡ a + suc k
next_number a b k n h e = omega (arith, (eq_iff (b + 1) n).0 e)

run-counted : (a b k : ℕ) → b ≡ a + k → run_numbers (a, b) ≡ counted a k
run-counted a b k h = ap (λ d. counted a d) (gap a b k h)

one_more :
    (a k n : ℕ) (ns : List ℕ) → n ≡ a + suc k → counted a (suc k) ++ ns ≡ counted a k ++ n ∷ ns
one_more a k n ns h =
    ap (λ t. t ++ ns) (counted-longer a k)
    ∙ append_assoc (counted a k) ((a + suc k) ∷ []) ns
    ∙ ap (λ m. counted a k ++ m ∷ ns) (sym h)

runs_from_kept :
    (a b k : ℕ) (ns : List ℕ)
    → b ≡ a + k
    → concat (map run_numbers (runs_from a b ns)) ≡ counted a k ++ ns
unfolding runs_from
runs_from_kept a b k [] h = ap (λ t. t ++ []) (run-counted a b k h)
runs_from_kept a b k (n ∷ ns) h = elim (Bool-cases (b + 1 == n)) [
  | inl e ↦
      rw (runs_from, e)
        (runs_from_kept a n (suc k) ns (next_number a b k n h e)
          ∙ one_more a k n ns (next_number a b k n h e))
  | inr e ↦
      rw (runs_from, e)
        (ap (λ t. t ++ concat (map run_numbers (runs_from n n ns))) (run-counted a b k h)
          ∙ ap (λ t. counted a k ++ t) (runs_from_kept n n 0 ns (place_zero n)))
]

-- The runs that step_ranges writes hold the numbers that it is given, in their order.
pub runs_kept : (numbers : List ℕ) → concat (map run_numbers (runs numbers)) ≡ numbers
unfolding runs
runs_kept [] = refl
runs_kept (n ∷ ns) = runs_from_kept n n 0 ns (place_zero n)
