-- ===== src/Recogniser/Machine/Reach/Search.antt =====
-- reachable_prefixes finds exactly the states that some input leads to from the start.
use mathlib.Core.Path.{subst}
use htn_llm_rtl_gen.Recogniser.Machine.Run.{run, run-append}
use htn_llm_rtl_gen.Recogniser.Machine.Reach.{
  mark_self, mark-seen, mark-todo, seen_cases, todo_cases, new_cases,
}
use htn_llm_rtl_gen.Recogniser.Machine.{Bit, b0, b1, bit_eq, Bits, mark, step_from}
use htn_llm_rtl_gen.Shared.{
  ◌≡◌, sym, ◌∙◌, ◌⊎◌, inl, inr, true, List, [], ◌∷◌, ◌++◌, Dict, nat_eq, list_eq, pair_eq, contains,
  contains_cases, contains_tail, contains_head, ok,
}

module _ (prefixes : List Bits) (holding : List (Bits × Bit)) (fail : Dict Bits Bits)
    (start : Bits) where
  -- Some input leads from the start to `y`.
  abbrev pub Reached : Bits → Type 0
  Reached y = (w : Bits) × (run prefixes holding fail start w ≡ ok y)

  -- Both steps from `y` have been taken.
  abbrev pub Settled : List Bits → Bits → Type 0
  Settled seen y =
      (b : Bit) (z : Bits) → step_from prefixes holding fail y b ≡ ok z → contains seen z ≡ true

  -- The invariant of the search.
  pub record IsSearch (seen todo : List Bits) : Type 0 where
    pub started : contains seen start ≡ true
    pub within : (y : Bits) → contains seen y ≡ true → contains prefixes y ≡ true
    pub pending : (y : Bits) → contains todo y ≡ true → contains seen y ≡ true
    pub reached : (y : Bits) → contains seen y ≡ true → Reached y
    pub settled : (y : Bits) → contains seen y ≡ true → (contains todo y ≡ true) ⊎ Settled seen y

  Reached-step :
      (x y : Bits) (b : Bit) → Reached x → step_from prefixes holding fail x b ≡ ok y → Reached y
  unfolding run
  Reached-step x y b (w, p) q =
      (w ++ b ∷ [], run-append prefixes holding fail start x w (b ∷ []) p ∙ rw q)

  module _ (x : Bits) (seen todo : List Bits) (inv : IsSearch seen (x ∷ todo)) (y z : Bits)
      (to_y : step_from prefixes holding fail x b0 ≡ ok y)
      (to_z : step_from prefixes holding fail x b1 ≡ ok z) (y_in : contains prefixes y ≡ true)
      (z_in : contains prefixes z ≡ true) where
    abbrev pub s1 : List Bits × List Bits
    s1 = mark y (seen, todo)

    abbrev pub s2 : List Bits × List Bits
    s2 = mark z s1

    x_seen : contains seen x ≡ true
    x_seen = inv.pending x (contains_head x todo)

    -- What is seen after the round: what was, and the two states that the steps lead to.
    cases : (v : Bits) → contains s2.0 v ≡ true → (contains seen v ≡ true) ⊎ (y ≡ v) ⊎ (z ≡ v)
    cases v h = elim (seen_cases z s1 v h) [
      | inl old ↦ elim (seen_cases y (seen, todo) v old) [
        | inl older ↦ inl older
        | inr e ↦ inr (inl e)
      ]
      | inr e ↦ inr (inr e)
    ]

    kept : (v : Bits) → contains seen v ≡ true → contains s2.0 v ≡ true
    kept v h = mark-seen z s1 v (mark-seen y (seen, todo) v h)

    round-Settled : (v : Bits) → contains s2.0 v ≡ true → (contains s2.1 v ≡ true) ⊎ Settled s2.0 v
    round-Settled v h = elim (new_cases z s1 v h) [
      | inr new ↦ inl new
      | inl old ↦ elim (new_cases y (seen, todo) v old) [
        | inr new ↦ inl (mark-todo z s1 v new)
        | inl older ↦ elim (inv.settled v older) [
          | inr done ↦ inr (λ b u e. kept u (done b u e))
          | inl waiting ↦ elim (contains_cases x v todo waiting) [
            | inr later ↦ inl (mark-todo z s1 v (mark-todo y (seen, todo) v later))
            | inl same ↦ inr (λ b u e. both v same b u e)
          ]
        ]
      ]
    ]
      where
        both :
            (v : Bits)
            → x ≡ v
            → (b : Bit) (u : Bits) → step_from prefixes holding fail v b ≡ ok u
            → contains s2.0 u ≡ true
        both v same b0 u e =
            let found : y ≡ u = cc in rw (sym found) (mark-seen z s1 y (mark_self y (seen, todo)))
        both v same b1 u e = let found : z ≡ u = cc in rw (sym found) (mark_self z s1)

    round_pending : (v : Bits) → contains s2.1 v ≡ true → contains s2.0 v ≡ true
    round_pending v h = elim (todo_cases z s1 v h) [
      | inr e ↦ rw (sym e) (mark_self z s1)
      | inl old ↦ elim (todo_cases y (seen, todo) v old) [
        | inr e ↦ rw (sym e) (mark-seen z s1 y (mark_self y (seen, todo)))
        | inl older ↦ kept v (inv.pending v (contains_tail x v todo older))
      ]
    ]

    pub round-IsSearch : IsSearch s2.0 s2.1
    round-IsSearch = record {
      started = kept start inv.started;
      within = λ v h. elim (cases v h) [
        | inl old ↦ inv.within v old
        | inr (inl e) ↦ rw (sym e) y_in
        | inr (inr e) ↦ rw (sym e) z_in
      ];
      pending = round_pending;
      reached = λ v h. elim (cases v h) [
        | inl old ↦ inv.reached v old
        | inr (inl e) ↦ subst Reached e (Reached-step x y b0 (inv.reached x x_seen) to_y)
        | inr (inr e) ↦ subst Reached e (Reached-step x z b1 (inv.reached x x_seen) to_z)
      ];
      settled = round-Settled;
    }
