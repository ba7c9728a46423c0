-- ===== src/StateEncoding/Chain.antt =====
-- The walk along the chain of states: it ends, it finds the chain, and it raises on a loop.
use mathlib.Core.Path.{subst}
use native.Mathlib.Decide.{dec_lt}
use htn_llm_rtl_gen.StateEncoding.{follow, states_from}
use htn_llm_rtl_gen.Shared.{
  ℕ, zero, suc, ◌+◌, ◌≤◌, ◌<◌, ◌≡◌, ◌≢◌, ◌↔◌, refl, sym, ap, ◌∙◌, ◌⊎◌, inl, inr, arith,
  Option-cases, none, some, List, [], ◌∷◌, ◌++◌, append_assoc, append-nil, length, length-append,
  list_eq, nat_eq, Str, Dict, lookup, without, lookup-without, length-without_lt, eq_iff, ok, err,
  cycle, All, Distinct,
}

-- From `s` the links lead through `rest`, and the last state has none.
pub data Chain (after : Dict Str Str) : Str → List Str → Type 0 where
  stop : {s : Str} → lookup s after ≡ none → Chain after s []
  link :
      {s t : Str} {rest : List Str}
      → lookup s after ≡ some t
      → Chain after t rest
      → Chain after s (t ∷ rest)

module _ {after : Dict Str Str} where
  -- A state has one chain.
  Chain-unique : {s : Str} {xs ys : List Str} → Chain after s xs → Chain after s ys → xs ≡ ys
  Chain-unique (stop p) (stop q) = refl
  Chain-unique (stop p) (link q d) = cc
  Chain-unique (link p c) (stop q) = cc
  Chain-unique {s} (link {t = t} p c) (link {t = u} {rest = zs} q d) =
      let e : u ≡ t = cc in cc (e, Chain-unique c (subst (λ x. Chain after x zs) e d))

  -- The walk from a state whose chain is shorter does not pass `s`.
  pub Chain-ne :
      {s u : Str} {xs ys : List Str}
      → Chain after s xs
      → Chain after u ys
      → length ys < length xs
      → s ≢ u
  Chain-ne {s} {u} {xs} {ys} c d h e =
      let same : xs ≡ ys = Chain-unique c (subst (λ x. Chain after x ys) (sym e) d) in
      omega (arith, ap length same)

  Chain-without :
      {s u : Str} {xs ys : List Str}
      → Chain after s xs
      → Chain after u ys
      → length ys < length xs
      → Chain (without s after) u ys
  Chain-without {s} {u} c (stop q) h = stop (ground (arith, lookup-without s u after))
  Chain-without {s} {u} c (link q d) h =
      link (ground (arith, lookup-without s u after, eq_iff s u, Chain-ne c (link q d) h))
        (Chain-without c d (omega arith))

-- A chain is no longer than the dictionary.
pub length-Chain :
    {s : Str} (after : Dict Str Str) (xs : List Str) → Chain after s xs → length xs ≤ length after
length-Chain after [] c = omega arith
length-Chain {s} after (t ∷ xs) (link p c) = omega (
  arith,
  length-Chain (without s after) xs (Chain-without (link p c) c (omega arith)),
  length-without_lt s t after p,
)

avoids :
    {after : Dict Str Str} {s u : Str} {xs ys : List Str}
    → Chain after s xs
    → Chain after u ys
    → length ys < length xs
    → All (λ y. s ≢ y) (u ∷ ys)
avoids c (stop q) h = (Chain-ne c (stop q) h, tt)
avoids c (link q d) h = (Chain-ne c (link q d) h, avoids c d (omega arith))

-- The states of a chain are all different.
pub Chain-Distinct :
    {after : Dict Str Str} {s : Str} {xs : List Str} → Chain after s xs → Distinct (s ∷ xs)
Chain-Distinct (stop p) = (tt, tt)
Chain-Distinct (link p c) = (avoids (link p c) c (omega arith), Chain-Distinct c)

module _ (after : Dict Str Str) (s : Str) (f : ℕ) (states : List Str) where
  follow-stop : lookup s after ≡ none → follow (suc f) after states s ≡ ok states
  unfolding follow
  follow-stop p = ground arith

  -- One more state would be more than there are keys and the first.
  follow-over :
      (t : Str)
      → lookup s after ≡ some t
      → length after < length states
      → follow (suc f) after states s ≡ err cycle
  unfolding follow
  follow-over t p h = ground arith

  follow-link :
      (t : Str)
      → lookup s after ≡ some t
      → length states ≤ length after
      → follow (suc f) after states s ≡ follow f after (states ++ t ∷ []) t
  unfolding follow
  follow-link t p h = ground arith

follow_complete :
    {s : Str} (after : Dict Str Str) (f : ℕ) (states rest : List Str)
    → Chain after s rest
    → length rest < f
    → length states + length rest ≤ length after + 1
    → follow f after states s ≡ ok (states ++ rest)
follow_complete after zero states rest c h k = absurd (omega arith)
follow_complete {s} after (suc f) states [] (stop p) h k =
    rw (follow-stop after s f states p, append-nil)
follow_complete {s} after (suc f) states (t ∷ rest) (link p c) h k =
    rw (follow-link after s f states t p (omega arith)) (
      rw (
        follow_complete after f (states ++ t ∷ []) rest c (omega arith)
            (omega (arith, length-append states (t ∷ []))),
        append_assoc,
      ))

follow_sound :
    (after : Dict Str Str) (s : Str) (f : ℕ) (states r : List Str)
    → follow f after states s ≡ ok r
    → (rest : List Str) × Chain after s rest × (r ≡ states ++ rest)
follow_sound after s zero states r h = unfold follow in cc
follow_sound after s (suc f) states r h = elim (Option-cases (lookup s after)) [
  | inl p ↦ ([], stop p, cc (follow-stop after s f states p, append-nil states))
  | inr (t, p) ↦ elim (dec_lt (length after) (length states)) [
    | yes over ↦ cc (follow-over after s f states t p over)
    | no room ↦
        let (rest, c, e) =
          follow_sound after t f (states ++ t ∷ []) r
            (sym (follow-link after s f states t p (omega arith)) ∙ h) in
        (t ∷ rest, link p c, e ∙ append_assoc states (t ∷ []) rest)
  ]
]

-- With rounds enough for one state more than there are keys, the walk returns or raises.
follow_ends :
    (after : Dict Str Str) (s : Str) (f : ℕ) (states : List Str)
    → length states ≤ length after + 1
    → length after + 1 < length states + f
    → ((r : List Str) × (follow f after states s ≡ ok r)) ⊎ (follow f after states s ≡ err cycle)
follow_ends after s zero states k h = absurd (omega arith)
follow_ends after s (suc f) states k h = elim (Option-cases (lookup s after)) [
  | inl p ↦ inl (states, follow-stop after s f states p)
  | inr (t, p) ↦ elim (dec_lt (length after) (length states)) [
    | yes over ↦ inr (follow-over after s f states t p over)
    | no room ↦ rw (follow-link after s f states t p (omega arith)) (
        follow_ends after t f (states ++ t ∷ []) (omega (arith, length-append states (t ∷ [])))
          (omega (arith, length-append states (t ∷ []))))
  ]
]

-- The walk from `s` returns exactly the chain from `s`, when there is one, with `s` before it.
pub states_from-eq-ok_iff :
    (after : Dict Str Str) (s : Str) (states : List Str)
    → (states_from after s ≡ ok states)
      ↔ ((rest : List Str) × Chain after s rest × (states ≡ s ∷ rest))
unfolding states_from
states_from-eq-ok_iff after s states = (
  follow_sound after s (length after + 2) (s ∷ []) states,
  λ (rest, c, e). rw e (
      follow_complete after (length after + 2) (s ∷ []) rest c
        (omega (arith, length-Chain after rest c)) (omega (arith, length-Chain after rest c))),
)

pub states_from_ends :
    (after : Dict Str Str) (s : Str)
    → ((r : List Str) × (states_from after s ≡ ok r)) ⊎ (states_from after s ≡ err cycle)
unfolding states_from
states_from_ends after s =
    follow_ends after s (length after + 2) (s ∷ []) (omega arith) (omega arith)

-- The walk never runs out of the rounds it is given: it raises exactly when no chain from `s` ends.
pub states_from-eq-cycle_iff :
    (after : Dict Str Str) (s : Str)
    → (states_from after s ≡ err cycle) ↔ (¬ ((rest : List Str) × Chain after s rest))
states_from-eq-cycle_iff after s = (
  λ h (rest, c). cc (h, (states_from-eq-ok_iff after s (s ∷ rest)).1 (rest, c, refl)),
  λ none_ends. elim (states_from_ends after s) [
    | inl (r, h) ↦
        let (rest, c, _) = (states_from-eq-ok_iff after s r).0 h in absurd (none_ends (rest, c))
    | inr h ↦ h
  ],
)

-- The states that the walk returns are all different, so each is given one code.
pub states_from-Distinct :
    (after : Dict Str Str) (s : Str) (states : List Str)
    → states_from after s ≡ ok states
    → Distinct states
states_from-Distinct after s states h =
    let (rest, c, e) = (states_from-eq-ok_iff after s states).0 h in rw e (Chain-Distinct c)
