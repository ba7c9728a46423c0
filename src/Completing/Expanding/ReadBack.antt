-- ===== src/Completing/Expanding/ReadBack.antt =====
-- The chain of listed states that expand_sequences writes, read by the walk of state_encoding.
use htn_llm_rtl_gen.Completing.Expanding.{listed_after}
use htn_llm_rtl_gen.StateEncoding.{states_from}
use htn_llm_rtl_gen.StateEncoding.Chain.{Chain, stop, link, states_from-eq-ok_iff}
use htn_llm_rtl_gen.Shared.{
  ◌≡◌, refl, sym, ◌∙◌, ◌≢◌, none, List, [], ◌∷◌, arith, Dict, lookup, insert, insert_all,
  lookup-insert, All, Distinct, All-map, eq_iff, nat_eq, list_eq, pair_eq, eq_self, Str, ok,
}

-- A link for another state changes nothing, if its state is not on the way.
insert_all-other :
    (ps : List (Str × Str)) (after : Dict Str Str) (s : Str)
    → All (λ p. p.0 ≢ s) ps
    → lookup s (insert_all ps after) ≡ lookup s after
unfolding insert_all
insert_all-other [] after s h = refl
insert_all-other ((k, v) ∷ ps) after s h =
    insert_all-other ps (insert k v after) s h.1
    ∙ ground (arith, lookup-insert k s v after, eq_iff k s, h.0)

-- The states that a chain leaves are those of the list but its last.
listed_after-All :
    (P : Str → Type 0) (a : Str) (ns : List Str)
    → All P (a ∷ ns)
    → All (λ p. P p.0) (listed_after a ns)
unfolding listed_after
listed_after-All P a [] h = tt
listed_after-All P a (b ∷ ns) h = (h.0, listed_after-All P b ns h.1)

-- One more link leaves the other states without one.
insert-free :
    (a b : Str) (after : Dict Str Str) (xs : List Str)
    → All (λ n. a ≢ n) xs
    → All (λ n. lookup n after ≡ none) xs
    → All (λ n. lookup n (insert a b after) ≡ none) xs
insert-free a b after [] d h = tt
insert-free a b after (x ∷ xs) d h = (
  ground (arith, lookup-insert a x b after, eq_iff a x, d.0, h.0),
  insert-free a b after xs d.1 h.1,
)

Chain-from :
    (a : Str) (ns : List Str) (after : Dict Str Str)
    → Distinct (a ∷ ns)
    → All (λ n. lookup n after ≡ none) (a ∷ ns)
    → Chain (insert_all (listed_after a ns) after) a ns
unfolding listed_after insert_all
Chain-from a [] after d h = stop h.0
Chain-from a (b ∷ ns) after d h =
    link
      (insert_all-other (listed_after b ns) (insert a b after) a
          (listed_after-All (λ n. n ≢ a) b ns (All-map (λ n e p. e (sym p)) (b ∷ ns) d.0))
        ∙ ground (arith, lookup-insert a a b after, eq_self a))
      (Chain-from b ns (insert a b after) d.1 (insert-free a b after (b ∷ ns) d.0 h.1))

All-none : (xs : List Str) → All (λ n. lookup {V = Str} n [] ≡ none) xs
unfolding lookup
All-none [] = tt
All-none (x ∷ xs) = (refl, All-none xs)

-- For different names, the walk along the links that are written for them, from the first name,
-- returns the names in their order.
pub states_from-listed_after :
    (a : Str) (ns : List Str)
    → Distinct (a ∷ ns)
    → states_from (insert_all (listed_after a ns) []) a ≡ ok (a ∷ ns)
unfolding lookup
states_from-listed_after a ns d =
    (states_from-eq-ok_iff (insert_all (listed_after a ns) []) a (a ∷ ns)).1
      (ns, Chain-from a ns [] d (All-none (a ∷ ns)), refl)
