-- ===== src/Recogniser/Machine/Reach/Exact.antt =====
-- The search ends, and finds exactly the states that some input leads to.
use htn_llm_rtl_gen.Recogniser.Machine.Total.{step_total, fail_links_total, LinksDown}
use htn_llm_rtl_gen.Recogniser.Machine.Run.{run}
use htn_llm_rtl_gen.Recogniser.Machine.Reach.{unseen, unseen-mark, unseen_seen}
use htn_llm_rtl_gen.Recogniser.Machine.Reach.Search.{IsSearch, round-IsSearch}
use htn_llm_rtl_gen.Recogniser.Machine.{
  Bit, b0, b1, bit_eq, Bits, mark, step_from, fail_links, explore, reachable_prefixes, IsClosed,
  ShortestFirst,
}
use htn_llm_rtl_gen.Shared.{
  contains_single, ℕ, zero, suc, ◌+◌, ◌<◌, ◌≡◌, refl, sym, ap, ◌↔◌, inl, inr, true, List, [], ◌∷◌,
  arith, Dict, length, >>=-eq-ok, nat_eq, list_eq, pair_eq, contains, contains-nil, contains_head,
  ok,
}

module _ (prefixes : List Bits) (holding : List (Bits × Bit)) (empty : contains prefixes [] ≡ true)
    (fail : Dict Bits Bits) (links : (n : ℕ) → LinksDown prefixes fail n) (start : Bits) where
  -- A step from a prefix gives a prefix.
  step_from_total :
      (x : Bits) (b : Bit)
      → contains prefixes x ≡ true
      → (z : Bits) × (step_from prefixes holding fail x b ≡ ok z) × (contains prefixes z ≡ true)
  unfolding step_from
  step_from_total x b h =
      let (z, e, there, _) =
        step_total prefixes holding empty (length x + 1) fail x b h (links (length x))
          (omega arith) in
      (z, e, there)

  -- The search ends with the invariant, and with nothing to do.
  explore_ends :
      (f : ℕ) (seen todo : List Bits)
      → IsSearch prefixes holding fail start seen todo
      → unseen seen prefixes + length todo < f
      → (r : List Bits) × (explore prefixes holding f fail seen todo ≡ ok r)
        × IsSearch prefixes holding fail start r []
  unfolding explore
  explore_ends zero seen todo inv lt = absurd (omega arith)
  explore_ends (suc f) seen [] inv lt = (seen, refl, inv)
  explore_ends (suc f) seen (x ∷ todo) inv lt =
      let there = inv.within x (inv.pending x (contains_head x todo)) in
      let (y, to_y, y_in) = step_from_total x b0 there in
      let (z, to_z, z_in) = step_from_total x b1 there in
      let found = mark z (mark y (seen, todo)) in
      let (r, e, done) =
        explore_ends f found.0 found.1
          (round-IsSearch prefixes holding fail start x seen todo inv y z to_y to_z y_in z_in)
          (omega (
            arith,
            unseen-mark y (seen, todo) prefixes y_in,
            unseen-mark z (mark y (seen, todo)) prefixes z_in,
          )) in
      (r, rw (to_y, to_z) e, done)

  -- A search with nothing to do has seen all that can be reached.
  seen_all :
      (seen : List Bits)
      → IsSearch prefixes holding fail start seen []
      → (x y : Bits) (w : Bits) → contains seen x ≡ true
      → run prefixes holding fail x w ≡ ok y
      → contains seen y ≡ true
  unfolding run
  seen_all seen inv x y [] h p = ground arith
  seen_all seen inv x y (b ∷ w) h p =
      let (z, to_z, rest) = >>=-eq-ok (step_from prefixes holding fail x b) _ p in
      elim (inv.settled x h) [
        | inl waiting ↦ cc (waiting, contains-nil x)
        | inr done ↦ seen_all seen inv z y w (done b z to_z) rest
      ]

  start-IsSearch :
      contains prefixes start ≡ true
      → IsSearch prefixes holding fail start (start ∷ []) (start ∷ [])
  start-IsSearch h = record {
    started = contains_head start [];
    within = λ y p. rw (sym (contains_single start y p)) h;
    pending = λ y p. p;
    reached = λ y p. ([], unfold run in ap ok (contains_single start y p));
    settled = λ y p. inl p;
  }

module _ (prefixes : List Bits) (holding : List (Bits × Bit)) (start : Bits) where
  -- The search returns, and its invariant holds of what it returns.
  pub reachable_prefixes-IsSearch :
      IsClosed prefixes
      → ShortestFirst prefixes
      → contains prefixes [] ≡ true
      → contains prefixes start ≡ true
      → (fail : Dict Bits Bits) × (fail_links prefixes holding prefixes [] ≡ ok fail)
        × ((seen : List Bits) × (reachable_prefixes prefixes holding start ≡ ok seen)
            × IsSearch prefixes holding fail start seen []
            × ((y : Bits)
                → (contains seen y ≡ true)
                  ↔ ((w : Bits) × (run prefixes holding fail start w ≡ ok y))))
  unfolding reachable_prefixes
  reachable_prefixes-IsSearch closed sorted empty h =
      let (fail, made, links) = fail_links_total prefixes holding closed empty sorted in
      let (seen, e, inv) =
        explore_ends prefixes holding empty fail links start (length prefixes + 1) (start ∷ [])
          (start ∷ []) (start-IsSearch prefixes holding empty fail links start h)
          (omega (arith, unseen_seen start prefixes h)) in
      (
        fail,
        made,
        (
          seen,
          rw made e,
          inv,
          λ y. (
            inv.reached y,
            λ (w, p).
                seen_all prefixes holding empty fail links start seen inv start y w inv.started p,
          ),
        ),
      )

  -- Whatever outputs are kept, reachable_prefixes returns, and the states it returns are exactly those
  -- that some input leads to from the start. The prefixes are closed under prefixes and listed
  -- shortest first, the empty one and the start among them.
  pub reachable_prefixes_exact :
      IsClosed prefixes
      → ShortestFirst prefixes
      → contains prefixes [] ≡ true
      → contains prefixes start ≡ true
      → (fail : Dict Bits Bits) × (fail_links prefixes holding prefixes [] ≡ ok fail)
        × ((seen : List Bits) × (reachable_prefixes prefixes holding start ≡ ok seen)
            × ((y : Bits)
                → (contains seen y ≡ true)
                  ↔ ((w : Bits) × (run prefixes holding fail start w ≡ ok y))))
  reachable_prefixes_exact closed sorted empty h =
      let (fail, made, (seen, e, inv, found)) = reachable_prefixes-IsSearch closed sorted empty h in
      (fail, made, (seen, e, found))
