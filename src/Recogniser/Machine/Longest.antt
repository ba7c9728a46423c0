-- ===== src/Recogniser/Machine/Longest.antt =====
-- Where no output is kept, the recogniser is in the longest suffix of its input that is a prefix of a
-- recognised sequence: the automaton of Aho and Corasick.
use mathlib.Core.List.{tail}
use htn_llm_rtl_gen.Recogniser.Machine.Run.{run}
use htn_llm_rtl_gen.Recogniser.Machine.Links.{LinksTo, next_link, front_present, fail_links_good}
use htn_llm_rtl_gen.Recogniser.Machine.{
  unsnoc, unsnoc-append, step_from, fail_links, ShortestFirst, IsClosed, Bit, bit_eq, Bits, unsnoc,
  step, step_from, fail_links,
}
use htn_llm_rtl_gen.Shared.{
  get, ok, append_assoc, append-nil, Dict, ◌∙◌, ap, ℕ, zero, suc, ◌+◌, ◌≤◌, ◌<◌, ◌≡◌, refl, ap, ◌∙◌,
  true, List, [], ◌∷◌, ◌++◌, append_assoc, append-nil, arith, Dict, length, get, if◌then◌else◌,
  nat_eq, list_eq, pair_eq, contains, ok,
}

-- The longest suffix of the input that is one of the prefixes; the empty one if no other is.
unfoldable pub longest : List Bits → Bits → Bits
longest prefixes [] = []
longest prefixes (c ∷ w) = if contains prefixes (c ∷ w) then c ∷ w else longest prefixes w

module _ (prefixes : List Bits) where
  pub longest_self : (w : Bits) → contains prefixes w ≡ true → longest prefixes w ≡ w
  unfolding longest
  longest_self [] h = refl
  longest_self (c ∷ w) h = rw h

  pub longest-present :
      (w : Bits) → contains prefixes [] ≡ true → contains prefixes (longest prefixes w) ≡ true
  unfolding longest
  longest-present [] e = e
  longest-present (c ∷ w) e = ground (arith, longest-present w e)

  pub length-longest : (w : Bits) → length (longest prefixes w) ≤ length w
  unfolding longest
  length-longest [] = omega arith
  length-longest (c ∷ w) = ground (arith, length-longest w)

module _ (prefixes : List Bits) (closed : IsClosed prefixes) where
  -- Only the longest suffix of what came before matters to the next bit.
  pub longest-longest :
      (w : Bits) (b : Bit)
      → longest prefixes (longest prefixes w ++ b ∷ []) ≡ longest prefixes (w ++ b ∷ [])
  unfolding longest
  longest-longest [] b = refl
  longest-longest (c ∷ w) b = ground (arith, closed (c ∷ w) b, longest-longest w b)

-- A link leads to the longest suffix but the prefix itself.
abbrev pub IsLongest : List Bits → Bits → Bits → Type 0
IsLongest prefixes x y = y ≡ longest prefixes (tail x)

abbrev pub LinksLongest : List Bits → Dict Bits Bits → ℕ → Type 0
LinksLongest prefixes = LinksTo prefixes (IsLongest prefixes)

module _ (prefixes : List Bits) (closed : IsClosed prefixes)
    (empty : contains prefixes [] ≡ true) where
  -- A step leads to the longest suffix of the state and the bit.
  step-longest :
      (f : ℕ) (fail : Dict Bits Bits) (x : Bits) (b : Bit)
      → contains prefixes x ≡ true
      → LinksLongest prefixes fail (length x)
      → length x < f
      → step prefixes [] f fail x b ≡ ok (longest prefixes (x ++ b ∷ []))
  unfolding step longest contains
  step-longest zero fail x b h links lt = absurd (omega arith)
  step-longest (suc f) fail [] b h links lt = ground arith
  step-longest (suc f) fail (c ∷ w) b h links lt =
      let (y, known, is_longest) = links c w h (omega arith) in
      ground (
        arith,
        closed (c ∷ w) b,
        longest-longest prefixes closed w b,
        step-longest f fail (longest prefixes w) b (longest-present prefixes w empty)
            (λ d v p l. links d v p (omega (arith, length-longest prefixes w)))
            (omega (arith, length-longest prefixes w)),
      )

  -- The step on to the next bit from the longest suffix of some input.
  step_from-longest :
      (fail : Dict Bits Bits) (u : Bits) (b : Bit)
      → LinksLongest prefixes fail (length u)
      → step_from prefixes [] fail (longest prefixes u) b ≡ ok (longest prefixes (u ++ b ∷ []))
  unfolding step_from
  step_from-longest fail u b links =
      let x = longest prefixes u in
      step-longest (length x + 1) fail x b (longest-present prefixes u empty)
        (λ d v p l. links d v p (omega (arith, length-longest prefixes u))) (omega arith)
      ∙ ap ok (longest-longest prefixes closed u b)

  link-IsLongest :
      (c d : Bit) (x : Bits) (fail : Dict Bits Bits)
      → contains prefixes (c ∷ d ∷ x) ≡ true
      → LinksLongest prefixes fail (length (d ∷ x))
      → (z : Bits) × (next_link prefixes [] fail c (d ∷ x) ≡ ok z)
        × IsLongest prefixes (c ∷ d ∷ x) z
  unfolding unsnoc
  link-IsLongest c d x fail h links =
      let (there, size) = front_present prefixes closed c d x h in
      let (y, known, good) = links c (unsnoc d x).0 there (omega arith) in
      (
        longest prefixes (d ∷ x),
        rw (known, get)
            (rw (good, ← unsnoc-append d x)
              (step_from-longest fail (unsnoc d x).0 (unsnoc d x).1
                (λ e v r l. links e v r (omega arith)))),
        refl,
      )

  run_from-longest :
      (fail : Dict Bits Bits)
      → ((n : ℕ) → LinksLongest prefixes fail n)
      → (u w : Bits) → run prefixes [] fail (longest prefixes u) w ≡ ok (longest prefixes (u ++ w))
  unfolding run
  run_from-longest fail links u [] = rw append-nil
  run_from-longest fail links u (b ∷ w) = rw (step_from-longest fail u b (links (length u))) (
      run_from-longest fail links (u ++ b ∷ []) w
      ∙ ap (λ t. ok (longest prefixes t)) (append_assoc u (b ∷ []) w))

  -- Where no output is kept, the links can all be made, and from then on the state after any input is
  -- the longest suffix of the input that is one of the prefixes. The prefixes are closed under
  -- prefixes and listed shortest first, the empty one among them.
  pub run-longest :
      ShortestFirst prefixes
      → (fail : Dict Bits Bits) × (fail_links prefixes [] prefixes [] ≡ ok fail)
        × ((w : Bits) → run prefixes [] fail [] w ≡ ok (longest prefixes w))
  unfolding longest
  run-longest sorted =
      let (fail, made, links) =
        fail_links_good prefixes [] (IsLongest prefixes) (λ c. refl) link-IsLongest sorted in
      (fail, made, λ w. run_from-longest fail links [] w)
