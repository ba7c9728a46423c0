-- ===== src/Recogniser/Machine/Total.antt =====
-- The links can always be made, whatever outputs are kept, and a step never misses a link.
use htn_llm_rtl_gen.Recogniser.Machine.Links.{LinksTo, next_link, front_present, fail_links_good}
use htn_llm_rtl_gen.Recogniser.Machine.{
  Bit, bit_eq, Bits, unsnoc, step, step_from, fail_links, IsClosed, ShortestFirst,
}
use htn_llm_rtl_gen.Shared.{
  ℕ, zero, suc, ◌+◌, ◌≤◌, ◌<◌, ◌≡◌, ◌∙◌, inl, inr, true, false, some, List, [], ◌∷◌, ◌++◌, arith,
  Dict, lookup, length, length-append, get, nat_eq, list_eq, pair_eq, contains, Bool-cases, ok,
}

-- A link leads to a shorter prefix.
abbrev pub IsShorter : List Bits → Bits → Bits → Type 0
IsShorter prefixes x y = (contains prefixes y ≡ true) × (length y < length x)

abbrev pub LinksDown : List Bits → Dict Bits Bits → ℕ → Type 0
LinksDown prefixes = LinksTo prefixes (IsShorter prefixes)

module _ (prefixes : List Bits) (holding : List (Bits × Bit))
    (empty : contains prefixes [] ≡ true) where
  step-held :
      (f : ℕ) (fail : Dict Bits Bits) (x : Bits) (b : Bit)
      → contains holding (x, b) ≡ true
      → step prefixes holding (suc f) fail x b ≡ ok x
  unfolding step
  step-held f fail x b held = rw held

  step-child :
      (f : ℕ) (fail : Dict Bits Bits) (x : Bits) (b : Bit)
      → contains holding (x, b) ≡ false
      → contains prefixes (x ++ b ∷ []) ≡ true
      → step prefixes holding (suc f) fail x b ≡ ok (x ++ b ∷ [])
  unfolding step
  step-child f fail x b free child = rw (free, child)

  step-onward :
      (f : ℕ) (fail : Dict Bits Bits) (c : Bit) (w : Bits) (b : Bit) (y : Bits)
      → contains holding (c ∷ w, b) ≡ false
      → contains prefixes ((c ∷ w) ++ b ∷ []) ≡ false
      → lookup (c ∷ w) fail ≡ some y
      → step prefixes holding (suc f) fail (c ∷ w) b ≡ step prefixes holding f fail y b
  unfolding step
  step-onward f fail c w b y free broken known = ground arith

  -- With a round for each bit of the state and one more, a step gives a prefix one bit longer at most.
  pub step_total :
      (f : ℕ) (fail : Dict Bits Bits) (x : Bits) (b : Bit)
      → contains prefixes x ≡ true
      → LinksDown prefixes fail (length x)
      → length x < f
      → (z : Bits) × (step prefixes holding f fail x b ≡ ok z)
        × (contains prefixes z ≡ true)
        × (length z ≤ length x + 1)
  step_total zero fail x b h links lt = absurd (omega arith)
  step_total (suc f) fail x b h links lt = elim (Bool-cases (contains holding (x, b))) [
    | inl held ↦ (x, step-held f fail x b held, h, omega arith)
    | inr free ↦ elim (Bool-cases (contains prefixes (x ++ b ∷ []))) [
      | inl child ↦ (
        x ++ b ∷ [],
        step-child f fail x b free child,
        child,
        omega (arith, length-append x (b ∷ [])),
      )
      | inr broken ↦ onward x h links lt free broken (step_total f fail)
    ]
  ]
    where
      onward :
          (x : Bits)
          → contains prefixes x ≡ true
          → LinksDown prefixes fail (length x)
          → length x < suc f
          → contains holding (x, b) ≡ false
          → contains prefixes (x ++ b ∷ []) ≡ false
          → ((y : Bits) (b : Bit)
              → contains prefixes y ≡ true
              → LinksDown prefixes fail (length y)
              → length y < f
              → (z : Bits) × (step prefixes holding f fail y b ≡ ok z)
                × (contains prefixes z ≡ true)
                × (length z ≤ length y + 1))
          → (z : Bits) × (step prefixes holding (suc f) fail x b ≡ ok z)
            × (contains prefixes z ≡ true)
            × (length z ≤ length x + 1)
      onward [] h links lt free broken again = ([], unfold step in ground arith, empty, omega arith)
      onward (c ∷ w) h links lt free broken again =
          let (y, known, good) = links c w h (omega arith) in
          let (z, e, p, q) =
            again y b good.0 (λ d v r l. links d v r (omega arith)) (omega arith) in
          (z, step-onward f fail c w b y free broken known ∙ e, p, omega arith)

module _ (prefixes : List Bits) (holding : List (Bits × Bit)) (closed : IsClosed prefixes)
    (empty : contains prefixes [] ≡ true) where
  link_total :
      (c d : Bit) (x : Bits) (fail : Dict Bits Bits)
      → contains prefixes (c ∷ d ∷ x) ≡ true
      → LinksDown prefixes fail (length (d ∷ x))
      → (z : Bits) × (next_link prefixes holding fail c (d ∷ x) ≡ ok z)
        × IsShorter prefixes (c ∷ d ∷ x) z
  unfolding step_from unsnoc
  link_total c d x fail h links =
      let (there, size) = front_present prefixes closed c d x h in
      let (y, known, good) = links c (unsnoc d x).0 there (omega arith) in
      let (z, e, p, q) =
        step_total prefixes holding empty (length y + 1) fail y (unsnoc d x).1 good.0
          (λ e v r l. links e v r (omega arith)) (omega arith) in
      (z, rw (known, get) e, (p, omega arith))

  -- Whatever outputs are kept, all the links can be made, each to a shorter prefix.
  pub fail_links_total :
      ShortestFirst prefixes
      → (fail : Dict Bits Bits) × (fail_links prefixes holding prefixes [] ≡ ok fail)
        × ((n : ℕ) → LinksDown prefixes fail n)
  fail_links_total =
      fail_links_good prefixes holding (IsShorter prefixes) (λ c. (empty, omega arith)) link_total
