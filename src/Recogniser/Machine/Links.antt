-- ===== src/Recogniser/Machine/Links.antt =====
-- The loop of reachable_prefixes that makes the links: what is true of each link when it is made, from
-- the links of the shorter prefixes, is true of all in the end.
use mathlib.Core.Path.{subst}
use htn_llm_rtl_gen.Recogniser.Machine.{
  Bit, bit_eq, Bits, unsnoc, step_from, fail_links, ShortestFirst, IsClosed, unsnoc-append,
}
use htn_llm_rtl_gen.Shared.{
  ℕ, ◌≤◌, ◌<◌, ◌≡◌, refl, ap, ◌∙◌, ◌⊎◌, inl, inr, true, some, List, [], ◌∷◌, arith, Dict, lookup,
  insert, lookup-insert, length, length-append, ◌>>=◌, get, bind_through, Result, ◌==◌, nat_eq,
  list_eq, pair_eq, eq_of_beq, ne_of_beq, contains, contains-nil, contains_cases, contains_tail,
  contains_head, Bool-cases, ok,
}

module _ (prefixes : List Bits) (Good : Bits → Bits → Type 0) where
  -- A prefix has a link, to a state that is good for it.
  abbrev pub IsLinked : Dict Bits Bits → Bits → Type 0
  IsLinked fail x = (y : Bits) × (lookup x fail ≡ some y) × Good x y

  -- The prefixes of at most `n` bits have links.
  abbrev pub LinksTo : Dict Bits Bits → ℕ → Type 0
  LinksTo fail n =
      (c : Bit) (w : Bits)
      → contains prefixes (c ∷ w) ≡ true
      → length (c ∷ w) ≤ n
      → IsLinked fail (c ∷ w)

  -- All but those still to come have links.
  abbrev LinksBut : Dict Bits Bits → List Bits → Type 0
  LinksBut fail rest =
      (c : Bit) (w : Bits)
      → contains prefixes (c ∷ w) ≡ true
      → IsLinked fail (c ∷ w) ⊎ (contains rest (c ∷ w) ≡ true)

module _ (prefixes : List Bits) (Good : Bits → Bits → Type 0) where
  links-insert :
      (x v : Bits) (xs : List Bits) (fail : Dict Bits Bits)
      → Good x v
      → LinksBut prefixes Good fail (x ∷ xs)
      → LinksBut prefixes Good (insert x v fail) xs
  links-insert x v xs fail good links d u p = elim (Bool-cases (x == (d ∷ u))) [
    | inl same ↦ inl (v, rw (lookup-insert, same), subst (λ t. Good t v) (eq_of_beq same) good)
    | inr other ↦ elim (links d u p) [
      | inl (y, known, r) ↦ inl (y, rw (lookup-insert, other) known, r)
      | inr there ↦ elim (contains_cases x (d ∷ u) xs there) [
        | inl same ↦ absurd (ne_of_beq other same)
        | inr later ↦ inr later
      ]
    ]
  ]

  -- Before a prefix is linked, all the shorter ones are.
  links-shorter :
      (x : Bits) (xs : List Bits) (fail : Dict Bits Bits)
      → ((y : Bits) → contains xs y ≡ true → length x ≤ length y)
      → LinksBut prefixes Good fail (x ∷ xs)
      → (n : ℕ) → n < length x
      → LinksTo prefixes Good fail n
  links-shorter x xs fail first links n lt c w p l = elim (links c w p) [
    | inl known ↦ known
    | inr there ↦ elim (contains_cases x (c ∷ w) xs there) [
      | inl same ↦ absurd (omega (arith, ap length same))
      | inr later ↦ absurd (omega (arith, first (c ∷ w) later))
    ]
  ]

-- x[:-1] of a prefix is a prefix, one bit shorter.
pub front_present :
    (prefixes : List Bits)
    → IsClosed prefixes
    → (c d : Bit) (x : Bits) → contains prefixes (c ∷ d ∷ x) ≡ true
    → (contains prefixes (c ∷ (unsnoc d x).0) ≡ true)
      × (length (c ∷ (unsnoc d x).0) ≡ length (d ∷ x))
front_present prefixes closed c d x h =
    let front = (unsnoc d x).0 in
    let last = (unsnoc d x).1 in
    (
      closed (c ∷ front) last (rw (unsnoc-append d x) h),
      omega (arith, ap length (unsnoc-append d x), length-append front (last ∷ [])),
    )

-- `step(fail[x[:-1]], x[-1])`
abbrev pub next_link : List Bits → List (Bits × Bit) → Dict Bits Bits → Bit → Bits → Result Bits
next_link prefixes holding fail c x = do
  y ← get (unsnoc c x).0 fail
  step_from prefixes holding fail y (unsnoc c x).1

module _ (prefixes : List Bits) (holding : List (Bits × Bit)) (Good : Bits → Bits → Type 0)
    (single : (c : Bit) → Good (c ∷ []) [])
    (longer : (c d : Bit) (x : Bits) (fail : Dict Bits Bits)
      → contains prefixes (c ∷ d ∷ x) ≡ true
      → LinksTo prefixes Good fail (length (d ∷ x))
      → (z : Bits) × (next_link prefixes holding fail c (d ∷ x) ≡ ok z) × Good (c ∷ d ∷ x) z) where
  fail_links_from :
      (xs : List Bits) (fail : Dict Bits Bits)
      → ShortestFirst xs
      → ((y : Bits) → contains xs y ≡ true → contains prefixes y ≡ true)
      → LinksBut prefixes Good fail xs
      → (fail' : Dict Bits Bits) × (fail_links prefixes holding xs fail ≡ ok fail')
        × ((n : ℕ) → LinksTo prefixes Good fail' n)
  unfolding fail_links
  fail_links_from [] fail sorted sub links = (
    fail,
    refl,
    λ n c w p l. elim (links c w p) [
      | inl known ↦ known
      | inr there ↦ cc (there, contains-nil (c ∷ w))
    ],
  )
  fail_links_from ([] ∷ xs) fail sorted sub links =
      fail_links_from xs fail sorted.1 (λ y p. sub y (contains_tail [] y xs p))
        (λ c w p. elim (links c w p) [
          | inl known ↦ inl known
          | inr there ↦ inr (ground (arith, contains_cases [] (c ∷ w) xs there))
        ])
  fail_links_from ((c ∷ []) ∷ xs) fail sorted sub links =
      fail_links_from xs (insert (c ∷ []) [] fail) sorted.1
        (λ y p. sub y (contains_tail (c ∷ []) y xs p))
        (links-insert prefixes Good (c ∷ []) [] xs fail (single c) links)
  fail_links_from ((c ∷ d ∷ x) ∷ xs) fail sorted sub links =
      let whole = c ∷ d ∷ x in
      let (z, linked, good) =
        longer c d x fail (sub whole (contains_head whole xs)) (
          links-shorter prefixes Good whole xs fail sorted.0 links (length (d ∷ x))
            (omega arith)) in
      let (fail', made, all_linked) =
        fail_links_from xs (insert whole z fail) sorted.1
          (λ y p. sub y (contains_tail whole y xs p))
          (links-insert prefixes Good whole z xs fail good links) in
      (fail', bind_through (get (unsnoc c (d ∷ x)).0 fail) _ _ linked ∙ made, all_linked)

  -- All the links can be made, and are good.
  pub fail_links_good :
      ShortestFirst prefixes
      → (fail : Dict Bits Bits) × (fail_links prefixes holding prefixes [] ≡ ok fail)
        × ((n : ℕ) → LinksTo prefixes Good fail n)
  fail_links_good sorted = fail_links_from prefixes [] sorted (λ y p. p) (λ c w p. inr p)
