-- ===== src/Completing/Expanding/Listed.antt =====
-- The states that expand_sequences lists.
use htn_llm_rtl_gen.Completing.Expanding.{listed_states}
use htn_llm_rtl_gen.Recogniser.Machine.{Bit, bit_eq, Bits, fail_links, reachable_prefixes}
use htn_llm_rtl_gen.Recogniser.Machine.Run.{run}
use htn_llm_rtl_gen.Recogniser.Machine.Reach.Exact.{reachable_prefixes-IsSearch}
use htn_llm_rtl_gen.Recogniser.Prefixes.{prefixes_of}
use htn_llm_rtl_gen.Recogniser.Prefixes.Ordered.{
  prefixes_of-IsClosed, prefixes_of-ShortestFirst, prefixes_of-empty,
}
use htn_llm_rtl_gen.Recogniser.Prefixes.Once.{prefixes_of-Distinct}
use htn_llm_rtl_gen.Recogniser.Detect.{contains-filter}
use htn_llm_rtl_gen.Shared.{
  ◌≡◌, refl, sym, ◌≢◌, ◌↔◌, inl, inr, Bool, true, false, not, ◌&&◌, List, [], ◌∷◌, arith, Dict,
  filter, All, Distinct, ◌==◌, eq_iff, nat_eq, list_eq, pair_eq, eq_self, eq_of_beq, contains,
  contains_cases, contains_tail, contains_head, Bool-cases, Str, ok,
}

filter-contains :
    (p : Bits → Bool) (xs : List Bits) (x : Bits)
    → contains (filter p xs) x ≡ true
    → (contains xs x ≡ true) × (p x ≡ true)
unfolding contains filter
filter-contains p [] x h = cc
filter-contains p (y ∷ ys) x h = ground (arith, eq_iff y x, filter-contains p ys x)

filter-All : (P : Bits → Type 0) (p : Bits → Bool) (xs : List Bits) → All P xs → All P (filter p xs)
unfolding filter
filter-All P p [] h = tt
filter-All P p (x ∷ xs) h = elim (Bool-cases (p x)) [
  | inl e ↦ rw e (h.0, filter-All P p xs h.1)
  | inr e ↦ rw e (filter-All P p xs h.1)
]

filter-Distinct : (p : Bits → Bool) (xs : List Bits) → Distinct xs → Distinct (filter p xs)
unfolding filter
filter-Distinct p [] h = tt
filter-Distinct p (x ∷ xs) h = elim (Bool-cases (p x)) [
  | inl e ↦ rw e (filter-All (λ y. x ≢ y) p xs h.0, filter-Distinct p xs h.1)
  | inr e ↦ rw e (filter-Distinct p xs h.1)
]

-- A filter that leaves `x` out.
filter-ne :
    (p : Bits → Bool) (x : Bits) (xs : List Bits) → p x ≡ false → All (λ y. x ≢ y) (filter p xs)
unfolding filter
filter-ne p x [] h = tt
filter-ne p x (y ∷ ys) h = elim (Bool-cases (p y)) [
  | inl e ↦ rw e ((λ same. cc), filter-ne p x ys h)
  | inr e ↦ rw e (filter-ne p x ys h)
]

pub listed_states-Distinct :
    (prefixes seen : List Bits) (start : Bits)
    → Distinct prefixes
    → Distinct (listed_states prefixes seen start)
unfolding listed_states
listed_states-Distinct prefixes seen start h = (
  filter-ne (λ x. contains seen x && not (x == start)) start prefixes
      (ground (arith, eq_self start)),
  filter-Distinct (λ x. contains seen x && not (x == start)) prefixes h,
)

-- Where the states seen are prefixes and the start is one of them, they are the ones listed.
pub listed_states-seen :
    (prefixes seen : List Bits) (start : Bits)
    → contains seen start ≡ true
    → ((y : Bits) → contains seen y ≡ true → contains prefixes y ≡ true)
    → (y : Bits)
    → (contains (listed_states prefixes seen start) y ≡ true) ↔ (contains seen y ≡ true)
unfolding listed_states
listed_states-seen prefixes seen start started within y =
    let p : Bits → Bool = λ x. contains seen x && not (x == start) in
    (
      λ h. elim (contains_cases start y (filter p prefixes) h) [
        | inl e ↦ rw (sym e) started
        | inr later ↦ let (_, k) = filter-contains p prefixes y later in ground (arith, k)
      ],
      λ h. elim (Bool-cases (y == start)) [
        | inl e ↦
            let same : y ≡ start = eq_of_beq e in rw same (contains_head start (filter p prefixes))
        | inr e ↦
            contains_tail start y (filter p prefixes)
              (contains-filter p prefixes y (within y h) (ground (arith, h, e)))
      ],
    )

-- The states listed are prefixes.
pub listed_states_within :
    (prefixes seen : List Bits) (start : Bits)
    → contains prefixes start ≡ true
    → (y : Bits) → contains (listed_states prefixes seen start) y ≡ true
    → contains prefixes y ≡ true
unfolding listed_states
listed_states_within prefixes seen start h y k =
    let p : Bits → Bool = λ x. contains seen x && not (x == start) in
    elim (contains_cases start y (filter p prefixes) k) [
      | inl e ↦ rw (sym e) h
      | inr later ↦ (filter-contains p prefixes y later).0
    ]

listed_states_first :
    (prefixes seen : List Bits) (start : Bits)
    → (later : List Bits) × (listed_states prefixes seen start ≡ start ∷ later)
unfolding listed_states
listed_states_first prefixes seen start =
    (filter (λ x. contains seen x && not (x == start)) prefixes, refl)

module _ (r : Str × Bits) (recognised : List (Str × Bits)) (holding : List (Bits × Bit)) where
  -- Whatever outputs are kept, the states that are listed for the sequences are, each once, those
  -- that some input leads to from the start, which is one of the prefixes and is listed first.
  pub listed_states_exact :
      (start : Bits)
      → contains (prefixes_of (r ∷ recognised)) start ≡ true
      → (fail : Dict Bits Bits) × (fail_links
            (prefixes_of (r ∷ recognised))
            holding
            (prefixes_of (r ∷ recognised))
            []
          ≡ ok fail)
        × ((seen : List Bits) × (reachable_prefixes (prefixes_of (r ∷ recognised)) holding start
              ≡ ok seen)
            × ((later : List Bits) × (listed_states (prefixes_of (r ∷ recognised)) seen start
                  ≡ start ∷ later))
            × Distinct (listed_states (prefixes_of (r ∷ recognised)) seen start)
            × ((y : Bits)
                → (contains (listed_states (prefixes_of (r ∷ recognised)) seen start) y ≡ true) ↔ (
                    (w : Bits) × (run (prefixes_of (r ∷ recognised)) holding fail start w ≡ ok y))))
  listed_states_exact start h =
      let prefixes = prefixes_of (r ∷ recognised) in
      let (fail, made, (seen, e, inv, found)) =
        reachable_prefixes-IsSearch prefixes holding start (prefixes_of-IsClosed (r ∷ recognised))
          (prefixes_of-ShortestFirst (r ∷ recognised)) (prefixes_of-empty r recognised) h in
      (
        fail,
        made,
        (
          seen,
          e,
          listed_states_first prefixes seen start,
          listed_states-Distinct prefixes seen start (prefixes_of-Distinct (r ∷ recognised)),
          λ y.
              let same = listed_states-seen prefixes seen start inv.started inv.within y in
              (λ k. (found y).0 (same.0 k), λ k. same.1 ((found y).1 k)),
        ),
      )
