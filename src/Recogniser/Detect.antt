-- ===== src/Recogniser/Detect.antt =====
-- The recogniser detects its sequences: the state named for a sequence is the one after exactly the
-- inputs that end with it.
use htn_llm_rtl_gen.Recogniser.Machine.{bit_eq, Bits, fail_links}
use htn_llm_rtl_gen.Recogniser.Machine.Run.{run}
use htn_llm_rtl_gen.Recogniser.Machine.Longest.{longest, longest_self, longest-present, run-longest}
use htn_llm_rtl_gen.Recogniser.Prefixes.{prefixes_of, ends_with, ends_of}
use htn_llm_rtl_gen.Recogniser.Prefixes.Ordered.{
  prefixes_of-IsClosed, prefixes_of-ShortestFirst, prefixes_of-empty,
}
use htn_llm_rtl_gen.Shared.{
  ◌≡◌, refl, sym, ap, ◌∙◌, ◌↔◌, inl, inr, Bool, true, List, [], ◌∷◌, ◌++◌, arith, Dict, length,
  filter, eq_iff, nat_eq, list_eq, pair_eq, contains, contains_cases, contains_single, Bool-cases,
  Str, ok,
}

append-ends_with : (u v : Bits) → ends_with (u ++ v) v ≡ true
unfolding ends_with
append-ends_with [] [] = refl
append-ends_with [] (c ∷ v) = ground (arith, eq_iff (c ∷ v) (c ∷ v))
append-ends_with (c ∷ u) v = ground (arith, append-ends_with u v)

longest-suffix : (prefixes : List Bits) (w : Bits) → (u : Bits) × (w ≡ u ++ longest prefixes w)
unfolding longest
longest-suffix prefixes [] = ([], refl)
longest-suffix prefixes (c ∷ w) = elim (Bool-cases (contains prefixes (c ∷ w))) [
  | inl here ↦ ([], rw here)
  | inr below ↦ let (u, e) = longest-suffix prefixes w in (c ∷ u, rw below (ap (λ t. c ∷ t) e))
]

-- A prefix that the input ends with is an end of the longest.
longest-ends :
    (prefixes : List Bits) (u v : Bits)
    → contains prefixes v ≡ true
    → (t : Bits) × (longest prefixes (u ++ v) ≡ t ++ v)
unfolding longest
longest-ends prefixes [] v h = ([], longest_self prefixes v h)
longest-ends prefixes (c ∷ u) v h = elim (Bool-cases (contains prefixes (c ∷ (u ++ v)))) [
  | inl here ↦ (c ∷ u, rw here)
  | inr below ↦ let (t, e) = longest-ends prefixes u v h in (t, rw below e)
]

pub contains-filter :
    (p : Bits → Bool) (xs : List Bits) (x : Bits)
    → contains xs x ≡ true
    → p x ≡ true
    → contains (filter p xs) x ≡ true
unfolding contains filter
contains-filter p [] x h k = cc
contains-filter p (y ∷ ys) x h k = elim (contains_cases y x ys h) [
  | inl e ↦ ground (arith, eq_iff y x)
  | inr later ↦ ground (arith, contains-filter p ys x later k)
]

one_contained :
    (xs : List Bits) (x y : Bits)
    → length xs ≡ 1
    → contains xs x ≡ true
    → contains xs y ≡ true
    → x ≡ y
one_contained [] x y l h k = absurd (omega arith)
one_contained (z ∷ []) x y l h k = sym (contains_single z x h) ∙ contains_single z y k
one_contained (z ∷ v ∷ xs) x y l h k = absurd (omega arith)

-- Where one prefix ends with `bits`, each that does is it.
the_one :
    (prefixes : List Bits) (bits x t : Bits)
    → contains prefixes bits ≡ true
    → length (ends_of prefixes bits) ≡ 1
    → contains prefixes x ≡ true
    → x ≡ t ++ bits
    → x ≡ bits
unfolding ends_of
the_one prefixes bits x t there once h e =
    one_contained (ends_of prefixes bits) x bits once
      (contains-filter (λ y. ends_with y bits) prefixes x h (rw e (append-ends_with t bits)))
      (contains-filter (λ y. ends_with y bits) prefixes bits there (append-ends_with [] bits))

module _ (r : Str × Bits) (recognised : List (Str × Bits)) where
  -- Where no output is kept and no other prefix ends with the sequence `bits`, the machine that starts
  -- with nothing matched is in the state `bits` after an input exactly when the input ends with `bits`.
  pub run_detects :
      (bits : Bits)
      → contains (prefixes_of (r ∷ recognised)) bits ≡ true
      → length (ends_of (prefixes_of (r ∷ recognised)) bits) ≡ 1
      → (fail : Dict Bits Bits) × (fail_links
            (prefixes_of (r ∷ recognised))
            []
            (prefixes_of (r ∷ recognised))
            []
          ≡ ok fail)
        × ((w : Bits)
            → (run (prefixes_of (r ∷ recognised)) [] fail [] w ≡ ok bits)
              ↔ ((u : Bits) × (w ≡ u ++ bits)))
  run_detects bits there once =
      let prefixes = prefixes_of (r ∷ recognised) in
      let empty = prefixes_of-empty r recognised in
      let (fail, made, runs) =
        run-longest prefixes (prefixes_of-IsClosed (r ∷ recognised)) empty
          (prefixes_of-ShortestFirst (r ∷ recognised)) in
      (
        fail,
        made,
        λ w. (
          λ h.
              let (u, e) = longest-suffix prefixes w in
              let state : longest prefixes w ≡ bits = cc (runs w, h) in
              (u, e ∙ ap (λ t. u ++ t) state),
          λ (u, e).
              let (t, f) = longest-ends prefixes u bits there in
              runs w
              ∙ ap ok (
                  ap (longest prefixes) e
                  ∙ the_one prefixes bits (longest prefixes (u ++ bits)) t there once
                      (longest-present prefixes (u ++ bits) empty) f),
        ),
      )
