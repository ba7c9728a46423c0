-- ===== src/Completing/Expanding/Whole.antt =====
-- expand_sequences as a whole.
use htn_llm_rtl_gen.Completing.{Draft, is_fact}
use htn_llm_rtl_gen.Completing.Expanding.{
  recognised_of, expand, expand_sequences, add_kind, drop_expanded, drop_states,
}
use htn_llm_rtl_gen.Completing.Expanding.Outcomes.{recognised_of-OnlyInvalid}
use htn_llm_rtl_gen.Completing.Expanding.Correct.{
  Yields, Yields-bind, Yields-map, IsExpansion, expand_correct,
}
use htn_llm_rtl_gen.Recogniser.Machine.{Bits}
use htn_llm_rtl_gen.Recogniser.Sequence.{sequence_bits}
use htn_llm_rtl_gen.Shared.{
  ◌≡◌, refl, sym, ap, ◌∙◌, ◌⊎◌, inl, inr, Bool, true, Option, none, some, List, [], ◌∷◌, arith,
  length, filter, ◌>>=◌, >>=-eq-ok, nat_eq, list_eq, pair_eq, Bool-cases, Str, not_a_sequence, ok,
  err,
}

first-kept :
    (p : List Str → Bool) (fs : List (List Str)) (g : List Str) (gs : List (List Str))
    → filter p fs ≡ g ∷ gs
    → p g ≡ true
unfolding filter
first-kept p [] g gs h = cc
first-kept p (f ∷ fs) g gs h = elim (Bool-cases (p f)) [
  | inl e ↦ let q : f ∷ filter p fs ≡ g ∷ gs = rw e at h in let same : f ≡ g = cc in rw (sym same) e
  | inr e ↦ first-kept p fs g gs (rw e at h)
]

-- A fact of four parts names a sequence or is refused.
recognised_of-cons :
    (f : List Str) (fs : List (List Str)) (rs : List (Str × Bits))
    → length f ≡ 4
    → recognised_of (f ∷ fs) ≡ ok rs
    → (r : Str × Bits) × (more : List (Str × Bits)) × (r ∷ more ≡ rs)
unfolding recognised_of
recognised_of-cons [] fs rs l h = cc
recognised_of-cons (k ∷ []) fs rs l h = absurd (omega arith)
recognised_of-cons (k ∷ m ∷ []) fs rs l h = absurd (omega arith)
recognised_of-cons (k ∷ m ∷ out ∷ []) fs rs l h = absurd (omega arith)
recognised_of-cons (k ∷ m ∷ out ∷ seq ∷ more) fs rs l h = read (sequence_bits seq) h
  where
    read :
        (o : Option Bits)
        → elim o [
          | none ↦ err (not_a_sequence seq)
          | some bits ↦ do rest ← recognised_of fs; ok ((out, bits) ∷ rest)
        ]
          ≡ ok rs
        → (r : Str × Bits) × (more : List (Str × Bits)) × (r ∷ more ≡ rs)
    read none h = cc
    read (some bits) h =
        let (rest, q, e) = >>=-eq-ok (recognised_of fs) _ h in ((out, bits), rest, cc)

-- No sequence is recognised by `d`, and `e` is `d`; or some are, and `e` is an expansion of them.
abbrev pub IsExpanded : Draft → Draft → Type 0
IsExpanded d e =
    ((filter (is_fact "recognises" 4) d.facts ≡ []) × (e ≡ d))
    ⊎ ((rs : List (Str × Bits)) × (recognised_of (filter (is_fact "recognises" 4) d.facts) ≡ ok rs)
        × IsExpansion rs
            (drop_states (drop_expanded (add_kind "moore" (add_kind "sequence_recogniser" d)))) e)

-- Whatever the facts of the file, expand_sequences returns or raises one of the errors of an invalid
-- file; without a fact that states a sequence it changes nothing, and otherwise it gives an
-- expansion of all that are stated.
pub expand_sequences_lem : (d : Draft) → Yields (IsExpanded d) (expand_sequences d)
unfolding expand_sequences
expand_sequences_lem d = by_facts (filter (is_fact "recognises" 4) d.facts) refl
  where
    ready : Draft
    ready = drop_states (drop_expanded (add_kind "moore" (add_kind "sequence_recogniser" d)))

    by_facts :
        (fs : List (List Str))
        → filter (is_fact "recognises" 4) d.facts ≡ fs
        → Yields
            (IsExpanded d)
            (elim fs [ [] ↦ ok d | f ∷ more ↦ do rs ← recognised_of (f ∷ more); expand rs ready ])
    by_facts [] e = inl (e, refl)
    by_facts (f ∷ more) e =
        Yields-bind (IsExpanded d) (recognised_of (f ∷ more)) _
          (recognised_of-OnlyInvalid (f ∷ more))
          (λ rs made.
            let h = first-kept (is_fact "recognises" 4) d.facts f more e in
            let (r, others, same) =
              recognised_of-cons f more rs (unfold is_fact in ground (arith, h)) made in
            rw (sym same) (
              Yields-map (expand (r ∷ others) ready)
                (λ v w. inr (r ∷ others, rw e (made ∙ ap ok (sym same)), w))
                (expand_correct r others ready)))
