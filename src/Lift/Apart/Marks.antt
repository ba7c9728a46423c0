-- ===== src/Lift/Apart/Marks.antt =====
-- What a pair of cases comes to in tell_apart of eval/lift.py.
use htn_llm_rtl_gen.Lift.Apart.{
  CaseExample, LearnedCase, Kind, kinds_of, held_by_every, held_by_some, kind_lt, marks_between,
  noted, untold, tell_marks, tell_pair,
}
use mathlib.Core.Path.{subst}
use htn_llm_rtl_gen.Shared.{
  ◌≡◌, ◌⊎◌, refl, ap, ◌∙◌, inl, inr, true, false, not, List, [], ◌∷◌, filter, all, All, All-map,
  All-append, all-All, any-All, filter-All_with, contains-own, contains-append,
  contains-append_left, contains_head, distinct, sorted-All, distinct-All, >>=-eq-ok, ok_injective,
  nat_eq, Bool-cases, not-true, list_eq, pair_eq, contains, ok,
}

-- Each of the examples has a fact of the kind about its module; none has.
abbrev pub Held : List CaseExample → Kind → Type 0
Held es k = All (λ e. contains (kinds_of e) k ≡ true) es

abbrev pub Lacked : List CaseExample → Kind → Type 0
Lacked es k = All (λ e. contains (kinds_of e) k ≡ false) es

-- One of the kinds in `absent` is held by every example of `a` and by none of `b`.
abbrev pub Tells : LearnedCase → LearnedCase → List Kind → Type 0
Tells a b absent = (k : Kind) × (contains absent k ≡ true) × Held a.examples k × Lacked b.examples k

held_by_every-Held :
    (es : List CaseExample) {ks : List Kind} → held_by_every es ≡ ok ks → All (Held es) ks
unfolding held_by_every
held_by_every-Held [] h = cc h
held_by_every-Held (e ∷ es) h = subst (All (Held (e ∷ es))) (ok_injective h) (
    All-map (λ k both. (both.0, all-All (λ d. contains (kinds_of d) k) es both.1)) _
      (filter-All_with (λ k. contains (kinds_of e) k ≡ true)
        (λ k. all (λ d. contains (kinds_of d) k) es) (kinds_of e) (contains-own (kinds_of e))))

Marks : LearnedCase → LearnedCase → Kind → Type 0
Marks a b k = Held a.examples k × Lacked b.examples k

marks_between-Marks :
    (a b : LearnedCase) {ks : List Kind} → marks_between a b ≡ ok ks → All (Marks a b) ks
unfolding marks_between held_by_some Marks
marks_between-Marks a b h =
    let (every, held, h1) = >>=-eq-ok (held_by_every a.examples) _ h in
    subst (All (Marks a b)) (ok_injective h1) (
      sorted-All kind_lt (Marks a b)
        (distinct (filter (λ k. not (held_by_some b.examples k)) every))
        (distinct-All (Marks a b) (filter (λ k. not (held_by_some b.examples k)) every) (
          All-map
            (λ k both. (
              both.0,
              any-All (λ e. contains (kinds_of e) k) b.examples
                  (not-true (held_by_some b.examples k) both.1),
            ))
            (filter (λ k. not (held_by_some b.examples k)) every)
            (filter-All_with (Held a.examples) (λ k. not (held_by_some b.examples k)) every
              (held_by_every-Held a.examples held)))))

noted-own : (absent : List Kind) (k : Kind) → contains (noted absent k) k ≡ true
unfolding noted
noted-own absent k = elim (Bool-cases (contains absent k)) [
  | inl e ↦ rw (noted, e) e
  | inr e ↦ rw (noted, e, contains-append absent (k ∷ []) k, e) (contains_head k [])
]

noted_more :
    (absent : List Kind) (k x : Kind)
    → contains absent x ≡ true
    → contains (noted absent k) x ≡ true
unfolding noted
noted_more absent k x h = elim (Bool-cases (contains absent k)) [
  | inl e ↦ rw (noted, e) h
  | inr e ↦ rw (noted, e) (contains-append_left absent (k ∷ []) x h)
]

noted-All :
    (P : Kind → Type 0) (absent : List Kind) (k : Kind)
    → All P absent
    → P k
    → All P (noted absent k)
unfolding noted
noted-All P absent k h p = elim (Bool-cases (contains absent k)) [
  | inl e ↦ rw (noted, e) h
  | inr e ↦ rw (noted, e) (All-append P absent (k ∷ []) h (p, tt))
]

-- What a pair comes to: a mark that is absent from `b`, or a mark of `b` that `a` lacks.
unfoldable pub Comes : LearnedCase → LearnedCase → List Kind → Type 0
Comes a b told =
    Tells a b told
    ⊎ ((marks_between a b ≡ ok [])
        × (k : Kind) × (ks : List Kind) × (marks_between b a ≡ ok (k ∷ ks)))

pub Comes-more :
    (a b : LearnedCase) (x y : List Kind)
    → Comes a b x
    → ((k : Kind) → contains x k ≡ true → contains y k ≡ true)
    → Comes a b y
unfolding Comes
Comes-more a b x y (inl (k, has, held, lacks)) more = inl (k, more k has, held, lacks)
Comes-more a b x y (inr none_yet) more = inr none_yet

-- It keeps the absences of `b`, and adds to them only what `b` lacks.
pub record After (b : LearnedCase) (absent told : List Kind) : Type 0 where
  pub more : (k : Kind) → contains absent k ≡ true → contains told k ≡ true
  pub lacked : All (Lacked b.examples) absent → All (Lacked b.examples) told

untold_back :
    (a b : LearnedCase) (absent back : List Kind) {told : List Kind}
    → untold a b absent back ≡ ok told
    → (absent ≡ told) × (k : Kind) × (ks : List Kind) × (back ≡ k ∷ ks)
unfolding untold
untold_back a b absent [] h = cc h
untold_back a b absent (k ∷ ks) h = (ok_injective h, k, ks, refl)

tell_marks-Comes :
    (a b : LearnedCase) (absent marks : List Kind) {told : List Kind}
    → marks_between a b ≡ ok marks
    → tell_marks a b absent marks ≡ ok told
    → Comes a b told × After b absent told
unfolding tell_marks untold Comes Marks
tell_marks-Comes a b absent [] e h =
    let (back, found, h1) = >>=-eq-ok (marks_between b a) _ h in
    let (same, k, ks, some_back) = untold_back a b absent back h1 in
    subst (λ t. Comes a b t × After b absent t) same
      (
        inr (e, k, ks, found ∙ ap (λ l. ok l) some_back),
        record { more = λ x held. held; lacked = λ l. l },
      )
tell_marks-Comes a b absent (k ∷ ks) e h =
    let (held, lacks) = (marks_between-Marks a b e).0 in
    subst (λ t. Comes a b t × After b absent t) (ok_injective h)
      (
        inl (k, noted-own absent k, held, lacks),
        record {
          more = noted_more absent k;
          lacked = λ l. noted-All (Lacked b.examples) absent k l lacks;
        },
      )

pub tell_pair-Comes :
    (a b : LearnedCase) (absent : List Kind) {told : List Kind}
    → tell_pair a b absent ≡ ok told
    → Comes a b told × After b absent told
unfolding tell_pair
tell_pair-Comes a b absent h =
    let (marks, found, h1) = >>=-eq-ok (marks_between a b) _ h in
    tell_marks-Comes a b absent marks found h1
