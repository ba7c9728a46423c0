-- ===== src/Loops/Telling/Told.antt =====
-- What tell chooses tells the variant's rows from all the others.
use htn_llm_rtl_gen.Loops.{Fact}
use htn_llm_rtl_gen.Loops.Telling.{
  Row, literals, Sign, sign_lt, common, foreign_in, signs, rules_out, choose, tell,
}
use mathlib.Core.Path.{subst}
use htn_llm_rtl_gen.Shared.{
  not-true, ok_injective, ◌≡◌, refl, sym, ◌∙◌, inl, inr, Bool, true, false, not, List, [], ◌∷◌, map,
  arith, filter, any, all, is_empty, All, All-map, All-append, filter-All, filter-All_with, map-All,
  contains-own, sorted, distinct, sorted-All, distinct-All, ◌>>=◌, >>=-eq-ok, Result, nat_eq,
  list_eq, pair_eq, contains, Bool-cases, Str, ok,
}

module _ (chain_preds params : List Str) (mine others : List Row) where
  abbrev ruled : Sign → Row → Bool
  ruled = rules_out chain_preds params mine others

  -- A sign of all the rows of the variant.
  abbrev IsSign : Sign → Type 0
  IsSign s = All (λ r. ruled s r ≡ false) mine

  -- Each of the rows is ruled out by one of the signs.
  abbrev AllRuled : List Sign → List Row → Type 0
  AllRuled ss rows = All (λ r. any (λ s. ruled s r) ss ≡ true) rows

  all_of : (p : Row → Bool) (rows : List Row) → all p rows ≡ true → All (λ r. p r ≡ true) rows
  unfolding all
  all_of p [] h = tt
  all_of p (r ∷ rows) h = elim (Bool-cases (p r)) [
    | inl e ↦ (e, all_of p rows (ground (arith, e)))
    | inr e ↦ absurd (ground (arith, e))
  ]

  AllRuled-none : (rows : List Row) → is_empty rows ≡ true → AllRuled [] rows
  AllRuled-none [] h = tt
  AllRuled-none (r ∷ rows) h = absurd (cc h)

  filter-ruled :
      (s : Sign) (r : Row) (rows : List Row)
      → ruled s r ≡ true
      → filter (λ t. not (ruled s t)) (r ∷ rows) ≡ filter (λ t. not (ruled s t)) rows
  unfolding filter
  filter-ruled s r rows e = rw (filter, e) refl

  filter-unruled :
      (s : Sign) (r : Row) (rows : List Row)
      → ruled s r ≡ false
      → filter (λ t. not (ruled s t)) (r ∷ rows) ≡ r ∷ filter (λ t. not (ruled s t)) rows
  unfolding filter
  filter-unruled s r rows e = rw (filter, e) refl

  any_first :
      (s : Sign) (ss : List Sign) (r : Row)
      → ruled s r ≡ true
      → any (λ t. ruled t r) (s ∷ ss) ≡ true
  unfolding any
  any_first s ss r e = rw (any, e) refl

  any_later :
      (s : Sign) (ss : List Sign) (r : Row)
      → any (λ t. ruled t r) ss ≡ true
      → any (λ t. ruled t r) (s ∷ ss) ≡ true
  unfolding any
  any_later s ss r h = ground arith

  -- What a sign leaves is for the later ones to rule out.
  AllRuled-cons :
      (s : Sign) (ss : List Sign) (rows : List Row)
      → AllRuled ss (filter (λ r. not (ruled s r)) rows)
      → AllRuled (s ∷ ss) rows
  AllRuled-cons s ss [] h = tt
  AllRuled-cons s ss (r ∷ rows) h = elim (Bool-cases (ruled s r)) [
    | inl e ↦ (
      any_first s ss r e,
      AllRuled-cons s ss rows (subst (AllRuled ss) (filter-ruled s r rows e) h),
    )
    | inr e ↦
        let both = subst (AllRuled ss) (filter-unruled s r rows e) h in
        (any_later s ss r both.0, AllRuled-cons s ss rows both.1)
  ]

  abbrev rest_of : List Row → List Sign → Result (List Sign)
  rest_of left ss = elim (is_empty left) [
    | true ↦ ok []
    | false ↦ choose chain_preds params mine others left ss
  ]

  choose_passed :
      (left : List Row) (s : Sign) (ss : List Sign)
      → any (ruled s) left ≡ false
      → choose chain_preds params mine others left (s ∷ ss)
        ≡ choose chain_preds params mine others left ss
  unfolding choose
  choose_passed left s ss e = rw (choose, e) refl

  choose_taken :
      (left : List Row) (s : Sign) (ss : List Sign)
      → any (ruled s) left ≡ true
      → choose chain_preds params mine others left (s ∷ ss)
        ≡ (rest_of (filter (λ r. not (ruled s r)) left) ss >>= λ rest. ok (s ∷ rest))
  unfolding choose
  choose_taken left s ss e = rw (choose, e) refl

  abbrev Chosen : List Row → List Sign → Type 0
  Chosen left chosen = All IsSign chosen × AllRuled chosen left

  rest_of-Chosen :
      (left : List Row) (ss : List Sign) {chosen : List Sign}
      → ((c : List Sign) → choose chain_preds params mine others left ss ≡ ok c → Chosen left c)
      → rest_of left ss ≡ ok chosen
      → Chosen left chosen
  rest_of-Chosen [] ss ih k = subst (Chosen []) (ok_injective k) (tt, tt)
  rest_of-Chosen (r ∷ left) ss {chosen} ih k = ih chosen k

  choose-Chosen :
      (left : List Row) (ss : List Sign) {chosen : List Sign}
      → All IsSign ss
      → choose chain_preds params mine others left ss ≡ ok chosen
      → Chosen left chosen
  unfolding choose
  choose-Chosen left [] h k = absurd (cc k)
  choose-Chosen left (s ∷ ss) {chosen} h k = elim (Bool-cases (any (ruled s) left)) [
    | inr e ↦ choose-Chosen left ss h.1 (sym (choose_passed left s ss e) ∙ k)
    | inl e ↦
        let (rest, first, next) =
          >>=-eq-ok (rest_of (filter (λ r. not (ruled s r)) left) ss) (λ rest. ok (s ∷ rest))
            (sym (choose_taken left s ss e) ∙ k) in
        let told =
          rest_of-Chosen (filter (λ r. not (ruled s r)) left) ss
            (λ c q. choose-Chosen (filter (λ r. not (ruled s r)) left) ss h.1 q) first in
        subst (Chosen left) (ok_injective next) ((h.0, told.0), AllRuled-cons s rest left told.1)
  ]

  -- A literal of all the rows is a sign of them, and so is the absence of one of none.
  shared-IsSign :
      (l : Fact) (rows : List Row)
      → all (λ s. contains (literals params s) l) rows ≡ true
      → All (λ r. ruled (l, true) r ≡ false) rows
  unfolding rules_out
  shared-IsSign l rows h =
      All-map (λ r e. rw e refl) rows (all_of (λ s. contains (literals params s) l) rows h)

  foreign-IsSign :
      (ls : List Fact)
      → All
          (λ l. IsSign (l, false))
          (filter (λ l. all (λ s. not (contains (literals params s) l)) mine) ls)
  unfolding rules_out
  foreign-IsSign ls =
      All-map
        (λ l h.
          All-map (λ r e. not-true (contains (literals params r) l) e) mine
            (all_of (λ s. not (contains (literals params s) l)) mine h))
        (filter (λ l. all (λ s. not (contains (literals params s) l)) mine) ls)
        (filter-All (λ l. all (λ s. not (contains (literals params s) l)) mine) ls)

  shared_signs :
      (r : Row) (rows : List Row)
      → All
          (λ l.
            (contains (literals params r) l ≡ true)
            × (all (λ s. contains (literals params s) l) rows ≡ true))
          (filter
            (λ l. all (λ s. contains (literals params s) l) rows)
            (distinct (literals params r)))
  shared_signs r rows =
      filter-All_with (λ l. contains (literals params r) l ≡ true)
        (λ l. all (λ s. contains (literals params s) l) rows) (distinct (literals params r))
        (distinct-All (λ l. contains (literals params r) l ≡ true) (literals params r)
          (contains-own (literals params r)))

common-All :
    (chain_preds params : List Str) (mine others : List Row)
    → All
        (λ l. IsSign chain_preds params mine others (l, true))
        (common chain_preds params mine others)
unfolding common rules_out
common-All chain_preds params [] others = tt
common-All chain_preds params (r ∷ rows) others =
    All-map (λ l h. (rw h.0 refl, shared-IsSign chain_preds params (r ∷ rows) others l rows h.1))
      (common chain_preds params (r ∷ rows) others)
      (shared_signs chain_preds params (r ∷ rows) others r rows)

module _ (chain_preds params : List Str) (mine others : List Row) where
  foreign_in-All :
      (rows : List Row)
      → All
          (λ l. IsSign chain_preds params mine others (l, false))
          (foreign_in chain_preds params mine others rows)
  unfolding foreign_in
  foreign_in-All [] = tt
  foreign_in-All (r ∷ rows) =
      All-append (λ l. IsSign chain_preds params mine others (l, false))
        (filter (λ l. all (λ s. not (contains (literals params s) l)) mine) (literals params r))
        (foreign_in chain_preds params mine others rows)
        (foreign-IsSign chain_preds params mine others (literals params r)) (foreign_in-All rows)

  signs-All : All (IsSign chain_preds params mine others) (signs chain_preds params mine others)
  unfolding signs
  signs-All =
      All-append (IsSign chain_preds params mine others)
        (map (λ l. (l, true)) (common chain_preds params mine others))
        (map (λ l. (l, false)) (distinct (foreign_in chain_preds params mine others others)))
        (map-All (IsSign chain_preds params mine others) (λ l. (l, true))
          (common chain_preds params mine others) (common-All chain_preds params mine others))
        (map-All (IsSign chain_preds params mine others) (λ l. (l, false))
          (distinct (foreign_in chain_preds params mine others others))
          (distinct-All (λ l. IsSign chain_preds params mine others (l, false))
            (foreign_in chain_preds params mine others others) (foreign_in-All others)))

-- The literals that tell chooses hold, or are absent, as they say, before every group of the variant,
-- and each of the other groups is told from them by one of the literals chosen.
pub tell-Chosen :
    (chain_preds params : List Str) (mine others : List Row) {chosen : List Sign}
    → tell chain_preds params mine others ≡ ok chosen
    → All (λ s. All (λ r. rules_out chain_preds params mine others s r ≡ false) mine) chosen
      × All (λ r. any (λ s. rules_out chain_preds params mine others s r) chosen ≡ true) others
unfolding tell
tell-Chosen chain_preds params mine [] h =
    subst (Chosen chain_preds params mine [] []) (ok_injective h) (tt, tt)
tell-Chosen chain_preds params mine (r ∷ others) h =
    choose-Chosen chain_preds params mine (r ∷ others) (r ∷ others)
      (sorted (sign_lt chain_preds params mine (r ∷ others))
        (signs chain_preds params mine (r ∷ others)))
      (sorted-All (sign_lt chain_preds params mine (r ∷ others))
        (IsSign chain_preds params mine (r ∷ others)) (signs chain_preds params mine (r ∷ others))
        (signs-All chain_preds params mine (r ∷ others)))
      h
