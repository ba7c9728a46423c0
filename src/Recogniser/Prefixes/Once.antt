-- ===== src/Recogniser/Prefixes/Once.antt =====
-- The sorted prefixes stand in a strict order, so each stands once.
use htn_llm_rtl_gen.Recogniser.Machine.{b0, b1, bit_eq, Bits}
use htn_llm_rtl_gen.Recogniser.Prefixes.{
  lex_before, before, insert_sorted, sorted_set, all_cuts, prefixes_of,
}
use htn_llm_rtl_gen.Shared.{
  ◌≡◌, refl, ap, ◌≢◌, inl, inr, true, false, List, [], ◌∷◌, arith, length, All, Distinct, All-map,
  ◌==◌, nat_eq, list_eq, pair_eq, ne_of_beq, Bool-cases, Str,
}

lex_before-irreflexive : (x : Bits) → lex_before x x ≡ false
unfolding lex_before
lex_before-irreflexive [] = refl
lex_before-irreflexive (b0 ∷ x) = lex_before-irreflexive x
lex_before-irreflexive (b1 ∷ x) = lex_before-irreflexive x

lex_before_trans :
    (x y z : Bits) → lex_before x y ≡ true → lex_before y z ≡ true → lex_before x z ≡ true
unfolding lex_before
lex_before_trans [] [] z h k = cc
lex_before_trans [] (b ∷ y) [] h k = cc
lex_before_trans [] (b ∷ y) (c ∷ z) h k = refl
lex_before_trans (b ∷ x) [] z h k = cc
lex_before_trans (b ∷ x) (c ∷ y) [] h k = cc
lex_before_trans (b0 ∷ x) (b0 ∷ y) (b0 ∷ z) h k = lex_before_trans x y z h k
lex_before_trans (b0 ∷ x) (b0 ∷ y) (b1 ∷ z) h k = refl
lex_before_trans (b0 ∷ x) (b1 ∷ y) (b0 ∷ z) h k = cc
lex_before_trans (b0 ∷ x) (b1 ∷ y) (b1 ∷ z) h k = refl
lex_before_trans (b1 ∷ x) (b0 ∷ y) z h k = cc
lex_before_trans (b1 ∷ x) (b1 ∷ y) (b0 ∷ z) h k = cc
lex_before_trans (b1 ∷ x) (b1 ∷ y) (b1 ∷ z) h k = lex_before_trans x y z h k

lex_before_total :
    (x y : Bits) → length x ≡ length y → x ≢ y → lex_before x y ≡ false → lex_before y x ≡ true
unfolding lex_before
lex_before_total [] [] e ne h = absurd (ne refl)
lex_before_total [] (c ∷ y) e ne h = cc
lex_before_total (b ∷ x) [] e ne h = refl
lex_before_total (b0 ∷ x) (b0 ∷ y) e ne h =
    lex_before_total x y (omega arith) (λ p. ne (ap (λ t. b0 ∷ t) p)) h
lex_before_total (b0 ∷ x) (b1 ∷ y) e ne h = cc
lex_before_total (b1 ∷ x) (b0 ∷ y) e ne h = refl
lex_before_total (b1 ∷ x) (b1 ∷ y) e ne h =
    lex_before_total x y (omega arith) (λ p. ne (ap (λ t. b1 ∷ t) p)) h

before-ne : (x y : Bits) → before x y ≡ true → x ≢ y
unfolding before
before-ne x y h e = ground (arith, lex_before-irreflexive x, e)

before_trans : (x y z : Bits) → before x y ≡ true → before y z ≡ true → before x z ≡ true
unfolding before
before_trans x y z h k = ground (arith, lex_before_trans x y z)

before_total : (x y : Bits) → x ≢ y → before x y ≡ false → before y x ≡ true
unfolding before
before_total x y ne h = ground (arith, lex_before_total x y)

-- Each stands before all that follow it.
abbrev InOrder : List Bits → Type 0
InOrder [] = Unit
InOrder (x ∷ xs) = All (λ y. before x y ≡ true) xs × InOrder xs

insert_sorted-All :
    (P : Bits → Type 0) (x : Bits) (ys : List Bits) → P x → All P ys → All P (insert_sorted x ys)
unfolding insert_sorted
insert_sorted-All P x [] p h = (p, tt)
insert_sorted-All P x (y ∷ ys) p h = elim (Bool-cases (x == y)) [
  | inl e ↦ rw e h
  | inr e ↦ elim (Bool-cases (before x y)) [
    | inl lt ↦ rw (e, lt) (p, h)
    | inr ge ↦ rw (e, ge) (h.0, insert_sorted-All P x ys p h.1)
  ]
]

insert_sorted-InOrder : (x : Bits) (ys : List Bits) → InOrder ys → InOrder (insert_sorted x ys)
unfolding insert_sorted
insert_sorted-InOrder x [] h = (tt, tt)
insert_sorted-InOrder x (y ∷ ys) h = elim (Bool-cases (x == y)) [
  | inl e ↦ rw e h
  | inr e ↦ elim (Bool-cases (before x y)) [
    | inl lt ↦ rw (e, lt) ((lt, All-map (λ z k. before_trans x y z lt k) ys h.0), h)
    | inr ge ↦
        rw (e, ge)
          (
            insert_sorted-All (λ z. before y z ≡ true) x ys (before_total x y (ne_of_beq e) ge) h.0,
            insert_sorted-InOrder x ys h.1,
          )
  ]
]

sorted_set-InOrder : (xs : List Bits) → InOrder (sorted_set xs)
unfolding sorted_set
sorted_set-InOrder [] = tt
sorted_set-InOrder (x ∷ xs) = insert_sorted-InOrder x (sorted_set xs) (sorted_set-InOrder xs)

InOrder-Distinct : (xs : List Bits) → InOrder xs → Distinct xs
InOrder-Distinct [] h = tt
InOrder-Distinct (x ∷ xs) h = (All-map (λ y k. before-ne x y k) xs h.0, InOrder-Distinct xs h.1)

pub prefixes_of-Distinct : (recognised : List (Str × Bits)) → Distinct (prefixes_of recognised)
unfolding prefixes_of
prefixes_of-Distinct recognised =
    InOrder-Distinct (prefixes_of recognised) (sorted_set-InOrder (all_cuts recognised))
