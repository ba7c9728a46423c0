-- ===== src/Recogniser/Prefixes/Ordered.antt =====
-- The prefixes are what the machine wants: closed under prefixes, shortest first, the empty one and
-- every recognised sequence among them.
use mathlib.Core.Path.{subst}
use native.Mathlib.Decide.{dec_lt}
use htn_llm_rtl_gen.Recogniser.Machine.{Bit, bit_eq, Bits, IsClosed, ShortestFirst}
use htn_llm_rtl_gen.Recogniser.Prefixes.{
  before, insert_sorted, sorted_set, cuts, all_cuts, prefixes_of,
}
use htn_llm_rtl_gen.Shared.{
  contains-append, All, All-map, eq_self, ℕ, zero, suc, ◌≤◌, ◌≡◌, refl, sym, ap, ◌∙◌, inl, inr,
  Bool, true, false, ◌&&◌, ◌||◌, List, [], ◌∷◌, ◌++◌, arith, length, take, ◌==◌, eq_iff, nat_eq,
  list_beq, list_eq, pair_eq, eq_of_beq, contains, contains-nil, contains_cases, contains_tail,
  Bool-cases, Str,
}

-- `y.startswith(x)`
pub is_prefix : Bits → Bits → Bool
is_prefix [] y = true
is_prefix (b ∷ x) [] = false
is_prefix (b ∷ x) (c ∷ y) = (b == c) && is_prefix x y

is_prefix-front :
    (x : Bits) (b : Bit) (y : Bits) → is_prefix (x ++ b ∷ []) y ≡ true → is_prefix x y ≡ true
unfolding is_prefix
is_prefix-front [] b y h = refl
is_prefix-front (c ∷ x) b [] h = cc
is_prefix-front (c ∷ x) b (d ∷ y) h = ground (arith, is_prefix-front x b y)

is_prefix-take : (k : ℕ) (y : Bits) → is_prefix (take k y) y ≡ true
unfolding is_prefix
is_prefix-take zero y = refl
is_prefix-take (suc k) [] = refl
is_prefix-take (suc k) (c ∷ y) = ground (arith, eq_iff c c, is_prefix-take k y)

take-is_prefix : (x y : Bits) → is_prefix x y ≡ true → take (length x) y ≡ x
unfolding is_prefix
take-is_prefix [] y h = refl
take-is_prefix (b ∷ x) [] h = cc
take-is_prefix (b ∷ x) (c ∷ y) h = ground (arith, eq_iff b c, take-is_prefix x y)

length-is_prefix : (x y : Bits) → is_prefix x y ≡ true → length x ≤ length y
unfolding is_prefix
length-is_prefix [] y h = omega arith
length-is_prefix (b ∷ x) [] h = cc
length-is_prefix (b ∷ x) (c ∷ y) h = ground (arith, length-is_prefix x y)

cuts-is_prefix : (k : ℕ) (y x : Bits) → contains (cuts k y) x ≡ true → is_prefix x y ≡ true
unfolding cuts contains
cuts-is_prefix zero y x h = ground (arith, eq_iff [] x, is_prefix-take 0 y)
cuts-is_prefix (suc k) y x h =
    ground (arith, eq_iff (take (suc k) y) x, is_prefix-take (suc k) y, cuts-is_prefix k y x)

is_prefix-cuts :
    (k : ℕ) (y x : Bits) → is_prefix x y ≡ true → length x ≤ k → contains (cuts k y) x ≡ true
unfolding cuts contains list_beq
is_prefix-cuts zero y [] h l = refl
is_prefix-cuts zero y (b ∷ x) h l = absurd (omega arith)
is_prefix-cuts (suc k) y x h l = elim (dec_lt k (length x)) [
  | yes long ↦
      let size : length x ≡ suc k = omega arith in
      let whole : take (suc k) y ≡ x = subst (λ n. take n y ≡ x) size (take-is_prefix x y h) in
      rw ((eq_iff (take (suc k) y) x).1 whole)
  | no short ↦ contains_tail (take (suc k) y) x (cuts k y) (is_prefix-cuts k y x h (omega arith))
]

contains-cuts : (y x : Bits) → contains (cuts (length y) y) x ≡ is_prefix x y
contains-cuts y x = elim (Bool-cases (is_prefix x y)) [
  | inl h ↦ is_prefix-cuts (length y) y x h (length-is_prefix x y h) ∙ sym h
  | inr h ↦ elim (Bool-cases (contains (cuts (length y) y) x)) [
    | inl k ↦ cc (cuts-is_prefix (length y) y x k)
    | inr k ↦ k ∙ sym h
  ]
]

-- A prefix of one of the recognised sequences.
pub starts_one : List (Str × Bits) → Bits → Bool
starts_one [] x = false
starts_one ((out, bits) ∷ recognised) x = is_prefix x bits || starts_one recognised x

contains-insert_sorted :
    (x : Bits) (ys : List Bits) (v : Bits)
    → contains (insert_sorted x ys) v ≡ ((x == v) || contains ys v)
unfolding insert_sorted contains
contains-insert_sorted x [] v = ground arith
contains-insert_sorted x (y ∷ ys) v = ground (arith, eq_iff x y, contains-insert_sorted x ys v)

contains-sorted_set : (xs : List Bits) (v : Bits) → contains (sorted_set xs) v ≡ contains xs v
unfolding sorted_set contains
contains-sorted_set [] v = refl
contains-sorted_set (x ∷ xs) v =
    ground (arith, contains-insert_sorted x (sorted_set xs) v, contains-sorted_set xs v)

before-length : (x y : Bits) → before x y ≡ true → length x ≤ length y
unfolding before
before-length x y h = ground arith

not_before-length : (x y : Bits) → before x y ≡ false → length y ≤ length x
unfolding before
not_before-length x y h = ground arith

insert_sorted-ShortestFirst :
    (x : Bits) (ys : List Bits) → ShortestFirst ys → ShortestFirst (insert_sorted x ys)
unfolding insert_sorted
insert_sorted-ShortestFirst x [] h = (λ y p. cc (p, contains-nil y), tt)
insert_sorted-ShortestFirst x (y ∷ ys) h = elim (Bool-cases (x == y)) [
  | inl same ↦ rw same h
  | inr other ↦ elim (Bool-cases (before x y)) [
    | inl first ↦
        rw (other, first)
          (
            λ v p. elim (contains_cases y v ys p) [
              | inl e ↦ omega (arith, before-length x y first, ap length e)
              | inr later ↦ omega (arith, before-length x y first, h.0 v later)
            ],
            h,
          )
    | inr after ↦
        rw (other, after)
          (
            λ v p. elim (Bool-cases (x == v)) [
              | inl e ↦
                  let same : x ≡ v = eq_of_beq e in
                  omega (arith, not_before-length x y after, ap length same)
              | inr ne ↦ h.0 v (rw ne at (rw contains-insert_sorted at p))
            ],
            insert_sorted-ShortestFirst x ys h.1,
          )
  ]
]

sorted_set-ShortestFirst : (xs : List Bits) → ShortestFirst (sorted_set xs)
unfolding sorted_set
sorted_set-ShortestFirst [] = tt
sorted_set-ShortestFirst (x ∷ xs) =
    insert_sorted-ShortestFirst x (sorted_set xs) (sorted_set-ShortestFirst xs)

contains-all_cuts :
    (recognised : List (Str × Bits)) (x : Bits)
    → contains (all_cuts recognised) x ≡ starts_one recognised x
unfolding all_cuts starts_one
contains-all_cuts [] x = contains-nil x
contains-all_cuts ((out, bits) ∷ recognised) x =
    contains-append (cuts (length bits) bits) (all_cuts recognised) x
    ∙ rw (contains-all_cuts recognised x, contains-cuts bits x)

-- What is in the set: the prefixes of the recognised sequences, and nothing else.
pub contains-prefixes_of :
    (recognised : List (Str × Bits)) (x : Bits)
    → contains (prefixes_of recognised) x ≡ starts_one recognised x
unfolding prefixes_of
contains-prefixes_of recognised x =
    contains-sorted_set (all_cuts recognised) x ∙ contains-all_cuts recognised x

starts_one-front :
    (recognised : List (Str × Bits)) (x : Bits) (b : Bit)
    → starts_one recognised (x ++ b ∷ []) ≡ true
    → starts_one recognised x ≡ true
unfolding starts_one
starts_one-front [] x b h = cc
starts_one-front ((out, bits) ∷ recognised) x b h =
    ground (arith, is_prefix-front x b bits, starts_one-front recognised x b)

pub prefixes_of-IsClosed : (recognised : List (Str × Bits)) → IsClosed (prefixes_of recognised)
prefixes_of-IsClosed recognised x b h =
    contains-prefixes_of recognised x
    ∙ starts_one-front recognised x b (sym (contains-prefixes_of recognised (x ++ b ∷ [])) ∙ h)

pub prefixes_of-ShortestFirst :
    (recognised : List (Str × Bits)) → ShortestFirst (prefixes_of recognised)
unfolding prefixes_of
prefixes_of-ShortestFirst recognised = sorted_set-ShortestFirst (all_cuts recognised)

pub prefixes_of-empty :
    (r : Str × Bits) (recognised : List (Str × Bits))
    → contains (prefixes_of (r ∷ recognised)) [] ≡ true
prefixes_of-empty r recognised =
    contains-prefixes_of (r ∷ recognised) [] ∙ (unfold starts_one is_prefix in refl)

is_prefix_self : (x : Bits) → is_prefix x x ≡ true
unfolding is_prefix
is_prefix_self [] = refl
is_prefix_self (b ∷ x) = rw (eq_self b, is_prefix_self x) refl

starts_one-All :
    (recognised : List (Str × Bits)) → All (λ r. starts_one recognised r.1 ≡ true) recognised
unfolding starts_one
starts_one-All [] = tt
starts_one-All ((out, bits) ∷ recognised) = (
  rw (is_prefix_self bits) refl,
  All-map (λ r h. ground (arith, h)) recognised (starts_one-All recognised),
)

-- Each recognised sequence is one of its own prefixes.
pub prefixes_of-All :
    (recognised : List (Str × Bits))
    → All (λ r. contains (prefixes_of recognised) r.1 ≡ true) recognised
prefixes_of-All recognised =
    All-map (λ r h. contains-prefixes_of recognised r.1 ∙ h) recognised (starts_one-All recognised)
