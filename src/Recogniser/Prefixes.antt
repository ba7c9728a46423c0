-- ===== src/Recogniser/Prefixes.antt =====
-- The `prefixes` of expand_sequences of rtl_designs/problem_compiler.py.
pub mod Ordered
pub mod Once
use htn_llm_rtl_gen.Recogniser.Machine.{b0, b1, bit_eq, Bits}
use htn_llm_rtl_gen.Shared.{
  ℕ, zero, suc, ◌+◌, Bool, true, false, ◌&&◌, ◌||◌, List, [], ◌∷◌, ◌++◌, arith, length, take,
  filter, is_empty, ltb, if◌then◌else◌, ◌==◌, nat_eq, list_eq, pair_eq, Str,
}

-- `x < y` of two texts of bits
unfoldable pub lex_before : Bits → Bits → Bool
lex_before [] [] = false
lex_before [] (c ∷ y) = true
lex_before (b ∷ x) [] = false
lex_before (b0 ∷ x) (b1 ∷ y) = true
lex_before (b1 ∷ x) (b0 ∷ y) = false
lex_before (b0 ∷ x) (b0 ∷ y) = lex_before x y
lex_before (b1 ∷ x) (b1 ∷ y) = lex_before x y

-- `(len(x), x) < (len(y), y)`
unfoldable pub before : Bits → Bits → Bool
before x y = ltb (length x) (length y) || ((length x == length y) && lex_before x y)

-- One more element of a set, in the order that `sorted` gives it.
unfoldable pub insert_sorted : Bits → List Bits → List Bits
insert_sorted x [] = x ∷ []
insert_sorted x (y ∷ ys) =
    if x == y then y ∷ ys else if before x y then x ∷ y ∷ ys else y ∷ insert_sorted x ys

-- `sorted({...}, key=lambda x: (len(x), x))`
unfoldable pub sorted_set : List Bits → List Bits
sorted_set [] = []
sorted_set (x ∷ xs) = insert_sorted x (sorted_set xs)

-- `bits[:k]` for `k` in `range(n + 1)`
unfoldable pub cuts : ℕ → Bits → List Bits
cuts zero bits = take 0 bits ∷ []
cuts (suc k) bits = take (suc k) bits ∷ cuts k bits

unfoldable pub all_cuts : List (Str × Bits) → List Bits
all_cuts [] = []
all_cuts ((out, bits) ∷ recognised) = cuts (length bits) bits ++ all_cuts recognised

unfoldable pub prefixes_of : List (Str × Bits) → List Bits
prefixes_of recognised = sorted_set (all_cuts recognised)

-- `x.endswith(y)`
unfoldable pub ends_with : Bits → Bits → Bool
ends_with [] y = is_empty y
ends_with (c ∷ x) y = ((c ∷ x) == y) || ends_with x y

-- `[x for x in prefixes if x.endswith(bits)]`
unfoldable pub ends_of : List Bits → Bits → List Bits
ends_of prefixes bits = filter (λ x. ends_with x bits) prefixes
