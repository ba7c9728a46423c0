-- ===== src/Recogniser/Sequence.antt =====
-- sequence_bits of rtl_designs/problem_compiler.py: the bits that a sequence object is named for.
pub mod Printed
use htn_llm_rtl_gen.Recogniser.Machine.{Bit, b0, b1, Bits}
use htn_llm_rtl_gen.Shared.{
  ℕ, ◌+◌, Option, none, some, List, [], ◌∷◌, ◌++◌, arith, replicate, all, if◌then◌else◌, ◌==◌,
  nat_eq, list_eq, pair_eq, Str, codes, is_digit, read_nat, split_on, strip_prefix,
}

-- a character of `[01]`
unfoldable pub bit_of : ℕ → Option Bit
bit_of c = if c == b'0' then some b0 else if c == b'1' then some b1 else none

-- the bits of a text of `[01]*`
unfoldable pub plain_bits : Str → Option Bits
plain_bits [] = some []
plain_bits (c ∷ cs) = elim (bit_of c) [
  | none ↦ none
  | some b ↦ elim (plain_bits cs) [ none ↦ none | some bits ↦ some (b ∷ bits) ]
]

-- `[01]+`
unfoldable pub some_plain_bits : Str → Option Bits
some_plain_bits [] = none
some_plain_bits (c ∷ cs) = plain_bits (c ∷ cs)

-- `\d+`, and the number that it writes
unfoldable pub count_of : Str → Option ℕ
count_of [] = none
count_of (c ∷ cs) = if all is_digit (c ∷ cs) then some (read_nat (c ∷ cs)) else none

-- One part of the name: a run `[01]x\d+`, or `[01]+`.
unfoldable pub part_bits : Str → Option Bits
part_bits (c ∷ x ∷ digits) =
    let plain = some_plain_bits (c ∷ x ∷ digits) in
    if x == b'x'
    then elim (bit_of c) [
      | none ↦ plain
      | some b ↦ elim (count_of digits) [ none ↦ plain | some n ↦ some (replicate n b) ]
    ]
    else plain
part_bits cs = some_plain_bits cs

-- `for part in ...: bits += ...`, with the early return
unfoldable pub parts_bits : List Str → Bits → Option Bits
parts_bits [] bits = some bits
parts_bits (p ∷ ps) bits = elim (part_bits p) [
  | none ↦ none
  | some more ↦ parts_bits ps (bits ++ more)
]

-- `bits or None`
unfoldable pub bits_or_none : Option Bits → Option Bits
bits_or_none (some []) = none
bits_or_none r = r

unfoldable pub sequence_bits : Str → Option Bits
sequence_bits name = elim (strip_prefix (codes "seq") name) [
  | none ↦ none
  | some [] ↦ none
  | some (c ∷ cs) ↦ bits_or_none (parts_bits (split_on b'_' (c ∷ cs)) [])
]
