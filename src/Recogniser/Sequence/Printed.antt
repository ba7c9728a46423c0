-- ===== src/Recogniser/Sequence/Printed.antt =====
-- The names that the problem's author is asked to write, and what sequence_bits reads from them.
use htn_llm_rtl_gen.Recogniser.Machine.{Bit, b0, b1, Bits}
use htn_llm_rtl_gen.Recogniser.Sequence.{
  bit_of, plain_bits, some_plain_bits, count_of, part_bits, parts_bits, bits_or_none, sequence_bits,
}
use htn_llm_rtl_gen.Shared.{
  ℕ, ◌<◌, ◌≡◌, refl, ap, ◌∙◌, ◌≢◌, true, some, List, [], ◌∷◌, ◌++◌, append_assoc, append-nil, arith,
  read_nat-show_nat, IsDigit, show_nat-IsDigit, length-show_nat_pos, length, replicate, all, All,
  All-map, nat_eq, list_eq, pair_eq, Str, codes, is_digit, join, show_nat, read_nat, split_on,
  strip_prefix, split_on-join,
}

-- A part of a name: some bits, or a bit with a count.
pub data Part : Type 0 where
  plain : Bit → Bits → Part
  run : Bit → ℕ → Part

abbrev char : Bit → ℕ
char b0 = b'0'
char b1 = b'1'

abbrev chars : Bits → Str
chars [] = []
chars (b ∷ bs) = char b ∷ chars bs

pub print_part : Part → Str
print_part (plain b bs) = char b ∷ chars bs
print_part (run b n) = char b ∷ b'x' ∷ show_nat n

unfoldable pub part_value : Part → Bits
part_value (plain b bs) = b ∷ bs
part_value (run b n) = replicate n b

pub print_parts : List Part → List Str
print_parts [] = []
print_parts (p ∷ ps) = print_part p ∷ print_parts ps

unfoldable pub parts_value : List Part → Bits
parts_value [] = []
parts_value (p ∷ ps) = part_value p ++ parts_value ps

plain_bits-chars : (bs : Bits) → plain_bits (chars bs) ≡ some bs
unfolding plain_bits bit_of
plain_bits-chars [] = refl
plain_bits-chars (b0 ∷ bs) = rw (plain_bits-chars bs)
plain_bits-chars (b1 ∷ bs) = rw (plain_bits-chars bs)

all-digits : (cs : Str) → All IsDigit cs → all is_digit cs ≡ true
unfolding all is_digit
all-digits [] h = refl
all-digits (c ∷ cs) h = ground (arith, all-digits cs h.1)

count_of-show_nat : (n : ℕ) → count_of (show_nat n) ≡ some n
count_of-show_nat n =
    nonempty (show_nat n) (length-show_nat_pos n) (all-digits (show_nat n) (show_nat-IsDigit n))
    ∙ ap some (read_nat-show_nat n)
  where
    nonempty :
        (cs : Str) → 0 < length cs → all is_digit cs ≡ true → count_of cs ≡ some (read_nat cs)
    nonempty [] h k = absurd (omega arith)
    nonempty (c ∷ cs) h k = unfold count_of in rw k

part_bits-print_part : (p : Part) → part_bits (print_part p) ≡ some (part_value p)
unfolding part_bits some_plain_bits plain_bits bit_of print_part part_value
part_bits-print_part (plain b0 []) = refl
part_bits-print_part (plain b1 []) = refl
part_bits-print_part (plain b0 (b0 ∷ bs)) = rw (plain_bits-chars bs)
part_bits-print_part (plain b0 (b1 ∷ bs)) = rw (plain_bits-chars bs)
part_bits-print_part (plain b1 (b0 ∷ bs)) = rw (plain_bits-chars bs)
part_bits-print_part (plain b1 (b1 ∷ bs)) = rw (plain_bits-chars bs)
part_bits-print_part (run b0 n) = rw (count_of-show_nat n)
part_bits-print_part (run b1 n) = rw (count_of-show_nat n)

parts_bits-print_parts :
    (ps : List Part) (bits : Bits)
    → parts_bits (print_parts ps) bits ≡ some (bits ++ parts_value ps)
unfolding parts_bits print_parts parts_value
parts_bits-print_parts [] bits = rw append-nil
parts_bits-print_parts (p ∷ ps) bits =
    rw (part_bits-print_part p, parts_bits)
      (parts_bits-print_parts ps (bits ++ part_value p)
        ∙ ap some (append_assoc bits (part_value p) (parts_value ps)))

digits-free : (cs : Str) → All IsDigit cs → All (λ c. c ≢ b'_') cs
digits-free cs h = All-map (λ c d e. omega arith) cs h

chars-free : (bs : Bits) → All (λ c. c ≢ b'_') (chars bs)
chars-free [] = tt
chars-free (b0 ∷ bs) = (omega arith, chars-free bs)
chars-free (b1 ∷ bs) = (omega arith, chars-free bs)

print_part-free : (p : Part) → All (λ c. c ≢ b'_') (print_part p)
unfolding print_part
print_part-free (plain b bs) = chars-free (b ∷ bs)
print_part-free (run b0 n) =
    (omega arith, (omega arith, digits-free (show_nat n) (show_nat-IsDigit n)))
print_part-free (run b1 n) =
    (omega arith, (omega arith, digits-free (show_nat n) (show_nat-IsDigit n)))

print_parts-free : (ps : List Part) → All (λ w. All (λ c. c ≢ b'_') w) (print_parts ps)
unfolding print_parts
print_parts-free [] = tt
print_parts-free (p ∷ ps) = (print_part-free p, print_parts-free ps)

-- "seq" and the parts joined by underscores
pub sequence_name : Part → List Part → Str
unfolding print_parts print_part
sequence_name p ps = codes "seq" ++ join (codes "_") (print_parts (p ∷ ps))

join-ne-nil : (p : Part) (ps : List Part) → join (95 ∷ []) (print_parts (p ∷ ps)) ≢ []
unfolding join print_parts print_part
join-ne-nil (plain b bs) [] = cc
join-ne-nil (run b n) [] = cc
join-ne-nil (plain b bs) (q ∷ ps) = cc
join-ne-nil (run b n) (q ∷ ps) = cc

-- sequence_bits reads the bits of every name that is written by parts, with counts or without, if
-- they come to at least one bit.
pub sequence_bits-sequence_name :
    (p : Part) (ps : List Part)
    → part_value p ++ parts_value ps ≢ []
    → sequence_bits (sequence_name p ps) ≡ some (part_value p ++ parts_value ps)
unfolding sequence_name sequence_bits strip_prefix codes part_value parts_value
sequence_bits-sequence_name p ps h =
    let text = join (95 ∷ []) (print_parts (p ∷ ps)) in
    named text (part_value p ++ parts_value ps) (join-ne-nil p ps) h (
      ap (λ ws. parts_bits ws [])
        (split_on-join 95 (print_part p) (print_parts ps) (print_part-free p, print_parts-free ps))
      ∙ parts_bits-print_parts (p ∷ ps) [])
  where
    named :
        (text : Str) (v : Bits)
        → text ≢ []
        → v ≢ []
        → parts_bits (split_on 95 text) [] ≡ some v
        → sequence_bits (codes "seq" ++ text) ≡ some v
    named [] v ne h e = absurd (ne refl)
    named (c ∷ cs) [] ne h e = absurd (h refl)
    named (c ∷ cs) (b ∷ v) ne h e = rw e (unfold bits_or_none in refl)
