-- ===== src/StateEncoding/Stripping.antt =====
-- strip_generated of rtl_designs/state_encoding.py: the lines that an earlier run wrote go.
use htn_llm_rtl_gen.Shared.{
  ℕ, zero, suc, ◌≡◌, refl, ap, ◌∙◌, inl, inr, Bool, true, false, ◌&&◌, ◌||◌, none, some, List, [],
  ◌∷◌, ◌++◌, arith, length, is_empty, All, ◌==◌, nat_eq, if◌then◌else◌, list_eq, pair_eq,
  Bool-cases, Str, codes, strip_prefix, lstrip, rstrip, some_digits, starts_with,
}

-- `MARK`
abbrev pub mark_line : Str
mark_line = codes "; state encoding, computed by rtl_designs/state_encoding.py"

-- ` - value\s*$` or ` - width\s*$`
unfoldable pub type_ends : Str → Str → Bool
type_ends type text = elim (strip_prefix (codes " - " ++ type) text) [
  | none ↦ false
  | some t ↦ is_empty (lstrip t)
]

-- `( n\d+)* - value\s*$`, with a round for each number
unfoldable pub values_end : ℕ → Str → Bool
values_end zero text = type_ends (codes "value") text
values_end (suc f) text = elim (strip_prefix (codes " n") text) [
  | none ↦ type_ends (codes "value") text
  | some t ↦ elim (some_digits t) [ none ↦ false | some rest ↦ values_end f rest ]
]

-- `n\d+( n\d+)* - value\s*$`
unfoldable pub is_value_line : Str → Bool
is_value_line text = elim (strip_prefix (codes "n") text) [
  | none ↦ false
  | some t ↦ elim (some_digits t) [ none ↦ false | some rest ↦ values_end (length rest) rest ]
]

-- `bits\d+ - width\s*$`
unfoldable pub is_width_line : Str → Bool
is_width_line text = elim (strip_prefix (codes "bits") text) [
  | none ↦ false
  | some t ↦ elim (some_digits t) [ none ↦ false | some rest ↦ type_ends (codes "width") rest ]
]

-- `GENERATED.match`
unfoldable pub is_generated : Str → Bool
is_generated line =
    let text = lstrip line in
    starts_with (codes "(state_code ") text
    || (starts_with (codes "(state_width ") text || (is_value_line text || is_width_line text))

-- `line.strip() == MARK`
unfoldable pub is_mark : Str → Bool
is_mark line = rstrip (lstrip line) == mark_line

-- the loop, from a value of `skipping` on
unfoldable pub strip_from : Bool → List Str → List Str
strip_from skipping [] = []
strip_from skipping (line ∷ lines) =
    let skipped = strip_from true lines in
    let kept = strip_from false lines in
    if is_mark line then skipped else if skipping && is_generated line then skipped else line ∷ kept

unfoldable pub strip_generated : List Str → List Str
strip_generated lines = strip_from false lines

strip_from-no_mark :
    (skipping : Bool) (lines : List Str) → All (λ l. is_mark l ≡ false) (strip_from skipping lines)
unfolding strip_from
strip_from-no_mark skipping [] = tt
strip_from-no_mark skipping (l ∷ ls) = elim (Bool-cases (is_mark l)) [
  | inl e ↦ rw e (strip_from-no_mark true ls)
  | inr e ↦ elim (Bool-cases (skipping && is_generated l)) [
    | inl g ↦ rw (e, g) (strip_from-no_mark true ls)
    | inr g ↦ rw (e, g) (e, strip_from-no_mark false ls)
  ]
]

strip_from-unmarked :
    (lines : List Str) → All (λ l. is_mark l ≡ false) lines → strip_from false lines ≡ lines
unfolding strip_from
strip_from-unmarked [] h = refl
strip_from-unmarked (l ∷ ls) h = rw h.0 (ap (λ t. l ∷ t) (strip_from-unmarked ls h.1))

strip_from-block :
    (gs : List Str) (c : Str) (b : List Str)
    → All (λ l. is_generated l ≡ true) gs
    → is_generated c ≡ false
    → strip_from true (gs ++ c ∷ b) ≡ strip_from false (c ∷ b)
unfolding strip_from
strip_from-block [] c b h k = ground (arith, k)
strip_from-block (g ∷ gs) c b h k = rw h.0 (ground (arith, strip_from-block gs c b h.1 k))

strip_from-inserted :
    (skipping : Bool) (a gs : List Str) (m c : Str) (b : List Str)
    → is_mark m ≡ true
    → All (λ l. is_generated l ≡ true) gs
    → is_generated c ≡ false
    → strip_from skipping (a ++ m ∷ (gs ++ c ∷ b)) ≡ strip_from skipping (a ++ c ∷ b)
unfolding strip_from
strip_from-inserted skipping [] gs m c b marked h k =
    rw marked (strip_from-block gs c b h k ∙ ground (arith, k))
strip_from-inserted skipping (l ∷ a) gs m c b marked h k =
    rw
      (
        strip_from-inserted true a gs m c b marked h k,
        strip_from-inserted false a gs m c b marked h k,
      )
      refl

-- Stripping takes out a marked block of generated lines before a line that is not one, wherever it
-- stands, as if it had not been written, and stripping again changes nothing.
pub strip_generated_lem :
    (a gs : List Str) (m c : Str) (b : List Str)
    → is_mark m ≡ true
    → All (λ l. is_generated l ≡ true) gs
    → is_generated c ≡ false
    → (strip_generated (a ++ m ∷ (gs ++ c ∷ b)) ≡ strip_generated (a ++ c ∷ b))
      × ((lines : List Str) → strip_generated (strip_generated lines) ≡ strip_generated lines)
unfolding strip_generated
strip_generated_lem a gs m c b marked h k = (
  strip_from-inserted false a gs m c b marked h k,
  λ lines. strip_from-unmarked (strip_from false lines) (strip_from-no_mark false lines),
)
