-- ===== src/StateEncoding/Rewriting.antt =====
-- rewrite of rtl_designs/state_encoding.py: the encoding is put into the text of a problem.
use htn_llm_rtl_gen.Shared.{crash, lstrip, rstrip, starts_with}
use htn_llm_rtl_gen.StateEncoding.{encoding}
use htn_llm_rtl_gen.StateEncoding.Search.{states_of}
use htn_llm_rtl_gen.StateEncoding.Stripping.{mark_line, strip_generated}
use htn_llm_rtl_gen.Shared.{
  ℕ, ◌+◌, ◌-◌, String, Bool, Option, none, some, List, [], ◌∷◌, ◌++◌, map, length, replicate, ◌>>=◌,
  Result, ◌==◌, nat_eq, if◌then◌else◌, list_eq, pair_eq, Str, codes, join, split_on, ok, err,
  lstrip, rstrip, starts_with,
}

-- the first line that passes a test, between the lines before and after it
unfoldable pub split_lines : (Str → Bool) → List Str → Option (List Str × (Str × List Str))
split_lines test [] = none
split_lines test (l ∷ ls) =
    let later = put_before l (split_lines test ls) in if test l then some ([], (l, ls)) else later
  where
    put_before : Str → Option (List Str × (Str × List Str)) → Option (List Str × (Str × List Str))
    put_before l none = none
    put_before l (some (before, found)) = some (l ∷ before, found)

-- the closing parenthesis at the indentation of a section
unfoldable pub closes : ℕ → Str → Bool
closes indent l = rstrip l == replicate indent b' ' ++ codes ")"

-- `[pad + MARK] + [pad + n for n in new]`
unfoldable pub block : ℕ → List Str → List Str
block indent new =
    let pad = replicate (indent + 2) b' ' in (pad ++ mark_line) ∷ map (λ n. pad ++ n) new

-- the lines with a section whose start and end have been looked for; `next` raises where there is none
unfoldable pub insert_lines : List Str → String → List Str → Result (List Str)
insert_lines lines opener new =
    elim (split_lines (λ l. starts_with (codes opener) (rstrip (lstrip l))) lines) [
      | none ↦ err crash
      | some (before, (line, after)) ↦
          elim (split_lines (closes (length line - length (lstrip line))) after) [
            | none ↦ err crash
            | some (inside, (close, rest)) ↦ ok (
                before
                ++ line
                  ∷ (inside ++ (block (length line - length (lstrip line)) new ++ close ∷ rest)))
          ]
    ]

unfoldable pub rewrite_found : Str → Option (Str × List Str) → Result Str
rewrite_found text none = ok text
rewrite_found text (some (machine, states)) = do
  let (objects, facts) = encoding machine states
  with_objects ← insert_lines (strip_generated (split_on b'\n' text)) "(:objects" objects
  lines ← insert_lines with_objects "(:init" facts
  ok (join (codes "\n") lines)

unfoldable pub rewrite : Str → Result Str
rewrite text = do found ← states_of text; rewrite_found text found
