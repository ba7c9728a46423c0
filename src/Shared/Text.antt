-- ===== src/Shared/Text.antt =====
-- Python's texts as lists of code points, and what the source uses of `str`.
use Prim.Native.Nat.{ℕ, zero, suc, ◌+◌, ◌-◌, ◌*◌, ◌/◌, ◌%◌}
use mathlib.Core.Option.{Option, none, some}
use Prim.Native.Char.{code}
use Prim.Native.String.{String}
use mathlib.Core.Bool.{Bool, ◌&&◌, ◌||◌}
use mathlib.Core.List.{List, [], ◌∷◌, ◌++◌}
use htn_llm_rtl_gen.Shared.Tests.{leb, ◌==◌, nat_eq, if◌then◌else◌}

abbrev pub Str : Type 0
Str = List ℕ

-- A literal of the source. It stays shut in proofs, which see texts by their parts.
unfoldable pub codes : String → Str
codes String.[] = []
codes (String.◌∷◌ c s) = code c ∷ codes s

-- `str.isspace`, which `\s` and `str.split()` go by.
unfoldable pub is_space : ℕ → Bool
is_space c =
    (leb 9 c && leb c 13)
    || (leb 28 c && leb c 32)
    || (c == 0x85)
    || (c == 0xa0)
    || (c == 0x1680)
    || (leb 0x2000 c && leb c 0x200a)
    || (c == 0x2028)
    || (c == 0x2029)
    || (c == 0x202f)
    || (c == 0x205f)
    || (c == 0x3000)

unfoldable pub is_digit : ℕ → Bool
is_digit c = leb b'0' c && leb c b'9'

-- `sep.join(parts)`
unfoldable pub join : Str → List Str → Str
join sep [] = []
join sep (x ∷ []) = x
join sep (x ∷ y ∷ xs) = x ++ (sep ++ join sep (y ∷ xs))

-- `text.split()`: the maximal runs that hold no space, `word` being the run that is open.
abbrev flush : Str → List Str → List Str
flush [] rest = rest
flush (c ∷ w) rest = (c ∷ w) ∷ rest

unfoldable pub words_from : Str → Str → List Str
words_from word [] = flush word []
words_from word (c ∷ cs) =
    let rest = words_from [] cs in
    let longer = words_from (word ++ c ∷ []) cs in if is_space c then flush word rest else longer

unfoldable pub words : Str → List Str
unfolding words_from is_space
words = words_from []

-- `str(n)`. Each digit takes a unit of fuel, and `n + 1` is enough.
unfoldable pub show_digits : ℕ → ℕ → Str → Str
show_digits zero n acc = acc
show_digits (suc f) n acc =
    let acc' = (48 + n % 10) ∷ acc in
    let rest = show_digits f (n / 10) acc' in if n / 10 == 0 then acc' else rest

unfoldable pub show_nat : ℕ → Str
unfolding show_digits
show_nat n = show_digits (suc n) n []

-- `int(text)` of digits
unfoldable pub read_digits : ℕ → Str → ℕ
read_digits n [] = n
read_digits n (c ∷ cs) = read_digits (n * 10 + (c - 48)) cs

unfoldable pub read_nat : Str → ℕ
unfolding read_digits
read_nat = read_digits 0

-- `text.split(sep)` at one character
unfoldable pub prepend : ℕ → List Str → List Str
prepend c [] = (c ∷ []) ∷ []
prepend c (w ∷ ws) = (c ∷ w) ∷ ws

unfoldable pub split_on : ℕ → Str → List Str
unfolding prepend
split_on sep [] = [] ∷ []
split_on sep (c ∷ cs) = let rest = split_on sep cs in if c == sep then [] ∷ rest else prepend c rest

-- what follows `prefix` in a text that starts with it
unfoldable pub strip_prefix : Str → Str → Option Str
strip_prefix [] cs = some cs
strip_prefix (p ∷ ps) [] = none
strip_prefix (p ∷ ps) (c ∷ cs) = if p == c then strip_prefix ps cs else none

-- `text.upper()` of the names of ports, which are ASCII
unfoldable pub upper : Str → Str
upper [] = []
upper (c ∷ cs) = (if leb b'a' c && leb c b'z' then c - 32 else c) ∷ upper cs

-- `text[:-1]`
unfoldable pub but_last : Str → Str
but_last [] = []
but_last (c ∷ []) = []
but_last (c ∷ d ∷ cs) = c ∷ but_last (d ∷ cs)
