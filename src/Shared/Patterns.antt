-- ===== src/Shared/Patterns.antt =====
-- The parts of the regular expressions that several files of the source use, and str.strip.

use mathlib.Core.Path.{◌≡◌, refl}
use mathlib.Core.Bool.{Bool, true, false, ◌&&◌}
use mathlib.Core.Option.{Option, none, some}
use mathlib.Core.List.{[], ◌∷◌, ◌++◌}
use htn_llm_rtl_gen.Shared.Tests.{if◌then◌else◌, nat_eq, eq_self}
use htn_llm_rtl_gen.Shared.Lists.{is_empty}
use htn_llm_rtl_gen.Shared.Text.{Str, is_space, is_digit, strip_prefix}

-- the longest run of `\S` that stands first, and what follows it
unfoldable pub run_of : Str → Str × Str
run_of [] = ([], [])
run_of (c ∷ cs) = let rest = run_of cs in if is_space c then ([], c ∷ cs) else (c ∷ rest.0, rest.1)

-- `str.lstrip`
unfoldable pub lstrip : Str → Str
lstrip [] = []
lstrip (c ∷ cs) = if is_space c then lstrip cs else c ∷ cs

-- `str.rstrip`
unfoldable pub rstrip : Str → Str
rstrip [] = []
rstrip (c ∷ cs) = let rest = rstrip cs in if is_space c && is_empty rest then [] else c ∷ rest

-- `\d*` as far as it goes: what follows it
unfoldable pub after_digits : Str → Str
after_digits [] = []
after_digits (c ∷ cs) = if is_digit c then after_digits cs else c ∷ cs

-- `\d+` as far as it goes
unfoldable pub some_digits : Str → Option Str
some_digits [] = none
some_digits (c ∷ cs) = if is_digit c then some (after_digits cs) else none

-- `text.startswith(key)`
unfoldable pub starts_with : Str → Str → Bool
starts_with key text = elim (strip_prefix key text) [ none ↦ false | some t ↦ true ]

-- the digits that stand first
unfoldable pub digits_of : Str → Str
digits_of [] = []
digits_of (c ∷ cs) = let rest = digits_of cs in if is_digit c then c ∷ rest else []

pub strip_prefix-append : (k t : Str) → strip_prefix k (k ++ t) ≡ some t
unfolding strip_prefix
strip_prefix-append [] t = refl
strip_prefix-append (c ∷ k) t = rw (strip_prefix, eq_self c) (strip_prefix-append k t)
