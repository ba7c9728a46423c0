-- ===== src/Shared/Dicts.antt =====
-- Python's `dict`: the entries in order of insertion, one for each key.
use Prim.Native.Nat.{◌≤◌, ◌<◌}
use mathlib.Core.Path.{◌≡◌, refl}
use mathlib.Core.Option.{Option, none, some}
use mathlib.Core.List.{List, [], ◌∷◌}
use native.Mathlib.Omega.{arith}
use htn_llm_rtl_gen.Shared.Tests.{Eq, ◌==◌, eq_iff, if◌then◌else◌}
use htn_llm_rtl_gen.Shared.Lists.{length}

abbrev pub Dict {ℓ κ} : Type ℓ → Type κ → Type (ℓ ⊔ κ)
Dict K V = List (K × V)

module _ {ℓ κ} {K : Type ℓ} {V : Type κ} ⦃e : Eq K⦄ where
  -- `d.get(k)`
  unfoldable pub lookup : K → Dict K V → Option V
  lookup k [] = none
  lookup k ((j, v) ∷ d) = if j == k then some v else lookup k d

  -- `d[k] = v`
  unfoldable pub insert : K → V → Dict K V → Dict K V
  insert k v [] = (k, v) ∷ []
  insert k v ((j, w) ∷ d) = if j == k then (j, v) ∷ d else (j, w) ∷ insert k v d

  -- `dict(pairs)`: a later pair replaces an earlier one of the same key.
  unfoldable pub insert_all : List (K × V) → Dict K V → Dict K V
  insert_all [] d = d
  insert_all ((k, v) ∷ ps) d = insert_all ps (insert k v d)

  -- The entries of the other keys.
  pub without : K → Dict K V → Dict K V
  without k [] = []
  without k ((j, v) ∷ d) = let rest = without k d in if j == k then rest else (j, v) ∷ rest

  pub lookup-insert :
      (k j : K) (v : V) (d : Dict K V)
      → lookup j (insert k v d) ≡ (if k == j then some v else lookup j d)
  unfolding lookup insert
  lookup-insert k j v [] = refl
  lookup-insert k j v ((i, w) ∷ d) =
      ground (arith, eq_iff i k, eq_iff i j, eq_iff k j, lookup-insert k j v d)

  pub lookup-without :
      (k j : K) (d : Dict K V) → lookup j (without k d) ≡ (if k == j then none else lookup j d)
  unfolding lookup without
  lookup-without k j [] = ground arith
  lookup-without k j ((i, w) ∷ d) =
      ground (arith, eq_iff i k, eq_iff i j, eq_iff k j, lookup-without k j d)

  pub length-without : (k : K) (d : Dict K V) → length (without k d) ≤ length d
  unfolding without
  length-without k [] = omega arith
  length-without k ((i, w) ∷ d) = ground (arith, length-without k d)

  -- Taking a key out that is there makes the dictionary smaller.
  pub length-without_lt :
      (k : K) (v : V) (d : Dict K V) → lookup k d ≡ some v → length (without k d) < length d
  unfolding lookup without
  length-without_lt k v [] h = cc
  length-without_lt k v ((i, w) ∷ d) h = ground (arith, length-without k d, length-without_lt k v d)
