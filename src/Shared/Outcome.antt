-- ===== src/Shared/Outcome.antt =====
-- What a call of the compiler gives: a value, or the exception it raises.
use Prim.Native.Nat.{ℕ}
use mathlib.Core.Path.{◌≡◌, refl}
use mathlib.Core.List.{List}
use mathlib.Core.Option.{none, some}
use htn_llm_rtl_gen.Shared.Tests.{Eq}
use htn_llm_rtl_gen.Shared.Dicts.{Dict, lookup}
use htn_llm_rtl_gen.Shared.Text.{Str}

-- One constructor for each `raise` of the source and one for a missing key; `crash` is any
-- other exception of Python, and `out_of_fuel` has no counterpart there.
pub data Error : Type 0 where
  unbalanced not_a_define malformed_objects object_without_type no_task : Error
  no_section : Str → Error
  cycle : Error
  not_a_sequence : Str → Error
  shared_name : Error
  asserted_in_several : Str → ℕ → Error
  names_no_output : List Str → Error
  no_sequence_begins : List Str → Error
  never_completes : Str → Error
  accepting_expects : List Str → Error
  no_plan planner_failed : Error
  not_a_number no_template : Str → Error
  cannot_lift not_an_arm : Str → Error
  not_one_task plan_and_tree_disagree : Error
  key_error : Error
  crash : Error
  out_of_fuel : Error

pub data Result {ℓ} (A : Type ℓ) : Type ℓ where
  ok : A → Result A
  err : Error → Result A

infixl 5 ◌>>=◌
abbrev pub ◌>>=◌ {ℓ κ} : {A : Type ℓ} {B : Type κ} → Result A → (A → Result B) → Result B
err e >>= next = err e
ok a >>= next = next a

-- `d[k]`, which raises where the key is missing
abbrev pub get {ℓ κ} : {K : Type ℓ} {V : Type κ} ⦃e : Eq K⦄ → K → Dict K V → Result V
get k d = elim (lookup k d) [ none ↦ err key_error | some v ↦ ok v ]

-- A bind that succeeds has a first part that does.
pub >>=-eq-ok {ℓ κ} :
    {V : Type ℓ} {W : Type κ} (first : Result V) (next : V → Result W) {w : W}
    → first >>= next ≡ ok w
    → (v : V) × (first ≡ ok v) × (next v ≡ ok w)
>>=-eq-ok (err e) next h = cc
>>=-eq-ok (ok v) next h = (v, refl, h)

-- What follows a bind goes on from its value.
pub bind_through {ℓ κ μ} :
    {A : Type ℓ} {B : Type κ} {C : Type μ} (m : Result A) (f : A → Result B) (g : B → Result C)
    {v : B}
    → (m >>= f) ≡ ok v
    → (m >>= λ a. f a >>= g) ≡ g v
bind_through (ok a) f g h = rw h
bind_through (err e) f g h = cc

pub ok_injective {ℓ} : {A : Type ℓ} {a b : A} → ok a ≡ ok b → a ≡ b
ok_injective h = cc h
