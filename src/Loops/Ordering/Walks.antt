-- ===== src/Loops/Ordering/Walks.antt =====
-- The walk along a relation in which no two objects have the same successor.
use htn_llm_rtl_gen.Loops.Ordering.{walk}
use mathlib.Core.Path.{subst}
use htn_llm_rtl_gen.Shared.{
  ℕ, zero, suc, ◌≡◌, refl, sym, ap, ◌∙◌, ◌≢◌, inl, inr, some, ◌∷◌, arith, Dict, lookup, without,
  lookup-without, All, Distinct, eq_iff, nat_eq, list_eq, pair_eq, beq_of_ne, Option-cases, Str,
}

-- No object leads to `s`.
abbrev pub Unreached : Str → Dict Str Str → Type 0
Unreached s d = (a : Str) → lookup a d ≢ some s

-- No object is led to from two.
abbrev pub Injective : Dict Str Str → Type 0
Injective d = (a b t : Str) → lookup a d ≡ some t → lookup b d ≡ some t → a ≡ b

-- A walk does not come to an object that nothing leads to.
walk_fresh :
    (room : ℕ) (d : Dict Str Str) (s x : Str) → Unreached s d → All (λ y. s ≢ y) (walk room d x)
unfolding walk
walk_fresh zero d s x h = tt
walk_fresh (suc room) d s x h = elim (Option-cases (lookup x d)) [
  | inl e ↦ rw (walk, e) tt
  | inr (t, e) ↦ rw (walk, e) ((λ p. h x (e ∙ ap some (sym p))), walk_fresh room d s t h)
]

kept_by_without : (s x : Str) (d : Dict Str Str) → s ≢ x → lookup x (without s d) ≡ lookup x d
kept_by_without s x d h = rw (lookup-without s x d, beq_of_ne h) refl

-- Nor does it need what that object leads to.
walk-without :
    (room : ℕ) (d : Dict Str Str) (s x : Str)
    → Unreached s d
    → s ≢ x
    → walk room (without s d) x ≡ walk room d x
unfolding walk
walk-without zero d s x h ne = refl
walk-without (suc room) d s x h ne = elim (Option-cases (lookup x d)) [
  | inl e ↦ rw (walk, kept_by_without s x d ne, e) refl
  | inr (t, e) ↦
      rw (walk, kept_by_without s x d ne, e)
        (ap (λ w. t ∷ w) (walk-without room d s t h (λ p. h x (e ∙ ap some (sym p)))))
]

lookup_within :
    (s a : Str) (d : Dict Str Str) {t : Str}
    → lookup a (without s d) ≡ some t
    → (s ≢ a) × (lookup a d ≡ some t)
lookup_within s a d h = ground (arith, lookup-without s a d, eq_iff s a)

Injective-without : (s : Str) (d : Dict Str Str) → Injective d → Injective (without s d)
Injective-without s d one a b t p q = one a b t (lookup_within s a d p).1 (lookup_within s b d q).1

-- Nothing but `s` leads to what it leads to.
Unreached-without :
    (s t : Str) (d : Dict Str Str) → Injective d → lookup s d ≡ some t → Unreached t (without s d)
Unreached-without s t d one e a q =
    let found = lookup_within s a d q in found.0 (one s a t e found.1)

-- From an object that nothing leads to, a walk meets no object twice.
pub Injective-Distinct :
    (room : ℕ) (d : Dict Str Str) (s : Str)
    → Injective d
    → Unreached s d
    → Distinct (s ∷ walk room d s)
unfolding walk
Injective-Distinct zero d s one h = (tt, tt)
Injective-Distinct (suc room) d s one h = elim (Option-cases (lookup s d)) [
  | inl e ↦ rw (walk, e) (tt, tt)
  | inr (t, e) ↦ (
    walk_fresh (suc room) d s s h,
    rw (walk, e)
        (subst (λ w. Distinct (t ∷ w)) (walk-without room d s t h (λ p. h s (e ∙ ap some (sym p))))
          (Injective-Distinct room (without s d) t (Injective-without s d one)
            (Unreached-without s t d one e))),
  )
]
