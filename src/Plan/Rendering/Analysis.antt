-- ===== src/Plan/Rendering/Analysis.antt =====
-- The analysis steps of a plan write nothing.
use htn_llm_rtl_gen.Plan.Actions.{arg}
use htn_llm_rtl_gen.Plan.Reading.{Step, number}
use htn_llm_rtl_gen.Plan.Rendering.{
  port_decls, width_decls, ports_of, widths_of, Written, write_step, write_steps, render,
}
use mathlib.Core.Path.{fun_ext}
use htn_llm_rtl_gen.Shared.{
  contains-All, ℕ, ◌≡◌, refl, ap, inl, inr, Bool, true, false, not, List, [], ◌∷◌, ◌++◌, Dict,
  insert, filter, All, ◌>>=◌, Result, starts_with, nat_eq, list_eq, pair_eq, contains, Bool-cases,
  Str, codes, join, strip_prefix, ok,
}

-- A step of the analysis, by its name.
abbrev pub is_analysis : Step → Bool
is_analysis (name, a) = starts_with (codes "analyze_") name

analysis-no_member :
    (kinds : List Str) (n : Str)
    → All (λ k. starts_with (codes "analyze_") k ≡ false) kinds
    → starts_with (codes "analyze_") n ≡ true
    → contains kinds n ≡ false
analysis-no_member kinds n h k = elim (Bool-cases (contains kinds n)) [
  | inl e ↦ cc (k, contains-All (λ j. starts_with (codes "analyze_") j ≡ false) kinds n h e)
  | inr e ↦ e
]

not_a_port : (n : Str) → starts_with (codes "analyze_") n ≡ true → contains port_decls n ≡ false
unfolding starts_with strip_prefix codes
not_a_port n h = analysis-no_member port_decls n (refl, (refl, (refl, (refl, tt)))) h

has_no_width : (n : Str) → starts_with (codes "analyze_") n ≡ true → contains width_decls n ≡ false
unfolding starts_with strip_prefix codes
has_no_width n h = analysis-no_member width_decls n (refl, (refl, tt)) h

abbrev written_steps : List Step → List Step
written_steps steps = filter (λ s. not (is_analysis s)) steps

ports_of-filter : (steps : List Step) → ports_of (written_steps steps) ≡ ports_of steps
unfolding ports_of filter
ports_of-filter [] = refl
ports_of-filter ((n, a) ∷ steps) = elim (Bool-cases (starts_with (codes "analyze_") n)) [
  | inl e ↦ rw (e, ports_of, not_a_port n e) (ports_of-filter steps)
  | inr e ↦
      rw (e, ports_of)
        (ap
          (λ r. elim (contains port_decls n) as (λ _. Result (List Str)) [
            | false ↦ r
            | true ↦ do p ← arg 1 a; rest ← r; ok (p ∷ rest)
          ])
          (ports_of-filter steps))
]

widths_of-filter :
    (steps : List Step) (widths : Dict Str ℕ)
    → widths_of (written_steps steps) widths ≡ widths_of steps widths
unfolding widths_of filter
widths_of-filter [] widths = refl
widths_of-filter ((n, a) ∷ steps) widths = elim (Bool-cases (starts_with (codes "analyze_") n)) [
  | inl e ↦ rw (e, widths_of, has_no_width n e) (widths_of-filter steps widths)
  | inr e ↦
      rw (e, widths_of)
        (ap
          (λ (f : Dict Str ℕ → Result (Dict Str ℕ)).
            elim (contains width_decls n) as (λ _. Result (Dict Str ℕ)) [
              | false ↦ f widths
              | true ↦ do
                target ← arg 1 a
                bits ← arg 2 a
                w ← number bits
                f (insert target w widths)
            ])
          (fun_ext (widths_of-filter steps)))
]

module _ (widths : Dict Str ℕ) (ports : List Str) where
  analysis-write_step :
      (n : Str) (a : List Str) (written : Written)
      → starts_with (codes "analyze_") n ≡ true
      → write_step widths ports (n, a) written ≡ ok written
  unfolding write_step
  analysis-write_step n a written e = rw e refl

  write_steps-filter :
      (steps : List Step) (written : Written)
      → write_steps widths ports (written_steps steps) written
        ≡ write_steps widths ports steps written
  unfolding write_steps filter
  write_steps-filter [] written = refl
  write_steps-filter ((n, a) ∷ steps) written =
      elim (Bool-cases (starts_with (codes "analyze_") n)) [
        | inl e ↦ rw (e, analysis-write_step n a written e) (write_steps-filter steps written)
        | inr e ↦ rw e (
            ap (λ f. write_step widths ports (n, a) written >>= f)
              (fun_ext (write_steps-filter steps)))
      ]

-- A plan without its analysis steps renders to the same module, or stops with the same error.
pub render-filter :
    (steps : List Step) → render (filter (λ s. not (is_analysis s)) steps) ≡ render steps
unfolding render
render-filter steps =
    rw (ports_of-filter steps, widths_of-filter steps [])
      (ap
        (λ (f : Dict Str ℕ → List Str → Result Written). do
          ports ← ports_of steps
          widths ← widths_of steps []
          written ← f widths ports
          ok (join (codes "\n") written.0 ++ codes "\n"))
        (fun_ext (λ widths. fun_ext (λ ports. write_steps-filter widths ports steps ([], false)))))
