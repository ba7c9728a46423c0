-- ===== src/Plan/Rendering/Moore.antt =====
-- The Moore outputs of render: one line for each output, with a term for each state.
use htn_llm_rtl_gen.Plan.Reading.{Step}
use htn_llm_rtl_gen.Plan.Actions.{f_string, cur}
use htn_llm_rtl_gen.Plan.Templates.{lines_of, state_block, output_block, moore_assign_line}
use htn_llm_rtl_gen.Plan.Rendering.{extend_last, also, branch_after, act, write_step, write_steps}
use htn_llm_rtl_gen.Shared.{
  ℕ, ◌≡◌, refl, sym, ap, ◌∙◌, Bool, true, some, List, [], ◌∷◌, ◌++◌, map, append_assoc, append-nil,
  Dict, lookup, ◌>>=◌, starts_with, strip_prefix-append, nat_eq, list_beq, list_eq, pair_eq, Str,
  codes, join, strip_prefix, but_last, ok,
}

abbrev in_state : Str → Str
in_state s = codes "(" ++ (cur ++ (codes " == " ++ (s ++ codes ")")))

-- An output that is 1 in some states.
abbrev pub moore_line : Str → List Str → Str
moore_line o states =
    codes "assign "
    ++ (o ++ (codes " = " ++ (join (codes " | ") (map in_state states) ++ codes ";")))

abbrev pub moore_steps : Str → Str → List Str → List Step
moore_steps m o states = map (λ s. (codes "write_moore_output_also", m ∷ o ∷ s ∷ [])) states

abbrev key : Str → Str
key o = f_string (codes "assign " ∷ o ∷ codes " = " ∷ [])

but_last-snoc : (s : Str) (c : ℕ) → but_last (s ++ c ∷ []) ≡ s
unfolding but_last
but_last-snoc [] c = refl
but_last-snoc (d ∷ []) c = refl
but_last-snoc (d ∷ e ∷ s) c = ap (λ t. d ∷ t) (but_last-snoc (e ∷ s) c)

extend_last-last :
    (k more : Str) (out : List Str) (l : Str)
    → starts_with k l ≡ true
    → extend_last k more (out ++ l ∷ []) ≡ some (out ++ (but_last l ++ more) ∷ [])
unfolding extend_last
extend_last-last k more [] l h = rw h refl
extend_last-last k more (o ∷ out) l h = rw (extend_last-last k more out l h) refl

pub starts_with-append : (k t : Str) → starts_with k (k ++ t) ≡ true
unfolding starts_with
starts_with-append k t = rw (starts_with, strip_prefix-append k t) refl

-- The line with the text `b` between the sign and the end.
abbrev line_of : Str → Str → Str
line_of o b = key o ++ (b ++ b';' ∷ [])

abbrev more_terms : List Str → Str
more_terms [] = []
more_terms (s ∷ ss) = codes " | " ++ (in_state s ++ more_terms ss)

assign_line :
    (o s : Str)
    → f_string (codes "assign " ∷ o ∷ codes " = (" ∷ cur ∷ codes " == " ∷ s ∷ codes ");" ∷ [])
      ≡ line_of o (in_state s)
unfolding f_string codes
assign_line o s = simp append_assoc

shorter_line : (o b : Str) → but_last (line_of o b) ≡ key o ++ b
shorter_line o b =
    ap but_last (sym (append_assoc (key o) b (b';' ∷ []))) ∙ but_last-snoc (key o ++ b) b';'

more_term :
    (o s b : Str)
    → (key o ++ b) ++ f_string (codes " | (" ∷ cur ∷ codes " == " ∷ s ∷ codes ");" ∷ [])
      ≡ line_of o (b ++ (codes " | " ++ in_state s))
unfolding codes f_string
more_term o s b = simp append_assoc

longer_line :
    (o s b : Str)
    → but_last (line_of o b) ++ f_string (codes " | (" ∷ cur ∷ codes " == " ∷ s ∷ codes ");" ∷ [])
      ≡ line_of o (b ++ (codes " | " ++ in_state s))
longer_line o s b = rw (shorter_line o b) (more_term o s b)

module _ (widths : Dict Str ℕ) (ports : List Str) where
  write_step-assign :
      (m o s : Str) (out : List Str) (branch : Bool)
      → write_step widths ports (codes "write_moore_output_assign", m ∷ o ∷ s ∷ []) (out, branch)
        ≡ ok (out ++ line_of o (in_state s) ∷ [], branch)
  unfolding write_step act lines_of state_block output_block moore_assign_line branch_after
      starts_with strip_prefix codes list_beq lookup f_string
  write_step-assign m o s out branch = ap (λ l. ok (out ++ l ∷ [], branch)) (assign_line o s)

  also_line :
      (m o s b : Str) (out : List Str)
      → also (m ∷ o ∷ s ∷ []) (out ++ line_of o b ∷ [])
        ≡ ok (out ++ line_of o (b ++ (codes " | " ++ in_state s)) ∷ [])
  unfolding also
  also_line m o s b out =
      rw
        (
          also,
          extend_last-last (key o)
              (f_string (codes " | (" ∷ cur ∷ codes " == " ∷ s ∷ codes ");" ∷ [])) out (line_of o b)
              (starts_with-append (key o) (b ++ b';' ∷ [])),
        )
        (ap (λ l. ok (out ++ l ∷ [])) (longer_line o s b))

  write_step-also :
      (m o s : Str) (out : List Str) (branch : Bool)
      → write_step widths ports (codes "write_moore_output_also", m ∷ o ∷ s ∷ []) (out, branch)
        ≡ (also (m ∷ o ∷ s ∷ []) out >>= λ lines. ok (lines, branch))
  unfolding write_step act starts_with strip_prefix codes list_beq lookup
  write_step-also m o s out branch = refl

  write_steps-also :
      (m o : Str) (ss : List Str) (b : Str) (out : List Str) (branch : Bool)
      → write_steps widths ports (moore_steps m o ss) (out ++ line_of o b ∷ [], branch)
        ≡ ok (out ++ line_of o (b ++ more_terms ss) ∷ [], branch)
  unfolding write_steps
  write_steps-also m o [] b out branch = rw append-nil refl
  write_steps-also m o (s ∷ ss) b out branch =
      rw (write_step-also m o s (out ++ line_of o b ∷ []) branch, also_line m o s b out)
        (write_steps-also m o ss (b ++ (codes " | " ++ in_state s)) out branch ∙ simp append_assoc)

terms_join :
    (s : Str) (ss : List Str)
    → join (codes " | ") (map in_state (s ∷ ss)) ≡ in_state s ++ more_terms ss
unfolding join
terms_join s [] = rw append-nil
terms_join s (t ∷ ss) = ap (λ j. in_state s ++ (codes " | " ++ j)) (terms_join t ss)

moore_line_lem :
    (o s : Str) (ss : List Str) → line_of o (in_state s ++ more_terms ss) ≡ moore_line o (s ∷ ss)
unfolding f_string codes
moore_line_lem o s ss = rw (terms_join s ss) (simp append_assoc)

-- An assignment and the additions to it come to one line, with a term for each state in their order,
-- after whatever lines are there.
pub write_steps-moore :
    (widths : Dict Str ℕ) (ports : List Str) (m o s : Str) (ss : List Str) (out : List Str)
    (branch : Bool)
    → write_steps widths ports
        ((codes "write_moore_output_assign", m ∷ o ∷ s ∷ []) ∷ moore_steps m o ss)
        (out, branch)
      ≡ ok (out ++ moore_line o (s ∷ ss) ∷ [], branch)
unfolding write_steps
write_steps-moore widths ports m o s ss out branch =
    rw (write_step-assign widths ports m o s out branch) (
      write_steps-also widths ports m o ss (in_state s) out branch
      ∙ ap (λ l. ok (out ++ l ∷ [], branch)) (moore_line_lem o s ss))
