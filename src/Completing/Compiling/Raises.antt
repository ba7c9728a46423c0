-- ===== src/Completing/Compiling/Raises.antt =====
-- What complete raises.
use htn_llm_rtl_gen.Shared.{crash}
use htn_llm_rtl_gen.Completing.{Draft}
use htn_llm_rtl_gen.Completing.Compiling.{
  split_last, declare_lines, problem_of, draft_of, encode, encode_found, complete,
}
use htn_llm_rtl_gen.Completing.Declaring.{
  first_number, keyed, insert_key, declare_missing, check_expects, name_input, drop_written,
  is_value_name, is_width_name, is_bitseq_name,
}
use htn_llm_rtl_gen.Completing.Expanding.{expand_sequences}
use htn_llm_rtl_gen.Completing.Expanding.Outcomes.{IsInvalid}
use htn_llm_rtl_gen.Completing.Expanding.Correct.{Yields}
use htn_llm_rtl_gen.Completing.Expanding.Whole.{expand_sequences_lem}
use htn_llm_rtl_gen.Problem.Sexpr.{Sexprs}
use htn_llm_rtl_gen.Problem.Reading.{Problem}
use htn_llm_rtl_gen.Problem.Emitting.{emit}
use htn_llm_rtl_gen.StateEncoding.{encoding, states_from}
use htn_llm_rtl_gen.StateEncoding.Search.{search, find_all, states_after, states_of}
use htn_llm_rtl_gen.StateEncoding.Chain.{states_from_ends}
use htn_llm_rtl_gen.Shared.{
  String, inl, inr, Bool, Option, none, some, List, [], ◌∷◌, insert_all, ◌>>=◌, Error, Result,
  nat_eq, list_eq, pair_eq, contains, Bool-cases, Option-cases, Str, codes, cycle,
  accepting_expects, ok, err,
}

-- An `Invalid`, or an exception that is not the compiler's own.
pub data IsRaised : Error → Type 0 where
  invalid : {e : Error} → IsInvalid e → IsRaised e
  expects_more : (f : List Str) → IsRaised (accepting_expects f)
  states_loop : IsRaised cycle
  crashes : IsRaised crash

abbrev pub OnlyRaised {ℓ} : {A : Type ℓ} → Result A → Type 0
OnlyRaised (ok v) = Unit
OnlyRaised (err e) = IsRaised e

OnlyRaised-bind {ℓ κ} :
    {A : Type ℓ} {B : Type κ} (m : Result A) (f : A → Result B)
    → OnlyRaised m
    → ((v : A) → OnlyRaised (f v))
    → OnlyRaised (m >>= f)
OnlyRaised-bind (ok v) f h k = k v
OnlyRaised-bind (err e) f h k = h

Yields-OnlyRaised {ℓ} : {A : Type ℓ} (P : A → Type 0) (m : Result A) → Yields P m → OnlyRaised m
Yields-OnlyRaised P (ok v) h = tt
Yields-OnlyRaised P (err e) h = invalid h

keyed-OnlyRaised : (xs : List Str) → OnlyRaised (keyed xs)
unfolding keyed
keyed-OnlyRaised [] = tt
keyed-OnlyRaised (x ∷ xs) = elim (Option-cases (first_number x)) [
  | inl e ↦ rw (OnlyRaised, keyed, e) crashes
  | inr (n, e) ↦
      rw (OnlyRaised, keyed, e)
        (OnlyRaised-bind (keyed xs) (λ ks. ok (insert_key (n, x) ks)) (keyed-OnlyRaised xs)
          (λ ks. tt))
]

declare_missing-OnlyRaised :
    (matching : Str → Bool) (type : String) (d : Draft)
    → OnlyRaised (declare_missing matching type d)
unfolding declare_missing
declare_missing-OnlyRaised matching type d =
    OnlyRaised-bind (keyed _) _ (keyed-OnlyRaised _) (λ ks. tt)

check_expects-OnlyRaised :
    (accepting : List Str) (fs : List (List Str)) → OnlyRaised (check_expects accepting fs)
unfolding check_expects
check_expects-OnlyRaised accepting [] = tt
check_expects-OnlyRaised accepting ([] ∷ fs) = check_expects-OnlyRaised accepting fs
check_expects-OnlyRaised accepting ((k ∷ []) ∷ fs) = check_expects-OnlyRaised accepting fs
check_expects-OnlyRaised accepting ((k ∷ a ∷ args) ∷ fs) =
    elim (Bool-cases (contains accepting a)) [
      | inl e ↦ rw (OnlyRaised, e) (expects_more (k ∷ a ∷ args))
      | inr e ↦ rw (OnlyRaised, e) (check_expects-OnlyRaised accepting fs)
    ]

declare_lines-OnlyRaised : (lines : List Str) (d : Draft) → OnlyRaised (declare_lines lines d)
unfolding declare_lines
declare_lines-OnlyRaised [] d = tt
declare_lines-OnlyRaised (line ∷ lines) d = elim (Option-cases (split_last line)) [
  | inl e ↦ rw (OnlyRaised, declare_lines, e) crashes
  | inr ((ns, type), e) ↦ rw (OnlyRaised, declare_lines, e) (declare_lines-OnlyRaised lines _)
]

states_after-OnlyRaised :
    (link text machine s : Str) → OnlyRaised (states_after link text machine s)
unfolding states_after
states_after-OnlyRaised link text machine s =
    let after = insert_all (find_all link text) [] in
    OnlyRaised-bind (states_from after s) _
      (elim (states_from_ends after s) [
        | inl (r, e) ↦ rw (OnlyRaised, e) tt
        | inr e ↦ rw (OnlyRaised, e) states_loop
      ])
      (λ states. tt)

states_of-OnlyRaised : (text : Str) → OnlyRaised (states_of text)
unfolding states_of
states_of-OnlyRaised text = elim (Option-cases (search (codes "first_listed") text)) [
  | inr ((m, s), e) ↦
      rw (OnlyRaised, states_of, e) (states_after-OnlyRaised (codes "listed_after") text m s)
  | inl e ↦ elim (Option-cases (search (codes "initial_state") text)) [
    | inr ((m, s), k) ↦
        rw (OnlyRaised, states_of, e, k) (states_after-OnlyRaised (codes "next_prefix") text m s)
    | inl k ↦ rw (OnlyRaised, states_of, e, k) tt
  ]
]

encode_found-OnlyRaised :
    (d : Draft) (found : Option (Str × List Str)) → OnlyRaised (encode_found d found)
unfolding encode_found
encode_found-OnlyRaised d none = tt
encode_found-OnlyRaised d (some (machine, states)) =
    OnlyRaised-bind (declare_lines (encoding machine states).0 d) _
      (declare_lines-OnlyRaised (encoding machine states).0 d) (λ e. tt)

module _ (show_list : Sexprs → Str) where
  encode-OnlyRaised : (d : Draft) → OnlyRaised (encode show_list d)
  unfolding encode
  encode-OnlyRaised d =
      OnlyRaised-bind (states_of (emit show_list (problem_of d))) _
        (states_of-OnlyRaised (emit show_list (problem_of d))) (encode_found-OnlyRaised d)

  -- Whatever the problem, complete returns or raises one of the errors of an invalid file or `crash`: no
  -- key is missing and no loop runs out of its rounds.
  pub complete-OnlyRaised : (p : Problem) → OnlyRaised (complete show_list p)
  unfolding complete
  complete-OnlyRaised p =
      OnlyRaised-bind (declare_missing is_value_name "value" (drop_written (draft_of p))) _
        (declare_missing-OnlyRaised is_value_name "value" (drop_written (draft_of p)))
        (λ values.
          OnlyRaised-bind (declare_missing is_width_name "width" values) _
            (declare_missing-OnlyRaised is_width_name "width" values)
            (λ widths.
              OnlyRaised-bind (declare_missing is_bitseq_name "bitseq" widths) _
                (declare_missing-OnlyRaised is_bitseq_name "bitseq" widths)
                (λ d.
                  OnlyRaised-bind (check_expects _ _) _ (check_expects-OnlyRaised _ _) (λ checked.
                    OnlyRaised-bind (expand_sequences (name_input d)) _
                      (Yields-OnlyRaised _ (expand_sequences (name_input d))
                        (expand_sequences_lem (name_input d)))
                      (λ e. encode-OnlyRaised e)))))
