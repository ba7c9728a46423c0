-- ===== src/Completing/Expanding/Outcomes.antt =====
-- What expand_sequences raises.
use htn_llm_rtl_gen.Completing.Expanding.{
  bits_of, word_bit, recognised_of, names_of, child_fact, child_facts, output_facts, hold_facts,
  keep_facts, start_of, all_complete,
}
use htn_llm_rtl_gen.Recogniser.Machine.{Bit, b0, b1, bit_eq, Bits}
use htn_llm_rtl_gen.Recogniser.Names.{distinct, values, name_groups, name_outputs, state_names}
use htn_llm_rtl_gen.Recogniser.Prefixes.{ends_of}
use htn_llm_rtl_gen.Recogniser.Sequence.{sequence_bits}
use htn_llm_rtl_gen.Shared.{
  ℕ, ◌≡◌, refl, inl, inr, Bool, true, false, ◌||◌, none, some, List, [], ◌∷◌, ◌++◌, arith, Dict,
  lookup, length, is_empty, All, ◌>>=◌, get, Error, Result, ◌==◌, nat_eq, if◌then◌else◌, list_eq,
  pair_eq, contains, contains_tail, contains_head, Bool-cases, Option-cases, Str, not_a_sequence,
  shared_name, asserted_in_several, names_no_output, no_sequence_begins, never_completes, ok, err,
}

-- The errors that expand_sequences raises itself, each an `Invalid`.
pub data IsInvalid : Error → Type 0 where
  no_bits : (seq : Str) → IsInvalid (not_a_sequence seq)
  one_name : IsInvalid shared_name
  several_states : (out : Str) (n : ℕ) → IsInvalid (asserted_in_several out n)
  no_output : (f : List Str) → IsInvalid (names_no_output f)
  no_beginning : (f : List Str) → IsInvalid (no_sequence_begins f)
  no_end : (out : Str) → IsInvalid (never_completes out)

-- The result is a value or one of these errors.
abbrev pub OnlyInvalid {ℓ} : {A : Type ℓ} → Result A → Type 0
OnlyInvalid (ok v) = Unit
OnlyInvalid (err e) = IsInvalid e

OnlyInvalid-bind {ℓ κ} :
    {A : Type ℓ} {B : Type κ} (m : Result A) (f : A → Result B)
    → OnlyInvalid m
    → ((v : A) → m ≡ ok v → OnlyInvalid (f v))
    → OnlyInvalid (m >>= f)
OnlyInvalid-bind (ok v) f h k = k v refl
OnlyInvalid-bind (err e) f h k = h

OnlyInvalid-ok {ℓ} : {A : Type ℓ} (m : Result A) (v : A) → m ≡ ok v → OnlyInvalid m
OnlyInvalid-ok m v e = rw e tt

pub recognised_of-OnlyInvalid : (fs : List (List Str)) → OnlyInvalid (recognised_of fs)
unfolding recognised_of
recognised_of-OnlyInvalid [] = tt
recognised_of-OnlyInvalid ([] ∷ fs) = recognised_of-OnlyInvalid fs
recognised_of-OnlyInvalid ((k ∷ []) ∷ fs) = recognised_of-OnlyInvalid fs
recognised_of-OnlyInvalid ((k ∷ m ∷ []) ∷ fs) = recognised_of-OnlyInvalid fs
recognised_of-OnlyInvalid ((k ∷ m ∷ out ∷ []) ∷ fs) = recognised_of-OnlyInvalid fs
recognised_of-OnlyInvalid ((k ∷ m ∷ out ∷ seq ∷ more) ∷ fs) =
    elim (Option-cases (sequence_bits seq)) [
      | inl e ↦ rw (OnlyInvalid, e) (no_bits seq)
      | inr (bits, e) ↦
          rw (OnlyInvalid, e)
            (OnlyInvalid-bind (recognised_of fs) (λ rest. ok ((out, bits) ∷ rest))
              (recognised_of-OnlyInvalid fs) (λ v p. tt))
    ]

module _ (prefixes : List Bits) (names : Dict Bits Str)
    (named : (x : Bits) → contains prefixes x ≡ true → (n : Str) × (lookup x names ≡ some n)) where
  get-named : (x : Bits) → contains prefixes x ≡ true → (n : Str) × (get x names ≡ ok n)
  get-named x h = let (n, e) = named x h in (n, rw (get, e) refl)

  pub get-OnlyInvalid : (x : Bits) → contains prefixes x ≡ true → OnlyInvalid (get x names)
  get-OnlyInvalid x h = let (n, e) = get-named x h in OnlyInvalid-ok (get x names) n e

  pub names_of-OnlyInvalid :
      (xs : List Bits)
      → ((x : Bits) → contains xs x ≡ true → contains prefixes x ≡ true)
      → OnlyInvalid (names_of names xs)
  unfolding names_of
  names_of-OnlyInvalid [] h = tt
  names_of-OnlyInvalid (x ∷ xs) h =
      OnlyInvalid-bind (get x names) _ (get-OnlyInvalid x (h x (contains_head x xs))) (λ n p.
        OnlyInvalid-bind (names_of names xs) _
          (names_of-OnlyInvalid xs (λ y q. h y (contains_tail x y xs q))) (λ rest q. tt))

  child_fact-OnlyInvalid :
      (x : Bits) (b : Bit)
      → contains prefixes x ≡ true
      → OnlyInvalid (child_fact prefixes names x b)
  unfolding child_fact
  child_fact-OnlyInvalid x b h =
      let (n, e) = get-named x h in
      elim (Bool-cases (contains prefixes (x ++ b ∷ []))) [
        | inl child ↦ let (m, q) = get-named (x ++ b ∷ []) child in rw (e, child, q) tt
        | inr no_child ↦ rw (e, no_child) tt
      ]

  pub child_facts-OnlyInvalid :
      (xs : List Bits)
      → ((x : Bits) → contains xs x ≡ true → contains prefixes x ≡ true)
      → OnlyInvalid (child_facts prefixes names xs)
  unfolding child_facts
  child_facts-OnlyInvalid [] h = tt
  child_facts-OnlyInvalid (x ∷ xs) h =
      let there = h x (contains_head x xs) in
      OnlyInvalid-bind (child_fact prefixes names x b0) _ (child_fact-OnlyInvalid x b0 there)
        (λ u p.
          OnlyInvalid-bind (child_fact prefixes names x b1) _ (child_fact-OnlyInvalid x b1 there)
            (λ v q.
              OnlyInvalid-bind (child_facts prefixes names xs) _
                (child_facts-OnlyInvalid xs (λ y q. h y (contains_tail x y xs q))) (λ rest q. tt)))

  pub output_facts-OnlyInvalid :
      (rs : List (Str × Bits))
      → All (λ r. contains prefixes r.1 ≡ true) rs
      → OnlyInvalid (output_facts prefixes names rs)
  unfolding output_facts
  output_facts-OnlyInvalid [] h = tt
  output_facts-OnlyInvalid ((out, bits) ∷ rs) h =
      elim (Bool-cases (length (ends_of prefixes bits) == 1)) [
        | inl one ↦
            rw (OnlyInvalid, one)
              (OnlyInvalid-bind (get bits names) _ (get-OnlyInvalid bits h.0) (λ n p.
                OnlyInvalid-bind (output_facts prefixes names rs) _
                  (output_facts-OnlyInvalid rs h.1) (λ rest q. tt)))
        | inr more ↦ rw (OnlyInvalid, more) (several_states out (length (ends_of prefixes bits)))
      ]

  hold_facts-OnlyInvalid :
      (w : Str) (xs : List Bits)
      → All (λ x. contains prefixes x ≡ true) xs
      → OnlyInvalid (hold_facts names w xs)
  unfolding hold_facts
  hold_facts-OnlyInvalid w [] h = tt
  hold_facts-OnlyInvalid w (x ∷ xs) h =
      OnlyInvalid-bind (get x names) _ (get-OnlyInvalid x h.0) (λ n p.
        OnlyInvalid-bind (hold_facts names w xs) _ (hold_facts-OnlyInvalid w xs h.1) (λ rest q. tt))

  bits_of-All :
      (o : Str) (rs : List (Str × Bits))
      → All (λ r. contains prefixes r.1 ≡ true) rs
      → All (λ x. contains prefixes x ≡ true) (bits_of o rs)
  unfolding bits_of
  bits_of-All o [] h = tt
  bits_of-All o ((out, bits) ∷ rs) h = elim (Bool-cases (out == o)) [
    | inl e ↦ rw e (h.0, bits_of-All o rs h.1)
    | inr e ↦ rw e (bits_of-All o rs h.1)
  ]

  pub keep_facts-OnlyInvalid :
      (recognised : List (Str × Bits)) (fs : List (List Str))
      → All (λ r. contains prefixes r.1 ≡ true) recognised
      → OnlyInvalid (keep_facts names recognised fs)
  unfolding keep_facts
  keep_facts-OnlyInvalid recognised [] h = tt
  keep_facts-OnlyInvalid recognised ([] ∷ fs) h = keep_facts-OnlyInvalid recognised fs h
  keep_facts-OnlyInvalid recognised ((k ∷ []) ∷ fs) h = keep_facts-OnlyInvalid recognised fs h
  keep_facts-OnlyInvalid recognised ((k ∷ o ∷ []) ∷ fs) h = keep_facts-OnlyInvalid recognised fs h
  keep_facts-OnlyInvalid recognised ((k ∷ o ∷ w ∷ args) ∷ fs) h =
      elim (Bool-cases
        (is_empty (bits_of o recognised) || elim (word_bit w) [ none ↦ true | some b ↦ false ])) [
          | inl e ↦ rw (OnlyInvalid, e) (no_output (k ∷ o ∷ w ∷ args))
          | inr e ↦
              rw (OnlyInvalid, e)
                (OnlyInvalid-bind (hold_facts names w (bits_of o recognised)) _
                  (hold_facts-OnlyInvalid w (bits_of o recognised) (bits_of-All o recognised h))
                  (λ holds p.
                    OnlyInvalid-bind (keep_facts names recognised fs) _
                      (keep_facts-OnlyInvalid recognised fs h) (λ rest q. tt)))
        ]

module _ (prefixes : List Bits) where
  pub start_of-OnlyInvalid : (fs : List (List Str)) → OnlyInvalid (start_of prefixes fs)
  unfolding start_of
  start_of-OnlyInvalid [] = tt
  start_of-OnlyInvalid ([] ∷ fs) = start_of-OnlyInvalid fs
  start_of-OnlyInvalid ((k ∷ []) ∷ fs) = start_of-OnlyInvalid fs
  start_of-OnlyInvalid ((k ∷ m ∷ []) ∷ fs) = start_of-OnlyInvalid fs
  start_of-OnlyInvalid ((k ∷ m ∷ w ∷ args) ∷ fs) = elim (Option-cases (word_bit w)) [
    | inl e ↦ rw (OnlyInvalid, e) (no_beginning (k ∷ m ∷ w ∷ args))
    | inr (b, e) ↦ elim (Bool-cases (contains prefixes (b ∷ []))) [
      | inl there ↦ rw (OnlyInvalid, e, there) tt
      | inr other ↦ rw (OnlyInvalid, e, other) (no_beginning (k ∷ m ∷ w ∷ args))
    ]
  ]

  pub start_of-prefix :
      contains prefixes [] ≡ true
      → (fs : List (List Str)) (start : Bits) → start_of prefixes fs ≡ ok start
      → contains prefixes start ≡ true
  unfolding start_of
  start_of-prefix empty [] start h = ground (arith, empty)
  start_of-prefix empty ([] ∷ fs) start h = start_of-prefix empty fs start h
  start_of-prefix empty ((k ∷ []) ∷ fs) start h = start_of-prefix empty fs start h
  start_of-prefix empty ((k ∷ m ∷ []) ∷ fs) start h = start_of-prefix empty fs start h
  start_of-prefix empty ((k ∷ m ∷ w ∷ args) ∷ fs) start h = ground arith

pub all_complete-OnlyInvalid :
    (reachable : List Bits) (rs : List (Str × Bits)) → OnlyInvalid (all_complete reachable rs)
unfolding all_complete
all_complete-OnlyInvalid reachable [] = tt
all_complete-OnlyInvalid reachable ((out, bits) ∷ rs) =
    elim (Bool-cases (contains reachable bits)) [
      | inl e ↦ rw (OnlyInvalid, e) (all_complete-OnlyInvalid reachable rs)
      | inr e ↦ rw (OnlyInvalid, e) (no_end out)
    ]

pub state_names-OnlyInvalid :
    (prefixes : List Bits) (recognised : List (Str × Bits))
    → OnlyInvalid (state_names prefixes recognised)
unfolding state_names
state_names-OnlyInvalid prefixes recognised =
    checked (length (distinct (values names)) == length names) names
  where
    names : Dict Bits Str
    names =
        let (outputs, by_length) = name_outputs recognised prefixes ([], []) in
        name_groups by_length outputs

    checked :
        (same : Bool) (ns : Dict Bits Str) → OnlyInvalid (if same then ok ns else err shared_name)
    checked true ns = tt
    checked false ns = one_name
