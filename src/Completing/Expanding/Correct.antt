-- ===== src/Completing/Expanding/Correct.antt =====
-- What expand_sequences writes for the sequences of a file.
use mathlib.Core.Path.{subst}
use htn_llm_rtl_gen.Completing.{Draft, is_fact, with_note, with_facts}
use htn_llm_rtl_gen.Completing.Expanding.{
  names_of, child_facts, output_facts, keep_facts, start_of, holding_of, listed_states, chain_facts,
  all_complete, expand, list_states, expansion_note,
}
use htn_llm_rtl_gen.Completing.Expanding.Listed.{
  listed_states_within, listed_states-Distinct, listed_states-seen,
}
use htn_llm_rtl_gen.Completing.Expanding.Outcomes.{
  IsInvalid, OnlyInvalid, names_of-OnlyInvalid, child_facts-OnlyInvalid, output_facts-OnlyInvalid,
  keep_facts-OnlyInvalid, start_of-OnlyInvalid, start_of-prefix, all_complete-OnlyInvalid,
  state_names-OnlyInvalid, get-OnlyInvalid,
}
use htn_llm_rtl_gen.Recogniser.Machine.{Bit, bit_eq, Bits, fail_links, reachable_prefixes}
use htn_llm_rtl_gen.Recogniser.Machine.Run.{run}
use htn_llm_rtl_gen.Recogniser.Machine.Reach.Exact.{reachable_prefixes-IsSearch}
use htn_llm_rtl_gen.Recogniser.Names.{state_names}
use htn_llm_rtl_gen.Recogniser.Names.Unique.{state_names_lem}
use htn_llm_rtl_gen.Recogniser.Prefixes.{prefixes_of}
use htn_llm_rtl_gen.Recogniser.Prefixes.Ordered.{
  prefixes_of-IsClosed, prefixes_of-ShortestFirst, prefixes_of-empty, prefixes_of-All,
}
use htn_llm_rtl_gen.Recogniser.Prefixes.Once.{prefixes_of-Distinct}
use htn_llm_rtl_gen.Shared.{
  ◌≡◌, refl, sym, ap, ◌∙◌, ◌≢◌, ◌↔◌, inl, inr, true, some, List, [], ◌∷◌, ◌++◌, append_assoc, arith,
  Dict, lookup, length, filter, All, Distinct, All-map, ◌>>=◌, get, >>=-eq-ok, Result, nat_eq,
  list_eq, pair_eq, contains, Bool-cases, Str, codes, ok, err,
}

-- The result is a value with the property, or an error of an invalid file.
abbrev pub Yields {ℓ} : {A : Type ℓ} → (A → Type 0) → Result A → Type 0
Yields P (ok v) = P v
Yields P (err e) = IsInvalid e

pub Yields-bind {ℓ κ} :
    {A : Type ℓ} {B : Type κ} (P : B → Type 0) (m : Result A) (f : A → Result B)
    → OnlyInvalid m
    → ((v : A) → m ≡ ok v → Yields P (f v))
    → Yields P (m >>= f)
Yields-bind P (ok v) f h k = k v refl
Yields-bind P (err e) f h k = h

module _ (names : Dict Bits Str) where
  get-lookup : (x : Bits) (n : Str) → get x names ≡ ok n → lookup x names ≡ some n
  get-lookup x n h = ground arith

  -- What holds of the names of the states holds of the list of names.
  names_of-All :
      (Q : Str → Type 0) (xs : List Bits) (ns : List Str)
      → names_of names xs ≡ ok ns
      → All (λ x. (n : Str) → lookup x names ≡ some n → Q n) xs
      → All Q ns
  unfolding names_of
  names_of-All Q [] [] h k = tt
  names_of-All Q [] (n ∷ ns) h k = cc
  names_of-All Q (x ∷ xs) ns h k =
      let (n, p, h2) = >>=-eq-ok (get x names) _ h in
      let (rest, q, e) = >>=-eq-ok (names_of names xs) _ h2 in
      let same : n ∷ rest ≡ ns = cc in
      subst (All Q) same (k.0 n (get-lookup x n p), names_of-All Q xs rest q k.1)

  -- Different states have different names.
  names_of-Distinct :
      ((x y : Bits) (n : Str) → lookup x names ≡ some n → lookup y names ≡ some n → x ≡ y)
      → (xs : List Bits) (ns : List Str) → names_of names xs ≡ ok ns
      → Distinct xs
      → Distinct ns
  unfolding names_of
  names_of-Distinct once [] [] h d = tt
  names_of-Distinct once [] (n ∷ ns) h d = cc
  names_of-Distinct once (x ∷ xs) ns h d =
      let (n, p, h2) = >>=-eq-ok (get x names) _ h in
      let (rest, q, e) = >>=-eq-ok (names_of names xs) _ h2 in
      let same : n ∷ rest ≡ ns = cc in
      subst Distinct same (
        names_of-All (λ m. n ≢ m) xs rest q
            (All-map
              (λ y ne m look eq. ne (once x y n (get-lookup x n p) (look ∙ ap some (sym eq)))) xs
              d.0),
        names_of-Distinct once xs rest q d.1,
      )

all_complete-All :
    (reachable : List Bits) (rs : List (Str × Bits))
    → all_complete reachable rs ≡ ok tt
    → All (λ r. contains reachable r.1 ≡ true) rs
unfolding all_complete
all_complete-All reachable [] h = tt
all_complete-All reachable ((out, bits) ∷ rs) h = elim (Bool-cases (contains reachable bits)) [
  | inl e ↦ (e, all_complete-All reachable rs (rw e at h))
  | inr e ↦ cc (rw e at h)
]

-- What is listed for the sequences, where `d` has the facts before it: the machine from its start,
-- with the outputs that are kept, and the names of its states, in the order of the listed chain.
pub record IsListing (recognised : List (Str × Bits)) (names : Dict Bits Str) (d e : Draft)
    : Type 0 where
  pub start : Bits
  pub initial : Str
  pub holding : List (Bits × Bit)
  pub fail : Dict Bits Bits
  pub seen : List Bits
  pub listed_names : List Str
  pub started :
      start_of (prefixes_of recognised) (filter (is_fact "reset_as_previous" 3) d.facts) ≡ ok start
  pub named : names_of names (listed_states (prefixes_of recognised) seen start) ≡ ok listed_names
  pub first : lookup start names ≡ some initial
  pub different : Distinct listed_names
  pub kept :
      holding
      ≡ holding_of recognised (
          filter
            (is_fact "keeps_while" 3)
            (d.facts ++ (codes "initial_state" ∷ d.module_name ∷ initial ∷ []) ∷ []))
  pub linked : fail_links (prefixes_of recognised) holding (prefixes_of recognised) [] ≡ ok fail
  pub exact :
      (y : Bits)
      → (contains (listed_states (prefixes_of recognised) seen start) y ≡ true)
        ↔ ((w : Bits) × (run (prefixes_of recognised) holding fail start w ≡ ok y))
  pub completes :
      All
        (λ r. (w : Bits) × (run (prefixes_of recognised) holding fail start w ≡ ok r.1))
        recognised
  pub written :
      e.facts
      ≡ (d.facts ++ (codes "initial_state" ∷ d.module_name ∷ initial ∷ []) ∷ [])
        ++ chain_facts d.module_name listed_names

module _ (r : Str × Bits) (rs : List (Str × Bits)) (names : Dict Bits Str)
    (made : state_names (prefixes_of (r ∷ rs)) (r ∷ rs) ≡ ok names) (d : Draft) where
  -- From the search on.
  listed_by :
      (start : Bits) (initial : Str) (holding : List (Bits × Bit))
      → start_of (prefixes_of (r ∷ rs)) (filter (is_fact "reset_as_previous" 3) d.facts) ≡ ok start
      → get start names ≡ ok initial
      → holding
        ≡ holding_of (r ∷ rs) (
            filter
              (is_fact "keeps_while" 3)
              (d.facts ++ (codes "initial_state" ∷ d.module_name ∷ initial ∷ []) ∷ []))
      → Yields (IsListing (r ∷ rs) names d) (do
        reachable ← reachable_prefixes (prefixes_of (r ∷ rs)) holding start
        let listed = listed_states (prefixes_of (r ∷ rs)) reachable start
        listed_names ← names_of names listed
        done ← all_complete reachable (r ∷ rs)
        ok (
            with_note
              (expansion_note (length (r ∷ rs)) (length listed) (length (prefixes_of (r ∷ rs))))
              (with_facts
                ((d.facts ++ (codes "initial_state" ∷ d.module_name ∷ initial ∷ []) ∷ [])
                  ++ chain_facts d.module_name listed_names)
                d)))
  listed_by start initial holding from_facts first kept =
      let prefixes = prefixes_of (r ∷ rs) in
      let P = IsListing (r ∷ rs) names d in
      let (all_named, once) = state_names_lem prefixes (r ∷ rs) names made in
      let there =
        start_of-prefix prefixes (prefixes_of-empty r rs)
          (filter (is_fact "reset_as_previous" 3) d.facts) start from_facts in
      let (fail, linked, (seen, e, inv, found)) =
        reachable_prefixes-IsSearch prefixes holding start (prefixes_of-IsClosed (r ∷ rs))
          (prefixes_of-ShortestFirst (r ∷ rs)) (prefixes_of-empty r rs) there in
      rw (Yields, e)
        (Yields-bind P (names_of names (listed_states prefixes seen start)) _
          (names_of-OnlyInvalid prefixes names all_named (listed_states prefixes seen start)
            (listed_states_within prefixes seen start there))
          (λ listed_names q.
            Yields-bind P (all_complete seen (r ∷ rs)) _ (all_complete-OnlyInvalid seen (r ∷ rs))
              (λ done k. record {
                start = start;
                initial = initial;
                holding = holding;
                fail = fail;
                seen = seen;
                listed_names = listed_names;
                started = from_facts;
                named = q;
                first = get-lookup names start initial first;
                different =
                    names_of-Distinct names once (listed_states prefixes seen start) listed_names q
                      (listed_states-Distinct prefixes seen start (prefixes_of-Distinct (r ∷ rs)));
                kept = kept;
                linked = linked;
                exact = λ y.
                    let same = listed_states-seen prefixes seen start inv.started inv.within y in
                    (λ h. (found y).0 (same.0 h), λ h. same.1 ((found y).1 h));
                completes =
                    All-map (λ o h. (found o.1).0 h) (r ∷ rs) (all_complete-All seen (r ∷ rs) k);
                written = refl;
              })))

  list_states_correct : Yields (IsListing (r ∷ rs) names d) (list_states (r ∷ rs) names d)
  unfolding list_states
  list_states_correct =
      let prefixes = prefixes_of (r ∷ rs) in
      let P = IsListing (r ∷ rs) names d in
      let fs = filter (is_fact "reset_as_previous" 3) d.facts in
      let (named, _) = state_names_lem prefixes (r ∷ rs) names made in
      let empty = prefixes_of-empty r rs in
      Yields-bind P (start_of prefixes fs) _ (start_of-OnlyInvalid prefixes fs) (λ start from_facts.
        Yields-bind P (get start names) _
          (get-OnlyInvalid prefixes names named start
            (start_of-prefix prefixes empty fs start from_facts))
          (λ initial first. listed_by start initial _ from_facts first refl))

-- A listing for the names that are given to the states; only facts are added before it.
abbrev pub IsExpansion : List (Str × Bits) → Draft → Draft → Type 0
IsExpansion recognised d e =
    (names : Dict Bits Str) × (state_names (prefixes_of recognised) recognised ≡ ok names)
    × ((stated : Draft) × (stated.module_name ≡ d.module_name)
        × ((added : List (List Str)) × (stated.facts ≡ d.facts ++ added))
        × IsListing recognised names stated e)

pub Yields-map {ℓ} :
    {A : Type ℓ} {P Q : A → Type 0} (m : Result A) → ((v : A) → P v → Q v) → Yields P m → Yields Q m
Yields-map (ok v) f h = f v h
Yields-map (err e) f h = h

-- Whatever the file says, expanding at least one sequence raises one of the errors of an invalid file or
-- gives an expansion: the listed states are those that some input leads to from the start, each
-- once and under different names, the chain of these names is written, and each sequence completes
-- after some input.
pub expand_correct :
    (r : Str × Bits) (rs : List (Str × Bits)) (d : Draft)
    → Yields (IsExpansion (r ∷ rs) d) (expand (r ∷ rs) d)
unfolding expand
expand_correct r rs d =
    let recognised = r ∷ rs in
    let prefixes = prefixes_of recognised in
    let within = prefixes_of-All recognised in
    let P = IsExpansion recognised d in
    Yields-bind P (state_names prefixes recognised) _ (state_names-OnlyInvalid prefixes recognised)
      (λ names made.
        let (named, once) = state_names_lem prefixes recognised names made in
        Yields-bind P (names_of names prefixes) _
          (names_of-OnlyInvalid prefixes names named prefixes (λ x h. h))
          (λ states e1.
            Yields-bind P (get [] names) _
              (get-OnlyInvalid prefixes names named [] (prefixes_of-empty r rs))
              (λ nothing e2.
                Yields-bind P (child_facts prefixes names prefixes) _
                  (child_facts-OnlyInvalid prefixes names named prefixes (λ x h. h))
                  (λ children e3.
                    Yields-bind P (output_facts prefixes names recognised) _
                      (output_facts-OnlyInvalid prefixes names named recognised within)
                      (λ outputs e4.
                        Yields-bind P (keep_facts names recognised _) _
                          (keep_facts-OnlyInvalid prefixes names named recognised _ within)
                          (λ keeps e5.
                            Yields-map (list_states recognised names _)
                              (λ e h.
                                (names, made, (_, refl, (_, append_assoc d.facts _ keeps), h)))
                              (list_states_correct r rs names made _)))))))
