-- ===== src/Lift/Picking.antt =====
-- A pattern that picks out a fact determines its variables.
use htn_llm_rtl_gen.Loops.{Fact}
use htn_llm_rtl_gen.Lift.{
  Columns, is_variable, stands_for, see, match_arg, match_args, match_fact, matches_of, only_one,
  picks_out,
}
use mathlib.Core.Path.{subst}
use htn_llm_rtl_gen.Shared.{
  some_injective, ℕ, ◌≡◌, refl, sym, ap, ◌∙◌, ◌≢◌, inl, inr, Bool, true, false, Option, none, some,
  List, [], ◌∷◌, map, arith, Dict, lookup, insert, lookup-insert, all, All, All-map, ◌==◌, eq_iff,
  nat_eq, if◌then◌else◌, list_eq, pair_eq, eq_self, eq_of_beq, contains, contains-nil,
  contains_cases, Bool-cases, Option-cases, Str,
}

all_cons {ℓ} :
    {A : Type ℓ} (p : A → Bool) (x : A) (xs : List A)
    → all p (x ∷ xs) ≡ true
    → (p x ≡ true) × (all p xs ≡ true)
unfolding all
all_cons p x xs h = (ground arith, ground arith)

abbrev none_seen : Dict Str Str
none_seen = []

nothing_seen : (r x : Str) → lookup r none_seen ≢ some x
unfolding lookup
nothing_seen r x q = cc q

lookup_here :
    (r s y : Str) (seen : Dict Str Str) → (s == r) ≡ true → lookup r ((s, y) ∷ seen) ≡ some y
unfolding lookup
lookup_here r s y seen e = rw (lookup, e) refl

lookup_later :
    (r s y : Str) (seen : Dict Str Str)
    → (s == r) ≡ false
    → lookup r seen ≡ lookup r ((s, y) ∷ seen)
unfolding lookup
lookup_later r s y seen e = rw (lookup, e) refl

module _ (variables : Columns) (k : ℕ) (bound : List Str) (value : Str → Str) where
  -- A reading with its variables replaced.
  abbrev pub filled : Str → Str
  filled r = if is_variable r then value r else r

  -- The values are those of the example for the variables that are bound.
  abbrev pub Extends : Type 0
  Extends = (r : Str) → contains bound r ≡ true → stands_for variables k r (value r) ≡ true

  abbrev Agrees : Dict Str Str → Type 0
  Agrees seen = (r x : Str) → lookup r seen ≡ some x → x ≡ value r

  abbrev Sees : Dict Str Str → Str → Type 0
  Sees seen r = lookup r seen ≡ some (value r)

  -- What a match that agrees with the values comes to.
  abbrev Matched : List Str → Dict Str Str → Option (Dict Str Str) → Type 0
  Matched reading seen o =
      (seen' : Dict Str Str) × (o ≡ some seen')
      × Agrees seen'
      × ((r : Str) → Sees seen r → Sees seen' r)
      × All (λ r. is_variable r ≡ true → contains bound r ≡ false → Sees seen' r) reading

  abbrev matched_arg : Str → Dict Str Str → Option (Dict Str Str)
  matched_arg r seen = match_arg variables k bound (filled r) r seen

  constant_arg :
      (r : Str) (seen : Dict Str Str) → is_variable r ≡ false → matched_arg r seen ≡ some seen
  unfolding match_arg
  constant_arg r seen v = rw (match_arg, v, eq_self r) refl

  bound_arg :
      (r : Str) (seen : Dict Str Str)
      → Extends
      → is_variable r ≡ true
      → contains bound r ≡ true
      → matched_arg r seen ≡ some seen
  unfolding match_arg
  bound_arg r seen ext v b = rw (match_arg, v, b, ext r b) refl

  free_arg :
      (r : Str) (seen : Dict Str Str)
      → is_variable r ≡ true
      → contains bound r ≡ false
      → matched_arg r seen ≡ see r (value r) seen
  unfolding match_arg
  free_arg r seen v b = rw (match_arg, v, b) refl

  seen_already : (r : Str) (seen : Dict Str Str) → Sees seen r → see r (value r) seen ≡ some seen
  unfolding see
  seen_already r seen e = rw (see, e, eq_self (value r)) refl

  seen_first :
      (r : Str) (seen : Dict Str Str)
      → lookup r seen ≡ none
      → see r (value r) seen ≡ some (insert r (value r) seen)
  unfolding see
  seen_first r seen e = rw (see, e) refl

  insert_found :
      (r s : Str) (seen : Dict Str Str)
      → (r == s) ≡ true
      → some (value s) ≡ lookup s (insert r (value r) seen)
  insert_found r s seen e =
      rw (lookup-insert r s (value r) seen, e) (ap (λ t. some (value t)) (sym (eq_of_beq e)))

  insert_other :
      (r s : Str) (seen : Dict Str Str)
      → (r == s) ≡ false
      → lookup s seen ≡ lookup s (insert r (value r) seen)
  insert_other r s seen e = rw (lookup-insert r s (value r) seen, e) refl

  insert-Agrees : (r : Str) (seen : Dict Str Str) → Agrees seen → Agrees (insert r (value r) seen)
  insert-Agrees r seen h s x q = elim (Bool-cases (r == s)) [
    | inl e ↦ sym (some_injective (insert_found r s seen e ∙ q))
    | inr e ↦ h s x (insert_other r s seen e ∙ q)
  ]

  insert-Sees : (r s : Str) (seen : Dict Str Str) → Sees seen s → Sees (insert r (value r) seen) s
  insert-Sees r s seen q = elim (Bool-cases (r == s)) [
    | inl e ↦ rw (lookup-insert r s (value r) seen, e) (ap (λ t. some (value t)) (eq_of_beq e))
    | inr e ↦ rw (lookup-insert r s (value r) seen, e) q
  ]

  insert-Sees_self : (r : Str) (seen : Dict Str Str) → Sees (insert r (value r) seen) r
  insert-Sees_self r seen = rw (lookup-insert r r (value r) seen, eq_self r) refl

  see-Matched :
      (r : Str) (seen : Dict Str Str) → Agrees seen → Matched (r ∷ []) seen (see r (value r) seen)
  see-Matched r seen h = elim (Option-cases (lookup r seen)) [
    | inr (x, e) ↦
        let sees = e ∙ ap some (h r x e) in
        (seen, seen_already r seen sees, h, (λ s q. q), ((λ v b. sees), tt))
    | inl e ↦ (
      insert r (value r) seen,
      seen_first r seen e,
      insert-Agrees r seen h,
      (λ s q. insert-Sees r s seen q),
      ((λ v b. insert-Sees_self r seen), tt),
    )
  ]

  match_arg-Matched :
      (r : Str) (seen : Dict Str Str)
      → Extends
      → Agrees seen
      → Matched (r ∷ []) seen (matched_arg r seen)
  match_arg-Matched r seen ext h = elim (Bool-cases (is_variable r)) [
    | inr v ↦ (seen, constant_arg r seen v, h, (λ s q. q), ((λ w b. absurd (cc (v, w))), tt))
    | inl v ↦ elim (Bool-cases (contains bound r)) [
      | inl b ↦ (seen, bound_arg r seen ext v b, h, (λ s q. q), ((λ w c. absurd (cc (b, c))), tt))
      | inr b ↦ subst (Matched (r ∷ []) seen) (sym (free_arg r seen v b)) (see-Matched r seen h)
    ]
  ]

  match_args-Matched :
      (reading : List Str) (seen : Dict Str Str)
      → Extends
      → Agrees seen
      → Matched reading seen (match_args variables k bound (map filled reading) reading seen)
  unfolding match_args
  match_args-Matched [] seen ext h = (seen, refl, h, (λ s q. q), tt)
  match_args-Matched (r ∷ reading) seen ext h =
      let (seen1, e1, h1, mono1, sees1) = match_arg-Matched r seen ext h in
      let (seen2, e2, h2, mono2, sees2) = match_args-Matched reading seen1 ext h1 in
      (
        seen2,
        rw (match_args, e1) e2,
        h2,
        (λ s q. mono2 s (mono1 s q)),
        ((λ v b. mono2 r (sees1.0 v b)), sees2),
      )

  abbrev found_by : Str → List Str → List Fact → List (Dict Str Str)
  found_by pred reading facts = matches_of variables k bound pred reading facts

  matches_taken :
      (pred : Str) (reading : List Str) (g : Fact) (facts : List Fact) {seen : Dict Str Str}
      → match_fact variables k bound pred reading g ≡ some seen
      → found_by pred reading (g ∷ facts) ≡ seen ∷ found_by pred reading facts
  unfolding matches_of
  matches_taken pred reading g facts m = rw (matches_of, m) refl

  matches_passed :
      (pred : Str) (reading : List Str) (g : Fact) (facts : List Fact)
      → match_fact variables k bound pred reading g ≡ none
      → found_by pred reading (g ∷ facts) ≡ found_by pred reading facts
  unfolding matches_of
  matches_passed pred reading g facts m = rw (matches_of, m) refl

  -- A fact that the reading fits is among the matches.
  some_match :
      (pred : Str) (reading : List Str) (facts : List Fact) (f : Fact) {seen : Dict Str Str}
      → contains facts f ≡ true
      → match_fact variables k bound pred reading f ≡ some seen
      → found_by pred reading facts ≢ []
  some_match pred reading [] f h m e = absurd (cc (h, contains-nil f))
  some_match pred reading (g ∷ facts) f h m e =
      elim (Option-cases (match_fact variables k bound pred reading g)) [
        | inr (s, n) ↦ cc (e, matches_taken pred reading g facts n)
        | inl n ↦ elim (contains_cases g f facts h) [
          | inl same ↦ cc (same, m, n)
          | inr later ↦
              some_match pred reading facts f later m
                (sym (matches_passed pred reading g facts n) ∙ e)
        ]
      ]

  only_match :
      (pred : Str) (reading : List Str) (facts : List Fact) (f : Fact) {seen one : Dict Str Str}
      → contains facts f ≡ true
      → match_fact variables k bound pred reading f ≡ some seen
      → found_by pred reading facts ≡ one ∷ []
      → one ≡ seen
  only_match pred reading [] f h m e = absurd (cc (h, contains-nil f))
  only_match pred reading (g ∷ facts) f h m e =
      elim (Option-cases (match_fact variables k bound pred reading g)) [
        | inl n ↦ elim (contains_cases g f facts h) [
          | inl same ↦ absurd (cc (same, m, n))
          | inr later ↦
              only_match pred reading facts f later m
                (sym (matches_passed pred reading g facts n) ∙ e)
        ]
        | inr (s, n) ↦ elim (contains_cases g f facts h) [
          | inl same ↦ cc (same, m, n, e, matches_taken pred reading g facts n)
          | inr later ↦ absurd (
              some_match pred reading facts f later m
                (cc (e, matches_taken pred reading g facts n)))
        ]
      ]

  nothing-Agrees : Agrees []
  nothing-Agrees r x q = absurd (nothing_seen r x q)

  -- What is seen of a variable is what it stands for, where all that is seen is.
  held_by :
      (seen : Dict Str Str) (r x : Str)
      → all (λ e. stands_for variables k e.0 e.1) seen ≡ true
      → lookup r seen ≡ some x
      → stands_for variables k r x ≡ true
  held_by [] r x h q = absurd (nothing_seen r x q)
  held_by ((s, y) ∷ seen) r x h q =
      let (here, later) = all_cons (λ e. stands_for variables k e.0 e.1) (s, y) seen h in
      elim (Bool-cases (s == r)) [
        | inl e ↦ cc (here, (eq_iff s r).0 e, q, lookup_here r s y seen e)
        | inr e ↦ held_by seen r x later (lookup_later r s y seen e ∙ q)
      ]

  holds_one :
      (ms : List (Dict Str Str))
      → only_one variables k bound ms ≡ true
      → (seen : Dict Str Str) × (ms ≡ seen ∷ [])
        × (all (λ e. stands_for variables k e.0 e.1) seen ≡ true)
  unfolding only_one
  holds_one [] h = absurd (cc h)
  holds_one (seen ∷ []) h = (seen, refl, h)
  holds_one (a ∷ b ∷ ms) h = absurd (cc h)

  fact_matched :
      (pred : Str) (reading : List Str) {o : Option (Dict Str Str)}
      → match_args variables k bound (map filled reading) reading [] ≡ o
      → match_fact variables k bound pred reading (pred ∷ map filled reading) ≡ o
  unfolding match_fact
  fact_matched pred reading h = rw (match_fact, eq_self pred) h

  determined :
      (seen : Dict Str Str) (r : Str)
      → (is_variable r ≡ true → contains bound r ≡ false → Sees seen r)
      → is_variable r ≡ true
      → Extends
      → all (λ e. stands_for variables k e.0 e.1) seen ≡ true
      → stands_for variables k r (value r) ≡ true
  determined seen r s v ext held = elim (Bool-cases (contains bound r)) [
    | inl b ↦ ext r b
    | inr b ↦ held_by seen r (value r) held (s v b)
  ]

  -- Where a pattern picks out a fact, a fact of the problem that it fits, with the bound variables as
  -- they are, gives every variable of the pattern the name that it has in the example.
  pub picks_out_unique :
      (pred : Str) (reading : List Str) (facts : List Fact)
      → picks_out variables k bound pred reading facts ≡ true
      → Extends
      → contains facts (pred ∷ map filled reading) ≡ true
      → All (λ r. is_variable r ≡ true → stands_for variables k r (value r) ≡ true) reading
  unfolding picks_out
  picks_out_unique pred reading facts h ext m =
      let (seen, e, agrees, mono, sees) = match_args-Matched reading [] ext nothing-Agrees in
      let (one, single, held) = holds_one (found_by pred reading facts) h in
      let same =
        only_match pred reading facts (pred ∷ map filled reading) m (fact_matched pred reading e)
          single in
      All-map
        (λ r s v.
          determined seen r s v ext
            (subst (λ d. all (λ e. stands_for variables k e.0 e.1) d ≡ true) same held))
        reading sees
