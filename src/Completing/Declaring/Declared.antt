-- ===== src/Completing/Declaring/Declared.antt =====
-- Every number and width that a fact uses is declared.
use htn_llm_rtl_gen.Completing.{Draft, with_note, declare}
use htn_llm_rtl_gen.Problem.Sexpr.{Sexpr, atom}
use mathlib.Core.Path.{subst}
use htn_llm_rtl_gen.Completing.Declaring.{
  arguments, first_number, insert_key, key_before, keyed, declare_missing,
}
use htn_llm_rtl_gen.Shared.{
  ok_injective, codes, ◌++◌, false, ◌↔◌, contains-append, ℕ, String, ◌≡◌, refl, sym, ap, ◌⊎◌, inl,
  inr, Bool, true, not, ◌&&◌, ◌||◌, List, [], ◌∷◌, map, arith, filter, is_empty, >>=-eq-ok, ◌==◌,
  eq_iff, nat_eq, if◌then◌else◌, list_eq, pair_eq, eq_of_beq, contains, contains-nil,
  contains_cases, contains_tail, contains_head, Bool-cases, Option-cases, Str, ok,
}

contains-filter :
    (p : Str → Bool) (xs : List Str) (x : Str)
    → contains xs x ≡ true
    → p x ≡ true
    → contains (filter p xs) x ≡ true
unfolding contains filter
contains-filter p [] x h k = cc
contains-filter p (y ∷ ys) x h k = elim (contains_cases y x ys h) [
  | inl e ↦ ground (arith, eq_iff y x)
  | inr later ↦ ground (arith, contains-filter p ys x later k)
]

abbrev texts : List (ℕ × Str) → List Str
texts ks = map (λ k. k.1) ks

texts-insert_key :
    (k : ℕ × Str) (ks : List (ℕ × Str)) (a : Str)
    → (k.1 ≡ a) ⊎ (contains (texts ks) a ≡ true)
    → contains (texts (insert_key k ks)) a ≡ true
unfolding insert_key
texts-insert_key k [] a (inl e) = rw (sym e) (contains_head k.1 [])
texts-insert_key k [] a (inr h) = cc (h, contains-nil a)
texts-insert_key k (j ∷ ks) a h = elim (Bool-cases (k == j)) [
  | inl e ↦ let pairs : k ≡ j = eq_of_beq e in rw e (old (ap (λ i. i.1) pairs) h)
  | inr e ↦ elim (Bool-cases (key_before k j)) [
    | inl lt ↦ rw (e, lt) (new h)
    | inr ge ↦
        rw (e, ge)
          (elim h [
            | inl here ↦
                contains_tail j.1 a (texts (insert_key k ks)) (texts-insert_key k ks a (inl here))
            | inr there ↦ elim (contains_cases j.1 a (texts ks) there) [
              | inl here ↦ rw (sym here) (contains_head j.1 (texts (insert_key k ks)))
              | inr past ↦
                  contains_tail j.1 a (texts (insert_key k ks)) (texts-insert_key k ks a (inr past))
            ]
          ])
  ]
]
  where
    old :
        k.1 ≡ j.1
        → (k.1 ≡ a) ⊎ (contains (texts (j ∷ ks)) a ≡ true)
        → contains (texts (j ∷ ks)) a ≡ true
    old same (inl here) = rw (sym here, same) (contains_head j.1 (texts ks))
    old same (inr there) = there

    new : (k.1 ≡ a) ⊎ (contains (texts (j ∷ ks)) a ≡ true) → contains (texts (k ∷ j ∷ ks)) a ≡ true
    new (inl here) = rw (sym here) (contains_head k.1 (texts (j ∷ ks)))
    new (inr there) = contains_tail k.1 a (texts (j ∷ ks)) there

contains-keyed :
    (xs : List Str) (ks : List (ℕ × Str)) (a : Str)
    → keyed xs ≡ ok ks
    → contains xs a ≡ true
    → contains (texts ks) a ≡ true
unfolding keyed
contains-keyed [] ks a h k = cc (k, contains-nil a)
contains-keyed (x ∷ xs) ks a h k = elim (Option-cases (first_number x)) [
  | inl e ↦ cc (rw (keyed, e) at h)
  | inr (n, e) ↦
      let (js, q, r) =
        >>=-eq-ok (keyed xs) (λ js. ok (insert_key (n, x) js)) (rw (keyed, e) at h) in
      let same : insert_key (n, x) js ≡ ks = cc in
      rw (sym same) (
        texts-insert_key (n, x) js a
          (elim (contains_cases x a xs k) [
            | inl here ↦ inl here
            | inr later ↦ inr (contains-keyed xs js a q later)
          ]))
]

filter-contains :
    (p : Str → Bool) (xs : List Str) (x : Str)
    → contains (filter p xs) x ≡ true
    → (contains xs x ≡ true) × (p x ≡ true)
unfolding contains filter
filter-contains p [] x h = cc
filter-contains p (y ∷ ys) x h = ground (arith, eq_iff y x, filter-contains p ys x)

insert_key-texts :
    (k : ℕ × Str) (ks : List (ℕ × Str)) (a : Str)
    → contains (texts (insert_key k ks)) a ≡ true
    → (k.1 ≡ a) ⊎ (contains (texts ks) a ≡ true)
unfolding insert_key
insert_key-texts k [] a h = contains_cases k.1 a [] h
insert_key-texts k (j ∷ ks) a h = elim (Bool-cases (k == j)) [
  | inl e ↦ inr (rw (insert_key, e) at h)
  | inr e ↦ elim (Bool-cases (key_before k j)) [
    | inl lt ↦ contains_cases k.1 a (texts (j ∷ ks)) (rw (insert_key, e, lt) at h)
    | inr ge ↦ elim (contains_cases j.1 a (texts (insert_key k ks)) (rw (insert_key, e, ge) at h)) [
      | inl here ↦
          inr (subst (λ x. contains (texts (j ∷ ks)) x ≡ true) here (contains_head j.1 (texts ks)))
      | inr later ↦ elim (insert_key-texts k ks a later) [
        | inl same ↦ inl same
        | inr there ↦ inr (contains_tail j.1 a (texts ks) there)
      ]
    ]
  ]
]

keyed-contains :
    (xs : List Str) (ks : List (ℕ × Str)) (a : Str)
    → keyed xs ≡ ok ks
    → contains (texts ks) a ≡ true
    → contains xs a ≡ true
unfolding keyed
keyed-contains [] ks a h k =
    cc (subst (λ js. contains (texts js) a ≡ true) (sym (ok_injective h)) k)
keyed-contains (x ∷ xs) ks a h k = elim (Option-cases (first_number x)) [
  | inl e ↦ cc (rw (keyed, e) at h)
  | inr (n, e) ↦
      let (js, q, r) =
        >>=-eq-ok (keyed xs) (λ js. ok (insert_key (n, x) js)) (rw (keyed, e) at h) in
      elim (insert_key-texts (n, x) js a
        (subst (λ is. contains (texts is) a ≡ true) (sym (ok_injective r)) k)) [
          | inl here ↦ subst (λ y. contains (x ∷ xs) y ≡ true) here (contains_head x xs)
          | inr later ↦ contains_tail x a xs (keyed-contains xs js a q later)
        ]
]

-- The objects with the names that are missing, of a type, and none where no name is.
pub data Adds (t : Sexpr) (old : List (List Str × Sexpr))
    : List Str → List (List Str × Sexpr) → Type 0 where
  adds_none : Adds t old [] old
  adds_group : {m : Str} {ms : List Str} → Adds t old (m ∷ ms) (old ++ (m ∷ ms, t) ∷ [])

after_missing :
    (ms : List Str) (note : Str) (t : Sexpr) (d e : Draft)
    → (if is_empty ms then d else with_note note (declare ms t d)) ≡ e
    → Adds t d.objects ms e.objects
      × (e.facts ≡ d.facts)
      × ((a : Str) → contains e.declared a ≡ (contains d.declared a || contains ms a))
after_missing [] note t d e same =
    subst
      (λ x.
        Adds t d.objects [] x.objects
        × (x.facts ≡ d.facts)
        × ((a : Str) → contains x.declared a ≡ (contains d.declared a || contains [] a)))
      same (adds_none, refl, λ a. ground (arith, contains-nil a))
after_missing (m ∷ ms) note t d e same =
    subst
      (λ x.
        Adds t d.objects (m ∷ ms) x.objects
        × (x.facts ≡ d.facts)
        × ((a : Str) → contains x.declared a ≡ (contains d.declared a || contains (m ∷ ms) a)))
      same (adds_group, refl, contains-append d.declared (m ∷ ms))

-- A round of the loop that declares names adds to the objects one group of the type given, with the
-- names that are missing, or nothing where none is; a name is missing where it is an argument of a
-- fact, is a name of the kind and has not been declared. The names declared after it are those
-- before it and the missing ones; the facts stay as they are.
pub declare_missing_lem :
    (matching : Str → Bool) (type : String) (d e : Draft)
    → declare_missing matching type d ≡ ok e
    → (missing : List Str) × ((a : Str)
        → (contains missing a ≡ true) ↔ (
            (contains (arguments d.facts) a ≡ true)
            × (matching a ≡ true)
            × (contains d.declared a ≡ false)))
      × Adds (atom (codes type)) d.objects missing e.objects
      × (e.facts ≡ d.facts)
      × ((a : Str) → contains e.declared a ≡ (contains d.declared a || contains missing a))
unfolding declare_missing
declare_missing_lem matching type d e h =
    let wanted : Str → Bool = λ a. matching a && not (contains d.declared a) in
    let xs = filter wanted (arguments d.facts) in
    let (ks, q, r) = >>=-eq-ok (keyed xs) _ h in
    let (added, kept, known) =
      after_missing (texts ks) _ (atom (codes type)) d e (ok_injective r) in
    (
      texts ks,
      λ a. (
        λ k.
            let (used, both) =
              filter-contains wanted (arguments d.facts) a (keyed-contains xs ks a q k) in
            let (named, new) = split_and (matching a) (contains d.declared a) both in
            (used, named, new),
        λ (used, named, new).
            contains-keyed xs ks a q
              (contains-filter wanted (arguments d.facts) a used (rw (named, new) refl)),
      ),
      added,
      kept,
      known,
    )
  where
    split_and : (b c : Bool) → (b && not c) ≡ true → (b ≡ true) × (c ≡ false)
    split_and true false h = (refl, refl)
    split_and true true h = cc h
    split_and false c h = cc h
