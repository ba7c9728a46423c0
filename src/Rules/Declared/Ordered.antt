-- ===== src/Rules/Declared/Ordered.antt =====
-- The order that declared_before_use of eval/learn_steps.py keeps.
use htn_llm_rtl_gen.Shared.{
  all-All, ◌≡◌, refl, sym, ap, ◌⊎◌, inl, inr, true, false, ◌||◌, some, List, [], ◌∷◌, ◌++◌,
  append_assoc, append-nil, Dict, lookup, insert, lookup-insert, all, All, ◌==◌, eq_iff, nat_eq,
  list_eq, pair_eq, eq_of_beq, contains, contains-nil, contains_cases, contains_single,
  contains_tail, contains_head, Bool-cases, Option-cases, some_injective, Str, codes,
}
use mathlib.Core.Path.{subst}
use htn_llm_rtl_gen.Rules.{keywords}
use htn_llm_rtl_gen.Rules.Declared.{
  Reading, silent, declaring, using, read_line, Scope, empty_scope, clashes, add_kinds, known,
  scope_line, scope_lines, declared_before_use,
}

-- what a line declares, and what it uses
abbrev pub given_by : Reading → List Str
given_by silent = []
given_by (declaring w ns used) = ns
given_by (using ns) = []

abbrev pub given_before : List Str → List Str
given_before [] = []
given_before (line ∷ lines) = given_by (read_line line) ++ given_before lines

-- A line whose names `earlier` gives: what it uses is among them, and what it declares is not, but
-- for a `reg`.
abbrev pub Fits : List Str → Reading → Type 0
Fits earlier silent = Unit
Fits earlier (using ns) = All (λ n. contains earlier n ≡ true) ns
Fits earlier (declaring w ns used) =
    All (λ n. (contains earlier n || contains keywords n) ≡ true) used
    × All (λ n. contains earlier n ≡ true → w ≡ codes "reg") ns

-- each line of a list fits what stands before it
abbrev pub Ordered : List Str → List Str → Type 0
Ordered earlier [] = Unit
Ordered earlier (line ∷ lines) =
    Fits earlier (read_line line) × Ordered (earlier ++ given_by (read_line line)) lines

-- the names that have a keyword are the ones declared
abbrev HasKinds : List Str → Dict Str Str → Type 0
HasKinds ns d = (n : Str) → contains ns n ≡ true → (k : Str) × (lookup n d ≡ some k)

contains-append :
    (xs ys : List Str) (n : Str)
    → contains (xs ++ ys) n ≡ true
    → (contains xs n ≡ true) ⊎ (contains ys n ≡ true)
contains-append [] ys n h = inr h
contains-append (x ∷ xs) ys n h = elim (contains_cases x n (xs ++ ys) h) [
  | inl e ↦ inl (subst (λ y. contains (x ∷ xs) y ≡ true) e (contains_head x xs))
  | inr later ↦ elim (contains-append xs ys n later) [
    | inl k ↦ inl (contains_tail x n xs k)
    | inr k ↦ inr k
  ]
]

insert-HasKinds :
    (ns : List Str) (n w : Str) (d : Dict Str Str) → HasKinds ns d → HasKinds ns (insert n w d)
insert-HasKinds ns n w d h m k = elim (Bool-cases (n == m)) [
  | inl e ↦ (w, rw (lookup-insert n m w d, e) refl)
  | inr e ↦ let (j, l) = h m k in (j, rw (lookup-insert n m w d, e) l)
]

clashes_unless_reg : (w k : Str) → clashes w (some k) ≡ false → w ≡ codes "reg"
unfolding clashes
clashes_unless_reg w k h = elim (Bool-cases (w == codes "reg")) [
  | inl e ↦ eq_of_beq e
  | inr e ↦ cc (rw (clashes, e) at h)
]

-- the first name of a declaration is let through, and the others after it
add_kinds_inv :
    (w n : Str) (ns : List Str) (d : Dict Str Str) {e : Dict Str Str}
    → add_kinds w (n ∷ ns) d ≡ some e
    → (clashes w (lookup n d) ≡ false) × (add_kinds w ns (insert n w d) ≡ some e)
unfolding add_kinds
add_kinds_inv w n ns d h = elim (Bool-cases (clashes w (lookup n d))) [
  | inl c ↦ cc (rw (add_kinds, c) at h)
  | inr c ↦ (c, rw (add_kinds, c) at h)
]

add_kinds-All :
    (w : Str) (earlier ns : List Str) (d : Dict Str Str) {e : Dict Str Str}
    → HasKinds earlier d
    → add_kinds w ns d ≡ some e
    → All (λ n. contains earlier n ≡ true → w ≡ codes "reg") ns
add_kinds-All w earlier [] d h k = tt
add_kinds-All w earlier (n ∷ ns) d h k =
    let (c, later) = add_kinds_inv w n ns d k in
    (
      λ m. let (j, l) = h n m in clashes_unless_reg w j (rw l at c),
      add_kinds-All w earlier ns (insert n w d) (insert-HasKinds earlier n w d h) later,
    )

head-HasKinds :
    (ns : List Str) (n w : Str) (d : Dict Str Str)
    → HasKinds ns d
    → HasKinds (ns ++ n ∷ []) (insert n w d)
head-HasKinds ns n w d h m i = elim (contains-append ns (n ∷ []) m i) [
  | inl old ↦ insert-HasKinds ns n w d h m old
  | inr new ↦ (w, rw (lookup-insert n m w d, (eq_iff n m).1 (contains_single n m new)) refl)
]

-- the names of a declaration have its keyword from then on
add_kinds-HasKinds :
    (w : Str) (earlier ns : List Str) (d : Dict Str Str) {e : Dict Str Str}
    → HasKinds earlier d
    → add_kinds w ns d ≡ some e
    → HasKinds (earlier ++ ns) e
unfolding add_kinds
add_kinds-HasKinds w earlier [] d {e} h k = λ n m. elim (contains-append earlier [] n m) [
  | inl old ↦ let (j, l) = h n old in (j, subst (λ x. lookup n x ≡ some j) (some_injective k) l)
  | inr new ↦ cc (new, contains-nil n)
]
add_kinds-HasKinds w earlier (n ∷ ns) d {e} h k =
    let (c, later) = add_kinds_inv w n ns d k in
    subst (λ xs. HasKinds xs e) (append_assoc earlier (n ∷ []) ns)
      (add_kinds-HasKinds w (earlier ++ n ∷ []) ns (insert n w d) (head-HasKinds earlier n w d h)
        later)

scope_line-Fits :
    (r : Reading) (s t : Scope)
    → HasKinds s.declared s.kinds
    → scope_line r s ≡ some t
    → Fits s.declared r × HasKinds t.declared t.kinds × (t.declared ≡ s.declared ++ given_by r)
unfolding scope_line known
scope_line-Fits silent s t h k =
    let same = some_injective k in
    (
      tt,
      subst (λ x. HasKinds x.declared x.kinds) same h,
      subst (λ x. x.declared ≡ s.declared ++ []) same (sym (append-nil s.declared)),
    )
scope_line-Fits (using ns) s t h k = elim (Bool-cases (all (contains s.declared) ns)) [
  | inr e ↦ cc (rw (scope_line, e) at k)
  | inl e ↦
      let same = some_injective (rw (scope_line, e) at k) in
      (
        all-All (contains s.declared) ns e,
        subst (λ x. HasKinds x.declared x.kinds) same h,
        subst (λ x. x.declared ≡ s.declared ++ []) same (sym (append-nil s.declared)),
      )
]
scope_line-Fits (declaring w ns used) s t h k = elim (Bool-cases (known s.declared used)) [
  | inr e ↦ cc (rw (scope_line, e) at k)
  | inl e ↦ elim (Option-cases (add_kinds w ns s.kinds)) [
    | inl bad ↦ cc (rw (scope_line, e, bad) at k)
    | inr (ks, good) ↦
        let same = some_injective (rw (scope_line, e, good) at k) in
        (
          (all-All _ used e, add_kinds-All w s.declared ns s.kinds h good),
          subst (λ x. HasKinds x.declared x.kinds) same
              (add_kinds-HasKinds w s.declared ns s.kinds h good),
          ap (λ x. x.declared) (sym same),
        )
  ]
]

scope_lines-Ordered :
    (lines : List Str) (s : Scope) {t : Scope}
    → HasKinds s.declared s.kinds
    → scope_lines lines s ≡ some t
    → Ordered s.declared lines
unfolding scope_lines
scope_lines-Ordered [] s h k = tt
scope_lines-Ordered (line ∷ lines) s h k = elim (Option-cases (scope_line (read_line line) s)) [
  | inl bad ↦ cc (rw (scope_lines, bad) at k)
  | inr (u, good) ↦
      let (f, hu, eq) = scope_line-Fits (read_line line) s u h good in
      (
        f,
        subst (λ xs. Ordered xs lines) eq
            (scope_lines-Ordered lines u hu (rw (scope_lines, good) at k)),
      )
]

-- Where declared_before_use accepts the lines of a module, each line uses only names that the lines
-- before it declare (a parameter's value may be a keyword too), and declares none of them again
-- but by a `reg` line.
pub declared_before_use-Ordered :
    (lines : List Str) → declared_before_use lines ≡ true → Ordered [] lines
unfolding declared_before_use
declared_before_use-Ordered lines h = elim (Option-cases (scope_lines lines empty_scope)) [
  | inl bad ↦ cc (rw (declared_before_use, bad) at h)
  | inr (t, good) ↦ scope_lines-Ordered lines empty_scope (λ n k. cc (k, contains-nil n)) good
]
