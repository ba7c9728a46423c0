-- ===== src/Lift/Apart/Pairs.antt =====
-- The loop over the pairs of cases in tell_apart of eval/lift.py.
use htn_llm_rtl_gen.Lift.Apart.{LearnedCase, Kind, tell_pair, at_place, put_at, tell_pairs}
use htn_llm_rtl_gen.Lift.Apart.Marks.{Lacked, Comes, Comes-more, After, tell_pair-Comes}
use mathlib.Core.Path.{subst}
use htn_llm_rtl_gen.Shared.{
  contains-nil, some_injective, ℕ, zero, suc, ◌≡◌, ◌≢◌, refl, sym, ap, ◌∙◌, inl, inr, true, Option,
  some, List, [], ◌∷◌, get_elem?, All, contains_cases, >>=-eq-ok, ok_injective, ◌==◌, nat_eq,
  ne_of_beq, eq_of_beq, Bool-cases, list_eq, pair_eq, contains, ok,
}

at_place-eq-ok :
    {A : Type 0} (xs : List A) (i : ℕ) {x : A} → at_place xs i ≡ ok x → get_elem? xs i ≡ some x
unfolding at_place
at_place-eq-ok [] i h = cc h
at_place-eq-ok (y ∷ xs) zero h = ap (λ x. some x) (ok_injective h)
at_place-eq-ok (y ∷ xs) (suc i) h = at_place-eq-ok xs i h

put_at_same :
    {A : Type 0} (xs : List A) (i : ℕ) (y : A) {x : A}
    → get_elem? xs i ≡ some x
    → get_elem? (put_at i y xs) i ≡ some y
unfolding put_at
put_at_same [] i y h = cc h
put_at_same (x ∷ xs) zero y h = refl
put_at_same (x ∷ xs) (suc i) y h = put_at_same xs i y h

put_at_other :
    {A : Type 0} (xs : List A) (i j : ℕ) (y : A)
    → i ≢ j
    → get_elem? (put_at i y xs) j ≡ get_elem? xs j
unfolding put_at
put_at_other [] i j y h = refl
put_at_other (x ∷ xs) zero zero y h = absurd (h refl)
put_at_other (x ∷ xs) zero (suc j) y h = refl
put_at_other (x ∷ xs) (suc i) zero y h = refl
put_at_other (x ∷ xs) (suc i) (suc j) y h = put_at_other xs i j y (λ e. h (ap (λ n. suc n) e))

-- a step of the loop
record PairStep (cases : List LearnedCase) (i j : ℕ) (absents : List (List Kind))
    (rest : List (ℕ × ℕ)) (out : List (List Kind)) : Type 0 where
  a : LearnedCase
  b : LearnedCase
  absent : List Kind
  told : List Kind
  at_a : get_elem? cases i ≡ some a
  at_b : get_elem? cases j ≡ some b
  at_absent : get_elem? absents j ≡ some absent
  comes : Comes a b told
  after : After b absent told
  later : tell_pairs cases rest (put_at j told absents) ≡ ok out

pair_step :
    (cases : List LearnedCase) (i j : ℕ) (rest : List (ℕ × ℕ)) (absents : List (List Kind))
    {out : List (List Kind)}
    → tell_pairs cases ((i, j) ∷ rest) absents ≡ ok out
    → PairStep cases i j absents rest out
unfolding tell_pairs
pair_step cases i j rest absents h =
    let (a, at_a, h1) = >>=-eq-ok (at_place cases i) _ h in
    let (b, at_b, h2) = >>=-eq-ok (at_place cases j) _ h1 in
    let (absent, at_absent, h3) = >>=-eq-ok (at_place absents j) _ h2 in
    let (told, did, h4) = >>=-eq-ok (tell_pair a b absent) _ h3 in
    let (comes, after) = tell_pair-Comes a b absent did in
    record {
      a = a;
      b = b;
      absent = absent;
      told = told;
      at_a = at_place-eq-ok cases i at_a;
      at_b = at_place-eq-ok cases j at_b;
      at_absent = at_place-eq-ok absents j at_absent;
      comes = comes;
      after = after;
      later = h4;
    }

same_value : {A : Type 0} {o : Option A} {x y : A} → o ≡ some x → o ≡ some y → x ≡ y
same_value h k = some_injective (sym h ∙ k)

-- The place that a step changes.
told_at :
    (cases : List LearnedCase) (i j n : ℕ) (rest : List (ℕ × ℕ)) (absents : List (List Kind))
    {out : List (List Kind)} (s : PairStep cases i j absents rest out)
    → j ≡ n
    → get_elem? (put_at j s.told absents) n ≡ some s.told
told_at cases i j n rest absents s e =
    subst (λ m. get_elem? (put_at j s.told absents) m ≡ some s.told) e
      (put_at_same absents j s.told s.at_absent)

-- Later pairs keep what is absent.
tell_pairs_more :
    (cases : List LearnedCase) (pairs : List (ℕ × ℕ)) (absents : List (List Kind))
    {out : List (List Kind)} (n : ℕ) {x : List Kind}
    → tell_pairs cases pairs absents ≡ ok out
    → get_elem? absents n ≡ some x
    → (y : List Kind) × (get_elem? out n ≡ some y)
      × ((k : Kind) → contains x k ≡ true → contains y k ≡ true)
unfolding tell_pairs
tell_pairs_more cases [] absents n {x} h e =
    (x, ap (λ o. get_elem? o n) (sym (ok_injective h)) ∙ e, λ k held. held)
tell_pairs_more cases ((i, j) ∷ pairs) absents n {x} h e =
    let s = pair_step cases i j pairs absents h in
    elim (Bool-cases (j == n)) [
      | inl same ↦
          let (y, at_y, more) =
            tell_pairs_more cases pairs (put_at j s.told absents) n s.later
              (told_at cases i j n pairs absents s (eq_of_beq same)) in
          let old = same_value s.at_absent (ap (λ m. get_elem? absents m) (eq_of_beq same) ∙ e) in
          (
            y,
            at_y,
            λ k held. more k (s.after.more k (subst (λ z. contains z k ≡ true) (sym old) held)),
          )
      | inr other ↦
          tell_pairs_more cases pairs (put_at j s.told absents) n s.later
            (put_at_other absents j n s.told (ne_of_beq other) ∙ e)
    ]

-- What is absent from a case, no example of it has.
unfoldable pub Fits : List LearnedCase → List (List Kind) → Type 0
Fits cases absents =
    (n : ℕ) (b : LearnedCase) (x : List Kind)
    → get_elem? cases n ≡ some b
    → get_elem? absents n ≡ some x
    → All (Lacked b.examples) x

step-Fits :
    (cases : List LearnedCase) (i j : ℕ) (rest : List (ℕ × ℕ)) (absents : List (List Kind))
    {out : List (List Kind)} (s : PairStep cases i j absents rest out)
    → Fits cases absents
    → Fits cases (put_at j s.told absents)
unfolding Fits
step-Fits cases i j rest absents s fits n b x at_b at_x = elim (Bool-cases (j == n)) [
  | inl same ↦
      let at_case = ap (λ m. get_elem? cases m) (eq_of_beq same) ∙ at_b in
      subst (λ c. All (Lacked c.examples) x) (same_value s.at_b at_case)
        (subst (λ z. All (Lacked s.b.examples) z)
          (same_value (told_at cases i j n rest absents s (eq_of_beq same)) at_x)
          (s.after.lacked (fits j s.b s.absent s.at_b s.at_absent)))
  | inr other ↦ fits n b x at_b (sym (put_at_other absents j n s.told (ne_of_beq other)) ∙ at_x)
]

pub tell_pairs-Fits :
    (cases : List LearnedCase) (pairs : List (ℕ × ℕ)) (absents : List (List Kind))
    {out : List (List Kind)}
    → tell_pairs cases pairs absents ≡ ok out
    → Fits cases absents
    → Fits cases out
unfolding tell_pairs Fits
tell_pairs-Fits cases [] absents h fits = subst (Fits cases) (ok_injective h) fits
tell_pairs-Fits cases ((i, j) ∷ pairs) absents h fits =
    let s = pair_step cases i j pairs absents h in
    tell_pairs-Fits cases pairs (put_at j s.told absents) s.later
      (step-Fits cases i j pairs absents s fits)

-- Each pair comes to what it came to in its step.
pub tell_pairs-Comes :
    (cases : List LearnedCase) (pairs : List (ℕ × ℕ)) (absents : List (List Kind))
    {out : List (List Kind)} (i j : ℕ) (a b : LearnedCase) (y : List Kind)
    → contains pairs (i, j) ≡ true
    → tell_pairs cases pairs absents ≡ ok out
    → get_elem? cases i ≡ some a
    → get_elem? cases j ≡ some b
    → get_elem? out j ≡ some y
    → Comes a b y
tell_pairs-Comes cases [] absents i j a b y among h at_a at_b at_y =
    cc (among, contains-nil {A = ℕ × ℕ} (i, j))
tell_pairs-Comes cases ((m, n) ∷ pairs) absents i j a b y among h at_a at_b at_y =
    let s = pair_step cases m n pairs absents h in
    elim (contains_cases (m, n) (i, j) pairs among) [
      | inl e ↦
          let (y', at_y', more) =
            tell_pairs_more cases pairs (put_at n s.told absents) j s.later
              (told_at cases m n j pairs absents s (ap (λ p. p.1) e)) in
          let same_a = same_value s.at_a (ap (λ p. get_elem? cases p.0) e ∙ at_a) in
          let same_b = same_value s.at_b (ap (λ p. get_elem? cases p.1) e ∙ at_b) in
          subst (λ c. Comes c b y) same_a
            (subst (λ c. Comes s.a c y) same_b
              (subst (λ z. Comes s.a s.b z) (same_value at_y' at_y)
                (Comes-more s.a s.b s.told y' s.comes more)))
      | inr later ↦
          tell_pairs-Comes cases pairs (put_at n s.told absents) i j a b y later s.later at_a at_b
            at_y
    ]
