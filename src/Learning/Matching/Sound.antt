-- ===== src/Learning/Matching/Sound.antt =====
-- What Problem._extend of eval/learn_steps.py finds.
use htn_llm_rtl_gen.Shared.{
  ◌≡◌, refl, sym, ap, ◌∙◌, ◌⊎◌, inl, inr, true, false, none, some, List, [], ◌∷◌, lookup, insert,
  lookup-insert, length, is_empty, All, All-map, All-append, contains-own, ◌==◌, nat_eq, list_eq,
  pair_eq, eq_self, eq_of_beq, contains, Bool-cases, Option-cases, some_injective, Str,
}
use mathlib.Core.Path.{subst}
use htn_llm_rtl_gen.Loops.{Fact}
use htn_llm_rtl_gen.Learning.{fact_kind}
use htn_llm_rtl_gen.Learning.Matching.{
  Bind, args_of, is_placeholder, meet, meet_fact, meetings, extend_one, each_extended, extend,
}

-- what a binding gives, a larger one gives
abbrev pub Within : Bind → Bind → Type 0
Within b c = (x v : Str) → lookup x b ≡ some v → lookup x c ≡ some v

-- The arguments of an atom stand for the arguments of a fact: a parameter by the binding, and any other
-- name for itself.
abbrev pub Meets : Bind → List Str → List Str → Type 0
Meets b [] vs = Unit
Meets b (x ∷ xs) [] = Unit
Meets b (x ∷ xs) (v ∷ vs) =
    ((is_placeholder x ≡ true) × (lookup x b ≡ some v) ⊎ (x ≡ v)) × Meets b xs vs

-- An atom is a fact of the state under the binding, or of a kind that some step records.
abbrev pub Met : List Str → List Fact → Bind → Fact → Type 0
Met recorded state b a =
    ((fact : Fact) × (contains state fact ≡ true)
      × (fact_kind fact ≡ fact_kind a)
      × (length fact ≡ length a)
      × Meets b (args_of a) (args_of fact))
    ⊎ (contains recorded (fact_kind a) ≡ true)

Meets-Within : (b c : Bind) (xs vs : List Str) → Within b c → Meets b xs vs → Meets c xs vs
Meets-Within b c [] vs w h = tt
Meets-Within b c (x ∷ xs) [] w h = tt
Meets-Within b c (x ∷ xs) (v ∷ vs) w (inl (p, l), h) =
    (inl (p, w x v l), Meets-Within b c xs vs w h)
Meets-Within b c (x ∷ xs) (v ∷ vs) w (inr e, h) = (inr e, Meets-Within b c xs vs w h)

insert-Within : (x v : Str) (b : Bind) → lookup x b ≡ none → Within b (insert x v b)
insert-Within x v b e y w h = elim (Bool-cases (x == y)) [
  | inl same ↦ cc (subst (λ z. lookup z b ≡ some w) (sym (eq_of_beq same)) h, e)
  | inr other ↦ rw (lookup-insert x y v b, other) h
]

meet-Meets :
    (xs vs : List Str) (b : Bind) {c : Bind} → meet xs vs b ≡ some c → Within b c × Meets c xs vs
unfolding meet
meet-Meets [] vs b h = (λ x v k. subst (λ d. lookup x d ≡ some v) (some_injective h) k, tt)
meet-Meets (x ∷ xs) [] b h = (λ y v k. subst (λ d. lookup y d ≡ some v) (some_injective h) k, tt)
meet-Meets (x ∷ xs) (v ∷ vs) b {c} h = elim (Bool-cases (is_placeholder x)) [
  | inr other ↦ elim (Bool-cases (x == v)) [
    | inl same ↦
        let (w, m) = meet-Meets xs vs b (rw (meet, other, same) at h) in
        (w, (inr (eq_of_beq same), m))
    | inr bad ↦ cc (rw (meet, other, bad) at h)
  ]
  | inl p ↦ elim (Option-cases (lookup x b)) [
    | inl e ↦
        let (w, m) = meet-Meets xs vs (insert x v b) (rw (meet, p, e) at h) in
        (
          λ y u k. w y u (insert-Within x v b e y u k),
          (inl (p, w x v (rw (lookup-insert x x v b, eq_self x) refl)), m),
        )
    | inr (u, e) ↦ elim (Bool-cases (u == v)) [
      | inl same ↦
          let (w, m) = meet-Meets xs vs b (rw (meet, p, e, same) at h) in
          (w, (inl (p, w x v (e ∙ ap some (eq_of_beq same))), m))
      | inr bad ↦ cc (rw (meet, p, e, bad) at h)
    ]
  ]
]

meet_fact-Met :
    (recorded : List Str) (state : List Fact) (a fact : Fact) (b : Bind) {c : Bind}
    → contains state fact ≡ true
    → meet_fact a b fact ≡ some c
    → Within b c × Met recorded state c a
unfolding meet_fact
meet_fact-Met recorded state a fact b k h = elim (Bool-cases (fact_kind fact == fact_kind a)) [
  | inr bad ↦ cc (rw (meet_fact, bad) at h)
  | inl same ↦ elim (Bool-cases (length fact == length a)) [
    | inr bad ↦ cc (rw (meet_fact, same, bad) at h)
    | inl long ↦
        let (w, m) = meet-Meets (args_of a) (args_of fact) b (rw (meet_fact, same, long) at h) in
        (w, inl (fact, k, eq_of_beq same, eq_of_beq long, m))
  ]
]

-- The facts looked through are a part `ds` of the state.
meetings-Met :
    (recorded : List Str) (state ds : List Fact) (a : Fact) (b : Bind)
    → All (λ f. contains state f ≡ true) ds
    → All (λ c. Within b c × Met recorded state c a) (meetings a b ds)
unfolding meetings
meetings-Met recorded state [] a b k = tt
meetings-Met recorded state (d ∷ ds) a b (k, ks) = elim (Option-cases (meet_fact a b d)) [
  | inl e ↦ rw (meetings, e) (meetings-Met recorded state ds a b ks)
  | inr (c, e) ↦
      rw (meetings, e)
        (meet_fact-Met recorded state a d b k e, meetings-Met recorded state ds a b ks)
]

unrecorded :
    (recorded : List Str) (state : List Fact) (a : Fact) (b : Bind)
    → contains recorded (fact_kind a) ≡ false
    → extend_one recorded state a b ≡ meetings a b state
unfolding extend_one
unrecorded recorded state a b r = elim (Bool-cases (is_empty (meetings a b state))) [
  | inl e ↦ rw (extend_one, e, r) refl
  | inr e ↦ rw (extend_one, e) refl
]

extend_one-Met :
    (recorded : List Str) (state : List Fact) (a : Fact) (b : Bind)
    → All (λ c. Within b c × Met recorded state c a) (extend_one recorded state a b)
unfolding extend_one
extend_one-Met recorded state a b = elim (Bool-cases (is_empty (meetings a b state))) [
  | inr e ↦ rw (extend_one, e) (meetings-Met recorded state state a b (contains-own state))
  | inl e ↦ elim (Bool-cases (contains recorded (fact_kind a))) [
    | inl r ↦ rw (extend_one, e, r) ((λ x v h. h, inr refl), tt)
    | inr r ↦
        subst (All (λ c. Within b c × Met recorded state c a))
          (sym (unrecorded recorded state a b r))
          (meetings-Met recorded state state a b (contains-own state))
  ]
]

each_extended-All :
    (P Q : Bind → Type 0) (f : Bind → List Bind) (bs : List Bind)
    → ((b : Bind) → P b → All Q (f b))
    → All P bs
    → All Q (each_extended f bs)
unfolding each_extended
each_extended-All P Q f [] k h = tt
each_extended-All P Q f (b ∷ bs) k (h, hs) =
    All-append Q (f b) (each_extended f bs) (k b h) (each_extended-All P Q f bs k hs)

Met-Within :
    (recorded : List Str) (state : List Fact) (b c : Bind) (a : Fact)
    → Within b c
    → Met recorded state b a
    → Met recorded state c a
Met-Within recorded state b c a w (inl (f, k, e, l, m)) =
    inl (f, k, e, l, Meets-Within b c (args_of a) (args_of f) w m)
Met-Within recorded state b c a w (inr r) = inr r

-- Each binding that _extend finds keeps the binding it starts from, and under it each of the atoms is a
-- fact of the state or of a kind that some step records later.
pub extend-Met :
    (recorded : List Str) (state atoms : List Fact) (b : Bind)
    → All (λ c. Within b c × All (Met recorded state c) atoms) (extend recorded state atoms b)
unfolding extend
extend-Met recorded state [] b = ((λ x v h. h, tt), tt)
extend-Met recorded state (a ∷ atoms) b =
    each_extended-All (λ c. Within b c × Met recorded state c a)
      (λ c. Within b c × All (Met recorded state c) (a ∷ atoms)) (extend recorded state atoms)
      (extend_one recorded state a b)
      (λ c (w, m).
        All-map
          (λ d (w', ms). (λ x v h. w' x v (w x v h), (Met-Within recorded state c d a w' m, ms)))
          (extend recorded state atoms c) (extend-Met recorded state atoms c))
      (extend_one-Met recorded state a b)
