-- ===== src/Loops/Growing/Kept.antt =====
-- grow keeps the steps that it groups.
use htn_llm_rtl_gen.Loops.{Chain, Placed}
use htn_llm_rtl_gen.Loops.Growing.{
  element, Group, is_last, append_last, set_default, Run, grow_from, grow,
}
use htn_llm_rtl_gen.Shared.{
  ℕ, suc, ◌+◌, ◌≤◌, ◌≡◌, refl, sym, ap, ◌∙◌, inl, inr, true, List, [], ◌∷◌, ◌++◌, append_assoc,
  append-nil, arith, Dict, length, drop, length-append, nat_eq, list_eq, pair_eq, contains,
  Bool-cases, Option-cases, Str,
}

-- The steps of groups, in order.
abbrev pub spread : List Group → List Placed
spread [] = []
spread ((e, ss) ∷ gs) = ss ++ spread gs

spread-append : (gs hs : List Group) → spread (gs ++ hs) ≡ spread gs ++ spread hs
spread-append [] hs = refl
spread-append ((e, ss) ∷ gs) hs =
    rw (spread-append gs hs) (sym (append_assoc ss (spread gs) (spread hs)))

spread-append_last :
    (gs : List Group) (e : Str) (s : Placed)
    → is_last gs e ≡ true
    → spread (append_last gs s) ≡ spread gs ++ s ∷ []
unfolding is_last append_last
spread-append_last [] e s h = absurd cc
spread-append_last ((f, ss) ∷ []) e s h = rw (append-nil, append-nil) refl
spread-append_last ((f, ss) ∷ g ∷ gs) e s h =
    rw (spread-append_last (g ∷ gs) e s h) (sym (append_assoc ss (spread (g ∷ gs)) (s ∷ [])))

length-append_last : (gs : List Group) (s : Placed) → length (append_last gs s) ≡ length gs
unfolding append_last
length-append_last [] s = refl
length-append_last (g ∷ []) s = refl
length-append_last (g ∷ h ∷ gs) s = ap suc (length-append_last (h ∷ gs) s)

-- What a run that starts from groups `gs` and a count `k` comes to.
abbrev Keeps : List Group → ℕ → List Placed → Run → Type 0
Keeps gs k steps run =
    (m : ℕ) × (run.taken ≡ k + m)
    × (spread run.groups ++ drop m steps ≡ spread gs ++ steps)
    × (length run.groups ≤ length gs + m)

Keeps-stop :
    (gs : List Group) (k : ℕ) (steps : List Placed) (position : Dict Str ℕ)
    → Keeps gs k steps (record { taken = k; position = position; groups = gs })
Keeps-stop gs k steps position = (0, omega arith, refl, omega arith)

-- A step more is kept where the groups that it is put into are.
Keeps-more :
    (gs hs : List Group) (k : ℕ) (s : Placed) (steps : List Placed) (run : Run)
    → spread hs ≡ spread gs ++ s ∷ []
    → length hs ≤ suc (length gs)
    → Keeps hs (suc k) steps run
    → Keeps gs k (s ∷ steps) run
Keeps-more gs hs k s steps run e h (m, taken, kept, len) = (
  suc m,
  omega (arith, taken),
  kept ∙ ap (λ t. t ++ steps) e ∙ append_assoc (spread gs) (s ∷ []) steps,
  omega arith,
)

grow_from-Keeps :
    (chain : Chain) (position : Dict Str ℕ) (gs : List Group) (seen : List Str) (k : ℕ)
    (steps : List Placed)
    → Keeps gs k steps (grow_from chain position gs seen k steps)
unfolding grow_from
grow_from-Keeps chain position gs seen k [] = Keeps-stop gs k [] position
grow_from-Keeps chain position gs seen k (s ∷ steps) =
    elim (Option-cases (element s chain position)) [
      | inl e ↦ rw (grow_from, e) (Keeps-stop gs k (s ∷ steps) position)
      | inr ((p, el), e) ↦ elim (Bool-cases (is_last gs el)) [
        | inl l ↦
            rw (grow_from, e, l)
              (Keeps-more gs (append_last gs s) k s steps
                (grow_from chain (set_default s.name p position) (append_last gs s) seen (suc k)
                  steps)
                (spread-append_last gs el s l) (omega (arith, length-append_last gs s))
                (grow_from-Keeps chain (set_default s.name p position) (append_last gs s) seen
                  (suc k) steps))
        | inr l ↦ elim (Bool-cases (contains seen el)) [
          | inl c ↦ rw (grow_from, e, l, c) (Keeps-stop gs k (s ∷ steps) position)
          | inr c ↦
              rw (grow_from, e, l, c)
                (Keeps-more gs (gs ++ (el, s ∷ []) ∷ []) k s steps
                  (grow_from chain (set_default s.name p position) (gs ++ (el, s ∷ []) ∷ [])
                    (el ∷ seen) (suc k) steps)
                  (spread-append gs ((el, s ∷ []) ∷ []))
                  (omega (arith, length-append gs ((el, s ∷ []) ∷ [])))
                  (grow_from-Keeps chain (set_default s.name p position) (gs ++ (el, s ∷ []) ∷ [])
                    (el ∷ seen) (suc k) steps))
        ]
      ]
    ]

kept_from_start :
    (steps : List Placed) (run : Run)
    → Keeps [] 0 steps run
    → (spread run.groups ++ drop run.taken steps ≡ steps) × (length run.groups ≤ run.taken)
kept_from_start steps run (m, taken, kept, len) =
    (ap (λ n. spread run.groups ++ drop n steps) (omega (arith, taken)) ∙ kept, omega arith)

-- The groups of a run hold the steps that it takes, in their order, each a step at least.
pub grow_kept :
    (steps : List Placed) (chain : Chain)
    → (spread (grow steps chain).groups ++ drop (grow steps chain).taken steps ≡ steps)
      × (length (grow steps chain).groups ≤ (grow steps chain).taken)
unfolding grow
grow_kept steps chain =
    kept_from_start steps (grow_from chain [] [] [] 0 steps)
      (grow_from-Keeps chain [] [] [] 0 steps)
