-- ===== src/Learning/Progress.antt =====
-- Problem.unused_facts of eval/learn_steps.py: the facts that the plan of a list of steps has no use for.
use htn_llm_rtl_gen.Shared.{
  ◌≡◌, refl, sym, ap, ◌||◌, ◌∙◌, inl, inr, ◌⊎◌, ◌↔◌, Bool, true, false, not, ◌&&◌, List, [], ◌∷◌,
  ◌++◌, map, arith, Dict, filter, any, is_empty, get, >>=-eq-ok, ok_injective, nat_eq, list_eq,
  pair_eq, contains, contains-nil, contains_cases, contains_tail, contains_head, Bool-cases, Str,
  ok, Eq, eq_iff,
}
use mathlib.Core.Path.{subst}
use htn_llm_rtl_gen.Loops.{Fact}
use htn_llm_rtl_gen.Plan.Reading.{Step}
use htn_llm_rtl_gen.Learning.{
  ActionForm, binding, ground_fact, plain_facts, used_by, fact_kind, kinds_read, unused_facts,
}

-- some fact of a list comes to a value under a function
abbrev Comes : {B : Type 0} → (Fact → B) → List Fact → B → Type 0
Comes h parts b = (g : Fact) × (contains parts g ≡ true) × (h g ≡ b)

-- A step of a plan uses a fact: a plain fact of the precondition of its action is that fact, with the
-- arguments of the step for the parameters.
pub data UsesFact (actions : Dict Str ActionForm) (f : Fact) : List Step → Type 0 where
  uses_here :
      {name : Str} {args : List Str} {plan : List Step} (a : ActionForm)
      → get name actions ≡ ok a
      → Comes (ground_fact (binding a.params args)) (plain_facts a) f
      → UsesFact actions f ((name, args) ∷ plan)
  uses_later :
      {s : Step} {plan : List Step} → UsesFact actions f plan → UsesFact actions f (s ∷ plan)

-- Some action's precondition has a plain fact of a kind.
pub data Reads (kind : Str) : Dict Str ActionForm → Type 0 where
  reads_here :
      {name : Str} {a : ActionForm} {actions : Dict Str ActionForm}
      → Comes fact_kind (plain_facts a) kind
      → Reads kind ((name, a) ∷ actions)
  reads_later :
      {action : Str × ActionForm} {actions : Dict Str ActionForm}
      → Reads kind actions
      → Reads kind (action ∷ actions)

either : (b c : Bool) → ((b || c) ≡ true) ↔ ((b ≡ true) ⊎ (c ≡ true))
either true c = (λ _. inl refl, λ _. refl)
either false true = (λ _. inr refl, λ _. refl)
either false false = (λ h. inl h, λ s. elim s [ inl h ↦ h | inr h ↦ h ])

module _ {B : Type 0} ⦃eb : Eq B⦄ where
  contains-Comes :
      (h : Fact → B) (parts : List Fact) (b : B) → contains (map h parts) b ≡ true → Comes h parts b
  contains-Comes h [] b k = cc (k, contains-nil b)
  contains-Comes h (g ∷ parts) b k = elim (contains_cases (h g) b (map h parts) k) [
    | inl e ↦ (g, contains_head g parts, e)
    | inr later ↦
        let (j, there, e) = contains-Comes h parts b later in (j, contains_tail g j parts there, e)
  ]

  Comes-contains :
      (h : Fact → B) (parts : List Fact) {b : B} → Comes h parts b → contains (map h parts) b ≡ true
  Comes-contains h [] (g, k, e) = cc (k, contains-nil g)
  Comes-contains h (j ∷ parts) {b} (g, k, e) = elim (contains_cases j g parts k) [
    | inl same ↦
        subst (λ x. contains (h j ∷ map h parts) x ≡ true) (ap h same ∙ e)
          (contains_head (h j) (map h parts))
    | inr later ↦ contains_tail (h j) b (map h parts) (Comes-contains h parts (g, later, e))
  ]

  contains-append :
      (us xs : List B) (b : B) → contains (us ++ xs) b ≡ (contains us b || contains xs b)
  unfolding contains
  contains-append [] xs b = refl
  contains-append (u ∷ us) xs b = ground (arith, contains-append us xs b)

  append_iff :
      (us xs : List B) (b : B)
      → (contains (us ++ xs) b ≡ true) ↔ ((contains us b ≡ true) ⊎ (contains xs b ≡ true))
  append_iff us xs b =
      subst (λ t. (t ≡ true) ↔ ((contains us b ≡ true) ⊎ (contains xs b ≡ true)))
        (sym (contains-append us xs b)) (either (contains us b) (contains xs b))

UsesFact-cases :
    (actions : Dict Str ActionForm) (f : Fact) (name : Str) (args : List Str) (plan : List Step)
    (a : ActionForm)
    → get name actions ≡ ok a
    → UsesFact actions f ((name, args) ∷ plan)
    → Comes (ground_fact (binding a.params args)) (plain_facts a) f ⊎ UsesFact actions f plan
UsesFact-cases actions f name args plan a e (uses_here b e' c) = inl (
    subst (λ d. Comes (ground_fact (binding d.params args)) (plain_facts d) f)
      (ok_injective (sym e' ∙ e)) c)
UsesFact-cases actions f name args plan a e (uses_later u) = inr u

-- what a plan uses is what its steps use
used_by-UsesFact :
    (actions : Dict Str ActionForm) (plan : List Step) {used : List Fact} (f : Fact)
    → used_by actions plan ≡ ok used
    → (contains used f ≡ true) ↔ UsesFact actions f plan
unfolding used_by
used_by-UsesFact actions [] f e =
    (λ h. cc (rw (sym (ok_injective e)) at h, contains-nil f), λ u. elim u [ ])
used_by-UsesFact actions ((name, args) ∷ plan) {used} f e =
    let (a, ea, k) = >>=-eq-ok (get name actions) _ e in
    let (later, el, same) = >>=-eq-ok (used_by actions plan) _ k in
    let (to, from) = used_by-UsesFact actions plan f el in
    let value = ground_fact (binding a.params args) in
    let (split, join) = append_iff (map value (plain_facts a)) later f in
    subst (λ us. (contains us f ≡ true) ↔ UsesFact actions f ((name, args) ∷ plan))
      (ok_injective same)
      (
        λ h. elim (split h) [
          | inl now ↦ uses_here a ea (contains-Comes value (plain_facts a) f now)
          | inr after ↦ uses_later (to after)
        ],
        λ u. elim (UsesFact-cases actions f name args plan a ea u) [
          | inl now ↦ join (inl (Comes-contains value (plain_facts a) now))
          | inr after ↦ join (inr (from after))
        ],
      )

Reads-cases :
    (kind : Str) (name : Str) (a : ActionForm) (actions : Dict Str ActionForm)
    → Reads kind ((name, a) ∷ actions)
    → Comes fact_kind (plain_facts a) kind ⊎ Reads kind actions
Reads-cases kind name a actions (reads_here c) = inl c
Reads-cases kind name a actions (reads_later r) = inr r

kinds_read-Reads :
    (actions : Dict Str ActionForm) (kind : Str)
    → (contains (kinds_read (λ _. true) actions) kind ≡ true) ↔ Reads kind actions
unfolding kinds_read
kinds_read-Reads [] kind = (λ h. cc (h, contains-nil kind), λ r. elim r [ ])
kinds_read-Reads ((name, a) ∷ actions) kind =
    let (to, from) = kinds_read-Reads actions kind in
    let (split, join) =
      append_iff (map fact_kind (plain_facts a)) (kinds_read (λ _. true) actions) kind in
    (
      λ h. elim (split h) [
        | inl now ↦ reads_here (contains-Comes fact_kind (plain_facts a) kind now)
        | inr after ↦ reads_later (to after)
      ],
      λ r. elim (Reads-cases kind name a actions r) [
        | inl now ↦ join (inl (Comes-contains fact_kind (plain_facts a) now))
        | inr after ↦ join (inr (from after))
      ],
    )

pub filter_iff :
    (p : Fact → Bool) (xs : List Fact) (f : Fact)
    → (contains (filter p xs) f ≡ true) ↔ ((contains xs f ≡ true) × (p f ≡ true))
unfolding contains filter
filter_iff p [] f = (λ h. cc h, λ h. cc (h.0))
filter_iff p (x ∷ xs) f = ground (arith, eq_iff x f, filter_iff p xs f)

test_iff : (b c : Bool) → ((b && not c) ≡ true) ↔ ((b ≡ true) × ¬ (c ≡ true))
test_iff true true = (λ h. cc h, λ (_, n). absurd (n refl))
test_iff true false = (λ _. (refl, λ h. cc h), λ _. refl)
test_iff false c = (λ h. cc h, λ (h, _). h)

-- the facts that `unused_facts` chooses from, and its test
unused_inv :
    (actions : Dict Str ActionForm) (facts : List Fact) (plan : List Step) {u : List Fact}
    → unused_facts actions facts plan ≡ ok u
    → (used : List Fact) × (used_by actions plan ≡ ok used)
      × (u
          ≡ filter
              (λ f.
                contains (kinds_read (λ _. true) actions) (fact_kind f) && not (contains used f))
              facts)
unfolding unused_facts
unused_inv actions facts plan h =
    let (used, e, k) = >>=-eq-ok (used_by actions plan) _ h in
    elim (Bool-cases (any is_empty facts)) [
      | inl bad ↦ cc (rw (unused_facts, e, bad) at h)
      | inr fine ↦ (used, e, sym (ok_injective (rw (unused_facts, e, fine) at h)))
    ]

-- Where the unused facts are found, a fact is one of them exactly when it is a fact of the problem, the
-- precondition of some action has a plain fact of its kind, and no step of the plan uses it: it is
-- not what a plain fact of the precondition of the step's action comes to with the step's arguments.
pub unused_facts_exact :
    (actions : Dict Str ActionForm) (facts : List Fact) (plan : List Step) {unused : List Fact}
    → unused_facts actions facts plan ≡ ok unused
    → (f : Fact)
    → (contains unused f ≡ true)
      ↔ ((contains facts f ≡ true) × Reads (fact_kind f) actions × ¬ UsesFact actions f plan)
unused_facts_exact actions facts plan {unused} h f =
    let (used, e, same) = unused_inv actions facts plan h in
    let usable = contains (kinds_read (λ _. true) actions) (fact_kind f) in
    let test : Fact → Bool =
      λ g. contains (kinds_read (λ _. true) actions) (fact_kind g) && not (contains used g) in
    let (kept, keep) = filter_iff test facts f in
    let (passed, pass) = test_iff usable (contains used f) in
    let (uses, is_used) = used_by-UsesFact actions plan f e in
    let (reads, is_read) = kinds_read-Reads actions (fact_kind f) in
    subst
      (λ us.
        (contains us f ≡ true)
        ↔ ((contains facts f ≡ true) × Reads (fact_kind f) actions × ¬ UsesFact actions f plan))
      (sym same)
      (
        λ k.
            let (here, t) = kept k in
            let (wanted, free) = passed t in (here, reads wanted, λ u. free (is_used u)),
        λ (here, wanted, free). keep (here, pass (is_read wanted, λ k. free (uses k))),
      )
