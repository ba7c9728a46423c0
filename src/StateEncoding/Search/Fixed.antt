-- ===== src/StateEncoding/Search/Fixed.antt =====
-- The fixed texts of `emit` of rtl_designs/problem_compiler.py, where the regular expression of
-- states_of of rtl_designs/state_encoding.py matches nowhere.
use htn_llm_rtl_gen.StateEncoding.Search.{match_pair, find_all}
use htn_llm_rtl_gen.StateEncoding.Search.Found.{find_all-skip, find_all-miss}
use htn_llm_rtl_gen.StateEncoding.Search.Facts.{match_pair-none}
use htn_llm_rtl_gen.Problem.Emitting.Lines.{IsPlain}
use htn_llm_rtl_gen.Shared.{
  ℕ, ◌≡◌, refl, ap, ◌∙◌, inl, inr, Bool, true, false, not, ◌&&◌, none, [], ◌∷◌, ◌++◌, All, ◌==◌,
  nat_eq, if◌then◌else◌, list_eq, pair_eq, eq_of_beq, Bool-cases, Str, codes, is_space,
  strip_prefix,
}

-- a text differs from another before it ends, and before that one does
unfoldable clash : Str → Str → Bool
clash (k ∷ ks) (c ∷ cs) = let rest = clash ks cs in if k == c then rest else true
clash ks cs = false

-- the expression of a key matches nowhere in a text, whatever follows it
unfoldable pub dead : Str → Str → Bool
unfolding clash
dead key [] = true
dead key (c ∷ cs) =
    let rest = dead key cs in if c == 40 then clash (key ++ 32 ∷ []) cs && rest else rest

strip_prefix-clash : (ks cs t : Str) → clash ks cs ≡ true → strip_prefix ks (cs ++ t) ≡ none
unfolding clash strip_prefix
strip_prefix-clash [] cs t h = cc h
strip_prefix-clash (k ∷ ks) [] t h = cc h
strip_prefix-clash (k ∷ ks) (c ∷ cs) t h = elim (Bool-cases (k == c)) [
  | inl e ↦ rw (strip_prefix, e) (strip_prefix-clash ks cs t (rw (clash, e) at h))
  | inr e ↦ rw (strip_prefix, e) refl
]

both : (b c : Bool) → (b && c) ≡ true → (b ≡ true) × (c ≡ true)
both true true h = (refl, refl)
both true false h = cc h
both false c h = cc h

pub find_all-dead : (key l t : Str) → dead key l ≡ true → find_all key (l ++ t) ≡ find_all key t
unfolding dead
find_all-dead key [] t h = refl
find_all-dead key (c ∷ l) t h = elim (Bool-cases (c == 40)) [
  | inr e ↦ find_all-skip key (c ∷ []) (l ++ t) (e, tt) ∙ find_all-dead key l t (rw (dead, e) at h)
  | inl e ↦
      let (clashes, later) = both (clash (key ++ 32 ∷ []) l) (dead key l) (rw (dead, e) at h) in
      find_all-miss key c (l ++ t) (
        ap (λ x. match_pair key (x ∷ (l ++ t))) (eq_of_beq e)
        ∙ match_pair-none key (l ++ t) (strip_prefix-clash (key ++ 32 ∷ []) l t clashes))
      ∙ find_all-dead key l t later
]

-- the fixed texts of a problem, before its name, its objects, its module's name and its facts
abbrev pub before_name : Str
before_name = codes "(define (problem "

abbrev pub before_objects : Str
before_objects = codes ")\n  (:domain rtl_fsm)\n  (:objects\n"

abbrev pub before_module : Str
before_module = codes "  )\n  (:htn\n    :parameters ()\n    :subtasks (and (implement_module "

abbrev pub before_facts : Str
before_facts = codes "))\n  )\n  (:init\n"

unfoldable pub is_plain : ℕ → Bool
unfolding is_space
is_plain c = not (is_space c) && not (c == 40) && not (c == 41) && not (c == 59)

unfoldable pub plain_word : Str → Bool
unfolding is_plain
plain_word [] = true
plain_word (c ∷ w) = is_plain c && plain_word w

none_of :
    (a b c d : Bool)
    → (not a && not b && not c && not d) ≡ true
    → (a ≡ false) × (b ≡ false) × (c ≡ false) × (d ≡ false)
none_of false false false false h = (refl, refl, refl, refl)
none_of true b c d h = cc h
none_of false true c d h = cc h
none_of false false true d h = cc h
none_of false false false true h = cc h

is_plain-IsPlain : (c : ℕ) → is_plain c ≡ true → IsPlain c
unfolding is_plain
is_plain-IsPlain c h =
    let (s, o, l, m) = none_of (is_space c) (c == 40) (c == 41) (c == 59) h in
    record { no_space = s; no_open = o; no_close = l; no_comment = m }

pub plain_word-IsPlain : (w : Str) → plain_word w ≡ true → All IsPlain w
unfolding plain_word
plain_word-IsPlain [] h = tt
plain_word-IsPlain (c ∷ w) h =
    let (now, later) = both (is_plain c) (plain_word w) h in
    (is_plain-IsPlain c now, plain_word-IsPlain w later)

-- A name of facts that does not stand in the fixed texts.
pub record IsKey (key : Str) : Type 0 where
  pub plain : plain_word key ≡ true
  pub name : dead key before_name ≡ true
  pub objects : dead key before_objects ≡ true
  pub module_name : dead key before_module ≡ true
  pub facts : dead key before_facts ≡ true

pub first_listed-IsKey : IsKey (codes "first_listed")
unfolding codes dead clash plain_word is_plain is_space
first_listed-IsKey = record {
  plain = refl;
  name = refl;
  objects = refl;
  module_name = refl;
  facts = refl;
}

pub listed_after-IsKey : IsKey (codes "listed_after")
unfolding codes dead clash plain_word is_plain is_space
listed_after-IsKey = record {
  plain = refl;
  name = refl;
  objects = refl;
  module_name = refl;
  facts = refl;
}

pub initial_state-IsKey : IsKey (codes "initial_state")
unfolding codes dead clash plain_word is_plain is_space
initial_state-IsKey = record {
  plain = refl;
  name = refl;
  objects = refl;
  module_name = refl;
  facts = refl;
}

pub next_prefix-IsKey : IsKey (codes "next_prefix")
unfolding codes dead clash plain_word is_plain is_space
next_prefix-IsKey = record {
  plain = refl;
  name = refl;
  objects = refl;
  module_name = refl;
  facts = refl;
}
