-- ===== src/Problem/Emitting/Lines.antt =====
-- The tokens of an emitted line.
use htn_llm_rtl_gen.Problem.Sexpr.{Token, word, tokens_from, tokens, strip_comments}
use htn_llm_rtl_gen.Shared.{
  ℕ, ◌≡◌, refl, sym, ap, ◌∙◌, ◌≢◌, false, List, [], ◌∷◌, ◌++◌, append_assoc, append-nil, All, ◌==◌,
  nat_eq, list_eq, pair_eq, Str, codes, is_space, join,
}

-- A character of a token.
pub record IsPlain (c : ℕ) : Type 0 where
  pub no_space : is_space c ≡ false
  pub no_open : (c == 40) ≡ false
  pub no_close : (c == 41) ≡ false
  pub no_comment : (c == 59) ≡ false

-- A token of a problem file.
abbrev pub IsAtom : Str → Type 0
IsAtom w = (w ≢ []) × All IsPlain w

-- A character that ends a token.
pub data Ends : ℕ → Type 0 where
  at_space : {c : ℕ} → c ≡ 32 → Ends c
  at_newline : {c : ℕ} → c ≡ 10 → Ends c
  at_close : {c : ℕ} → c ≡ 41 → Ends c

strip-plain :
    (w t : Str) → All IsPlain w → strip_comments false (w ++ t) ≡ w ++ strip_comments false t
unfolding strip_comments
strip-plain [] t h = refl
strip-plain (c ∷ w) t h = rw (h.0.no_comment) (ap (λ s. c ∷ s) (strip-plain w t h.1))

tokens_from-plain :
    (acc w t : Str) → All IsPlain w → tokens_from acc (w ++ t) ≡ tokens_from (acc ++ w) t
unfolding tokens_from
tokens_from-plain acc [] t h = rw append-nil
tokens_from-plain acc (c ∷ w) t h =
    rw (h.0.no_open, h.0.no_close, h.0.no_space)
      (tokens_from-plain (acc ++ c ∷ []) w t h.1
        ∙ ap (λ s. tokens_from s t) (append_assoc acc (c ∷ []) w))

tokens_from-end :
    (c : ℕ) (w : Str) (d : ℕ) (t : Str)
    → Ends d
    → tokens_from (c ∷ w) (strip_comments false (d ∷ t))
      ≡ word (c ∷ w) ∷ tokens_from [] (strip_comments false (d ∷ t))
tokens_from-end c w d t (at_space e) = rw e (unfold tokens_from strip_comments is_space in refl)
tokens_from-end c w d t (at_newline e) = rw e (unfold tokens_from strip_comments is_space in refl)
tokens_from-end c w d t (at_close e) = rw e (unfold tokens_from strip_comments is_space in refl)

-- A token is read up to what ends it.
pub tokens-word :
    (w : Str) (d : ℕ) (t : Str) → IsAtom w → Ends d → tokens (w ++ d ∷ t) ≡ word w ∷ tokens (d ∷ t)
unfolding tokens
tokens-word [] d t h e = absurd (h.0 refl)
tokens-word (c ∷ w) d t h e =
    rw
      (
        strip-plain (c ∷ w) (d ∷ t) h.1,
        tokens_from-plain [] (c ∷ w) (strip_comments false (d ∷ t)) h.1,
      )
      (tokens_from-end c w d t e)

-- The tokens of several words, before others.
abbrev pub words_then : List Str → List Token → List Token
words_then [] ts = ts
words_then (w ∷ ws) ts = word w ∷ words_then ws ts

-- Words that are joined by spaces are read one by one.
pub tokens-join :
    (w : Str) (ws : List Str) (d : ℕ) (t : Str)
    → All IsAtom (w ∷ ws)
    → Ends d
    → tokens (join (codes " ") (w ∷ ws) ++ d ∷ t) ≡ words_then (w ∷ ws) (tokens (d ∷ t))
unfolding join codes
tokens-join w [] d t h e = tokens-word w d t h.0 e
tokens-join w (v ∷ ws) d t h e = rw append_assoc (
    tokens-word w 32 (join (32 ∷ []) (v ∷ ws) ++ d ∷ t) h.0 (at_space refl)
    ∙ ap (λ ts. word w ∷ ts) (spaced (join (32 ∷ []) (v ∷ ws) ++ d ∷ t))
    ∙ ap (λ ts. word w ∷ ts) (tokens-join v ws d t h.1 e))
  where
    spaced : (t : Str) → tokens (32 ∷ t) ≡ tokens t
    spaced t = unfold tokens tokens_from strip_comments is_space in refl

-- Lines, each with its newline.
abbrev pub unlines : List Str → Str
unlines [] = []
unlines (l ∷ ls) = l ++ 10 ∷ unlines ls

pub join-unlines :
    (l : Str) (ls : List Str) → join (codes "\n") (l ∷ ls) ++ codes "\n" ≡ unlines (l ∷ ls)
unfolding join codes
join-unlines l [] = refl
join-unlines l (k ∷ ls) =
    append_assoc l (10 ∷ join (10 ∷ []) (k ∷ ls)) (10 ∷ [])
    ∙ ap (λ t. l ++ 10 ∷ t) (join-unlines k ls)

pub unlines-append : (ks ls : List Str) → unlines (ks ++ ls) ≡ unlines ks ++ unlines ls
unlines-append [] ls = refl
unlines-append (k ∷ ks) ls =
    ap (λ t. k ++ 10 ∷ t) (unlines-append ks ls)
    ∙ sym (append_assoc k (10 ∷ unlines ks) (unlines ls))
