-- ===== src/Shared/Words.antt =====
-- str.split and str.join undo one another.
use Prim.Native.Nat.{ℕ}
use mathlib.Core.Path.{◌≡◌, refl, ap, ◌∙◌}
use mathlib.Core.Logic.{◌≢◌}
use mathlib.Core.Bool.{true, false}
use mathlib.Core.List.{List, [], ◌∷◌, ◌++◌, append_assoc, append-nil}
use native.Mathlib.Omega.{arith}
use htn_llm_rtl_gen.Shared.Tests.{eq_iff, nat_eq, list_eq}
use htn_llm_rtl_gen.Shared.Lists.{All}
use htn_llm_rtl_gen.Shared.Text.{Str, codes, is_space, join, words_from, words, prepend, split_on}

-- A word for str.split(): not empty, and without a space.
abbrev pub IsWord : Str → Type 0
IsWord w = (w ≢ []) × All (λ c. is_space c ≡ false) w

abbrev IsUnspaced : Str → Type 0
IsUnspaced = All (λ d. is_space d ≡ false)

append-ne-nil : (acc : Str) (d : ℕ) (w : Str) → (acc ++ d ∷ []) ++ w ≢ []
append-ne-nil [] d w h = cc
append-ne-nil (a ∷ acc) d w h = cc

-- A word is read up to the space that follows it.
pub words_from-word :
    (acc w : Str) (c : ℕ) (rest : Str)
    → IsUnspaced w
    → acc ++ w ≢ []
    → is_space c ≡ true
    → words_from acc (w ++ c ∷ rest) ≡ (acc ++ w) ∷ words_from [] rest
unfolding words_from
words_from-word [] [] c rest h ne sp = absurd (ne refl)
words_from-word (a ∷ acc) [] c rest h ne sp = rw (sp, append-nil)
words_from-word acc (d ∷ w) c rest h ne sp = rw h.0 (
    words_from-word (acc ++ d ∷ []) w c rest h.1 (append-ne-nil acc d w) sp
    ∙ ap (λ t. t ∷ words_from [] rest) (append_assoc acc (d ∷ []) w))

-- A word at the end of the text is read to the end.
pub words_from-last :
    (acc w : Str) → IsUnspaced w → acc ++ w ≢ [] → words_from acc w ≡ (acc ++ w) ∷ []
unfolding words_from
words_from-last [] [] h ne = absurd (ne refl)
words_from-last (a ∷ acc) [] h ne = rw append-nil
words_from-last acc (d ∷ w) h ne = rw h.0 (
    words_from-last (acc ++ d ∷ []) w h.1 (append-ne-nil acc d w)
    ∙ ap (λ t. t ∷ []) (append_assoc acc (d ∷ []) w))

-- ' '.join(ws).split() is ws.
pub words-join : (ws : List Str) → All IsWord ws → words (join (codes " ") ws) ≡ ws
unfolding words join codes words_from
words-join [] h = refl
words-join (w ∷ []) h = words_from-last [] w h.0.1 h.0.0
words-join (w ∷ v ∷ ws) h =
    words_from-word [] w 32 (join (codes " ") (v ∷ ws)) h.0.1 h.0.0 refl
    ∙ ap (λ t. w ∷ t) (words-join (v ∷ ws) h.1)

-- A text without the separator.
abbrev pub IsFree : ℕ → Str → Type 0
IsFree sep = All (λ c. c ≢ sep)

split_on-last : (sep : ℕ) (w : Str) → IsFree sep w → split_on sep w ≡ w ∷ []
unfolding split_on prepend
split_on-last sep [] h = refl
split_on-last sep (c ∷ w) h = ground (arith, eq_iff c sep, split_on-last sep w h.1)

split_on-sep :
    (sep : ℕ) (w rest : Str) → IsFree sep w → split_on sep (w ++ sep ∷ rest) ≡ w ∷ split_on sep rest
unfolding split_on prepend
split_on-sep sep [] rest h = ground (arith, eq_iff sep sep)
split_on-sep sep (c ∷ w) rest h = ground (arith, eq_iff c sep, split_on-sep sep w rest h.1)

-- sep.join(ws).split(sep) is ws, unless there are none.
pub split_on-join :
    (sep : ℕ) (w : Str) (ws : List Str)
    → All (IsFree sep) (w ∷ ws)
    → split_on sep (join (sep ∷ []) (w ∷ ws)) ≡ w ∷ ws
unfolding join
split_on-join sep w [] h = split_on-last sep w h.0
split_on-join sep w (v ∷ ws) h =
    split_on-sep sep w (join (sep ∷ []) (v ∷ ws)) h.0 ∙ ap (λ t. w ∷ t) (split_on-join sep v ws h.1)
