-- ===== src/Problem/Sexpr/Printed.antt =====
-- parse_tokens reads what is printed, and reads nothing else.
use htn_llm_rtl_gen.Problem.Sexpr.{
  Token, lpar, rpar, word, Sexpr, Sexprs, atom, list, nil, cons, read_one, read_items, parse_tokens,
}
use htn_llm_rtl_gen.Shared.{
  ℕ, zero, suc, ◌+◌, ◌*◌, ◌<◌, ◌≡◌, refl, sym, ap, ◌∙◌, ◌≢◌, ◌⊎◌, inl, inr, List, [], ◌∷◌, ◌++◌,
  append_assoc, arith, length, length-append, ◌>>=◌, Result, nat_eq, list_eq, pair_eq, unbalanced,
  ok, err,
}

-- The tokens of an s-expression.
unfoldable mutual
  pub print : Sexpr → List Token
  print (atom w) = word w ∷ []
  print (list items) = lpar ∷ print_items items

  -- the items of a list and its closing parenthesis
  pub print_items : Sexprs → List Token
  print_items nil = rpar ∷ []
  print_items (cons x xs) = print x ++ print_items xs

length-print_pos : (x : Sexpr) → 0 < length (print x)
unfolding print
length-print_pos (atom w) = omega arith
length-print_pos (list items) = omega arith

length-append_tokens : (xs ys : List Token) → length (xs ++ ys) ≡ length xs + length ys
length-append_tokens = length-append

length-print_items_pos : (xs : Sexprs) → 0 < length (print_items xs)
unfolding print
length-print_items_pos nil = omega arith
length-print_items_pos (cons x xs) =
    omega (arith, length-append_tokens (print x) (print_items xs), length-print_items_pos xs)

-- An item begins with a word or an opening parenthesis, so the loop reads it.
read_items-cons :
    (f : ℕ) (x : Sexpr) (xs : Sexprs) (ts rest rest' : List Token)
    → read_one f (print x ++ ts) ≡ ok (x, rest)
    → read_items f rest ≡ ok (xs, rest')
    → read_items (suc f) (print x ++ ts) ≡ ok (cons x xs, rest')
unfolding read_items print
read_items-cons f (atom w) xs ts rest rest' p q = rw (p, q)
read_items-cons f (list items) xs ts rest rest' p q = rw (p, q)

mutual
  unfolding read_one print

  read_one-print :
      (f : ℕ) (x : Sexpr) (rest : List Token)
      → 2 * length (print x) < f
      → read_one f (print x ++ rest) ≡ ok (x, rest)
  read_one-print zero x rest h = absurd (omega arith)
  read_one-print (suc f) (atom w) rest h = refl
  read_one-print (suc f) (list items) rest h = rw (read_items-print f items rest (omega arith))

  read_items-print :
      (f : ℕ) (xs : Sexprs) (rest : List Token)
      → 2 * length (print_items xs) < suc f
      → read_items f (print_items xs ++ rest) ≡ ok (xs, rest)
  read_items-print zero xs rest h = absurd (omega (arith, length-print_items_pos xs))
  read_items-print (suc f) nil rest h = refl
  read_items-print (suc f) (cons x xs) rest h =
      let whole = length-append_tokens (print x) (print_items xs) in
      rw append_assoc (
        read_items-cons f x xs (print_items xs ++ rest) (print_items xs ++ rest) rest
          (read_one-print f x (print_items xs ++ rest)
            (omega (arith, whole, length-print_items_pos xs)))
          (read_items-print f xs rest (omega (arith, whole, length-print_pos x))))

-- A printed expression is read back, whatever stands behind it.
pub parse_tokens-print : (x : Sexpr) (rest : List Token) → parse_tokens (print x ++ rest) ≡ ok x
unfolding parse_tokens
parse_tokens-print x rest = rw (
    read_one-print (2 * length (print x ++ rest) + 1) x rest
      (omega (arith, length-append_tokens (print x) rest)))

-- What the reader says of tokens: an expression that they begin with, or that they are unbalanced.
abbrev Reads : List Token → Result (Sexpr × List Token) → Type 0
Reads ts (ok (x, rest)) = ts ≡ print x ++ rest
Reads ts (err e) = e ≡ unbalanced

abbrev ReadsItems : List Token → Result (Sexprs × List Token) → Type 0
ReadsItems ts (ok (xs, rest)) = ts ≡ print_items xs ++ rest
ReadsItems ts (err e) = e ≡ unbalanced

Reads-list :
    (ts : List Token) (r : Result (Sexprs × List Token))
    → ReadsItems ts r
    → Reads (lpar ∷ ts) (r >>= λ p. ok (list p.0, p.1))
unfolding print
Reads-list ts (ok p) h = ap (λ t. lpar ∷ t) h
Reads-list ts (err e) h = h

Reads-item :
    (ts rest : List Token) (x : Sexpr) (r : Result (Sexprs × List Token))
    → ts ≡ print x ++ rest
    → ReadsItems rest r
    → ReadsItems ts (r >>= λ q. ok (cons x q.0, q.1))
unfolding print
Reads-item ts rest x (ok (xs, rest')) e h =
    e ∙ ap (λ t. print x ++ t) h ∙ sym (append_assoc (print x) (print_items xs) rest')
Reads-item ts rest x (err o) e h = h

Reads-cons :
    (ts : List Token) (r : Result (Sexpr × List Token))
    (next : List Token → Result (Sexprs × List Token))
    → Reads ts r
    → ((rest : List Token) → length rest < length ts → ReadsItems rest (next rest))
    → ReadsItems ts (r >>= λ p. next p.1 >>= λ q. ok (cons p.0 q.0, q.1))
Reads-cons ts (ok (x, rest)) next e k =
    Reads-item ts rest x (next rest) e
      (k rest (omega (arith, ap length e, length-append_tokens (print x) rest, length-print_pos x)))
Reads-cons ts (err o) next e k = e

mutual
  unfolding read_one print

  read_one_sound : (f : ℕ) (ts : List Token) → 2 * length ts < f → Reads ts (read_one f ts)
  read_one_sound zero ts h = absurd (omega arith)
  read_one_sound (suc f) [] h = refl
  read_one_sound (suc f) (lpar ∷ ts) h =
      Reads-list ts (read_items f ts) (read_items_sound f ts (omega arith))
  read_one_sound (suc f) (rpar ∷ ts) h = refl
  read_one_sound (suc f) (word w ∷ ts) h = refl

  read_items_sound :
      (f : ℕ) (ts : List Token) → suc (2 * length ts) < f → ReadsItems ts (read_items f ts)
  read_items_sound zero ts h = absurd (omega arith)
  read_items_sound (suc f) [] h = refl
  read_items_sound (suc f) (rpar ∷ ts) h = refl
  read_items_sound (suc f) (lpar ∷ ts) h =
      Reads-cons (lpar ∷ ts) (read_one f (lpar ∷ ts)) (read_items f)
        (read_one_sound f (lpar ∷ ts) (omega arith))
        (λ rest lt. read_items_sound f rest (omega arith))
  read_items_sound (suc f) (word w ∷ ts) h =
      Reads-cons (word w ∷ ts) (read_one f (word w ∷ ts)) (read_items f)
        (read_one_sound f (word w ∷ ts) (omega arith))
        (λ rest lt. read_items_sound f rest (omega arith))

-- parse_tokens never runs out of fuel: it gives the expression whose tokens stand first, and raises
-- `Unreadable` where none does.
pub parse_tokens_lem :
    (ts : List Token)
    → ((x : Sexpr) × (rest : List Token) × (parse_tokens ts ≡ ok x) × (ts ≡ print x ++ rest))
      ⊎ ((parse_tokens ts ≡ err unbalanced)
          × ((x : Sexpr) (rest : List Token) → ts ≢ print x ++ rest))
parse_tokens_lem ts =
    outcome (read_one (2 * length ts + 1) ts) refl
      (read_one_sound (2 * length ts + 1) ts (omega arith))
  where
    outcome :
        (r : Result (Sexpr × List Token))
        → read_one (2 * length ts + 1) ts ≡ r
        → Reads ts r
        → ((x : Sexpr) × (rest : List Token) × (parse_tokens ts ≡ ok x) × (ts ≡ print x ++ rest))
          ⊎ ((parse_tokens ts ≡ err unbalanced)
              × ((x : Sexpr) (rest : List Token) → ts ≢ print x ++ rest))
    outcome (ok (x, rest)) e h = inl (x, rest, unfold parse_tokens in rw e, h)
    outcome (err o) e h =
        let raised : parse_tokens ts ≡ err unbalanced = unfold parse_tokens in rw (e, h) in
        inr (raised, λ x rest p. cc (raised, ap parse_tokens p, parse_tokens-print x rest))
