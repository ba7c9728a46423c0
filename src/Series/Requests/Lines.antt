-- ===== src/Series/Requests/Lines.antt =====
-- Lists of lines within the text that they are joined into, and what stripping a text leaves in it.
use htn_llm_rtl_gen.Shared.{
  ◌≡◌, refl, sym, ap, ◌∙◌, inl, inr, false, List, [], ◌∷◌, ◌++◌, append_assoc, append-nil, is_empty,
  lstrip, rstrip, Bool-cases, Str, is_space, join,
}

-- `part` stands in `text` as it is.
abbrev pub Stands : Str → Str → Type 0
Stands part text = (before : Str) × (after : Str) × (text ≡ before ++ (part ++ after))

pub Stands-before : (part text s : Str) → Stands part text → Stands part (s ++ text)
Stands-before part text s (before, after, h) =
    (s ++ before, after, ap (λ t. s ++ t) h ∙ sym (append_assoc s before (part ++ after)))

pub Stands-after : (part text s : Str) → Stands part text → Stands part (text ++ s)
Stands-after part text s (before, after, h) = (
  before,
  after ++ s,
  ap (λ t. t ++ s) h
      ∙ append_assoc before (part ++ after) s
      ∙ ap (λ t. before ++ t) (append_assoc part after s),
)

join-append_right :
    (sep y : Str) (ys zs : List Str)
    → (after : Str) × (join sep (y ∷ (ys ++ zs)) ≡ join sep (y ∷ ys) ++ after)
unfolding join
join-append_right sep y [] [] = ([], sym (append-nil y))
join-append_right sep y [] (z ∷ zs) = (sep ++ join sep (z ∷ zs), refl)
join-append_right sep y (x ∷ ys) zs =
    let (after, h) = join-append_right sep x ys zs in
    (
      after,
      ap (λ t. y ++ (sep ++ t)) h
          ∙ sym (
              append_assoc y (sep ++ join sep (x ∷ ys)) after
              ∙ ap (λ t. y ++ t) (append_assoc sep (join sep (x ∷ ys)) after)),
    )

pub join-append_left :
    (sep : Str) (xs : List Str) (z : Str) (zs : List Str)
    → (before : Str) × (join sep (xs ++ z ∷ zs) ≡ before ++ join sep (z ∷ zs))
unfolding join
join-append_left sep [] z zs = ([], refl)
join-append_left sep (x ∷ []) z zs = (x ++ sep, sym (append_assoc x sep (join sep (z ∷ zs))))
join-append_left sep (x ∷ y ∷ xs) z zs =
    let (before, h) = join-append_left sep (y ∷ xs) z zs in
    (
      x ++ (sep ++ before),
      ap (λ t. x ++ (sep ++ t)) h
          ∙ sym (
              append_assoc x (sep ++ before) (join sep (z ∷ zs))
              ∙ ap (λ t. x ++ t) (append_assoc sep before (join sep (z ∷ zs)))),
    )

-- The text of some of the lines stands in the text of them all.
pub join-Stands :
    (sep : Str) (xs ys zs : List Str) → Stands (join sep ys) (join sep (xs ++ (ys ++ zs)))
unfolding join
join-Stands sep xs [] zs = ([], join sep (xs ++ zs), refl)
join-Stands sep xs (y ∷ ys) zs =
    let (before, h) = join-append_left sep xs y (ys ++ zs) in
    let (after, k) = join-append_right sep y ys zs in (before, after, h ∙ ap (λ t. before ++ t) k)

-- Stripping takes nothing from where a character that is no space stands.
pub lstrip-append :
    (a : Str) (c : _) (r : Str)
    → is_space c ≡ false
    → (b : Str) × (lstrip (a ++ c ∷ r) ≡ b ++ c ∷ r)
unfolding lstrip
lstrip-append [] c r h = ([], rw (lstrip, h) refl)
lstrip-append (d ∷ a) c r h = elim (Bool-cases (is_space d)) [
  | inl e ↦ let (b, k) = lstrip-append a c r h in (b, rw (lstrip, e) k)
  | inr e ↦ (d ∷ a, rw (lstrip, e) refl)
]

not_empty : (a : Str) (c : _) (r : Str) → is_empty (a ++ c ∷ r) ≡ false
not_empty [] c r = refl
not_empty (d ∷ a) c r = refl

pub rstrip-last : (a : Str) (c : _) → is_space c ≡ false → rstrip (a ++ c ∷ []) ≡ a ++ c ∷ []
unfolding rstrip
rstrip-last [] c h = rw (rstrip, h) refl
rstrip-last (d ∷ a) c h = elim (Bool-cases (is_space d)) [
  | inl e ↦ rw (rstrip, rstrip-last a c h, e, not_empty a c []) refl
  | inr e ↦ rw (rstrip, rstrip-last a c h, e) refl
]

last_apart : (a l f : Str) (d : _) → (a ++ (l ++ f)) ++ d ∷ [] ≡ a ++ (l ++ (f ++ d ∷ []))
last_apart a l f d = append_assoc a (l ++ f) (d ∷ []) ∙ ap (λ t. a ++ t) (append_assoc l f (d ∷ []))

strip_ends :
    (t a m n : Str) (c d : _)
    → t ≡ a ++ c ∷ m
    → t ≡ n ++ d ∷ []
    → is_space c ≡ false
    → is_space d ≡ false
    → (b : Str) × (lstrip (rstrip t) ≡ b ++ c ∷ m)
strip_ends t a m n c d h k hc hd =
    let (b, l) = lstrip-append a c m hc in
    (b, ap lstrip (ap rstrip k ∙ rstrip-last n d hd ∙ sym k) ∙ ap lstrip h ∙ l)

-- Lines that start with no space and end with none lose to stripping what is before them alone.
pub strip-join :
    (sep z e : Str) (xs ws : List Str) (c d : _) (y f : Str)
    → z ≡ c ∷ y
    → e ≡ f ++ d ∷ []
    → is_space c ≡ false
    → is_space d ≡ false
    → (b : Str) × (lstrip (rstrip (join sep (xs ++ z ∷ (ws ++ e ∷ []))))
        ≡ b ++ join sep (z ∷ (ws ++ e ∷ [])))
unfolding join
strip-join sep z e xs ws c d y f hz he hc hd =
    let (a, h) = join-append_left sep xs z (ws ++ e ∷ []) in
    let (r, k) = join-append_right sep z [] (ws ++ e ∷ []) in
    let (l, m) = join-append_left sep (z ∷ ws) e [] in
    let first = k ∙ ap (λ t. t ++ r) hz in
    let final = h ∙ ap (λ t. a ++ t) (m ∙ ap (λ t. l ++ t) he) ∙ sym (last_apart a l f d) in
    let (b, n) =
      strip_ends (join sep (xs ++ z ∷ (ws ++ e ∷ []))) a (y ++ r) (a ++ (l ++ f)) c d
        (h ∙ ap (λ t. a ++ t) first) final hc hd in
    (b, n ∙ ap (λ t. b ++ t) (sym first))
