-- ===== src/Rules/Drivers/Owned.antt =====
-- The block that drives each register, for one_driver of eval/learn_steps.py.
use htn_llm_rtl_gen.Shared.{
  ℕ, ◌+◌, ◌≡◌, refl, sym, ap, ◌∙◌, inl, inr, Bool, true, false, not, ◌&&◌, none, some, List, [],
  ◌∷◌, arith, Dict, lookup, lookup-insert, All, All-map, lstrip, rstrip, starts_with, ◌==◌, nat_eq,
  if◌then◌else◌, list_eq, pair_eq, eq_self, eq_of_beq, contains, Bool-cases, Option-cases,
  some_injective, Str, codes,
}
use htn_llm_rtl_gen.Rules.{names_in}
use htn_llm_rtl_gen.Rules.Scanning.{drop_widths}
use mathlib.Core.Path.{subst}
use htn_llm_rtl_gen.Rules.Declared.{declaration}
use htn_llm_rtl_gen.Rules.Drivers.{
  signal_words, Drivers, no_drivers, declares_reg, add_signals, count_item, targets_of, skips,
  owned, drive, begins_block, drive_statement, drive_text, drive_lines, one_driver,
}

-- the number of the block that a statement stands in, after the blocks counted so far
abbrev pub block_at : ℕ → Str → ℕ
block_at n text = if begins_block text then n + 1 else n

abbrev pub block_after : ℕ → Str → ℕ
block_after n text = elim (declaration signal_words text) [ none ↦ block_at n text | some _ ↦ n ]

-- The owners give each target of a statement the block that the statement stands in.
abbrev pub Assigned : Dict Str ℕ → ℕ → Str → List Str → Type 0
Assigned owners n text ts = All (λ t. skips text t ≡ false → lookup t owners ≡ some n) ts

abbrev pub Drives : Dict Str ℕ → ℕ → Str → Type 0
Drives owners n text =
    declaration signal_words text ≡ none → Assigned owners (block_at n text) text (targets_of text)

abbrev pub Driven : Dict Str ℕ → ℕ → List Str → Type 0
Driven owners n [] = Unit
Driven owners n (line ∷ lines) =
    let text = lstrip (rstrip line) in
    Drives owners n text × Driven owners (block_after n text) lines

-- what has an owner keeps it
abbrev Keeps : Dict Str ℕ → Dict Str ℕ → Type 0
Keeps d e = (t : Str) (a : ℕ) → lookup t d ≡ some a → lookup t e ≡ some a

owned-Keeps : (t : Str) (b : ℕ) (d : Dict Str ℕ) → Keeps d (owned (lookup t d) t b d).1
owned-Keeps t b d s a h = elim (Option-cases (lookup t d)) [
  | inr (c, e) ↦ rw e h
  | inl e ↦ elim (Bool-cases (t == s)) [
    | inl same ↦ cc (subst (λ x. lookup x d ≡ some a) (sym (eq_of_beq same)) h, e)
    | inr other ↦ rw (e, lookup-insert t s b d, other) h
  ]
]

owned_now :
    (t : Str) (b : ℕ) (d : Dict Str ℕ)
    → ((owned (lookup t d) t b d).0 == b) ≡ true
    → lookup t (owned (lookup t d) t b d).1 ≡ some b
owned_now t b d h = elim (Option-cases (lookup t d)) [
  | inr (c, e) ↦ rw e (e ∙ ap some (eq_of_beq (rw e at h)))
  | inl e ↦ rw (e, lookup-insert t t b d, eq_self t) refl
]

-- the owners after a target
abbrev owners_after : Str → Drivers → Dict Str ℕ
owners_after t d = (owned (lookup t d.owner) t d.block d.owner).1

drive_inv :
    (text t : Str) (ts : List Str) (d : Drivers) {e : Drivers}
    → skips text t ≡ false
    → drive text (t ∷ ts) d ≡ some e
    → (((owned (lookup t d.owner) t d.block d.owner).0 == d.block) ≡ true)
      × (drive text ts (record d { owner = owners_after t d }) ≡ some e)
unfolding drive
drive_inv text t ts d s k =
    elim (Bool-cases (not (starts_with (codes "assign") text) && contains d.nets t)) [
      | inl bad ↦ cc (rw (drive, s, bad) at k)
      | inr fine ↦ elim (Bool-cases ((owned (lookup t d.owner) t d.block d.owner).0 == d.block)) [
        | inl own ↦ (own, rw (drive, s, fine, own) at k)
        | inr other ↦ cc (rw (drive, s, fine, other) at k)
      ]
    ]

drive-Assigned :
    (text : Str) (ts : List Str) (d : Drivers) {e : Drivers}
    → drive text ts d ≡ some e
    → Keeps d.owner e.owner × (e.block ≡ d.block) × Assigned e.owner d.block text ts
unfolding drive
drive-Assigned text [] d k =
    let same = some_injective k in
    (λ t a h. subst (λ x. lookup t x.owner ≡ some a) same h, ap (λ x. x.block) (sym same), tt)
drive-Assigned text (t ∷ ts) d k = elim (Bool-cases (skips text t)) [
  | inl s ↦
      let (kept, blk, rest) = drive-Assigned text ts d (rw (drive, s) at k) in
      (kept, blk, (λ n. cc (n, s), rest))
  | inr s ↦
      let (own, later) = drive_inv text t ts d s k in
      let (kept, blk, rest) =
        drive-Assigned text ts (record d { owner = owners_after t d }) later in
      (
        λ u a h. kept u a (owned-Keeps t d.block d.owner u a h),
        blk,
        (λ _. kept t d.block (owned_now t d.block d.owner own), rest),
      )
]

count_item-same :
    (text : Str) (d : Drivers) {e : Drivers}
    → count_item text d ≡ some e
    → (e.owner ≡ d.owner) × (e.block ≡ d.block)
unfolding count_item
count_item-same text d k = ground arith

-- the statement of a line: its targets go to its block
statement-Assigned :
    (text : Str) (d : Drivers) {e : Drivers}
    → drive_statement text d ≡ some e
    → Keeps d.owner e.owner
      × (e.block ≡ block_at d.block text)
      × Assigned e.owner (block_at d.block text) text (targets_of text)
unfolding drive_statement
statement-Assigned text d {e} k =
    let start = record d { block = block_at d.block text } in
    elim (Option-cases (count_item text start)) [
      | inl bad ↦ cc (rw (drive_statement, bad) at k)
      | inr (c, good) ↦
          let (own, blk) = count_item-same text start good in
          let (kept, same, all_of) =
            drive-Assigned text (targets_of text) c (rw (drive_statement, good) at k) in
          (
            subst (λ o. Keeps o e.owner) own kept,
            same ∙ blk,
            subst (λ n. Assigned e.owner n text (targets_of text)) blk all_of,
          )
    ]

declare-same :
    (r : Bool) (ns : List Str) (d : Drivers)
    → ((add_signals r ns d).owner ≡ d.owner) × ((add_signals r ns d).block ≡ d.block)
unfolding add_signals
declare-same true ns d = (refl, refl)
declare-same false ns d = (refl, refl)

text-Drives :
    (text : Str) (d : Drivers) {e : Drivers}
    → drive_text text d ≡ some e
    → Keeps d.owner e.owner × (e.block ≡ block_after d.block text) × Drives e.owner d.block text
unfolding drive_text
text-Drives text d {e} k = elim (Option-cases (declaration signal_words text)) [
  | inl plain ↦
      let (kept, blk, own) = statement-Assigned text d (rw (drive_text, plain) at k) in
      rw (block_after, plain) (kept, blk, (λ _. own))
  | inr ((w, rest), decl) ↦
      let same = some_injective (rw (drive_text, decl) at k) in
      let (own, blk) = declare-same (declares_reg w text) (names_in (drop_widths none rest)) d in
      rw (block_after, decl)
        (
          subst (λ x. Keeps d.owner x.owner) same (λ t a h. rw own h),
          subst (λ x. x.block ≡ d.block) same blk,
          λ bad. cc bad,
        )
]

lines-Driven :
    (lines : List Str) (d : Drivers) {e : Drivers}
    → drive_lines lines d ≡ some e
    → Keeps d.owner e.owner × Driven e.owner d.block lines
unfolding drive_lines
lines-Driven [] d k = (λ t a h. subst (λ x. lookup t x.owner ≡ some a) (some_injective k) h, tt)
lines-Driven (line ∷ lines) d {e} k =
    let text = lstrip (rstrip line) in
    elim (Option-cases (drive_text text d)) [
      | inl bad ↦ cc (rw (drive_lines, bad) at k)
      | inr (c, good) ↦
          let (kept, blk, own) = text-Drives text d good in
          let (later, rest) = lines-Driven lines c (rw (drive_lines, good) at k) in
          (
            λ t a h. later t a (kept t a h),
            (
              λ plain.
                  All-map (λ t h s. later t (block_at d.block text) (h s)) (targets_of text)
                    (own plain),
              subst (λ n. Driven e.owner n lines) blk rest,
            ),
          )
    ]

-- Where one_driver accepts the lines of a module, each register that they assign has one block, and
-- every assignment to it stands in that block, blocks being counted at `always` and `assign`.
pub one_driver-Driven :
    (lines : List Str) → one_driver lines ≡ true → (owners : Dict Str ℕ) × Driven owners 0 lines
unfolding one_driver
one_driver-Driven lines h = elim (Option-cases (drive_lines lines no_drivers)) [
  | inl bad ↦ cc (rw (one_driver, bad) at h)
  | inr (e, good) ↦ (e.owner, (lines-Driven lines no_drivers good).1)
]
