-- ===== src/Loops.antt =====
-- eval/lift_loops.py: the chains of a problem's objects, and the loops over them that the steps of a
-- checked list are folded into.
pub mod Ordering
pub mod Reordering
pub mod Growing
pub mod Folding
pub mod Telling
use htn_llm_rtl_gen.Shared.{ℕ, List, [], ◌∷◌, arith, Dict, nat_eq, list_eq, pair_eq, Str}

-- A fact of a problem: its predicate, then its arguments.
abbrev pub Fact : Type 0
Fact = List Str

-- namedtuple("Chain", "first next last order")
pub record Chain : Type 0 where
  pub first : Str
  pub next : Str
  pub last : Str
  pub order : List Str

-- (name, args, index)
pub record Placed : Type 0 where
  pub name : Str
  pub args : List Str
  pub index : ℕ

-- The items of a list, each ("step", step) or ("loop", Loop); a Loop has its chain, the arguments that
-- name the element, and its groups. Loop.name, which nothing reads, is left out.
mutual
  pub data Items : Type 0 where
    no_items : Items
    step_item : Placed → Items → Items
    loop_item : Chain → Dict Str ℕ → Groups → Items → Items

  pub data Groups : Type 0 where
    no_groups : Groups
    group : Str → Items → Groups → Groups
