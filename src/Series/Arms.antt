-- ===== src/Series/Arms.antt =====
-- arm_name and parse_arm of eval/pseries.py.
use htn_llm_rtl_gen.Shared.{
  ◌≡◌, refl, true, not, ◌&&◌, Option, none, some, List, [], ◌∷◌, ◌++◌, arith, Dict, all, All,
  contains-All, Result, ◌==◌, eq_iff, nat_eq, if◌then◌else◌, list_eq, pair_eq, eq_self, contains,
  Str, codes, join, split_on, IsFree, split_on-join, not_an_arm, ok, err,
}

abbrev pub formats : List Str
formats = codes "s0" ∷ codes "s1" ∷ codes "s2" ∷ codes "nl" ∷ []

abbrev pub deliveries : List Str
deliveries = codes "single" ∷ codes "micro" ∷ []

abbrev pub trees : List Str
trees = codes "notree" ∷ codes "tree" ∷ []

abbrev pub descriptions : List Str
descriptions = codes "desc" ∷ codes "nodesc" ∷ []

-- f"p-{fmt}-{delivery}-{tree}-{desc}"
unfoldable pub arm_name : Str → Str → Str → Str → Str
arm_name fmt delivery tree desc =
    codes "p-" ++ (fmt ++ (codes "-" ++ (delivery ++ (codes "-" ++ (tree ++ (codes "-" ++ desc))))))

-- the levels of the factors, where each is one of its own
unfoldable pub arm_of : List Str → Option (Dict Str Str)
arm_of (p ∷ fmt ∷ delivery ∷ tree ∷ desc ∷ []) =
    if (p == codes "p")
      && contains formats fmt
      && contains deliveries delivery
      && contains trees tree
      && contains descriptions desc
    then some (
        (codes "format", fmt)
        ∷ (codes "delivery", delivery)
        ∷ (codes "tree", tree)
        ∷ (codes "description", desc)
        ∷ [])
    else none
arm_of _ = none

unfoldable pub parse_arm : Str → Result (Dict Str Str)
parse_arm name = elim (arm_of (split_on b'-' name)) [
  | none ↦ err (not_an_arm name)
  | some arm ↦ ok arm
]

no_dash :
    (levels : List Str) (w : Str)
    → All (IsFree b'-') levels
    → contains levels w ≡ true
    → IsFree b'-' w
no_dash levels w h k = contains-All (IsFree b'-') levels w h k

arm_name-join :
    (fmt delivery tree desc : Str)
    → arm_name fmt delivery tree desc
      ≡ join (b'-' ∷ []) (codes "p" ∷ fmt ∷ delivery ∷ tree ∷ desc ∷ [])
unfolding arm_name join codes
arm_name-join fmt delivery tree desc = refl

dash-IsFree : (w : Str) → all (λ c. not (c == b'-')) w ≡ true → IsFree b'-' w
unfolding all
dash-IsFree [] h = tt
dash-IsFree (c ∷ w) h = (ground (arith, eq_iff c b'-'), dash-IsFree w (ground arith))

formats-IsFree : All (IsFree b'-') formats
unfolding all codes
formats-IsFree = (
  dash-IsFree (codes "s0") refl,
  (
    dash-IsFree (codes "s1") refl,
    (dash-IsFree (codes "s2") refl, (dash-IsFree (codes "nl") refl, tt)),
  ),
)

deliveries-IsFree : All (IsFree b'-') deliveries
unfolding all codes
deliveries-IsFree = (dash-IsFree (codes "single") refl, (dash-IsFree (codes "micro") refl, tt))

trees-IsFree : All (IsFree b'-') trees
unfolding all codes
trees-IsFree = (dash-IsFree (codes "notree") refl, (dash-IsFree (codes "tree") refl, tt))

descriptions-IsFree : All (IsFree b'-') descriptions
unfolding all codes
descriptions-IsFree = (dash-IsFree (codes "desc") refl, (dash-IsFree (codes "nodesc") refl, tt))

p-IsFree : IsFree b'-' (codes "p")
unfolding all codes
p-IsFree = dash-IsFree (codes "p") refl

-- The name of an arm whose levels are those of the factors reads back as its levels.
pub parse_arm-arm_name :
    (fmt delivery tree desc : Str)
    → contains formats fmt ≡ true
    → contains deliveries delivery ≡ true
    → contains trees tree ≡ true
    → contains descriptions desc ≡ true
    → parse_arm (arm_name fmt delivery tree desc)
      ≡ ok (
          (codes "format", fmt)
          ∷ (codes "delivery", delivery)
          ∷ (codes "tree", tree)
          ∷ (codes "description", desc)
          ∷ [])
unfolding parse_arm arm_of
parse_arm-arm_name fmt delivery tree desc f d t s =
    rw
      (
        parse_arm,
        arm_name-join fmt delivery tree desc,
        split_on-join b'-' (codes "p") (fmt ∷ delivery ∷ tree ∷ desc ∷ []) (
          p-IsFree,
          (
            no_dash formats fmt formats-IsFree f,
            (
              no_dash deliveries delivery deliveries-IsFree d,
              (
                no_dash trees tree trees-IsFree t,
                (no_dash descriptions desc descriptions-IsFree s, tt),
              ),
            ),
          ),
        ),
        arm_of,
        eq_self (codes "p"),
        f,
        d,
        t,
        s,
      )
      refl
