-- ===== src/Recogniser/Machine/Run.antt =====
-- What the recogniser does with an input: a step for each bit.
use htn_llm_rtl_gen.Recogniser.Machine.{Bit, Bits, step_from}
use htn_llm_rtl_gen.Shared.{
  ◌≡◌, List, [], ◌∷◌, ◌++◌, arith, Dict, ◌>>=◌, >>=-eq-ok, Result, nat_eq, list_eq, pair_eq, ok,
}

module _ (prefixes : List Bits) (holding : List (Bits × Bit)) (fail : Dict Bits Bits) where
  unfoldable pub run : Bits → Bits → Result Bits
  run x [] = ok x
  run x (b ∷ w) = do y ← step_from prefixes holding fail x b; run y w

  pub run-append : (x y : Bits) (v w : Bits) → run x v ≡ ok y → run x (v ++ w) ≡ run y w
  unfolding run
  run-append x y [] w h = ground arith
  run-append x y (b ∷ v) w h =
      let (z, p, q) = >>=-eq-ok (step_from prefixes holding fail x b) _ h in
      rw p (run-append z y v w q)
