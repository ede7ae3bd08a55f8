-- ===== src/Interface/Loop.antt =====
-- The loop of `select_dr` ends: the candidates are collected before it, with the DR and BDR that the
-- router had then, so that a second round computes what the first did.
use rust_ospfd.Prelude.{ℕ, suc, false, List, ◌≡◌, arith, some, Bool-cases, inl, inr}
use rust_ospfd.Interface.State.{Interface}
use rust_ospfd.Interface.Elect.{SelectDr, elect_round, elect_loop}

-- A round does not depend on the DR and BDR of the interface that it is given.
elect_round-again :
    (can : List SelectDr) (i : Interface)
    → elect_round can (elect_round can i).0 ≡ ((elect_round can i).0, false)
unfolding elect_round
elect_round-again can i = ground arith

-- With fuel for two rounds or more the loop of `select_dr` ends, with what its first round gives.
pub elect_loop_total :
    (fuel : ℕ) (can : List SelectDr) (i : Interface)
    → elect_loop (suc (suc fuel)) can i ≡ some (elect_round can i).0
unfolding elect_loop
elect_loop_total fuel can i = elim (Bool-cases (elect_round can i).1) [
  | inl e ↦ rw (e, elect_round-again can i)
  | inr e ↦ rw e
]
