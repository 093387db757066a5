-- ===== src/Oracle/Coverage.antt =====
-- The blocks that the oracle's main loop goes through, over any number of rounds.
use near_aurora_bridge.Base.{
  ◌≤◌, ◌<◌, ◌≡◌, ◌⊎◌, inl, inr, List, [], ◌∷◌, arith, ltb, ltb→lt, ltb→le, tests, Bool-cases, ok,
  >>=-eq-ok,
}
use near_aurora_bridge.Types.{Uint256}
use near_aurora_bridge.Bytes.{Reader}
use near_aurora_bridge.Oracle.{Num256, check_for_events, Round, oracle_round, oracle_loop}

module _ (d : Reader) (n : Num256) where
  -- Block `b` lies in the range of a round whose `check_for_events` succeeded; the rounds start at
  -- `from`.
  pub data Checked (b : Uint256) : List Round → Uint256 → Type 0 where
    here :
        (r : Round) (rs : List Round) (from to : Uint256)
        → (check_for_events d n r.world from).0 ≡ ok to
        → from ≤ b
        → b ≤ to
        → Checked b (r ∷ rs) from
    there :
        (r : Round) (rs : List Round) (from next : Uint256)
        → oracle_round d n r from ≡ ok next
        → Checked b rs next
        → Checked b (r ∷ rs) from

  -- A round that ends leaves its block alone, or has gone through all blocks up to its new block.
  oracle_round_cases :
      (r : Round) (from next : Uint256)
      → oracle_round d n r from ≡ ok next
      → (next ≡ from) ⊎ ((check_for_events d n r.world from).0 ≡ ok next)
  unfolding oracle_round
  oracle_round_cases r from next e = ground arith

  -- No block is passed over: when rounds that do not panic have brought the loop from one block to
  -- another, each block behind the first, up to the last, was in the range of a call of
  -- `check_for_events` that succeeded in one of these rounds.
  pub oracle_loop_covers :
      (rs : List Round) (start last : Uint256)
      → oracle_loop d n rs start ≡ ok last
      → (b : Uint256) → start < b
      → b ≤ last
      → Checked b rs start
  unfolding oracle_loop
  oracle_loop_covers [] start last e b lo hi = absurd (ground arith)
  oracle_loop_covers (r ∷ rs) start last e b lo hi =
      let (next, e1, e2) = >>=-eq-ok (oracle_round d n r start) (oracle_loop d n rs) e in
      elim (Bool-cases (ltb next b)) [
        | inl ahead ↦
            there r rs start next e1 (oracle_loop_covers rs next last e2 b (ltb→lt _ _ ahead) hi)
        | inr passed ↦ elim (oracle_round_cases r start next e1) [
          | inl stayed ↦ absurd (omega (tests, passed))
          | inr checked ↦ here r rs start next checked (omega arith) (ltb→le _ _ passed)
        ]
      ]
